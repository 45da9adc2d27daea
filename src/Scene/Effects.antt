-- ===== src/Scene/Effects.antt =====
-- What the steps of the handlers of app/comm_parser.c do to the scene, and what their tests see of it.
use uhmi_ivi_wm.Base.{
  ℕ, ◌≡◌, ◌≢◌, refl, sym, ap, ◌∙◌, String, List, [], ◌∷◌, true, false, Option, none, some, is_some,
  map, inl, inr, Bool-cases, Option-cases, str_eq, eq_iff, if◌then◌else◌, Among, arith, ==_iff,
  ◌==◌, subst,
}
use uhmi_ivi_wm.Exec.{
  Exec, Status, success, pure, ◌>>=◌, ◌>>◌, returned, exited, faulted, Outcome, gets,
}
use uhmi_ivi_wm.Exec.Keeps.{Holds, Anything}
use uhmi_ivi_wm.InsertOrder.{InsertOrder}
use uhmi_ivi_wm.ElementList.{HasId, id, pop_list_element, get_list_element}
use uhmi_ivi_wm.Tree.{
  ScreenElement, LayerElement, layer_has_id, screen_has_id, surface_has_id, get_layer, pop_layer,
}
use uhmi_ivi_wm.State.{State}
use uhmi_ivi_wm.Wrapper.{Unit₀}
use uhmi_ivi_wm.Wrapper.Keeps.{IsQuiet}
use uhmi_ivi_wm.Store.{remove_surface, remove_layer, surfaces_of}
use uhmi_ivi_wm.Json.{order_of}
use uhmi_ivi_wm.Invariant.Decide.{IsWellFormed-quiet}
use uhmi_ivi_wm.Scene.Placement.{take_seen, take_absent}
use uhmi_ivi_wm.Scene.Spec.{Names, Change, Becomes, HasScreen, HasLayer, If}
use uhmi_ivi_wm.Jansson.{Jansson}
use uhmi_ivi_wm.Invariant.{IsWellFormed}
use uhmi_ivi_wm.Scene.{Scene, view, screen_view, layer_view, take_layer, take_surface}
use uhmi_ivi_wm.Scene.Layers.{LayerPopDrops, pop_layer-LayerPopDrops, view-dropped}
use uhmi_ivi_wm.Scene.Sim.{Seen, Comes, Sim, IsUnseen, Comes-bind, Sim-gets}

pub Seen-quiet : (a : Scene) → IsQuiet (Seen a)
Seen-quiet a c s seen = (IsWellFormed-quiet c s seen.0, seen.1)

-- A layer is removed from the tree, with all surfaces it has.
pub view-remove_layer :
    (i : ℕ) (s : State) → IsWellFormed s → view (remove_layer i s) ≡ take_layer i (view s)
unfolding remove_layer
view-remove_layer i s w =
    let popped = pop_layer-LayerPopDrops i s.screens (w.layers_unique i) in
    elim (Option-cases (pop_layer s.screens i)) [
      | inl e ↦
          let p : LayerPopDrops i s.screens none = rw e at popped in
          rw (e, remove_layer) (ap (map screen_view) (sym p.0) ∙ view-dropped i s.screens)
      | inr ((l, ys), e) ↦
          let p : LayerPopDrops i s.screens (some (l, ys)) = rw e at popped in
          rw (e, remove_layer, p.0) (view-dropped i s.screens)
    ]

pub view-remove_surface :
    (i k : ℕ) (s : State) → IsWellFormed s → view (remove_surface i k s) ≡ take_surface i k (view s)
unfolding remove_surface
view-remove_surface i k s w =
    elim (Option-cases (pop_list_element (surfaces_of (get_layer s.screens i)) k)) [
      | inl e ↦ rw (e, remove_surface) (take_absent i k s w e)
      | inr ((elm, rest), e) ↦ rw (e, remove_surface) (take_seen i k s w elm rest e)
    ]

-- A change, then something that is not seen.
module _ {A : Type 0} where
  pub Sim-becomes :
      (f : Scene → Scene) (m : Exec State Unit₀) (n : Exec State A)
      → ((s : State) → IsWellFormed s → Holds (Seen (f (view s))) Anything (m s))
      → IsUnseen n
      → Sim (Becomes f) (m >> (n >> pure success))
  Sim-becomes f m n does unseen = record {
    at = λ s w. Comes-bind (Becomes f) (view s) (f (view s)) m _ s (does s w) (λ u t seen.
        Comes-bind (Becomes f) (view s) (f (view s)) n _ t ((unseen (f (view s))).at t seen)
          (λ x t' seen'. (seen'.0, (refl, seen'.1))));
  }

pub Sim-if :
    (There : Scene → Type 0) (R : Change) (m : Exec State Status) (s : State)
    → IsWellFormed s
    → There (view s)
    → Sim R m
    → Comes (If There R) (view s) (m s)
Sim-if There R m s w there sim = go (m s) (sim.at s w)
  where
    go : (o : Outcome State Status) → Comes R (view s) o → Comes (If There R) (view s) o
    go (returned st t) (w', r) = (w', inl (there, r))
    go (exited t) h = tt
    go (faulted t) h = tt

pub both :
    {A : Type 0} (x : Scene) (Q G : State → Type 0) (o : Outcome State A)
    → Holds IsWellFormed IsWellFormed o
    → Holds Q G o
    → ((t : State) → Q t → view t ≡ x)
    → Holds (Seen x) Anything o
both x Q G (returned y t) w q f = (w, f t q)
both x Q G (exited t) w q f = (w, f t q)
both x Q G (faulted t) w q f = tt

pub Sim-becomes_only :
    (f : Scene → Scene) (m : Exec State Unit₀)
    → ((s : State) → IsWellFormed s → Holds (Seen (f (view s))) Anything (m s))
    → Sim (Becomes f) (m >> pure success)
Sim-becomes_only f m does = record {
  at = λ s w.
      Comes-bind (Becomes f) (view s) (f (view s)) m _ s (does s w)
        (λ u t seen. (seen.0, (refl, seen.1)));
}

module _ {A : Type 0} ⦃h : HasId A⦄ where
  pub found-Among :
      (i : ℕ) (xs : List A) → is_some (get_list_element xs i) ≡ true → Among i (map id xs)
  unfolding get_list_element
  found-Among i [] e = cc
  found-Among i (x ∷ xs) e = elim (Bool-cases (id x == i)) [
    | inl here ↦ inl ((==_iff (id x) i).0 here)
    | inr other ↦ inr (found-Among i xs (rw other at e))
  ]

  pub Among-found :
      (i : ℕ) (xs : List A) → Among i (map id xs) → is_some (get_list_element xs i) ≡ true
  unfolding get_list_element
  Among-found i [] among = absurd among
  Among-found i (x ∷ xs) (inl e) = ground (arith, e)
  Among-found i (x ∷ xs) (inr later) = ground (arith, Among-found i xs later)

pub layer_ids : (ls : List LayerElement) → map (λ v. v.id) (map layer_view ls) ≡ map (λ l. l.id) ls
layer_ids [] = refl
layer_ids (l ∷ ls) = ap (◌∷◌ l.id) (layer_ids ls)

pub screen_ids :
    (xs : List ScreenElement) → map (λ v. v.id) (map screen_view xs) ≡ map (λ x. x.id) xs
screen_ids [] = refl
screen_ids (x ∷ xs) = ap (◌∷◌ x.id) (screen_ids xs)

pub found-HasLayer :
    (i : ℕ) (xs : List ScreenElement)
    → is_some (get_layer xs i) ≡ true
    → HasLayer i (map screen_view xs)
unfolding get_layer
found-HasLayer i [] e = cc
found-HasLayer i (x ∷ xs) e = elim (Option-cases (get_list_element x.layers i)) [
  | inl absent ↦ inr (found-HasLayer i xs (rw (absent, get_layer) at e))
  | inr (l, found) ↦
      inl (subst (Among i) (sym (layer_ids x.layers)) (found-Among i x.layers (rw found refl)))
]

pub HasLayer-found :
    (i : ℕ) (xs : List ScreenElement)
    → HasLayer i (map screen_view xs)
    → is_some (get_layer xs i) ≡ true
unfolding get_layer
HasLayer-found i [] has = absurd has
HasLayer-found i (x ∷ xs) has = elim (Option-cases (get_list_element x.layers i)) [
  | inl absent ↦
      rw (absent, get_layer)
        (elim has [
          | inl here ↦
              let there : is_some (get_list_element x.layers i) ≡ true =
                Among-found i x.layers (subst (Among i) (layer_ids x.layers) here) in
              cc (absent, there)
          | inr later ↦ HasLayer-found i xs later
        ])
  | inr (l, found) ↦ rw (found, get_layer) refl
]

pub Sim-layer_there :
    (i : ℕ) (R : Change) (m : Exec State Status)
    → Sim R m
    → Sim
        (If (HasLayer i) R)
        (gets (λ s. get_layer s.screens i) >>= λ l. if is_some l then m else pure success)
Sim-layer_there i R m sim = Sim-gets _ _ _ (λ s w.
    elim (Bool-cases (is_some (get_layer s.screens i))) [
      | inl e ↦ rw e (Sim-if (HasLayer i) R m s w (found-HasLayer i s.screens e) sim)
      | inr e ↦ rw e (w, inr ((λ has. cc (e, HasLayer-found i s.screens has)), (refl, refl)))
    ])

pub Sim-screen_there :
    (i : ℕ) (R : Change) (m : Exec State Status)
    → Sim R m
    → Sim
        (If (HasScreen i) R)
        (gets (λ s. get_list_element s.screens i) >>= λ x. if is_some x then m else pure success)
Sim-screen_there i R m sim = Sim-gets _ _ _ (λ s w.
    elim (Bool-cases (is_some (get_list_element s.screens i))) [
      | inl e ↦ rw e (
          Sim-if (HasScreen i) R m s w
            (subst (Among i) (sym (screen_ids s.screens)) (found-Among i s.screens e)) sim)
      | inr e ↦ rw e (
        w,
        inr (
          (λ has. cc (e, Among-found i s.screens (subst (Among i) (screen_ids s.screens) has))),
          (refl, refl),
        ),
      )
    ])

pub unlike : (x name : String) → str_eq x name ≡ false → name ≢ x
unlike x name e p = cc (e, (eq_iff x name).1 (sym p))

pub order_of-Names : {J : Type 0} (js : Jansson J) (o : Option String) → Names o (order_of js o)
unfolding order_of
order_of-Names js none = Names.no_text
order_of-Names js (some val) = elim (Bool-cases (str_eq "append" val)) [
  | inl e ↦
      rw (e, order_of)
        (subst (λ v. Names (some v) InsertOrder.append) ((eq_iff "append" val).0 e) Names.append)
  | inr n1 ↦ elim (Bool-cases (str_eq "prepend" val)) [
    | inl e ↦
        rw (n1, e, order_of)
          (subst (λ v. Names (some v) InsertOrder.prepend) ((eq_iff "prepend" val).0 e)
            Names.prepend)
    | inr n2 ↦ elim (Bool-cases (str_eq "before" val)) [
      | inl e ↦
          rw (n1, n2, e, order_of)
            (subst (λ v. Names (some v) InsertOrder.before) ((eq_iff "before" val).0 e)
              Names.before)
      | inr n3 ↦ elim (Bool-cases (str_eq "after" val)) [
        | inl e ↦
            rw (n1, n2, n3, e, order_of)
              (subst (λ v. Names (some v) InsertOrder.after) ((eq_iff "after" val).0 e) Names.after)
        | inr n4 ↦
            rw (n1, n2, n3, n4, order_of)
              (Names.other val (unlike _ _ n1) (unlike _ _ n2) (unlike _ _ n3) (unlike _ _ n4))
      ]
    ]
  ]
]
