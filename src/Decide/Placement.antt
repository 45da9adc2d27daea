-- ===== src/Decide/Placement.antt =====
-- Where `decide_add_or_update_layer` of app/comm_parser.c puts a layer.
use mathlib.Core.Option
use uhmi_ivi_wm.Base.{
  false, ℕ, ◌+◌, ◌≤◌, ◌≡◌, refl, List, [], ◌∷◌, Option, none, some, arith, ◌==◌, inl, inr,
  Bool-cases, Option-cases, some-eq-some, subst,
}
use uhmi_ivi_wm.Exec.{◌>>=◌}
use uhmi_ivi_wm.Exec.Keeps.{Keeps, Holds}
use uhmi_ivi_wm.InsertOrder.{InsertInfo}
use uhmi_ivi_wm.ElementList.{pop_list_element, get_list_element, insert_list_element}
use uhmi_ivi_wm.ElementList.Count.{count, PopCounts, pop-PopCounts, count-get_some}
use uhmi_ivi_wm.Tree.{
  LayerElement, ScreenElement, pop_layer, with_layers, update_element, screen_has_id, layer_has_id,
}
use uhmi_ivi_wm.Tree.Layers.{layer_count}
use uhmi_ivi_wm.Tree.Lookup.{get-update_same, pop_none-get}
use uhmi_ivi_wm.State.{State}
use uhmi_ivi_wm.Properties.{LayerProperties}
use uhmi_ivi_wm.Wrapper.{wrap_ilm_set_layer}
use uhmi_ivi_wm.Wrapper.Keeps.{IsQuiet, Keeps-wrap_ilm_set_layer}
use uhmi_ivi_wm.Json.{CmdType}
use uhmi_ivi_wm.Store.{rest_or, insert_layer, add_layer}
use uhmi_ivi_wm.Decide.{
  use_local, add_new_layer, update_popped_layer, decide_add_or_update_layer, parsed_layer,
}
use uhmi_ivi_wm.Invariant.{IsWellFormed}
use uhmi_ivi_wm.Env.{Env}

-- The layers of a screen but for the one with the id.
abbrev pub without : ℕ → List LayerElement → List LayerElement
without i layers = rest_or layers (pop_list_element layers i)

count-screen :
    (i screen_id : ℕ) (xs : List ScreenElement) (scr : ScreenElement)
    → get_list_element xs screen_id ≡ some scr
    → count i scr.layers ≤ layer_count i xs
unfolding get_list_element
count-screen i screen_id [] scr e = cc
count-screen i screen_id (x ∷ xs) scr e = elim (Bool-cases (x.id == screen_id)) [
  | inl eq ↦
      subst (λ z. count i z.layers ≤ count i x.layers + layer_count i xs)
        (some-eq-some (rw (eq, get_list_element) at e)) (omega arith)
  | inr ne ↦ omega (arith, count-screen i screen_id xs scr (rw (ne, get_list_element) at e))
]

pop_none-count : (i : ℕ) (ls : List LayerElement) → count i ls ≡ 0 → pop_list_element ls i ≡ none
pop_none-count i ls c = elim (Option-cases (get_list_element ls i)) [
  | inl e ↦ pop_none-get i ls e
  | inr (l, e) ↦ ground (arith, count-get_some i ls l e)
]

-- What a pop of the layer `i` from all screens does to the screen `scr`.
abbrev ScreenPop : ℕ → ℕ → ScreenElement → Option (LayerElement × List ScreenElement) → Type 0
ScreenPop i screen_id scr none = pop_list_element scr.layers i ≡ none
ScreenPop i screen_id scr (some (l, ys)) =
    (l.id ≡ i) × (get_list_element ys screen_id ≡ some (with_layers scr (without i scr.layers)))

ScreenPop-keep :
    (i screen_id : ℕ) (scr x : ScreenElement) (o : Option (LayerElement × List ScreenElement))
    → (x.id == screen_id) ≡ false
    → ScreenPop i screen_id scr o
    → ScreenPop i screen_id scr (Option.map (λ (l, ys). (l, x ∷ ys)) o)
unfolding get_list_element
ScreenPop-keep i screen_id scr x none ne h = h
ScreenPop-keep i screen_id scr x (some (l, ys)) ne h = (h.0, rw (ne, get_list_element) h.1)

ScreenPop-first :
    (i screen_id : ℕ) (x : ScreenElement) (o : Option (LayerElement × List ScreenElement))
    → x.id ≡ screen_id
    → pop_list_element x.layers i ≡ none
    → ((l : LayerElement) (ys : List ScreenElement) → o ≡ some (l, ys) → l.id ≡ i)
    → ScreenPop i screen_id x (Option.map (λ (l, ys). (l, x ∷ ys)) o)
unfolding get_list_element
ScreenPop-first i screen_id x none eq p h = p
ScreenPop-first i screen_id x (some (l, ys)) eq p h = (h l ys refl, rw p (ground arith))

popped_id :
    (i : ℕ) (xs : List ScreenElement) (l : LayerElement) (ys : List ScreenElement)
    → pop_layer xs i ≡ some (l, ys)
    → l.id ≡ i
unfolding pop_layer
popped_id i [] l ys e = cc
popped_id i (x ∷ xs) l ys e = elim (Option-cases (pop_list_element x.layers i)) [
  | inl p ↦ elim (Option-cases (pop_layer xs i)) [
    | inl q ↦ cc (rw (p, pop_layer, q) at e)
    | inr ((m, zs), q) ↦ cc (rw (p, pop_layer, q) at e, popped_id i xs m zs q)
  ]
  | inr ((m, ms), p) ↦
      let c : PopCounts i i x.layers (some (m, ms)) = rw p at (pop-PopCounts i i x.layers) in
      cc (rw (p, pop_layer) at e, c.1)
]

none_left :
    (i : ℕ) (x : ScreenElement) (m : LayerElement) (ms : List LayerElement) (k : ℕ)
    → pop_list_element x.layers i ≡ some (m, ms)
    → count i x.layers + k ≤ 1
    → k ≡ 0
none_left i x m ms k p u =
    let c : PopCounts i i x.layers (some (m, ms)) = rw p at (pop-PopCounts i i x.layers) in
    ground (arith, c.0, c.1)

pop_layer-ScreenPop :
    (i screen_id : ℕ) (xs : List ScreenElement) (scr : ScreenElement)
    → layer_count i xs ≤ 1
    → get_list_element xs screen_id ≡ some scr
    → ScreenPop i screen_id scr (pop_layer xs i)
unfolding pop_layer get_list_element
pop_layer-ScreenPop i screen_id [] scr u e = cc
pop_layer-ScreenPop i screen_id (x ∷ xs) scr u e =
    elim (Option-cases (pop_list_element x.layers i)) [
      | inl p ↦ elim (Bool-cases (x.id == screen_id)) [
        | inl eq ↦
            rw (p, pop_layer)
              (subst
                (λ z.
                  ScreenPop i screen_id z (Option.map (λ (l, ys). (l, x ∷ ys)) (pop_layer xs i)))
                (some-eq-some (rw (eq, get_list_element) at e))
                (ScreenPop-first i screen_id x (pop_layer xs i) (ground arith) p (popped_id i xs)))
        | inr ne ↦
            rw (p, pop_layer)
              (ScreenPop-keep i screen_id scr x (pop_layer xs i) ne (
                pop_layer-ScreenPop i screen_id xs scr (omega arith)
                  (rw (ne, get_list_element) at e)))
      ]
      | inr ((m, ms), p) ↦ elim (Bool-cases (x.id == screen_id)) [
        | inl eq ↦
            rw (p, pop_layer)
              (
                popped_id i (x ∷ xs) m (with_layers x ms ∷ xs) (rw (p, pop_layer) refl),
                rw eq (
                    subst (λ z. some (with_layers x ms) ≡ some (with_layers z (without i z.layers)))
                      (some-eq-some (rw (eq, get_list_element) at e)) (rw p refl)),
              )
        | inr ne ↦
            rw (p, pop_layer)
              (
                popped_id i (x ∷ xs) m (with_layers x ms ∷ xs) (rw (p, pop_layer) refl),
                rw
                    (
                      ne,
                      pop_none-count i scr.layers (
                          omega (
                            arith,
                            count-screen i screen_id xs scr (rw (ne, get_list_element) at e),
                            none_left i x m ms (layer_count i xs) p u,
                          )),
                    )
                    (rw (ne, get_list_element) at e),
              )
      ]
    ]

-- The layers of the screen are `layers` with the layer inserted as `info` says.
pub record IsPlaced (screen_id layer_id : ℕ) (info : InsertInfo) (layers : List LayerElement)
    (t : State) : Type 0 where
  pub screen : ScreenElement
  pub layer : LayerElement
  pub found : get_list_element t.screens screen_id ≡ some screen
  pub named : layer.id ≡ layer_id
  pub placed : screen.layers ≡ insert_list_element layers layer info

IsPlaced-quiet :
    (screen_id layer_id : ℕ) (info : InsertInfo) (layers : List LayerElement)
    → IsQuiet (IsPlaced screen_id layer_id info layers)
IsPlaced-quiet screen_id layer_id info layers c t p = record {
  screen = p.screen;
  layer = p.layer;
  found = p.found;
  named = p.named;
  placed = p.placed;
}

IsPlaced-insert :
    (screen_id layer_id : ℕ) (info : InsertInfo) (scr : ScreenElement) (l : LayerElement)
    (xs : List ScreenElement) (s : State)
    → get_list_element xs screen_id ≡ some scr
    → l.id ≡ layer_id
    → IsPlaced screen_id layer_id info scr.layers
        (record s { screens = update_element screen_id (insert_layer l info) xs })
IsPlaced-insert screen_id layer_id info scr l xs s e named = record {
  screen = insert_layer l info scr;
  layer = l;
  found = get-update_same screen_id (insert_layer l info) xs scr (λ y. refl) e;
  named = named;
  placed = refl;
}

module _ {J : Type 0} (env : Env J) where
  -- However it ends, from a state in which no id stands twice and for a screen that is in the
  -- tree, the screen's layers are then its other layers with this layer inserted as the order
  -- given says, whichever screen it stood on before. (With no order, `insert_list_element` leaves
  -- it out.)
  pub decide_add_or_update_layer-IsPlaced :
      (screen_id : ℕ) (j : Option J) (layer_id : ℕ) (type : CmdType) (info : InsertInfo) (s : State)
      (scr : ScreenElement)
      → IsWellFormed s
      → get_list_element s.screens screen_id ≡ some scr
      → Holds
          (IsPlaced screen_id layer_id info (without layer_id scr.layers))
          (IsPlaced screen_id layer_id info (without layer_id scr.layers))
          (decide_add_or_update_layer env screen_id j layer_id type info s)
  unfolding decide_add_or_update_layer add_new_layer update_popped_layer add_layer ◌>>=◌
  decide_add_or_update_layer-IsPlaced screen_id j layer_id type info s scr w e =
      let popped =
        pop_layer-ScreenPop layer_id screen_id s.screens scr (w.layers_unique layer_id) e in
      elim (Option-cases (pop_layer s.screens layer_id)) [
        | inl none_popped ↦
            rw (none_popped, decide_add_or_update_layer)
              ((set _ layer_id).at _ (
                rw (rw none_popped at popped)
                  (IsPlaced-insert screen_id layer_id info scr _ s.screens (use_local s) e refl)))
        | inr ((l, screens), some_popped) ↦
            rw (some_popped, decide_add_or_update_layer)
              (let c : ScreenPop layer_id screen_id scr (some (l, screens)) =
                  rw some_popped at popped in
                (set _ layer_id).at _ (
                  IsPlaced-insert screen_id layer_id info
                    (with_layers scr (without layer_id scr.layers))
                    (record l { prop = parsed_layer env l.prop j type }) screens s c.1 c.0))
      ]
    where
      P : State → Type 0
      P = IsPlaced screen_id layer_id info (without layer_id scr.layers)

      set : (prop : LayerProperties) (i : ℕ) → Keeps P P (wrap_ilm_set_layer env.ilm prop i)
      set prop i =
          Keeps-wrap_ilm_set_layer env.ilm
            (IsPlaced-quiet screen_id layer_id info (without layer_id scr.layers))
            (λ c t q fails p.
              IsPlaced-quiet screen_id layer_id info (without layer_id scr.layers) c t p)
            prop i
