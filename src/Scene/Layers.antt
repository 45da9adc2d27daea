-- ===== src/Scene/Layers.antt =====
-- What `pop_layer`, `update_layer` and the insert of a layer do to the whole tree, where no id stands
-- twice, and how that looks in the scene.
use mathlib.Core.Option
use uhmi_ivi_wm.Base.{
  ℕ, ◌≤◌, ◌≡◌, refl, ap, List, [], ◌∷◌, map, Option, none, some, ◌==◌, if◌then◌else◌, inl, inr,
  Bool-cases, Option-cases, arith,
}
use uhmi_ivi_wm.InsertOrder.{InsertInfo}
use uhmi_ivi_wm.ElementList.{pop_list_element, get_list_element}
use uhmi_ivi_wm.ElementList.Count.{count, count-get_some}
use uhmi_ivi_wm.Tree.{
  LayerElement, ScreenElement, layer_has_id, screen_has_id, surface_has_id, update_element,
  get_layer, with_layers, pop_layer,
}
use uhmi_ivi_wm.Tree.Layers.{layer_count}
use uhmi_ivi_wm.Tree.Lookup.{get_none-pop}
use uhmi_ivi_wm.Store.{insert_layer, surfaces_of}
use uhmi_ivi_wm.Scene.{
  layer_view, screen_view, layer_view_has_id, removing, surfaces_on, surfaces_if_any, take_layer,
  layer_onto, place_layer,
}
use uhmi_ivi_wm.Scene.Queue.{
  removing_absent, PopRemoves, pop-PopRemoves, update_element-map, map-removing, map-get,
  map-insert,
}

-- The screen without the layer.
abbrev pub dropped : ℕ → ScreenElement → ScreenElement
dropped i s = with_layers s (removing i s.layers)

pub dropped_uncounted :
    (i : ℕ) (xs : List ScreenElement) → layer_count i xs ≡ 0 → map (dropped i) xs ≡ xs
dropped_uncounted i [] c = refl
dropped_uncounted i (x ∷ xs) c =
    rw (removing_absent i x.layers (omega (arith, c)))
      (ap (◌∷◌ x) (dropped_uncounted i xs (omega (arith, c))))

-- What a pop of a layer finds and leaves.
abbrev pub LayerPopDrops :
    ℕ → List ScreenElement → Option (LayerElement × List ScreenElement) → Type 0
LayerPopDrops i xs none = (map (dropped i) xs ≡ xs) × (get_layer xs i ≡ none)
LayerPopDrops i xs (some (l, ys)) = (ys ≡ map (dropped i) xs) × (get_layer xs i ≡ some l)

LayerPopDrops-tail :
    (i : ℕ) (x : ScreenElement) (xs : List ScreenElement)
    (o : Option (LayerElement × List ScreenElement))
    → count i x.layers ≡ 0
    → get_list_element x.layers i ≡ none
    → LayerPopDrops i xs o
    → LayerPopDrops i (x ∷ xs) (Option.map (λ (l, ys). (l, x ∷ ys)) o)
unfolding get_layer
LayerPopDrops-tail i x xs none c e p =
    (rw (removing_absent i x.layers c) (ap (◌∷◌ x) p.0), rw (e, get_layer) p.1)
LayerPopDrops-tail i x xs (some (l, ys)) c e p =
    (rw (removing_absent i x.layers c) (ap (◌∷◌ x) p.0), rw (e, get_layer) p.1)

pub pop_layer-LayerPopDrops :
    (i : ℕ) (xs : List ScreenElement) → layer_count i xs ≤ 1 → LayerPopDrops i xs (pop_layer xs i)
unfolding pop_layer get_layer
pop_layer-LayerPopDrops i [] u = (refl, refl)
pop_layer-LayerPopDrops i (x ∷ xs) u = elim (Option-cases (pop_list_element x.layers i)) [
  | inl e ↦
      let absent : count i x.layers ≡ 0 = rw e at (pop-PopRemoves i x.layers (omega (arith, u))) in
      rw (e, pop_layer)
        (LayerPopDrops-tail i x xs (pop_layer xs i) absent (get_none-pop i x.layers e)
          (pop_layer-LayerPopDrops i xs (omega (arith, u))))
  | inr ((l, ls), e) ↦
      let p : PopRemoves i x.layers (some (l, ls)) =
        rw e at (pop-PopRemoves i x.layers (omega (arith, u))) in
      let rest : map (dropped i) xs ≡ xs =
        dropped_uncounted i xs (omega (arith, u, count-get_some i x.layers l p.1)) in
      rw (e, pop_layer) (rw (p.0, rest) refl, rw (p.1, get_layer) refl)
]

-- The scene after a layer left.
pub view-dropped :
    (i : ℕ) (xs : List ScreenElement)
    → map screen_view (map (dropped i) xs) ≡ take_layer i (map screen_view xs)
view-dropped i [] = refl
view-dropped i (x ∷ xs) =
    rw (map-removing layer_view (λ l. refl) i x.layers, view-dropped i xs) refl

surfaces_of-view :
    (rest : List ℕ) (o : Option LayerElement)
    → surfaces_if_any rest (Option.map layer_view o)
      ≡ elim o [ none ↦ rest | some l ↦ map (λ x. x.id) l.surfaces ]
surfaces_of-view rest none = refl
surfaces_of-view rest (some l) = refl

-- The surfaces that a layer is seen with.
pub surfaces_on-view :
    (i : ℕ) (xs : List ScreenElement)
    → surfaces_on i (map screen_view xs) ≡ map (λ x. x.id) (surfaces_of (get_layer xs i))
unfolding surfaces_on get_layer
surfaces_on-view i [] = refl
surfaces_on-view i (x ∷ xs) = elim (Option-cases (get_list_element x.layers i)) [
  | inl e ↦ rw (map-get layer_view (λ l. refl) i x.layers, e, get_layer) (surfaces_on-view i xs)
  | inr (l, e) ↦ rw (map-get layer_view (λ l. refl) i x.layers, e, get_layer) refl
]

view-layer_onto :
    (screen_id : ℕ) (l : LayerElement) (info : InsertInfo) (x : ScreenElement)
    → screen_view
        (if x.id == screen_id then insert_layer l info (dropped l.id x) else dropped l.id x)
      ≡ layer_onto screen_id (layer_view l) info (screen_view x)
view-layer_onto screen_id l info x = elim (Bool-cases (x.id == screen_id)) [
  | inl e ↦
      rw
        (
          e,
          map-insert layer_view (λ m. refl) (removing l.id x.layers) l info,
          map-removing layer_view (λ m. refl) l.id x.layers,
        )
        refl
  | inr ne ↦ rw (ne, map-removing layer_view (λ m. refl) l.id x.layers) refl
]

view_onto_all :
    (screen_id : ℕ) (l : LayerElement) (info : InsertInfo) (xs : List ScreenElement)
    → map screen_view
        (map (λ x. if x.id == screen_id then insert_layer l info x else x) (map (dropped l.id) xs))
      ≡ map (layer_onto screen_id (layer_view l) info) (map screen_view xs)
view_onto_all screen_id l info [] = refl
view_onto_all screen_id l info (x ∷ xs) = rw (view-layer_onto screen_id l info x) (
    ap (◌∷◌ (layer_onto screen_id (layer_view l) info (screen_view x)))
      (view_onto_all screen_id l info xs))

count-dropped : (k i : ℕ) (xs : List ScreenElement) → count k (map (dropped i) xs) ≡ count k xs
count-dropped k i [] = refl
count-dropped k i (x ∷ xs) = omega (arith, count-dropped k i xs)

-- The scene after a layer came to a screen, with the surfaces that it had.
pub view-place_layer :
    (screen_id : ℕ) (l : LayerElement) (info : InsertInfo) (xs : List ScreenElement)
    → count screen_id xs ≤ 1
    → map (λ x. x.id) l.surfaces ≡ surfaces_on l.id (map screen_view xs)
    → map screen_view (update_element screen_id (insert_layer l info) (map (dropped l.id) xs))
      ≡ place_layer screen_id l.id info (map screen_view xs)
view-place_layer screen_id l info xs u same =
    rw
      (
        update_element-map screen_id (insert_layer l info) (map (dropped l.id) xs)
            (omega (arith, u, count-dropped screen_id l.id xs)),
        ← same,
      )
      (view_onto_all screen_id l info xs)
