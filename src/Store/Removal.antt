-- ===== src/Store/Removal.antt =====
-- What `remove_layer` of app/comm_parser.c leaves of the tree.
use mathlib.Core.Option
use uhmi_ivi_wm.Base.{
  ℕ, ◌+◌, ◌≤◌, ◌≡◌, refl, ◌≢◌, List, [], ◌∷◌, Option, none, some, arith, ◌==◌, if◌then◌else◌, inl,
  inr, Bool-cases, Option-cases, ==_iff,
}
use uhmi_ivi_wm.ElementList.{pop_list_element, get_list_element}
use uhmi_ivi_wm.ElementList.Count.{count, count-get_some}
use uhmi_ivi_wm.Tree.{LayerElement, ScreenElement, get_layer, pop_layer, layer_has_id}
use uhmi_ivi_wm.Tree.Layers.{layer_count, LayerPop, pop_layer-LayerPop}
use uhmi_ivi_wm.Tree.Lookup.{get-pop_other}
use uhmi_ivi_wm.State.{State}
use uhmi_ivi_wm.Store.{remove_layer}
use uhmi_ivi_wm.Invariant.{HasUniqueSurfaces, IsWellFormed}

get_layer_uncounted :
    (i : ℕ) (xs : List ScreenElement) → layer_count i xs ≡ 0 → get_layer xs i ≡ none
unfolding get_layer
get_layer_uncounted i [] c = refl
get_layer_uncounted i (x ∷ xs) c = elim (Option-cases (get_list_element x.layers i)) [
  | inl e ↦ rw (e, get_layer) (get_layer_uncounted i xs (omega arith))
  | inr (l, e) ↦ ground (arith, count-get_some i x.layers l e)
]

-- The lookup of the layer `k` is as it was.
abbrev Same : ℕ → List ScreenElement → Option (LayerElement × List ScreenElement) → Type 0
Same k xs none = Unit
Same k xs (some (l, ys)) = get_layer ys k ≡ get_layer xs k

Same-tail :
    (k : ℕ) (x : ScreenElement) (xs : List ScreenElement)
    (o : Option (LayerElement × List ScreenElement))
    → Same k xs o
    → Same k (x ∷ xs) (Option.map (λ (l, ys). (l, x ∷ ys)) o)
unfolding get_layer
Same-tail k x xs none h = tt
Same-tail k x xs (some (l, ys)) h = elim (Option-cases (get_list_element x.layers k)) [
  | inl e ↦ rw (e, get_layer) h
  | inr (m, e) ↦ rw (e, get_layer) refl
]

pop_layer-Same : (k i : ℕ) (xs : List ScreenElement) → k ≢ i → Same k xs (pop_layer xs i)
unfolding get_layer pop_layer
pop_layer-Same k i [] ne = tt
pop_layer-Same k i (x ∷ xs) ne = elim (Option-cases (pop_list_element x.layers i)) [
  | inl p ↦ rw (p, pop_layer) (Same-tail k x xs (pop_layer xs i) (pop_layer-Same k i xs ne))
  | inr ((m, ms), p) ↦
      rw (p, pop_layer)
        (elim (Option-cases (get_list_element x.layers k)) [
          | inl e ↦ rw (get_layer, get-pop_other k i x.layers m ms p ne, e, get_layer) refl
          | inr (n, e) ↦ rw (get_layer, get-pop_other k i x.layers m ms p ne, e, get_layer) refl
        ])
]

removed_uncounted :
    (i : ℕ) (l : LayerElement) (ys : List ScreenElement) (n : ℕ)
    → l.id ≡ i
    → n ≡ count i (l ∷ []) + layer_count i ys
    → n ≤ 1
    → layer_count i ys ≡ 0
removed_uncounted i l ys n named e u = ground arith

-- From a state in which no id stands twice, `remove_layer` takes the layer out of the tree, so that
-- it is found no more, and every other layer is found as before.
pub get_layer-remove_layer :
    (i k : ℕ) (s : State)
    → IsWellFormed s
    → get_layer (remove_layer i s).screens k ≡ (if k == i then none else get_layer s.screens k)
unfolding remove_layer
get_layer-remove_layer i k s w =
    let c = pop_layer-LayerPop i i HasUniqueSurfaces s.screens w.surfaces_unique in
    elim (Option-cases (pop_layer s.screens i)) [
      | inl e ↦ elim (Bool-cases (k == i)) [
        | inl eq ↦
            rw (e, remove_layer, eq, (==_iff k i).0 eq)
              (get_layer_uncounted i s.screens (rw e at c))
        | inr ne ↦ rw (e, remove_layer, ne) refl
      ]
      | inr ((l, ys), e) ↦ elim (Bool-cases (k == i)) [
        | inl eq ↦
            let c' : LayerPop i i HasUniqueSurfaces s.screens (some (l, ys)) = rw e at c in
            rw (e, remove_layer, eq, (==_iff k i).0 eq)
              (get_layer_uncounted i ys
                (removed_uncounted i l ys (layer_count i s.screens) c'.1 c'.0 (w.layers_unique i)))
        | inr ne ↦
            let same : Same k s.screens (some (l, ys)) =
              rw e at (pop_layer-Same k i s.screens (λ p. ground (arith, p))) in
            rw (e, remove_layer, ne) same
      ]
    ]
