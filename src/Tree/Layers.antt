-- ===== src/Tree/Layers.antt =====
-- Counting the layers of all screens in the tree of app/comm_parser.c, and what its operations do
-- to the counts and to a property of all layers.
use mathlib.Core.Option
use uhmi_ivi_wm.Base.{
  ℕ, ◌+◌, ◌≤◌, ◌≡◌, refl, List, [], ◌∷◌, Option, none, some, some-eq-some, arith, ◌==◌, All,
  Bool-cases, Option-cases, inl, inr, subst, sym, ap,
}
use uhmi_ivi_wm.ElementList.{HasId, pop_list_element, get_list_element}
use uhmi_ivi_wm.ElementList.Count.{count, PopCounts, pop-PopCounts, PopAll, pop-PopAll, All-get}
use uhmi_ivi_wm.Tree.{
  LayerElement, ScreenElement, layer_has_id, screen_has_id, update_element, get_layer, with_layers,
  pop_layer, update_layer,
}

-- The number of layers with the id `k`, in all screens.
abbrev pub layer_count : ℕ → List ScreenElement → ℕ
layer_count k [] = 0
layer_count k (screen_elm ∷ rest) = count k screen_elm.layers + layer_count k rest

abbrev pub AllLayers : (LayerElement → Type 0) → List ScreenElement → Type 0
AllLayers P = All (λ s. All P s.layers)

module _ {A : Type 0} ⦃h : HasId A⦄ where
  -- A write that keeps the ids.
  pub count-update_element :
      (k i : ℕ) (f : A → A) (xs : List A)
      → ((x : A) → h.id (f x) ≡ h.id x)
      → count k (update_element i f xs) ≡ count k xs
  unfolding update_element
  count-update_element k i f [] e = refl
  count-update_element k i f (x ∷ xs) e = ground (arith, e x, count-update_element k i f xs e)

  pub All-update_element :
      (P : A → Type 0) (i : ℕ) (f : A → A) (xs : List A)
      → ((x : A) → P x → P (f x))
      → All P xs
      → All P (update_element i f xs)
  unfolding update_element
  All-update_element P i f [] pf a = tt
  All-update_element P i f (x ∷ xs) pf a = elim (Bool-cases (h.id x == i)) [
    | inl e ↦ rw e (pf x a.0, a.1)
    | inr ne ↦ rw ne (a.0, All-update_element P i f xs pf a.1)
  ]

-- A change of one screen's layers moves the count by at most `d`.
pub layer_count-update_element :
    (k d i : ℕ) (f : ScreenElement → ScreenElement) (xs : List ScreenElement)
    → ((x : ScreenElement) → count k (f x).layers ≤ d + count k x.layers)
    → layer_count k (update_element i f xs) ≤ d + layer_count k xs
unfolding update_element
layer_count-update_element k d i f [] e = omega arith
layer_count-update_element k d i f (x ∷ xs) e = elim (Bool-cases (x.id == i)) [
  | inl eq ↦ rw eq (omega (arith, e x))
  | inr ne ↦ rw ne (omega (arith, layer_count-update_element k d i f xs e))
]

-- A write to a layer that keeps its id changes no count.
pub update_layer_counts :
    (k i : ℕ) (f : LayerElement → LayerElement) (xs : List ScreenElement)
    → ((x : LayerElement) → (f x).id ≡ x.id)
    → (layer_count k (update_layer i f xs) ≡ layer_count k xs)
      × (count k (update_layer i f xs) ≡ count k xs)
unfolding update_layer
update_layer_counts k i f [] e = (refl, refl)
update_layer_counts k i f (x ∷ xs) e = elim (Option-cases (get_list_element x.layers i)) [
  | inl absent ↦ rw (absent, update_layer) (omega (arith, update_layer_counts k i f xs e))
  | inr (l, found) ↦ rw (found, update_layer) (omega (arith, count-update_element k i f x.layers e))
]

pub AllLayers-update_layer :
    (P : LayerElement → Type 0) (i : ℕ) (f : LayerElement → LayerElement) (xs : List ScreenElement)
    → ((x : LayerElement) → P x → P (f x))
    → AllLayers P xs
    → AllLayers P (update_layer i f xs)
unfolding update_layer
AllLayers-update_layer P i f [] pf a = tt
AllLayers-update_layer P i f (x ∷ xs) pf a = elim (Option-cases (get_list_element x.layers i)) [
  | inl absent ↦ rw (absent, update_layer) (a.0, AllLayers-update_layer P i f xs pf a.1)
  | inr (l, found) ↦ rw (found, update_layer) (All-update_element P i f x.layers pf a.0, a.1)
]

-- What `pop_layer` does: the popped layer leaves the counts, the screens stay.
abbrev pub LayerPop :
    (k i : ℕ) (P : LayerElement → Type 0)
    → List ScreenElement
    → Option (LayerElement × List ScreenElement)
    → Type 0
LayerPop k i P xs none = layer_count i xs ≡ 0
LayerPop k i P xs (some (l, ys)) =
    (layer_count k xs ≡ count k (l ∷ []) + layer_count k ys)
    × (l.id ≡ i)
    × (count k ys ≡ count k xs)
    × P l
    × AllLayers P ys

LayerPop-head :
    (k i : ℕ) (P : LayerElement → Type 0) (x : ScreenElement) (xs : List ScreenElement)
    (l : LayerElement) (ls : List LayerElement)
    → PopCounts k i x.layers (some (l, ls))
    → PopAll P (some (l, ls))
    → AllLayers P xs
    → LayerPop k i P (x ∷ xs) (some (l, with_layers x ls ∷ xs))
LayerPop-head k i P x xs l ls c a rest = (omega (arith, c.0), c.1, refl, a.0, (a.1, rest))

LayerPop-tail :
    (k i : ℕ) (P : LayerElement → Type 0) (x : ScreenElement) (xs : List ScreenElement)
    (o : Option (LayerElement × List ScreenElement))
    → count i x.layers ≡ 0
    → All P x.layers
    → LayerPop k i P xs o
    → LayerPop k i P (x ∷ xs) (Option.map (λ (layer_elm, screens). (layer_elm, x ∷ screens)) o)
LayerPop-tail k i P x xs none e a r = omega arith
LayerPop-tail k i P x xs (some (l, ys)) e a r =
    (omega (arith, r.0), r.1, omega (arith, r.2), r.3, (a, r.4))

pub pop_layer-LayerPop :
    (k i : ℕ) (P : LayerElement → Type 0) (xs : List ScreenElement)
    → AllLayers P xs
    → LayerPop k i P xs (pop_layer xs i)
unfolding pop_layer
pop_layer-LayerPop k i P [] a = refl
pop_layer-LayerPop k i P (x ∷ xs) a = elim (Option-cases (pop_list_element x.layers i)) [
  | inl e ↦
      rw (e, pop_layer)
        (LayerPop-tail k i P x xs (pop_layer xs i) (rw e at (pop-PopCounts k i x.layers)) a.0
          (pop_layer-LayerPop k i P xs a.1))
  | inr ((l, ls), e) ↦
      rw (e, pop_layer)
        (LayerPop-head k i P x xs l ls (rw e at (pop-PopCounts k i x.layers))
          (rw e at (pop-PopAll P i x.layers a.0)) a.1)
]

-- Only the element that is found is written to.
module _ {A : Type 0} ⦃h : HasId A⦄ where
  pub All-update_found :
      (P : A → Type 0) (i : ℕ) (f : A → A) (xs : List A) (x : A)
      → get_list_element xs i ≡ some x
      → P (f x)
      → All P xs
      → All P (update_element i f xs)
  unfolding update_element get_list_element
  All-update_found P i f [] x e pf a = tt
  All-update_found P i f (z ∷ xs) x e pf a = elim (Bool-cases (h.id z == i)) [
    | inl eq ↦
        rw (eq, update_element)
          (subst (λ y. P (f y)) (sym (some-eq-some (rw (eq, get_list_element) at e))) pf, a.1)
    | inr ne ↦
        rw (ne, update_element)
          (a.0, All-update_found P i f xs x (rw (ne, get_list_element) at e) pf a.1)
  ]

pub AllLayers-get :
    (P : LayerElement → Type 0) (i : ℕ) (xs : List ScreenElement) (l : LayerElement)
    → AllLayers P xs
    → get_layer xs i ≡ some l
    → P l
unfolding get_layer
AllLayers-get P i [] l a e = cc
AllLayers-get P i (x ∷ xs) l a e = elim (Option-cases (get_list_element x.layers i)) [
  | inl absent ↦ AllLayers-get P i xs l a.1 (rw (absent, get_layer) at e)
  | inr (m, found) ↦
      subst P (some-eq-some (rw (found, get_layer) at e)) (All-get P i x.layers m a.0 found)
]

pub AllLayers-update_found :
    (P : LayerElement → Type 0) (i : ℕ) (f : LayerElement → LayerElement) (xs : List ScreenElement)
    (l : LayerElement)
    → get_layer xs i ≡ some l
    → P (f l)
    → AllLayers P xs
    → AllLayers P (update_layer i f xs)
unfolding get_layer update_layer
AllLayers-update_found P i f [] l e pf a = tt
AllLayers-update_found P i f (x ∷ xs) l e pf a = elim (Option-cases (get_list_element x.layers i)) [
  | inl absent ↦
      rw (absent, update_layer)
        (a.0, AllLayers-update_found P i f xs l (rw (absent, get_layer) at e) pf a.1)
  | inr (m, found) ↦
      rw (found, update_layer)
        (
          All-update_found P i f x.layers m found
              (subst (λ y. P (f y)) (sym (some-eq-some (rw (found, get_layer) at e))) pf) a.0,
          a.1,
        )
]

-- Where no layer has the id, a write changes nothing.
pub update_layer_missing :
    (i : ℕ) (f : LayerElement → LayerElement) (xs : List ScreenElement)
    → get_layer xs i ≡ none
    → update_layer i f xs ≡ xs
unfolding get_layer update_layer
update_layer_missing i f [] e = refl
update_layer_missing i f (x ∷ xs) e = elim (Option-cases (get_list_element x.layers i)) [
  | inl absent ↦
      rw (absent, update_layer)
        (ap (◌∷◌ x) (update_layer_missing i f xs (rw (absent, get_layer) at e)))
  | inr (m, found) ↦ cc (rw (found, get_layer) at e)
]
