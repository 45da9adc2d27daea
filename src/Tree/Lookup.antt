-- ===== src/Tree/Lookup.antt =====
-- What the lookups of app/comm_parser.c find after a write to an element, an insert or a pop.
use uhmi_ivi_wm.Base.{
  ap, some-eq-some, ℕ, ◌≡◌, refl, ◌≢◌, List, [], ◌∷◌, none, some, arith, inl, inr, Option-cases,
}
use uhmi_ivi_wm.ElementList.{HasId, pop_list_element, get_list_element}
use uhmi_ivi_wm.Tree.{
  LayerElement, ScreenElement, update_element, get_layer, update_layer, layer_has_id,
}

module _ {A : Type 0} ⦃h : HasId A⦄ where
  pub get-update_same :
      (i : ℕ) (f : A → A) (xs : List A) (x : A)
      → ((y : A) → h.id (f y) ≡ h.id y)
      → get_list_element xs i ≡ some x
      → get_list_element (update_element i f xs) i ≡ some (f x)
  unfolding get_list_element update_element
  get-update_same i f [] x k e = cc
  get-update_same i f (y ∷ xs) x k e = ground (arith, k y, get-update_same i f xs x k)

  pub get-update_other :
      (k i : ℕ) (f : A → A) (xs : List A)
      → ((y : A) → h.id (f y) ≡ h.id y)
      → k ≢ i
      → get_list_element (update_element i f xs) k ≡ get_list_element xs k
  unfolding get_list_element update_element
  get-update_other k i f [] keeps ne = refl
  get-update_other k i f (y ∷ xs) keeps ne =
      ground (arith, keeps y, get-update_other k i f xs keeps ne)

  pub get_none-pop :
      (i : ℕ) (xs : List A) → pop_list_element xs i ≡ none → get_list_element xs i ≡ none
  unfolding get_list_element pop_list_element
  get_none-pop i [] e = refl
  get_none-pop i (y ∷ xs) e = elim (Option-cases (pop_list_element xs i)) [
    | inl p ↦ ground (arith, get_none-pop i xs p)
    | inr (q, p) ↦ ground (arith, p)
  ]

  pub pop_none-get :
      (i : ℕ) (xs : List A) → get_list_element xs i ≡ none → pop_list_element xs i ≡ none
  unfolding get_list_element pop_list_element
  pop_none-get i [] e = refl
  pop_none-get i (y ∷ xs) e = ground (arith, pop_none-get i xs)

  -- A pop leaves the lookup of every other id as it was.
  pub get-pop_other :
      (k i : ℕ) (xs : List A) (x : A) (ys : List A)
      → pop_list_element xs i ≡ some (x, ys)
      → k ≢ i
      → get_list_element ys k ≡ get_list_element xs k
  unfolding get_list_element pop_list_element
  get-pop_other k i [] x ys e ne = cc
  get-pop_other k i (z ∷ xs) x ys e ne = elim (Option-cases (pop_list_element xs i)) [
    | inl p ↦ ground (arith, p)
    | inr ((w, ws), p) ↦ ground (arith, p, get-pop_other k i xs w ws p ne)
  ]

pub get_layer-update_other :
    (k i : ℕ) (f : LayerElement → LayerElement) (xs : List ScreenElement)
    → ((l : LayerElement) → (f l).id ≡ l.id)
    → k ≢ i
    → get_layer (update_layer i f xs) k ≡ get_layer xs k
unfolding get_layer update_layer
get_layer-update_other k i f [] keeps ne = refl
get_layer-update_other k i f (x ∷ xs) keeps ne = elim (Option-cases (get_list_element x.layers k)) [
  | inl other ↦ elim (Option-cases (get_list_element x.layers i)) [
    | inl absent ↦ rw (absent, other, get_layer) (get_layer-update_other k i f xs keeps ne)
    | inr (m, found) ↦
        rw (found, get_layer, get-update_other k i f x.layers keeps ne, other, get_layer) refl
  ]
  | inr (n, other) ↦ elim (Option-cases (get_list_element x.layers i)) [
    | inl absent ↦ rw (absent, other, get_layer) refl
    | inr (m, found) ↦
        rw (found, get_layer, get-update_other k i f x.layers keeps ne, other, get_layer) refl
  ]
]

pub get_layer-update_same :
    (i : ℕ) (f : LayerElement → LayerElement) (xs : List ScreenElement) (l : LayerElement)
    → ((y : LayerElement) → (f y).id ≡ y.id)
    → get_layer xs i ≡ some l
    → get_layer (update_layer i f xs) i ≡ some (f l)
unfolding get_layer update_layer
get_layer-update_same i f [] l keeps e = cc
get_layer-update_same i f (x ∷ xs) l keeps e = elim (Option-cases (get_list_element x.layers i)) [
  | inl absent ↦
      rw (absent, get_layer, absent, get_layer)
        (get_layer-update_same i f xs l keeps (rw (absent, get_layer) at e))
  | inr (m, found) ↦
      rw (found, get_layer, get-update_same i f x.layers m keeps found)
        (ap (λ y. some (f y)) (some-eq-some (rw (found, get_layer) at e)))
]
