-- ===== src/ElementList/Placement.antt =====
-- Where app/comm_parser.c puts and finds an element of a queue.
use uhmi_ivi_wm.Base.{
  ℕ, ◌≡◌, refl, ◌≢◌, ◌⊎◌, inl, inr, List, [], ◌∷◌, ◌++◌, Option, none, some, arith, All, ap,
  ℕ_discrete,
}
use uhmi_ivi_wm.InsertOrder.{InsertOrder, InsertInfo}
use uhmi_ivi_wm.ElementList.{
  HasId, id, pop_list_element, get_list_element, insert_before, insert_after, insert_list_element,
}

module _ {ℓ} {A : Type ℓ} ⦃h : HasId A⦄ where
  -- No element of the list has the id.
  abbrev pub Absent : ℕ → List A → Type 0
  Absent i = All (λ x. id x ≢ i)

  -- `xs` is `front`, then its first element with the id `i`, then `rest`.
  pub record Split (i : ℕ) (xs front : List A) (found : A) (rest : List A) : Type ℓ where
    pub whole : xs ≡ front ++ found ∷ rest
    pub matches : id found ≡ i
    pub first : Absent i front

  -- A list has no element with the id, or splits at the first one.
  abbrev pub Search : ℕ → List A → Type ℓ
  Search i xs =
      Absent i xs ⊎ ((front : List A) × (found : A) × (rest : List A) × Split i xs front found rest)

  Search-cons : (i : ℕ) (x : A) (xs : List A) → id x ≢ i → Search i xs → Search i (x ∷ xs)
  Search-cons i x xs ne (inl absent) = inl (ne, absent)
  Search-cons i x xs ne (inr (front, found, rest, s)) = inr (
    x ∷ front,
    found,
    rest,
    record { whole = ap (◌∷◌ x) s.whole; matches = s.matches; first = (ne, s.first) },
  )

  pub Search-list : (i : ℕ) (xs : List A) → Search i xs
  Search-list i [] = inl tt
  Search-list i (x ∷ xs) = elim (ℕ_discrete (id x) i) [
    | yes e ↦ inr ([], x, xs, record { whole = refl; matches = e; first = tt })
    | no ne ↦ Search-cons i x xs ne (Search-list i xs)
  ]

  get-Absent : (i : ℕ) (xs : List A) → Absent i xs → get_list_element xs i ≡ none
  unfolding get_list_element
  get-Absent i [] absent = refl
  get-Absent i (x ∷ xs) absent = ground (arith, get-Absent i xs absent.1)

  pop-Absent : (i : ℕ) (xs : List A) → Absent i xs → pop_list_element xs i ≡ none
  unfolding pop_list_element
  pop-Absent i [] absent = refl
  pop-Absent i (x ∷ xs) absent = ground (arith, pop-Absent i xs absent.1)

  module _ (i : ℕ) (found : A) (rest : List A) (e : id found ≡ i) where
    get-first :
        (front : List A) → Absent i front → get_list_element (front ++ found ∷ rest) i ≡ some found
    unfolding get_list_element
    get-first [] absent = ground arith
    get-first (x ∷ xs) absent = ground (arith, get-first xs absent.1)

    pop-first :
        (front : List A)
        → Absent i front
        → pop_list_element (front ++ found ∷ rest) i ≡ some (found, front ++ rest)
    unfolding pop_list_element
    pop-first [] absent = ground arith
    pop-first (x ∷ xs) absent = ground (arith, pop-first xs absent.1)

    before-first :
        (front : List A) (t : A)
        → Absent i front
        → insert_before (front ++ found ∷ rest) i t ≡ front ++ t ∷ found ∷ rest
    unfolding insert_before
    before-first [] t absent = ground arith
    before-first (x ∷ xs) t absent = ground (arith, before-first xs t absent.1)

    after-first :
        (front : List A) (t : A)
        → Absent i front
        → insert_after (front ++ found ∷ rest) i t ≡ front ++ found ∷ t ∷ rest
    unfolding insert_after
    after-first [] t absent = ground arith
    after-first (x ∷ xs) t absent = ground (arith, after-first xs t absent.1)

  -- What `insert_list_element` makes of the queue `xs`, for each order.
  abbrev pub Placed : InsertOrder → ℕ → A → List A → List A → Type ℓ
  Placed InsertOrder.prepend refid t xs ys = ys ≡ t ∷ xs
  Placed InsertOrder.append refid t xs ys = ys ≡ xs ++ t ∷ []
  Placed InsertOrder.unordered refid t xs ys = ys ≡ xs
  Placed InsertOrder.before refid t xs ys =
      (Absent refid xs × (ys ≡ xs ++ t ∷ []))
      ⊎ ((front : List A) × (found : A) × (rest : List A) × Split refid xs front found rest
          × (ys ≡ front ++ t ∷ found ∷ rest))
  Placed InsertOrder.after refid t xs ys =
      (Absent refid xs × (ys ≡ xs ++ t ∷ []))
      ⊎ ((front : List A) × (found : A) × (rest : List A) × Split refid xs front found rest
          × (ys ≡ front ++ found ∷ t ∷ rest))

  place :
      (o : InsertOrder) (refid : ℕ) (t : A) (xs : List A)
      → Placed o refid t xs (insert_list_element xs t (record { order = o; refid = refid }))
  unfolding insert_list_element
  place InsertOrder.prepend refid t xs = refl
  place InsertOrder.append refid t xs = refl
  place InsertOrder.unordered refid t xs = refl
  place InsertOrder.before refid t xs = elim (Search-list refid xs) [
    | inl absent ↦ inl (absent, rw (get-Absent refid xs absent))
    | inr (front, found, rest, s) ↦ inr (
      front,
      found,
      rest,
      s,
      rw (s.whole, get-first refid found rest s.matches front s.first)
          (before-first refid found rest s.matches front t s.first),
    )
  ]
  place InsertOrder.after refid t xs = elim (Search-list refid xs) [
    | inl absent ↦ inl (absent, rw (get-Absent refid xs absent))
    | inr (front, found, rest, s) ↦ inr (
      front,
      found,
      rest,
      s,
      rw (s.whole, get-first refid found rest s.matches front s.first)
          (after-first refid found rest s.matches front t s.first),
    )
  ]

  -- An insert prepends, appends, or puts the element directly before or after the first element
  -- with the reference id; without such an element it appends; with no order it drops the element.
  pub insert_list_element-Placed :
      (xs : List A) (t : A) (info : InsertInfo)
      → Placed info.order info.refid t xs (insert_list_element xs t info)
  insert_list_element-Placed xs t info = place info.order info.refid t xs

  -- What `pop_list_element` and `get_list_element` return for the queue `xs`.
  abbrev pub Popped : ℕ → List A → Option (A × List A) → Option A → Type ℓ
  Popped i xs popped got =
      (Absent i xs × (popped ≡ none) × (got ≡ none))
      ⊎ ((front : List A) × (found : A) × (rest : List A) × Split i xs front found rest
          × (popped ≡ some (found, front ++ rest))
          × (got ≡ some found))

  -- Both find the first element with the id, or nothing where there is none; a pop takes exactly
  -- that element out and keeps the order of the others.
  pub pop_list_element-Popped :
      (xs : List A) (i : ℕ) → Popped i xs (pop_list_element xs i) (get_list_element xs i)
  pop_list_element-Popped xs i = elim (Search-list i xs) [
    | inl absent ↦ inl (absent, pop-Absent i xs absent, get-Absent i xs absent)
    | inr (front, found, rest, s) ↦ inr (
      front,
      found,
      rest,
      s,
      rw s.whole (pop-first i found rest s.matches front s.first),
      rw s.whole (get-first i found rest s.matches front s.first),
    )
  ]
