-- ===== src/ElementList/Count.antt =====
-- How often an id occurs in a queue of app/comm_parser.c, and how its operations change that.
use mathlib.Core.Option
use uhmi_ivi_wm.Base.{
  ℕ, ◌+◌, ◌≤◌, ◌≡◌, refl, List, [], ◌∷◌, ◌++◌, Option, none, some, some-eq-some, arith, ◌==◌,
  if◌then◌else◌, All, Bool-cases, ==_iff, subst, ◌≢◌, inl, inr,
}
use uhmi_ivi_wm.InsertOrder.{InsertOrder, InsertInfo}
use uhmi_ivi_wm.ElementList.{
  HasId, id, keep_first, pop_list_element, get_list_element, insert_before, insert_after, insert_by,
  effective_order, insert_list_element,
}

module _ {ℓ} {A : Type ℓ} ⦃h : HasId A⦄ where
  -- The number of elements with the id `k`.
  abbrev pub count : ℕ → List A → ℕ
  count k [] = 0
  count k (x ∷ xs) = (if id x == k then 1 else 0) + count k xs

  -- No id occurs twice.
  abbrev pub IsUnique : List A → Type 0
  IsUnique xs = (k : ℕ) → count k xs ≤ 1

  pub count-append : (k : ℕ) (xs ys : List A) → count k (xs ++ ys) ≡ count k xs + count k ys
  count-append k [] ys = omega arith
  count-append k (x ∷ xs) ys = omega (arith, count-append k xs ys)

  count-insert_before :
      (k i : ℕ) (xs : List A) (t : A)
      → count k (insert_before xs i t) ≤ count k (t ∷ []) + count k xs
  unfolding insert_before
  count-insert_before k i [] t = ground arith
  count-insert_before k i (x ∷ xs) t = ground (arith, count-insert_before k i xs t)

  count-insert_after :
      (k i : ℕ) (xs : List A) (t : A)
      → count k (insert_after xs i t) ≤ count k (t ∷ []) + count k xs
  unfolding insert_after
  count-insert_after k i [] t = ground arith
  count-insert_after k i (x ∷ xs) t = ground (arith, count-insert_after k i xs t)

  count-insert_by :
      (k : ℕ) (o : InsertOrder) (xs : List A) (t : A) (i : ℕ)
      → count k (insert_by o xs t i) ≤ count k (t ∷ []) + count k xs
  unfolding insert_by
  count-insert_by k InsertOrder.prepend xs t i = omega arith
  count-insert_by k InsertOrder.append xs t i = omega (arith, count-append k xs (t ∷ []))
  count-insert_by k InsertOrder.before xs t i = count-insert_before k i xs t
  count-insert_by k InsertOrder.after xs t i = count-insert_after k i xs t
  count-insert_by k InsertOrder.unordered xs t i = omega arith

  pub count-insert :
      (k : ℕ) (xs : List A) (t : A) (info : InsertInfo)
      → count k (insert_list_element xs t info) ≤ count k (t ∷ []) + count k xs
  unfolding insert_list_element
  count-insert k xs t info = count-insert_by k (effective_order xs info) xs t info.refid

  -- What a pop of the id `i` from `xs` does to the counts.
  abbrev pub PopCounts : ℕ → ℕ → List A → Option (A × List A) → Type 0
  PopCounts k i xs none = count i xs ≡ 0
  PopCounts k i xs (some (x, ys)) = (count k xs ≡ count k (x ∷ []) + count k ys) × (id x ≡ i)

  keep_first-PopCounts :
      (k i : ℕ) (z : A) (xs : List A) (o : Option (A × List A))
      → id z ≢ i
      → PopCounts k i xs o
      → PopCounts k i (z ∷ xs) (Option.map (keep_first z) o)
  keep_first-PopCounts k i z xs none ne c = ground arith
  keep_first-PopCounts k i z xs (some (x, ys)) ne c = (omega (arith, c.0), c.1)

  pub pop-PopCounts : (k i : ℕ) (xs : List A) → PopCounts k i xs (pop_list_element xs i)
  unfolding pop_list_element
  pop-PopCounts k i [] = refl
  pop-PopCounts k i (z ∷ xs) = elim (Bool-cases (id z == i)) [
    | inl e ↦ rw (e, pop_list_element) (omega arith, (==_iff (id z) i).0 e)
    | inr ne ↦ rw ne (
        keep_first-PopCounts k i z xs (pop_list_element xs i) (ground arith) (pop-PopCounts k i xs))
  ]

  -- A property of all elements survives a pop and holds of the popped one.
  abbrev pub PopAll {κ} : (A → Type κ) → Option (A × List A) → Type κ
  PopAll P none = Unit
  PopAll P (some (x, ys)) = P x × All P ys

  keep_first-PopAll {κ} :
      (P : A → Type κ) (z : A) (o : Option (A × List A))
      → P z
      → PopAll P o
      → PopAll P (Option.map (keep_first z) o)
  keep_first-PopAll P z none p a = tt
  keep_first-PopAll P z (some (x, ys)) p a = (a.0, (p, a.1))

  pub pop-PopAll {κ} :
      (P : A → Type κ) (i : ℕ) (xs : List A) → All P xs → PopAll P (pop_list_element xs i)
  unfolding pop_list_element
  pop-PopAll P i [] a = tt
  pop-PopAll P i (z ∷ xs) a = elim (Bool-cases (id z == i)) [
    | inl e ↦ rw (e, pop_list_element) a
    | inr ne ↦ rw ne (keep_first-PopAll P z (pop_list_element xs i) a.0 (pop-PopAll P i xs a.1))
  ]

  pub All-append {κ} : (P : A → Type κ) (xs ys : List A) → All P xs → All P ys → All P (xs ++ ys)
  All-append P [] ys a b = b
  All-append P (x ∷ xs) ys a b = (a.0, All-append P xs ys a.1 b)

  All-insert_before {κ} :
      (P : A → Type κ) (i : ℕ) (xs : List A) (t : A) → All P xs → P t → All P (insert_before xs i t)
  unfolding insert_before
  All-insert_before P i [] t a p = tt
  All-insert_before P i (x ∷ xs) t a p = elim (Bool-cases (id x == i)) [
    | inl e ↦ rw e (p, a)
    | inr ne ↦ rw ne (a.0, All-insert_before P i xs t a.1 p)
  ]

  All-insert_after {κ} :
      (P : A → Type κ) (i : ℕ) (xs : List A) (t : A) → All P xs → P t → All P (insert_after xs i t)
  unfolding insert_after
  All-insert_after P i [] t a p = tt
  All-insert_after P i (x ∷ xs) t a p = elim (Bool-cases (id x == i)) [
    | inl e ↦ rw e (a.0, (p, a.1))
    | inr ne ↦ rw ne (a.0, All-insert_after P i xs t a.1 p)
  ]

  All-insert_by {κ} :
      (P : A → Type κ) (o : InsertOrder) (xs : List A) (t : A) (i : ℕ)
      → All P xs
      → P t
      → All P (insert_by o xs t i)
  unfolding insert_by
  All-insert_by P InsertOrder.prepend xs t i a p = (p, a)
  All-insert_by P InsertOrder.append xs t i a p = All-append P xs (t ∷ []) a (p, tt)
  All-insert_by P InsertOrder.before xs t i a p = All-insert_before P i xs t a p
  All-insert_by P InsertOrder.after xs t i a p = All-insert_after P i xs t a p
  All-insert_by P InsertOrder.unordered xs t i a p = a

  pub All-insert {κ} :
      (P : A → Type κ) (xs : List A) (t : A) (info : InsertInfo)
      → All P xs
      → P t
      → All P (insert_list_element xs t info)
  unfolding insert_list_element
  All-insert P xs t info a p = All-insert_by P (effective_order xs info) xs t info.refid a p

  pub count-get_none : (i : ℕ) (xs : List A) → get_list_element xs i ≡ none → count i xs ≡ 0
  unfolding get_list_element
  count-get_none i [] e = refl
  count-get_none i (z ∷ xs) e = ground (arith, count-get_none i xs)

  -- A new id may be inserted.
  pub IsUnique-insert :
      (xs : List A) (t : A) (info : InsertInfo)
      → count (id t) xs ≡ 0
      → IsUnique xs
      → IsUnique (insert_list_element xs t info)
  IsUnique-insert xs t info new unique k = elim (Bool-cases (id t == k)) [
    | inl e ↦
        (let e' : id t ≡ k = (==_iff (id t) k).0 e in
          let none_yet : count k xs ≡ 0 = subst (λ j. count j xs ≡ 0) e' new in
          grind (arith, count-insert k xs t info))
    | inr ne ↦ grind (arith, count-insert k xs t info, unique k)
  ]

  -- What is found has what all have.
  pub All-get {κ} :
      (P : A → Type κ) (i : ℕ) (xs : List A) (x : A)
      → All P xs
      → get_list_element xs i ≡ some x
      → P x
  unfolding get_list_element
  All-get P i [] x a e = cc
  All-get P i (z ∷ xs) x a e = elim (Bool-cases (id z == i)) [
    | inl eq ↦ subst P (some-eq-some (rw (eq, get_list_element) at e)) a.0
    | inr ne ↦ All-get P i xs x a.1 (rw (ne, get_list_element) at e)
  ]

  -- After a pop the rest has no id twice, and neither has the rest with the element put back.
  pub IsUnique-rest :
      (i : ℕ) (xs : List A) (x : A) (ys : List A)
      → pop_list_element xs i ≡ some (x, ys)
      → IsUnique xs
      → IsUnique ys
  IsUnique-rest i xs x ys e u k =
      let c : PopCounts k i xs (some (x, ys)) = rw e at (pop-PopCounts k i xs) in
      omega (arith, u k, c.0)

  pub IsUnique-reinsert :
      (i : ℕ) (xs : List A) (x : A) (ys : List A) (info : InsertInfo)
      → pop_list_element xs i ≡ some (x, ys)
      → IsUnique xs
      → IsUnique (insert_list_element ys x info)
  IsUnique-reinsert i xs x ys info e u k =
      let c : PopCounts k i xs (some (x, ys)) = rw e at (pop-PopCounts k i xs) in
      omega (arith, u k, c.0, count-insert k ys x info)

  pub count-get_some :
      (i : ℕ) (xs : List A) (x : A) → get_list_element xs i ≡ some x → 1 ≤ count i xs
  unfolding get_list_element
  count-get_some i [] x e = cc
  count-get_some i (z ∷ xs) x e = ground (arith, count-get_some i xs x)

  pub All-map {κ μ} :
      (P : A → Type κ) (Q : A → Type μ) (xs : List A) → ((x : A) → P x → Q x) → All P xs → All Q xs
  All-map P Q [] f a = tt
  All-map P Q (x ∷ xs) f a = (f x a.0, All-map P Q xs f a.1)
