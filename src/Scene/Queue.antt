-- ===== src/Scene/Queue.antt =====
-- The queue operations of app/comm_parser.c where no id stands twice: as maps and filters, and seen
-- through a view that keeps the ids.
use mathlib.Core.Option
use uhmi_ivi_wm.Base.{
  ℕ, ◌≤◌, ◌≡◌, refl, sym, ap, ◌∙◌, List, [], ◌∷◌, ◌++◌, map, Option, none, some, some-eq-some, ◌==◌,
  if◌then◌else◌, inl, inr, Bool-cases, arith, false,
}
use uhmi_ivi_wm.InsertOrder.{InsertOrder, InsertInfo}
use uhmi_ivi_wm.ElementList.{
  HasId, id, keep_first, pop_list_element, get_list_element, insert_before, insert_after, insert_by,
  append_if_missing, effective_order, insert_list_element,
}
use uhmi_ivi_wm.ElementList.Count.{count}
use uhmi_ivi_wm.Tree.{update_element}
use uhmi_ivi_wm.Scene.{removing}

module _ {A : Type 0} ⦃h : HasId A⦄ where
  pub removing_absent : (i : ℕ) (xs : List A) → count i xs ≡ 0 → removing i xs ≡ xs
  removing_absent i [] c = refl
  removing_absent i (x ∷ xs) c = ground (arith, removing_absent i xs)

  -- What a pop finds and leaves.
  abbrev pub PopRemoves : ℕ → List A → Option (A × List A) → Type 0
  PopRemoves i xs none = count i xs ≡ 0
  PopRemoves i xs (some (x, ys)) = (ys ≡ removing i xs) × (get_list_element xs i ≡ some x)

  keep_first-PopRemoves :
      (i : ℕ) (z : A) (xs : List A) (o : Option (A × List A))
      → (id z == i) ≡ false
      → PopRemoves i xs o
      → PopRemoves i (z ∷ xs) (Option.map (keep_first z) o)
  unfolding get_list_element
  keep_first-PopRemoves i z xs none ne p = ground arith
  keep_first-PopRemoves i z xs (some (x, ys)) ne p =
      (rw ne (ap (◌∷◌ z) p.0), rw (ne, get_list_element) p.1)

  pub pop-PopRemoves :
      (i : ℕ) (xs : List A) → count i xs ≤ 1 → PopRemoves i xs (pop_list_element xs i)
  unfolding pop_list_element get_list_element
  pop-PopRemoves i [] u = refl
  pop-PopRemoves i (z ∷ xs) u = elim (Bool-cases (id z == i)) [
    | inl e ↦
        rw (e, pop_list_element)
          (rw e (sym (removing_absent i xs (ground (arith, e)))), rw (e, get_list_element) refl)
    | inr ne ↦
        rw (ne, pop_list_element)
          (keep_first-PopRemoves i z xs (pop_list_element xs i) ne
            (pop-PopRemoves i xs (ground (arith, ne))))
  ]

  map_absent :
      (i : ℕ) (f : A → A) (xs : List A)
      → count i xs ≡ 0
      → map (λ x. if id x == i then f x else x) xs ≡ xs
  map_absent i f [] c = refl
  map_absent i f (x ∷ xs) c = ground (arith, map_absent i f xs)

  -- A write to the first is one to all.
  pub update_element-map :
      (i : ℕ) (f : A → A) (xs : List A)
      → count i xs ≤ 1
      → update_element i f xs ≡ map (λ x. if id x == i then f x else x) xs
  unfolding update_element
  update_element-map i f [] u = refl
  update_element-map i f (x ∷ xs) u = elim (Bool-cases (id x == i)) [
    | inl e ↦ rw e (ap (◌∷◌ (f x)) (sym (map_absent i f xs (ground (arith, e)))))
    | inr ne ↦ rw ne (ap (◌∷◌ x) (update_element-map i f xs (ground (arith, ne))))
  ]

  -- Only what is written to the element that is found matters.
  pub update_element-found :
      (i : ℕ) (f g : A → A) (xs : List A) (x : A)
      → get_list_element xs i ≡ some x
      → f x ≡ g x
      → update_element i f xs ≡ update_element i g xs
  unfolding update_element get_list_element
  update_element-found i f g [] x e same = refl
  update_element-found i f g (z ∷ xs) x e same = elim (Bool-cases (id z == i)) [
    | inl eq ↦
        let z_is : z ≡ x = some-eq-some (rw (eq, get_list_element) at e) in
        rw eq (ap (λ y. y ∷ xs) (ap f z_is ∙ (same ∙ ap g (sym z_is))))
    | inr ne ↦
        rw ne (ap (◌∷◌ z) (update_element-found i f g xs x (rw (ne, get_list_element) at e) same))
  ]

module _ {A B : Type 0} ⦃h : HasId A⦄ ⦃k : HasId B⦄ (g : A → B)
    (keeps : (x : A) → k.id (g x) ≡ h.id x) where
  pub map-removing : (i : ℕ) (xs : List A) → map g (removing i xs) ≡ removing i (map g xs)
  map-removing i [] = refl
  map-removing i (x ∷ xs) = ground (arith, keeps x, map-removing i xs)

  pub map-get :
      (i : ℕ) (xs : List A) → get_list_element (map g xs) i ≡ Option.map g (get_list_element xs i)
  unfolding get_list_element
  map-get i [] = refl
  map-get i (x ∷ xs) = ground (arith, keeps x, map-get i xs)

  map-insert_before :
      (i : ℕ) (t : A) (xs : List A)
      → map g (insert_before xs i t) ≡ insert_before (map g xs) i (g t)
  unfolding insert_before
  map-insert_before i t [] = refl
  map-insert_before i t (x ∷ xs) = ground (arith, keeps x, map-insert_before i t xs)

  map-insert_after :
      (i : ℕ) (t : A) (xs : List A) → map g (insert_after xs i t) ≡ insert_after (map g xs) i (g t)
  unfolding insert_after
  map-insert_after i t [] = refl
  map-insert_after i t (x ∷ xs) = ground (arith, keeps x, map-insert_after i t xs)

  map-append : (xs ys : List A) → map g (xs ++ ys) ≡ map g xs ++ map g ys
  map-append [] ys = refl
  map-append (x ∷ xs) ys = ap (◌∷◌ (g x)) (map-append xs ys)

  map-insert_by :
      (o : InsertOrder) (xs : List A) (t : A) (i : ℕ)
      → map g (insert_by o xs t i) ≡ insert_by o (map g xs) (g t) i
  unfolding insert_by
  map-insert_by InsertOrder.prepend xs t i = refl
  map-insert_by InsertOrder.append xs t i = map-append xs (t ∷ [])
  map-insert_by InsertOrder.before xs t i = map-insert_before i t xs
  map-insert_by InsertOrder.after xs t i = map-insert_after i t xs
  map-insert_by InsertOrder.unordered xs t i = refl

  map-append_if_missing :
      (o : InsertOrder) (x : Option A)
      → append_if_missing o (Option.map g x) ≡ append_if_missing o x
  map-append_if_missing o none = refl
  map-append_if_missing o (some x) = refl

  map-effective_order :
      (xs : List A) (o : InsertOrder) (i : ℕ)
      → effective_order (map g xs) (record { order = o; refid = i })
        ≡ effective_order xs (record { order = o; refid = i })
  unfolding effective_order
  map-effective_order xs InsertOrder.prepend i = refl
  map-effective_order xs InsertOrder.append i = refl
  map-effective_order xs InsertOrder.before i =
      rw (map-get i xs) (map-append_if_missing InsertOrder.before (get_list_element xs i))
  map-effective_order xs InsertOrder.after i =
      rw (map-get i xs) (map-append_if_missing InsertOrder.after (get_list_element xs i))
  map-effective_order xs InsertOrder.unordered i = refl

  pub map-insert :
      (xs : List A) (t : A) (info : InsertInfo)
      → map g (insert_list_element xs t info) ≡ insert_list_element (map g xs) (g t) info
  unfolding insert_list_element
  map-insert xs t info =
      map-insert_by (effective_order xs info) xs t info.refid
      ∙ ap (λ o. insert_by o (map g xs) (g t) info.refid)
          (sym (map-effective_order xs info.order info.refid))
