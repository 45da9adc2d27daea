-- ===== src/ElementList.antt =====
-- app/comm_parser.c, the operations on one TAILQ of elements. A list stands for the queue from its
-- first element to its last; an element is found by its id, as the code finds it.
-- `pop_list_element` returns the element with the queue that is left.
pub mod Placement
pub mod Count
use mathlib.Core.Option
use uhmi_ivi_wm.Base.{ℕ, List, [], ◌∷◌, ◌++◌, Option, none, some, length, ◌==◌, if◌then◌else◌}
use uhmi_ivi_wm.InsertOrder.{InsertOrder, InsertInfo}

-- `unsigned int id` of list_element_t.
pub record HasId {ℓ} (A : Type ℓ) : Type ℓ where
  pub id : A → ℕ

abbrev pub id {ℓ} : {A : Type ℓ} ⦃h : HasId A⦄ → A → ℕ
id ⦃h⦄ = h.id

module _ {ℓ} {A : Type ℓ} where
  unfoldable pub get_list_size : List A → ℕ
  get_list_size list_head = length list_head

  -- The queue keeps `x` in front of what a later removal leaves.
  abbrev pub keep_first : A → A × List A → A × List A
  keep_first x (elm, rest) = (elm, x ∷ rest)

module _ {ℓ} {A : Type ℓ} ⦃h : HasId A⦄ where
  unfoldable pub pop_list_element : List A → ℕ → Option (A × List A)
  pop_list_element [] i = none
  pop_list_element (elm ∷ rest) i =
      if id elm == i
      then some (elm, rest)
      else Option.map (keep_first elm) (pop_list_element rest i)

  unfoldable pub get_list_element : List A → ℕ → Option A
  get_list_element [] i = none
  get_list_element (elm ∷ rest) i = if id elm == i then some elm else get_list_element rest i

  -- TAILQ_INSERT_BEFORE and TAILQ_INSERT_AFTER at the element that `get_list_element` finds.
  unfoldable pub insert_before : List A → ℕ → A → List A
  insert_before [] refid target = []
  insert_before (elm ∷ rest) refid target =
      if id elm == refid then target ∷ elm ∷ rest else elm ∷ insert_before rest refid target

  unfoldable pub insert_after : List A → ℕ → A → List A
  insert_after [] refid target = []
  insert_after (elm ∷ rest) refid target =
      if id elm == refid then elm ∷ target ∷ rest else elm ∷ insert_after rest refid target

  -- The switch of `insert_list_element`.
  unfoldable pub insert_by : InsertOrder → List A → A → ℕ → List A
  unfolding insert_before insert_after
  insert_by InsertOrder.prepend list_head target refid = target ∷ list_head
  insert_by InsertOrder.append list_head target refid = list_head ++ target ∷ []
  insert_by InsertOrder.before list_head target refid = insert_before list_head refid target
  insert_by InsertOrder.after list_head target refid = insert_after list_head refid target
  insert_by InsertOrder.unordered list_head target refid = list_head

  -- The order that is used: one that names a missing element becomes an append.
  abbrev pub append_if_missing : InsertOrder → Option A → InsertOrder
  append_if_missing order (some ref_elm) = order
  append_if_missing order none = InsertOrder.append

  unfoldable pub effective_order : List A → InsertInfo → InsertOrder
  unfolding get_list_element
  effective_order list_head info = elim info.order [
    | InsertOrder.before ↦
        append_if_missing InsertOrder.before (get_list_element list_head info.refid)
    | InsertOrder.after ↦
        append_if_missing InsertOrder.after (get_list_element list_head info.refid)
    | other ↦ other
  ]

  unfoldable pub insert_list_element : List A → A → InsertInfo → List A
  unfolding insert_by effective_order
  insert_list_element list_head target info =
      insert_by (effective_order list_head info) list_head target info.refid

-- A plain number is its own id.
instance abbrev pub number_has_id : HasId ℕ
number_has_id = record { id = λ n. n }
