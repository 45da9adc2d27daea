-- ===== src/Safety/Shared.antt =====
-- The reference count of app/comm_parser.c where two layers hold one surface: each layer that takes
-- the surface starts the count again, so the first removal takes the properties of the surface
-- away.
use uhmi_ivi_wm.Base.{
  ℕ, ◌+◌, ◌%◌, ◌^◌, ◌≡◌, refl, ◌≢◌, List, [], ◌∷◌, ◌++◌, Option, none, some, arith, inl, inr,
  Option-cases, sym,
}
use uhmi_ivi_wm.Exec.{Outcome, faulted, ◌>>=◌}
use uhmi_ivi_wm.Properties.{SurfaceProperties}
use uhmi_ivi_wm.InsertOrder.{InsertInfo}
use uhmi_ivi_wm.ElementList.{pop_list_element, get_list_element, insert_list_element}
use uhmi_ivi_wm.ElementList.Count.{IsUnique, count-get_some, PopCounts, pop-PopCounts}
use uhmi_ivi_wm.Tree.{
  SurfaceElement, SurfacePropertiesElement, get_layer, surface_has_id, surface_properties_has_id,
}
use uhmi_ivi_wm.Tree.Lookup.{get_layer-update_other, get-update_same, get_none-pop}
use uhmi_ivi_wm.State.{State}
use uhmi_ivi_wm.Json.{CmdType}
use uhmi_ivi_wm.Json.Properties.{parse_surface_properties}
use uhmi_ivi_wm.Store.{
  zero_layout, surfaces_of, remove_surface, add_surface, with_prop, one_more_reference,
  list_surface_properties, add_surface_properties, remove_surface_properties, release_properties,
  rest_or, with_surfaces,
}
use uhmi_ivi_wm.Decide.{decide_add_or_update_surface, update_popped_surface}
use uhmi_ivi_wm.Invariant.{IsWellFormed}
use uhmi_ivi_wm.Env.{Env}
use uhmi_ivi_wm.Jansson.{Jansson}

get-append :
    (i : ℕ) (list : List SurfacePropertiesElement) (prop : SurfaceProperties)
    → get_list_element list i ≡ none
    → get_list_element (list ++ record { id = i; prop = prop } ∷ []) i
      ≡ some (record { id = i; prop = prop })
unfolding get_list_element
get-append i [] prop e = ground arith
get-append i (x ∷ list) prop e = ground (arith, get-append i list prop)

-- The properties are listed under the id.
get-list :
    (i : ℕ) (list : List SurfacePropertiesElement)
    → (elm : SurfacePropertiesElement) × (get_list_element (list_surface_properties i list) i
        ≡ some elm)
unfolding list_surface_properties insert_list_element
get-list i list = elim (Option-cases (get_list_element list i)) [
  | inl absent ↦ (
    record { id = i; prop = record { referred_cnt = 0; lp = zero_layout } },
    rw (absent, list_surface_properties)
        (get-append i list (record { referred_cnt = 0; lp = zero_layout }) absent),
  )
  | inr (elm, found) ↦ (elm, rw (found, list_surface_properties) found)
]

-- The reference count that a surface has after it was added to a layer: whatever it was before,
-- it comes from the properties that were not set, one more.
pub referred_cnt-add_surface :
    {J : Type 0} (js : Jansson J) (stack : SurfaceProperties) (j : Option J) (type : CmdType)
    (layer_id surface_id : ℕ) (info : InsertInfo) (s : State)
    → (elm : SurfacePropertiesElement) × (get_list_element
          (add_surface layer_id
            (parse_surface_properties js stack j type)
            surface_id
            info
            s).surface_properties
          surface_id
        ≡ some elm)
      × (elm.prop.referred_cnt ≡ (stack.referred_cnt + 1) % 2 ^ 32)
unfolding add_surface add_surface_properties parse_surface_properties
referred_cnt-add_surface js stack j type layer_id surface_id info s =
    let (elm, found) = get-list surface_id s.surface_properties in
    (
      with_prop (one_more_reference (parse_surface_properties js stack j type)) elm,
      get-update_same surface_id _ _ elm (λ y. refl) found,
      kept type,
    )
  where
    kept :
        (type : CmdType)
        → (one_more_reference (parse_surface_properties js stack j type)).referred_cnt
          ≡ (stack.referred_cnt + 1) % 2 ^ 32
    kept CmdType.add = refl
    kept CmdType.modify = refl
    kept CmdType.no_type = refl

popped_some :
    (i : ℕ) (xs : List SurfaceElement) (x : SurfaceElement)
    → get_list_element xs i ≡ some x
    → (y : SurfaceElement) × (ys : List SurfaceElement) × (pop_list_element xs i ≡ some (y, ys))
popped_some i xs x e = elim (Option-cases (pop_list_element xs i)) [
  | inl p ↦ cc (e, get_none-pop i xs p)
  | inr ((y, ys), p) ↦ (y, ys, p)
]

absent_after_pop :
    (i : ℕ) (list : List SurfacePropertiesElement)
    → IsUnique list
    → get_list_element (rest_or list (pop_list_element list i)) i ≡ none
absent_after_pop i list u = elim (Option-cases (pop_list_element list i)) [
  | inl p ↦ rw p (get_none-pop i list p)
  | inr ((y, ys), p) ↦
      let c : PopCounts i i list (some (y, ys)) = rw p at (pop-PopCounts i i list) in
      rw p (elim (Option-cases (get_list_element ys i)) [
        | inl e ↦ e
        | inr (z, e) ↦ ground (arith, c.0, c.1, u i, count-get_some i ys z e)
      ])
]

last_reference :
    (i : ℕ) (list : List SurfacePropertiesElement) (elm : SurfacePropertiesElement)
    → IsUnique list
    → get_list_element list i ≡ some elm
    → elm.prop.referred_cnt ≡ 1
    → get_list_element (remove_surface_properties i list) i ≡ none
unfolding remove_surface_properties release_properties
last_reference i list elm u e one =
    rw (e, remove_surface_properties, one) (absent_after_pop i list u)

-- The layer holds the surface.
abbrev pub IsHeldBy : ℕ → ℕ → State → Type 0
IsHeldBy layer_id i s =
    (x : SurfaceElement) × (get_list_element (surfaces_of (get_layer s.screens layer_id)) i
      ≡ some x)

properties_gone :
    (a i : ℕ) (s : State) (elm : SurfacePropertiesElement)
    → IsWellFormed s
    → IsHeldBy a i s
    → get_list_element s.surface_properties i ≡ some elm
    → elm.prop.referred_cnt ≡ 1
    → get_list_element (remove_surface a i s).surface_properties i ≡ none
unfolding remove_surface
properties_gone a i s elm w (x, in_a) listed one =
    let (v, vs, pa) = popped_some i _ x in_a in
    rw (pa, remove_surface)
      (last_reference i s.surface_properties elm w.properties_unique listed one)

-- A removal from one layer leaves the surfaces of every other one.
other_layer :
    (a b i : ℕ) (s : State)
    → a ≢ b
    → surfaces_of (get_layer (remove_surface a i s).screens b) ≡ surfaces_of (get_layer s.screens b)
unfolding remove_surface
other_layer a b i s ne =
    elim (Option-cases (pop_list_element (surfaces_of (get_layer s.screens a)) i)) [
      | inl p ↦ rw (p, remove_surface) refl
      | inr ((v, vs), p) ↦
          rw
            (
              p,
              remove_surface,
              get_layer-update_other b a (with_surfaces vs) s.screens (λ l. refl) (λ e. ne (sym e)),
            )
            refl
    ]

abbrev pub Faults : {A : Type 0} → Outcome State A → Type 0
Faults (faulted s) = Unit
Faults _ = ⊥

module _ {J : Type 0} (env : Env J) where
  update_popped_surface-Faults :
      (b i : ℕ) (j : Option J) (type : CmdType) (info : InsertInfo) (x : SurfaceElement)
      (rest : List SurfaceElement) (s : State)
      → get_list_element s.surface_properties i ≡ none
      → Faults (update_popped_surface env b j i type info x rest s)
  unfolding update_popped_surface ◌>>=◌
  update_popped_surface-Faults b i j type info x rest s absent =
      rw (absent, update_popped_surface) tt

  -- Where two layers hold a surface whose reference count is 1, and no id stands twice, a removal
  -- of the surface from one layer and then a command that adds it to the other again reads through
  -- NULL.
  pub shared_surface-Faults :
      (a b i : ℕ) (j : Option J) (type : CmdType) (info : InsertInfo) (s : State)
      (elm : SurfacePropertiesElement)
      → IsWellFormed s
      → a ≢ b
      → IsHeldBy a i s
      → IsHeldBy b i s
      → get_list_element s.surface_properties i ≡ some elm
      → elm.prop.referred_cnt ≡ 1
      → Faults (decide_add_or_update_surface env b j i type info (remove_surface a i s))
  unfolding decide_add_or_update_surface
  shared_surface-Faults a b i j type info s elm w ne in_a (y, in_b) listed one =
      let (z, zs, pb) = popped_some i _ y in_b in
      rw (other_layer a b i s ne, pb, decide_add_or_update_surface)
        (update_popped_surface-Faults b i j type info z zs (remove_surface a i s)
          (properties_gone a i s elm w in_a listed one))
