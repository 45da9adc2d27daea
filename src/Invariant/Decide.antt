-- ===== src/Invariant/Decide.antt =====
-- `decide_add_or_update_layer` and `decide_add_or_update_surface` of app/comm_parser.c keep the
-- invariant, also where they exit or fault.
use uhmi_ivi_wm.Base.{ℕ, ◌≡◌, refl, List, Option, none, some, arith, inl, inr, Option-cases}
use uhmi_ivi_wm.Exec.{◌>>=◌}
use uhmi_ivi_wm.Exec.Keeps.{Keeps, Holds}
use uhmi_ivi_wm.InsertOrder.{InsertInfo}
use uhmi_ivi_wm.Properties.{SurfaceProperties}
use uhmi_ivi_wm.ElementList.{pop_list_element, get_list_element, insert_list_element}
use uhmi_ivi_wm.ElementList.Count.{IsUnique-rest, IsUnique-reinsert}
use uhmi_ivi_wm.Tree.{
  SurfaceElement, get_layer, pop_layer, surface_has_id, surface_properties_has_id,
}
use uhmi_ivi_wm.Tree.Layers.{count-update_element}
use uhmi_ivi_wm.State.{State}
use uhmi_ivi_wm.Wrapper.Keeps.{
  IsQuiet, Answers, Keeps-wrap_ilm_set_layer, Keeps-wrap_ilm_set_surface,
}
use uhmi_ivi_wm.Json.{CmdType}
use uhmi_ivi_wm.Store.{with_prop, surfaces_of}
use uhmi_ivi_wm.Decide.{
  use_local, set_properties, add_new_layer, update_popped_layer, decide_add_or_update_layer,
  add_new_surface, update_popped_surface, decide_add_or_update_surface, parsed_layer,
}
use uhmi_ivi_wm.Env.{Env}
use uhmi_ivi_wm.Invariant.{IsWellFormed}
use uhmi_ivi_wm.Invariant.Tree.{add_layer-IsWellFormed, reinsert_layer-IsWellFormed}
use uhmi_ivi_wm.Invariant.Store.{
  add_surface-IsWellFormed, surfaces_of-IsUnique, set_surfaces-IsWellFormed,
}

-- The invariant looks at the lists alone.
pub IsWellFormed-quiet : IsQuiet IsWellFormed
IsWellFormed-quiet c s w = record {
  screens_unique = w.screens_unique;
  layers_unique = w.layers_unique;
  surfaces_unique = w.surfaces_unique;
  properties_unique = w.properties_unique;
}

IsWellFormed-use_local : (s : State) → IsWellFormed s → IsWellFormed (use_local s)
IsWellFormed-use_local s w = record {
  screens_unique = w.screens_unique;
  layers_unique = w.layers_unique;
  surfaces_unique = w.surfaces_unique;
  properties_unique = w.properties_unique;
}

pub set_properties-IsWellFormed :
    (surface_id : ℕ) (prop : SurfaceProperties) (s : State)
    → IsWellFormed s
    → IsWellFormed (set_properties surface_id prop s)
set_properties-IsWellFormed surface_id prop s w = record {
  screens_unique = w.screens_unique;
  layers_unique = w.layers_unique;
  surfaces_unique = w.surfaces_unique;
  properties_unique = λ k. omega (
    arith,
    w.properties_unique k,
    count-update_element k surface_id (with_prop prop) s.surface_properties (λ x. refl),
  );
}

module _ {J : Type 0} (env : Env J) where
  pub IsWellFormed-answers : Answers env.ilm IsWellFormed IsWellFormed
  IsWellFormed-answers c s which fails w = IsWellFormed-quiet c s w

  pub decide_add_or_update_layer-IsWellFormed :
      (screen_id : ℕ) (j : Option J) (layer_id : ℕ) (type : CmdType) (info : InsertInfo)
      → Keeps IsWellFormed IsWellFormed
          (decide_add_or_update_layer env screen_id j layer_id type info)
  unfolding decide_add_or_update_layer add_new_layer update_popped_layer ◌>>=◌
  decide_add_or_update_layer-IsWellFormed screen_id j layer_id type info = record {
    at = λ s w. elim (Option-cases (pop_layer s.screens layer_id)) [
      | inl e ↦
          rw (e, decide_add_or_update_layer)
            ((Keeps-wrap_ilm_set_layer env.ilm IsWellFormed-quiet IsWellFormed-answers
                (parsed_layer env (env.stack_layer s.locals) j type) layer_id).at
              _
              (add_layer-IsWellFormed screen_id _ layer_id info (use_local s) e
                (IsWellFormed-use_local s w)))
      | inr ((l, screens), e) ↦
          rw (e, decide_add_or_update_layer)
            ((Keeps-wrap_ilm_set_layer env.ilm IsWellFormed-quiet IsWellFormed-answers
                (parsed_layer env l.prop j type) layer_id).at
              _ (reinsert_layer-IsWellFormed screen_id layer_id _ info s l screens e w))
    ];
  }

  add_new_surface-IsWellFormed :
      (layer_id : ℕ) (j : Option J) (surface_id : ℕ) (type : CmdType) (info : InsertInfo)
      (s : State)
      → pop_list_element (surfaces_of (get_layer s.screens layer_id)) surface_id ≡ none
      → IsWellFormed s
      → Holds IsWellFormed IsWellFormed (add_new_surface env layer_id j surface_id type info s)
  unfolding add_new_surface ◌>>=◌
  add_new_surface-IsWellFormed layer_id j surface_id type info s e w =
      (Keeps-wrap_ilm_set_surface env.ilm IsWellFormed-quiet IsWellFormed-answers _ surface_id).at _
        (add_surface-IsWellFormed layer_id _ surface_id info (use_local s) e
          (IsWellFormed-use_local s w))

  update_popped_surface-IsWellFormed :
      (layer_id : ℕ) (j : Option J) (surface_id : ℕ) (type : CmdType) (info : InsertInfo)
      (elm : SurfaceElement) (rest : List SurfaceElement) (s : State)
      → pop_list_element (surfaces_of (get_layer s.screens layer_id)) surface_id ≡ some (elm, rest)
      → IsWellFormed s
      → Holds IsWellFormed IsWellFormed
          (update_popped_surface env layer_id j surface_id type info elm rest s)
  unfolding update_popped_surface ◌>>=◌
  update_popped_surface-IsWellFormed layer_id j surface_id type info elm rest s e w =
      elim (Option-cases (get_list_element s.surface_properties surface_id)) [
        | inl missing ↦
            rw (missing, update_popped_surface)
              (set_surfaces-IsWellFormed layer_id rest s
                (IsUnique-rest surface_id _ elm rest e (surfaces_of-IsUnique layer_id s w)) w)
        | inr (x, found) ↦
            rw (found, update_popped_surface)
              ((Keeps-wrap_ilm_set_surface env.ilm IsWellFormed-quiet IsWellFormed-answers _
                  surface_id).at
                _
                (set_surfaces-IsWellFormed layer_id (insert_list_element rest elm info)
                  (set_properties surface_id _ s)
                  (IsUnique-reinsert surface_id _ elm rest info e
                    (surfaces_of-IsUnique layer_id s w))
                  (set_properties-IsWellFormed surface_id _ s w)))
      ]

  pub decide_add_or_update_surface-IsWellFormed :
      (layer_id : ℕ) (j : Option J) (surface_id : ℕ) (type : CmdType) (info : InsertInfo)
      → Keeps IsWellFormed IsWellFormed
          (decide_add_or_update_surface env layer_id j surface_id type info)
  unfolding decide_add_or_update_surface
  decide_add_or_update_surface-IsWellFormed layer_id j surface_id type info = record {
    at = λ s w.
        elim (Option-cases
          (pop_list_element (surfaces_of (get_layer s.screens layer_id)) surface_id)) [
            | inl e ↦
                rw (e, decide_add_or_update_surface)
                  (add_new_surface-IsWellFormed layer_id j surface_id type info s e w)
            | inr ((elm, rest), e) ↦
                rw (e, decide_add_or_update_surface)
                  (update_popped_surface-IsWellFormed layer_id j surface_id type info elm rest s e
                    w)
          ];
  }
