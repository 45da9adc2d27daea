-- ===== src/Safety/Decide.antt =====
-- `decide_add_or_update_layer` and `decide_add_or_update_surface` of app/comm_parser.c keep every
-- surface registered, and do not fault from such a state.
use uhmi_ivi_wm.Base.{ℕ, ◌≡◌, List, Option, some, arith, inl, inr, Option-cases}
use uhmi_ivi_wm.Exec.{◌>>=◌}
use uhmi_ivi_wm.Exec.Keeps.{Keeps, Holds, Never}
use uhmi_ivi_wm.InsertOrder.{InsertInfo}
use uhmi_ivi_wm.ElementList.{pop_list_element, get_list_element}
use uhmi_ivi_wm.ElementList.Count.{count-get_none}
use uhmi_ivi_wm.Tree.{
  SurfaceElement, get_layer, pop_layer, surface_has_id, surface_properties_has_id,
}
use uhmi_ivi_wm.State.{State}
use uhmi_ivi_wm.Wrapper.Keeps.{
  IsQuiet, Answers, Keeps-wrap_ilm_set_layer, Keeps-wrap_ilm_set_surface,
}
use uhmi_ivi_wm.Json.{CmdType}
use uhmi_ivi_wm.Store.{surfaces_of}
use uhmi_ivi_wm.Decide.{
  use_local, set_properties, add_new_layer, update_popped_layer, decide_add_or_update_layer,
  add_new_surface, update_popped_surface, decide_add_or_update_surface, parsed_layer,
}
use uhmi_ivi_wm.Env.{Env}
use uhmi_ivi_wm.Safety.{IsRegistered, AnswersQueries}
use uhmi_ivi_wm.Safety.Steps.{
  add_surface-IsRegistered, set_properties-IsRegistered, set_surfaces-IsRegistered,
  add_layer-IsRegistered, reinsert_layer-IsRegistered, popped_is_listed,
}

pub IsRegistered-quiet : IsQuiet IsRegistered
IsRegistered-quiet c s r = record { listed = r.listed }

IsRegistered-use_local : (s : State) → IsRegistered s → IsRegistered (use_local s)
IsRegistered-use_local s r = record { listed = r.listed }

module _ {J : Type 0} (env : Env J) (a : AnswersQueries env.ilm) where
  -- A query that is answered does not fail.
  pub Answers-Never : (P : State → Type 0) → Answers env.ilm P Never
  Answers-Never P c s (inl e) fails p = cc (a.surfaces_answered s.calls)
  Answers-Never P c s (inr e) fails p = cc (a.layers_answered s.calls)

  pub decide_add_or_update_layer-IsRegistered :
      (screen_id : ℕ) (j : Option J) (layer_id : ℕ) (type : CmdType) (info : InsertInfo)
      → Keeps IsRegistered Never (decide_add_or_update_layer env screen_id j layer_id type info)
  unfolding decide_add_or_update_layer add_new_layer update_popped_layer ◌>>=◌
  decide_add_or_update_layer-IsRegistered screen_id j layer_id type info = record {
    at = λ s r. elim (Option-cases (pop_layer s.screens layer_id)) [
      | inl e ↦
          rw (e, decide_add_or_update_layer)
            ((Keeps-wrap_ilm_set_layer env.ilm IsRegistered-quiet (Answers-Never IsRegistered)
                (parsed_layer env (env.stack_layer s.locals) j type) layer_id).at
              _
              (add_layer-IsRegistered screen_id _ layer_id info (use_local s)
                (IsRegistered-use_local s r)))
      | inr ((l, screens), e) ↦
          rw (e, decide_add_or_update_layer)
            ((Keeps-wrap_ilm_set_layer env.ilm IsRegistered-quiet (Answers-Never IsRegistered)
                (parsed_layer env l.prop j type) layer_id).at
              _ (reinsert_layer-IsRegistered screen_id layer_id _ info s l screens e r))
    ];
  }

  update_popped_surface-IsRegistered :
      (layer_id : ℕ) (j : Option J) (surface_id : ℕ) (type : CmdType) (info : InsertInfo)
      (elm : SurfaceElement) (rest : List SurfaceElement) (s : State)
      → pop_list_element (surfaces_of (get_layer s.screens layer_id)) surface_id ≡ some (elm, rest)
      → IsRegistered s
      → Holds IsRegistered Never
          (update_popped_surface env layer_id j surface_id type info elm rest s)
  unfolding update_popped_surface ◌>>=◌
  update_popped_surface-IsRegistered layer_id j surface_id type info elm rest s e r =
      elim (Option-cases (get_list_element s.surface_properties surface_id)) [
        | inl missing ↦ absurd (
            omega (
              arith,
              count-get_none surface_id s.surface_properties missing,
              popped_is_listed layer_id surface_id elm rest s e r,
            ))
        | inr (x, found) ↦
            rw (found, update_popped_surface)
              ((Keeps-wrap_ilm_set_surface env.ilm IsRegistered-quiet (Answers-Never IsRegistered) _
                  surface_id).at
                _
                (set_surfaces-IsRegistered layer_id surface_id elm rest
                  (set_properties surface_id _ s) e (set_properties-IsRegistered surface_id _ s r)
                  info))
      ]

  pub decide_add_or_update_surface-IsRegistered :
      (layer_id : ℕ) (j : Option J) (surface_id : ℕ) (type : CmdType) (info : InsertInfo)
      → Keeps IsRegistered Never (decide_add_or_update_surface env layer_id j surface_id type info)
  unfolding decide_add_or_update_surface add_new_surface ◌>>=◌
  decide_add_or_update_surface-IsRegistered layer_id j surface_id type info = record {
    at = λ s r.
        elim (Option-cases
          (pop_list_element (surfaces_of (get_layer s.screens layer_id)) surface_id)) [
            | inl e ↦
                rw (e, decide_add_or_update_surface)
                  ((Keeps-wrap_ilm_set_surface env.ilm IsRegistered-quiet
                      (Answers-Never IsRegistered) _ surface_id).at
                    _
                    (add_surface-IsRegistered layer_id _ surface_id info (use_local s)
                      (IsRegistered-use_local s r)))
            | inr ((elm, rest), e) ↦
                rw (e, decide_add_or_update_surface)
                  (update_popped_surface-IsRegistered layer_id j surface_id type info elm rest s e
                    r)
          ];
  }
