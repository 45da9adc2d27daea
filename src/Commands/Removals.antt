-- ===== src/Commands/Removals.antt =====
-- Properties of the state that the handlers of app/comm_parser.c that remove layers and surfaces keep.
use uhmi_ivi_wm.Base.{ℕ, Option}
use uhmi_ivi_wm.Exec.{Exec, Status, modify}
use uhmi_ivi_wm.Exec.Keeps.{Keeps, Keeps-modify, keeps_rules}
use uhmi_ivi_wm.State.{State}
use uhmi_ivi_wm.Wrapper.{wrap_ilm_remove_layer, wrap_ilm_remove_surface}
use uhmi_ivi_wm.Wrapper.Keeps.{
  IsQuiet, Answers, Keeps-wrap_ilm_remove_layer, Keeps-wrap_ilm_remove_surface,
}
use uhmi_ivi_wm.Store.{remove_layer, remove_surface}
use uhmi_ivi_wm.Commands.{
  for_each_of, with_id, parse_remove_layer_command, remove_surfaces, parse_remove_surface_command,
}
use uhmi_ivi_wm.Env.{Env}
use uhmi_ivi_wm.Commands.Keeps.{Keeps-for_each_of, Keeps-with_id}

module _ {J : Type 0} (env : Env J) {P F : State → Type 0} (quiet : IsQuiet P)
    (answers : Answers env.ilm P F) where
  for_each_of_kept :
      (o : Option (Option J)) (body : Option J → Exec State Status)
      → ((j : Option J) → Keeps P F (body j))
      → Keeps P F (for_each_of env o body)
  for_each_of_kept = Keeps-for_each_of env

  with_id_kept :
      (j : Option J) (body : ℕ → Exec State Status)
      → ((i : ℕ) → Keeps P F (body i))
      → Keeps P F (with_id env j body)
  with_id_kept = Keeps-with_id env

  ilm_layer_removed : (i : ℕ) → Keeps P F (wrap_ilm_remove_layer env.ilm i)
  ilm_layer_removed i = Keeps-wrap_ilm_remove_layer env.ilm quiet answers i

  ilm_surface_removed : (i j : ℕ) → Keeps P F (wrap_ilm_remove_surface env.ilm i j)
  ilm_surface_removed i j = Keeps-wrap_ilm_remove_surface env.ilm quiet answers i j

  ruleset removal_rules =
      (keeps_rules, for_each_of_kept, with_id_kept, ilm_layer_removed, ilm_surface_removed)

  module _ (layer_removed : (i : ℕ) (s : State) → P s → P (remove_layer i s)) where
    Keeps-remove_layer : (i : ℕ) → Keeps P F (modify (remove_layer i))
    Keeps-remove_layer i = Keeps-modify _ (layer_removed i)

    pub Keeps-parse_remove_layer_command :
        (j : Option J) → Keeps P F (parse_remove_layer_command env j)
    unfolding parse_remove_layer_command
    Keeps-parse_remove_layer_command j = search (removal_rules, Keeps-remove_layer) depth 12

  module _ (surface_removed : (i k : ℕ) (s : State) → P s → P (remove_surface i k s)) where
    Keeps-remove_surface : (i j : ℕ) → Keeps P F (modify (remove_surface i j))
    Keeps-remove_surface i j = Keeps-modify _ (surface_removed i j)

    Keeps-remove_surfaces :
        (j : Option J) (layer_id : ℕ) → Keeps P F (remove_surfaces env j layer_id)
    unfolding remove_surfaces
    Keeps-remove_surfaces j layer_id = search (removal_rules, Keeps-remove_surface) depth 12

    pub Keeps-parse_remove_surface_command :
        (j : Option J) → Keeps P F (parse_remove_surface_command env j)
    unfolding parse_remove_surface_command
    Keeps-parse_remove_surface_command j = search (removal_rules, Keeps-remove_surfaces) depth 12
