-- ===== src/Invariant/Commands.antt =====
-- Every command, notification and the start of app/comm_parser.c keep the invariant.
use uhmi_ivi_wm.Base.{ℕ, refl, String, Option, inl, inr, Option-cases}
use uhmi_ivi_wm.Exec.Keeps.{Keeps, keeps_rules}
use uhmi_ivi_wm.Properties.{LayerProperties}
use uhmi_ivi_wm.Tree.{screen_has_id, update_layer}
use uhmi_ivi_wm.ElementList.{get_list_element, number_has_id}
use uhmi_ivi_wm.ElementList.Count.{count-get_none}
use uhmi_ivi_wm.Tree.Layers.{AllLayers-get}
use uhmi_ivi_wm.State.{State}
use uhmi_ivi_wm.Json.{get_json_string_value}
use uhmi_ivi_wm.Json.{CmdType}
use uhmi_ivi_wm.Commands.{set_layer_prop}
use uhmi_ivi_wm.Commands.Keeps.{StepsKeep, RemovalsKeep}
use uhmi_ivi_wm.Init.{ensure_screen, parse_init_json_config}
use uhmi_ivi_wm.Init.Keeps.{BuildKeep, Keeps-parse_init_json_config}
use uhmi_ivi_wm.Parser.{
  parser_parse_recv_command, parser_add_ivi_surface_by_event_notification,
  wrap_ilm_set_surface_add_notification,
}
use uhmi_ivi_wm.Parser.Keeps.{
  Keeps-parser_parse_recv_command, Keeps-notification, Keeps-wrap_ilm_set_surface_add_notification,
}
use uhmi_ivi_wm.Env.{Env}
use uhmi_ivi_wm.Invariant.{IsWellFormed, HasUniqueSurfaces}
use uhmi_ivi_wm.Invariant.Store.{write_layer-IsWellFormed, remove_surface-IsWellFormed}
use uhmi_ivi_wm.Invariant.Tree.{
  remove_layer-IsWellFormed, remove_all-IsWellFormed, add_screen-IsWellFormed,
}
use uhmi_ivi_wm.Invariant.Decide.{
  IsWellFormed-quiet, IsWellFormed-answers, decide_add_or_update_layer-IsWellFormed,
  decide_add_or_update_surface-IsWellFormed, set_properties-IsWellFormed,
}

pub layer_prop-IsWellFormed :
    (i : ℕ) (prop : LayerProperties) (s : State)
    → IsWellFormed s
    → IsWellFormed (record s { screens = update_layer i (set_layer_prop prop) s.screens })
layer_prop-IsWellFormed i prop s w =
    write_layer-IsWellFormed i (set_layer_prop prop) s (λ x. refl)
      (λ l found. AllLayers-get HasUniqueSurfaces i s.screens l w.surfaces_unique found) w

pub ensure_screen-IsWellFormed :
    (i : ℕ) (s : State) → IsWellFormed s → IsWellFormed (ensure_screen i s)
unfolding ensure_screen
ensure_screen-IsWellFormed i s w = elim (Option-cases (get_list_element s.screens i)) [
  | inl e ↦ rw e (add_screen-IsWellFormed i s (count-get_none i s.screens e) w)
  | inr (x, e) ↦ rw e w
]

pub removals : RemovalsKeep IsWellFormed
removals = record {
  layer_removed = remove_layer-IsWellFormed;
  surface_removed = remove_surface-IsWellFormed;
}

module _ {J : Type 0} (env : Env J) where
  text-IsWellFormed :
      (j : Option J) (key : String) (size : ℕ)
      → Keeps IsWellFormed IsWellFormed (get_json_string_value env.jansson {S = State} j key size)
  unfolding get_json_string_value
  text-IsWellFormed j key size = search keeps_rules

  steps : (root : Option J) → StepsKeep env root IsWellFormed IsWellFormed
  steps root = record {
    sends = record {
      quiet = IsWellFormed-quiet;
      answers = IsWellFormed-answers env;
      order_text = λ j part. text-IsWellFormed j "insert_order" 32;
    };
    layer = λ screen_id j layer_id info.
        decide_add_or_update_layer-IsWellFormed env screen_id j layer_id CmdType.add info;
    surface = λ layer_id j surface_id info.
        decide_add_or_update_surface-IsWellFormed env layer_id j surface_id CmdType.add info;
    layer_prop = layer_prop-IsWellFormed;
    surface_prop = set_properties-IsWellFormed;
  }

  builds : (root : Option J) → BuildKeep env root IsWellFormed IsWellFormed
  builds root = record {
    version_text = λ j part. text-IsWellFormed j "version" 32;
    hostname_text = λ j part. text-IsWellFormed j "hostname" 32;
    command_text = λ j part. text-IsWellFormed j "command" 16;
    screen_ensured = ensure_screen-IsWellFormed;
    all_removed = remove_all-IsWellFormed;
  }

  -- Whatever a client sends, no id comes to stand twice: among the screens, among the layers of all
  -- screens, among the surfaces of a layer, or among the surface properties. This holds where the
  -- handler returns, where it exits, and where it faults.
  pub parser_parse_recv_command-IsWellFormed :
      (msg : String) → Keeps IsWellFormed IsWellFormed (parser_parse_recv_command env msg)
  parser_parse_recv_command-IsWellFormed msg =
      Keeps-parser_parse_recv_command env msg (steps _) removals (builds _)

  pub notification-IsWellFormed :
      (surface_id : ℕ)
      → Keeps IsWellFormed IsWellFormed
          (parser_add_ivi_surface_by_event_notification env surface_id)
  notification-IsWellFormed surface_id =
      Keeps-notification env IsWellFormed-quiet (IsWellFormed-answers env) surface_id

  pub add_notification-IsWellFormed :
      (surface_id : ℕ)
      → Keeps IsWellFormed IsWellFormed (wrap_ilm_set_surface_add_notification env surface_id)
  add_notification-IsWellFormed surface_id =
      Keeps-wrap_ilm_set_surface_add_notification env IsWellFormed-quiet surface_id

  pub parse_init_json_config-IsWellFormed :
      (path : String) → Keeps IsWellFormed IsWellFormed (parse_init_json_config env path)
  parse_init_json_config-IsWellFormed path =
      Keeps-parse_init_json_config env path (steps _) (builds _)
