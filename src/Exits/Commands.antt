-- ===== src/Exits/Commands.antt =====
-- How the handlers of commands and the start of app/comm_parser.c end, whatever the calls of libilm
-- keep.
use uhmi_ivi_wm.Base.{String, Option, none, some}
use uhmi_ivi_wm.Exec.{Status, success, failure}
use uhmi_ivi_wm.Exec.Exits.{Exits, Exits-pure, exits_rules}
use uhmi_ivi_wm.InsertOrder.{InsertInfo}
use uhmi_ivi_wm.State.{State}
use uhmi_ivi_wm.Json.{parse_insert_info, parse_version, parse_hostname, parse_command}
use uhmi_ivi_wm.Tree.{surface_has_id}
use uhmi_ivi_wm.Commands.{
  add_layers, parse_add_layer_command, parse_remove_layer_command, modify_layer,
  parse_modify_layer_command, add_surfaces, parse_add_surface_command, remove_surfaces,
  parse_remove_surface_command, modify_surface, parse_modify_surface_command,
}
use uhmi_ivi_wm.Init.{
  init_layer, init_screen, parse_all_in_screen, init_target, then_parse, load,
  parse_init_json_config, init_default_config, then_notify, parse_init_screen_command,
}
use uhmi_ivi_wm.Parser.{
  load_config, parser_init, dispatch, dispatch_if_named, parser_parse_recv_command,
}
use uhmi_ivi_wm.Env.{Env}
use uhmi_ivi_wm.Exits.Calls.{CallsEnd}
use uhmi_ivi_wm.Exits.Steps.{
  handler_rules, text_read, callback_set, lists_initialized, layer_prop_changed, screen_in,
}

module _ {J : Type 0} (env : Env J) {P E : State → Type 0} (k : CallsEnd env P E) where
  open env use {jansson, ilm}

  Exits-parse_insert_info :
      (info : InsertInfo) (j : Option J) → Exits P E (parse_insert_info jansson info j)
  unfolding parse_insert_info
  Exits-parse_insert_info info j = search handler_rules

  Exits-parse_add_layer_command : (j : Option J) → Exits P E (parse_add_layer_command env j)
  unfolding parse_add_layer_command add_layers
  Exits-parse_add_layer_command j = search (handler_rules, Exits-parse_insert_info) depth 20

  Exits-parse_remove_layer_command : (j : Option J) → Exits P E (parse_remove_layer_command env j)
  unfolding parse_remove_layer_command
  Exits-parse_remove_layer_command j = search handler_rules depth 12

  Exits-parse_modify_layer_command : (j : Option J) → Exits P E (parse_modify_layer_command env j)
  unfolding parse_modify_layer_command modify_layer
  Exits-parse_modify_layer_command j = search (handler_rules, layer_prop_changed env k) depth 20

  Exits-parse_add_surface_command : (j : Option J) → Exits P E (parse_add_surface_command env j)
  unfolding parse_add_surface_command add_surfaces
  Exits-parse_add_surface_command j = search (handler_rules, Exits-parse_insert_info) depth 20

  Exits-parse_remove_surface_command :
      (j : Option J) → Exits P E (parse_remove_surface_command env j)
  unfolding parse_remove_surface_command remove_surfaces
  Exits-parse_remove_surface_command j = search handler_rules depth 20

  Exits-parse_modify_surface_command :
      (j : Option J) → Exits P E (parse_modify_surface_command env j)
  unfolding parse_modify_surface_command modify_surface
  Exits-parse_modify_surface_command j = search handler_rules depth 20

  Exits-parse_all_in_screen : (j : Option J) → Exits P E (parse_all_in_screen env j)
  unfolding parse_all_in_screen init_screen init_layer
  Exits-parse_all_in_screen j = search handler_rules depth 20

  Exits-parse_version : (j : Option J) → Exits P E (parse_version jansson j)
  unfolding parse_version
  Exits-parse_version j = search handler_rules

  Exits-then_notify : (r : Status) → Exits P E (then_notify env r)
  Exits-then_notify success = search handler_rules
  Exits-then_notify failure = Exits-pure failure

  Exits-parse_init_screen_command : (j : Option J) → Exits P E (parse_init_screen_command env j)
  unfolding parse_init_screen_command
  Exits-parse_init_screen_command j =
      search (handler_rules, Exits-parse_version, Exits-parse_all_in_screen, Exits-then_notify)
        depth 10

  Exits-dispatch : (cmd_name : String) (j : Option J) → Exits P E (dispatch env cmd_name j)
  unfolding dispatch
  Exits-dispatch cmd_name j =
      search
        (
          exits_rules, Exits-parse_add_layer_command, Exits-parse_remove_layer_command,
          Exits-parse_modify_layer_command, Exits-parse_add_surface_command,
          Exits-parse_remove_surface_command, Exits-parse_modify_surface_command,
          Exits-parse_init_screen_command,
        )
        depth 20

  Exits-dispatch_if_named :
      (j : Option J) (o : Option String) → Exits P E (dispatch_if_named env j o)
  Exits-dispatch_if_named j (some cmd_name) = Exits-dispatch cmd_name j
  Exits-dispatch_if_named j none = Exits-pure tt

  pub Exits-parser_parse_recv_command :
      (msg : String) → Exits P E (parser_parse_recv_command env msg)
  unfolding parser_parse_recv_command parse_command
  Exits-parser_parse_recv_command msg =
      search (exits_rules, text_read, Exits-parse_version, Exits-dispatch_if_named) depth 10

  Exits-then_parse : (j : Option J) (r : Status) → Exits P E (then_parse env j r)
  Exits-then_parse j success = Exits-parse_all_in_screen j
  Exits-then_parse j failure = Exits-pure success

  Exits-load : (o : Option J) → Exits P E (load env o)
  unfolding init_target parse_hostname
  Exits-load (some j) = search (handler_rules, Exits-parse_version, Exits-then_parse) depth 20
  Exits-load none = Exits-pure failure

  Exits-load_config : (path : Option String) → Exits P E (load_config env path)
  unfolding parse_init_json_config
  Exits-load_config (some p) = search (exits_rules, Exits-load)
  Exits-load_config none = Exits-pure tt

  Exits-init_default_config : Exits P E (init_default_config env)
  unfolding init_default_config
  Exits-init_default_config = search (exits_rules, k.screen_ids, screen_in)

  pub Exits-parser_init : (path : Option String) → Exits P E (parser_init env path)
  unfolding parser_init
  Exits-parser_init path =
      search
        (exits_rules, Exits-load_config, Exits-init_default_config, lists_initialized, callback_set)
        depth 10
