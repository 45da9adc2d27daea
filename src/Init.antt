-- ===== src/Init.antt =====
-- app/comm_parser.c: building a whole tree, from the configuration file, from the screens that
-- there are, or from the command `initial_screen`.
pub mod Keeps
use uhmi_ivi_wm.Base.{ℕ, String, if◌then◌else◌, Option, none, some, is_some}
use uhmi_ivi_wm.Exec.{Exec, Status, success, failure, pure, modify, ◌>>=◌, ◌>>◌, for_each, visit}
use uhmi_ivi_wm.InsertOrder.{insert_info_default}
use uhmi_ivi_wm.ElementList.{get_list_element}
use uhmi_ivi_wm.Tree.{screen_has_id}
use uhmi_ivi_wm.State.{State}
use uhmi_ivi_wm.Wrapper.{
  Unit₀, wrap_ilm_screen_exists, wrap_ilm_get_screen_ids, wrap_ilm_set_notification_callback,
}
use uhmi_ivi_wm.Json.{
  CmdType, parse_target, parse_screens, parse_layers, parse_surfaces, parse_id, parse_hostname,
  parse_version, elements_or_none,
}
use uhmi_ivi_wm.Store.{add_screen, remove_all}
use uhmi_ivi_wm.Decide.{decide_add_or_update_layer, decide_add_or_update_surface}
use uhmi_ivi_wm.Commands.{id_or_zero, send_screen}
use uhmi_ivi_wm.Env.{Env}

-- `if (screen_elm == NULL) screen_elm = add_screen(screen_id);`
unfoldable pub ensure_screen : ℕ → State → State
ensure_screen screen_id s =
    if is_some (get_list_element s.screens screen_id) then s else add_screen screen_id s

module _ {J : Type 0} (env : Env J) where
  open env use {jansson, ilm}

  -- The body of the loop over the layers of a screen.
  unfoldable pub init_layer : ℕ → Option J → Exec State Unit₀
  init_layer screen_id layer_jobj = do
    let layer_id = id_or_zero env layer_jobj
    decide_add_or_update_layer env screen_id layer_jobj layer_id CmdType.add insert_info_default
    visit (elements_or_none jansson (parse_surfaces jansson layer_jobj)) λ surface_jobj.
        decide_add_or_update_surface env layer_id (some surface_jobj)
          (id_or_zero env (some surface_jobj)) CmdType.add insert_info_default

  -- The body of the loop over the screens, where the screen exists.
  unfoldable pub init_screen : Option J → ℕ → Exec State Unit₀
  init_screen screen_jobj screen_id = do
    modify (ensure_screen screen_id)
    visit (elements_or_none jansson (parse_layers jansson screen_jobj))
        λ layer_jobj. init_layer screen_id (some layer_jobj)
    send_screen env screen_id

  unfoldable pub parse_all_in_screen : Option J → Exec State Status
  parse_all_in_screen jobject =
      for_each (elements_or_none jansson (parse_screens jansson jobject)) λ screen_jobj. do
        let screen_id = id_or_zero env (some screen_jobj)
        exists ← wrap_ilm_screen_exists ilm screen_id
        if exists then init_screen (some screen_jobj) screen_id >> pure success else pure failure

  abbrev pub then_parse : Option J → Status → Exec State Status
  then_parse target_jobj success = parse_all_in_screen target_jobj
  then_parse target_jobj failure = pure success

  -- One target of the configuration file: another host's is passed over.
  unfoldable pub init_target : Option J → Exec State Status
  init_target target_jobj = do
    status ← parse_hostname jansson env.local_hostname target_jobj
    then_parse target_jobj status

  -- The rest of `parse_init_json_config`, once the file is read.
  abbrev pub load : Option J → Exec State Status
  load none = pure failure
  load (some root_jobj) = do
    parse_version jansson (some root_jobj)
    for_each (elements_or_none jansson (parse_target jansson (some root_jobj)))
        λ target_jobj. init_target (some target_jobj)

  unfoldable pub parse_init_json_config : String → Exec State Status
  parse_init_json_config json_cfg_path = load (jansson.json_load_file json_cfg_path)

  unfoldable pub init_default_config : Exec State Unit₀
  init_default_config = do
    screen_array_n ← wrap_ilm_get_screen_ids ilm
    visit screen_array_n λ screen_id. modify (add_screen screen_id)

  abbrev pub then_notify : Status → Exec State Status
  then_notify success = wrap_ilm_set_notification_callback ilm >> pure success
  then_notify failure = pure failure

  unfoldable pub parse_init_screen_command : Option J → Exec State Status
  parse_init_screen_command jobject = do
    parse_version jansson jobject
    modify remove_all
    status ← parse_all_in_screen jobject
    then_notify status
