-- ===== src/Parser.antt =====
-- app/comm_parser.h: the functions that app/main.c and app/ilm_control_wrapper.c call. The returned
-- `int` is left out where it is always 0 or not looked at.
pub mod Keeps
pub mod Unheeded
use uhmi_ivi_wm.Base.{
  ℕ, String, List, [], ◌∷◌, Bool, true, false, if◌then◌else◌, Option, none, some, str_eq, ◌==◌,
}
use uhmi_ivi_wm.Exec.{Exec, Status, pure, gets, fault, modify, ◌>>=◌, ◌>>◌, visit}
use uhmi_ivi_wm.ElementList.{get_list_element}
use uhmi_ivi_wm.Tree.{LayerElement, SurfacePropertiesElement, surface_properties_has_id}
use uhmi_ivi_wm.State.{State}
use uhmi_ivi_wm.Ilm.{IlmCall}
use uhmi_ivi_wm.Wrapper.{Unit₀, call, wrap_ilm_set_surface, wrap_ilm_set_notification_callback}
use uhmi_ivi_wm.Json.{parse_version, parse_command}
use uhmi_ivi_wm.Store.{add_exists_surfaces_to_layer, parser_check_registered_surface_in_list_tree}
use uhmi_ivi_wm.Commands.{
  parse_add_surface_command, parse_remove_surface_command, parse_modify_surface_command,
  parse_add_layer_command, parse_remove_layer_command, parse_modify_layer_command,
}
use uhmi_ivi_wm.Init.{parse_init_json_config, init_default_config, parse_init_screen_command}
use uhmi_ivi_wm.Env.{Env}

abbrev pub is_empty : {A : Type 0} → List A → Bool
is_empty [] = true
is_empty (x ∷ xs) = false

abbrev pub init_lists : State → State
init_lists s = record s { screens = []; surface_properties = [] }

abbrev pub ignore : Exec State Status → Exec State Unit₀
ignore m = m >>= λ _. pure tt

module _ {J : Type 0} (env : Env J) where
  open env use {jansson, ilm}

  abbrev pub load_config : Option String → Exec State Unit₀
  load_config (some json_cfg_path) = ignore (parse_init_json_config env json_cfg_path)
  load_config none = pure tt

  unfoldable pub parser_init : Option String → Exec State Unit₀
  parser_init json_cfg_path = do
    modify init_lists
    load_config json_cfg_path
    empty ← gets (λ s. is_empty s.screens)
    if empty then init_default_config env else pure tt
    wrap_ilm_set_notification_callback ilm

  -- The chain of `strcmp` on the command's name; any other name does nothing.
  unfoldable pub dispatch : String → Option J → Exec State Unit₀
  dispatch cmd_name jobject =
      if str_eq "add_surface" cmd_name
      then ignore (parse_add_surface_command env jobject)
      else if str_eq "remove_surface" cmd_name
      then ignore (parse_remove_surface_command env jobject)
      else if str_eq "modify_surface" cmd_name
      then ignore (parse_modify_surface_command env jobject)
      else if str_eq "add_layer" cmd_name
      then ignore (parse_add_layer_command env jobject)
      else if str_eq "remove_layer" cmd_name
      then ignore (parse_remove_layer_command env jobject)
      else if str_eq "modify_layer" cmd_name
      then ignore (parse_modify_layer_command env jobject)
      else if str_eq "initial_screen" cmd_name
      then ignore (parse_init_screen_command env jobject)
      else pure tt

  abbrev pub dispatch_if_named : Option J → Option String → Exec State Unit₀
  dispatch_if_named jobject (some cmd_name) = dispatch cmd_name jobject
  dispatch_if_named jobject none = pure tt

  -- `jobject` is NULL where the message is no JSON; the versions of other commands are accepted.
  unfoldable pub parser_parse_recv_command : String → Exec State Unit₀
  parser_parse_recv_command msg = do
    let jobject = jansson.json_loads msg
    parse_version jansson jobject
    cmd_name ← parse_command jansson jobject
    dispatch_if_named jobject cmd_name

  -- `surface_properties_elm->prop` reads through NULL where there are no properties.
  abbrev pub notify_surface : LayerElement → ℕ → Option SurfacePropertiesElement → Exec State Unit₀
  notify_surface layer_elm surface_id none = fault
  notify_surface layer_elm surface_id (some elm) =
      wrap_ilm_set_surface ilm elm.prop surface_id >> add_exists_surfaces_to_layer ilm layer_elm

  -- The loop over the surfaces of a layer.
  unfoldable pub notify_layer : ℕ → LayerElement → Exec State Unit₀
  notify_layer surface_id layer_elm = visit layer_elm.surfaces λ ref_surface_elm.
      if surface_id == ref_surface_elm.id
      then (gets (λ s. get_list_element s.surface_properties surface_id)
          >>= notify_surface layer_elm surface_id)
      else pure tt

  unfoldable pub parser_add_ivi_surface_by_event_notification : ℕ → Exec State Unit₀
  parser_add_ivi_surface_by_event_notification surface_id = do
    screens ← gets (λ s. s.screens)
    visit screens λ screen_elm. visit screen_elm.layers (notify_layer surface_id)

  -- The calls of `wrap_ilm_set_surfaceAddNotification` for a registered surface.
  unfoldable pub add_notification : ℕ → Exec State Unit₀
  add_notification id = do
    call ilm (IlmCall.surface_add_notification id)
    call ilm IlmCall.commit_changes
    call ilm (IlmCall.get_properties_of_surface id)
    pure tt

  -- app/ilm_control_wrapper.c
  unfoldable pub wrap_ilm_set_surface_add_notification : ℕ → Exec State Unit₀
  wrap_ilm_set_surface_add_notification id = do
    registered ← gets (parser_check_registered_surface_in_list_tree id)
    if registered then add_notification id else pure tt
