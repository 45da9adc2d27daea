-- ===== src/Commands.antt =====
-- app/comm_parser.c: the handlers of the commands that change layers and surfaces.
pub mod Keeps
pub mod Removals
pub mod Sending
pub mod Modify
use uhmi_ivi_wm.Base.{ℕ, if◌then◌else◌, Option, none, some, is_some}
use uhmi_ivi_wm.Exec.{Exec, Status, success, failure, pure, gets, modify, ◌>>=◌, ◌>>◌, for_each}
use uhmi_ivi_wm.InsertOrder.{InsertInfo, insert_info_default}
use uhmi_ivi_wm.ElementList.{get_list_element}
use uhmi_ivi_wm.Tree.{
  LayerElement, get_layer, update_layer, screen_has_id, surface_properties_has_id,
}
use uhmi_ivi_wm.State.{State}
use uhmi_ivi_wm.Wrapper.{
  Unit₀, wrap_ilm_set_layer, wrap_ilm_remove_layer, wrap_ilm_set_surface, wrap_ilm_remove_surface,
}
use uhmi_ivi_wm.Properties.{LayerProperties, SurfaceProperties}
use uhmi_ivi_wm.Json.{
  CmdType, or_else, parse_id, parse_screens, parse_layers, parse_surfaces, parse_insert_info,
  elements_or_none,
}
use uhmi_ivi_wm.Json.Properties.{parse_surface_properties}
use uhmi_ivi_wm.Store.{
  remove_surface, remove_layer, add_exists_surfaces_to_layer, add_layers_to_screen,
}
use uhmi_ivi_wm.Decide.{
  set_properties, parsed_layer, decide_add_or_update_layer, decide_add_or_update_surface,
}
use uhmi_ivi_wm.Env.{Env}

-- A call on an element that the code holds by pointer, as it stands in the tree now.
abbrev pub when_some : {A : Type 0} → (A → Exec State Unit₀) → Option A → Exec State Unit₀
when_some body (some a) = body a
when_some body none = pure tt

abbrev pub or_fail : {A : Type 0} → (A → Exec State Status) → Option A → Exec State Status
or_fail body (some a) = body a
or_fail body none = pure failure

abbrev pub then_send : Exec State Unit₀ → Status → Exec State Status
then_send send success = send >> pure success
then_send send failure = pure failure

abbrev pub set_layer_prop : LayerProperties → LayerElement → LayerElement
set_layer_prop prop layer_elm = record layer_elm { prop = prop }

module _ {J : Type 0} (env : Env J) where
  open env use {jansson, ilm}

  -- `if (parse_... < 0) return -1;` and the loop over what was parsed.
  unfoldable pub for_each_of :
      Option (Option J) → (Option J → Exec State Status) → Exec State Status
  for_each_of (some array) body =
      for_each (elements_or_none jansson (some array)) (λ x. body (some x))
  for_each_of none body = pure failure

  -- `if (parse_id(...) < 0) return -1;`
  abbrev pub with_id : Option J → (ℕ → Exec State Status) → Exec State Status
  with_id jobject body = or_fail body (parse_id jansson jobject)

  -- The id as the code has it after `int id = 0; parse_id(jobject, &id);`.
  abbrev pub id_or_zero : Option J → ℕ
  id_or_zero jobject = or_else (parse_id jansson jobject) 0

  unfoldable pub send_screen : ℕ → Exec State Unit₀
  send_screen screen_id = do
    screen_elm ← gets (λ s. get_list_element s.screens screen_id)
    when_some (add_layers_to_screen ilm) screen_elm

  unfoldable pub send_layer : ℕ → Exec State Unit₀
  send_layer layer_id = do
    layer_elm ← gets (λ s. get_layer s.screens layer_id)
    when_some (add_exists_surfaces_to_layer ilm) layer_elm

  -- One screen of `parse_add_layer_command`, where `screen_elm != NULL`.
  unfoldable pub add_layers : Option J → ℕ → InsertInfo → Exec State Status
  add_layers screen_jobj screen_id insert_info = do
    done ← for_each_of (parse_layers jansson screen_jobj) λ layer_jobj.
        with_id layer_jobj λ layer_id. do
          decide_add_or_update_layer env screen_id layer_jobj layer_id CmdType.add insert_info
          pure success
    then_send (send_screen screen_id) done

  unfoldable pub parse_add_layer_command : Option J → Exec State Status
  parse_add_layer_command jobject = for_each_of (parse_screens jansson jobject) λ screen_jobj. do
    let screen_id = id_or_zero screen_jobj
    insert_info ← parse_insert_info jansson insert_info_default screen_jobj
    screen_elm ← gets (λ s. get_list_element s.screens screen_id)
    if is_some screen_elm then add_layers screen_jobj screen_id insert_info else pure success

  unfoldable pub parse_remove_layer_command : Option J → Exec State Status
  parse_remove_layer_command jobject = for_each_of (parse_layers jansson jobject) λ layer_jobj.
      with_id layer_jobj λ layer_id. do
        modify (remove_layer layer_id)
        wrap_ilm_remove_layer ilm layer_id
        pure success

  -- One layer of `parse_modify_layer_command`, where `layer_elm != NULL`.
  unfoldable pub modify_layer : Option J → ℕ → LayerElement → Exec State Unit₀
  modify_layer layer_jobj layer_id layer_elm = do
    let prop = parsed_layer env layer_elm.prop layer_jobj CmdType.modify
    modify (λ s. record s { screens = update_layer layer_id (set_layer_prop prop) s.screens })
    wrap_ilm_set_layer ilm prop layer_id

  unfoldable pub parse_modify_layer_command : Option J → Exec State Status
  parse_modify_layer_command jobject = for_each_of (parse_layers jansson jobject) λ layer_jobj.
      with_id layer_jobj λ layer_id. do
        layer_elm ← gets (λ s. get_layer s.screens layer_id)
        when_some (modify_layer layer_jobj layer_id) layer_elm
        pure success

  -- One layer of `parse_add_surface_command`, where `layer_elm != NULL`.
  unfoldable pub add_surfaces : Option J → ℕ → InsertInfo → Exec State Status
  add_surfaces layer_jobj layer_id insert_info = do
    done ← for_each_of (parse_surfaces jansson layer_jobj) λ surface_jobj.
        with_id surface_jobj λ surface_id. do
          decide_add_or_update_surface env layer_id surface_jobj surface_id CmdType.add insert_info
          pure success
    then_send (send_layer layer_id) done

  unfoldable pub parse_add_surface_command : Option J → Exec State Status
  parse_add_surface_command jobject = for_each_of (parse_screens jansson jobject) λ screen_jobj. do
    insert_info ← parse_insert_info jansson insert_info_default screen_jobj
    for_each_of (parse_layers jansson screen_jobj) λ layer_jobj. do
      let layer_id = id_or_zero layer_jobj
      layer_elm ← gets (λ s. get_layer s.screens layer_id)
      if is_some layer_elm then add_surfaces layer_jobj layer_id insert_info else pure success

  -- One layer of `parse_remove_surface_command`, where `layer_elm != NULL`.
  unfoldable pub remove_surfaces : Option J → ℕ → Exec State Status
  remove_surfaces layer_jobj layer_id =
      for_each_of (parse_surfaces jansson layer_jobj) λ surface_jobj.
        with_id surface_jobj λ surface_id. do
          modify (remove_surface layer_id surface_id)
          wrap_ilm_remove_surface ilm layer_id surface_id
          pure success

  unfoldable pub parse_remove_surface_command : Option J → Exec State Status
  parse_remove_surface_command jobject = for_each_of (parse_layers jansson jobject) λ layer_jobj.
      with_id layer_jobj λ layer_id. do
        layer_elm ← gets (λ s. get_layer s.screens layer_id)
        if is_some layer_elm then remove_surfaces layer_jobj layer_id else pure success

  -- One surface of `parse_modify_surface_command`, where it has properties.
  unfoldable pub modify_surface : Option J → ℕ → SurfaceProperties → Exec State Unit₀
  modify_surface surface_jobj surface_id old = do
    let prop = parse_surface_properties jansson old surface_jobj CmdType.modify
    modify (set_properties surface_id prop)
    wrap_ilm_set_surface ilm prop surface_id

  unfoldable pub parse_modify_surface_command : Option J → Exec State Status
  parse_modify_surface_command jobject =
      for_each_of (parse_surfaces jansson jobject) λ surface_jobj.
        with_id surface_jobj λ surface_id. do
          surface_properties_elm ← gets (λ s. get_list_element s.surface_properties surface_id)
          or_fail (λ elm. modify_surface surface_jobj surface_id elm.prop >> pure success)
              surface_properties_elm
