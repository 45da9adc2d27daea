-- ===== src/Tests/Runs.antt =====
-- The program starts, a client adds a layer and then a surface to it, and the surface is created.
use uhmi_ivi_wm.Base.{◌≡◌, refl, List, [], ◌∷◌, ◌++◌, none}
use uhmi_ivi_wm.Exec.{returned, ◌>>=◌, visit, for_each}
use uhmi_ivi_wm.State.{State, start}
use uhmi_ivi_wm.Tests.World.{world}
use uhmi_ivi_wm.Wrapper.{
  wrap_ilm_init, call, query, wrap_ilm_get_screen_ids, wrap_ilm_set_notification_callback,
  wrap_ilm_set_layer, wrap_ilm_layer_exists, wrap_ilm_module_exists, contains_id,
  wrap_ilm_set_surface, wrap_ilm_surface_exists, set_surface_layout, wrap_ilm_create_layer,
  call_or_exit, set_layer_layout, wrap_ilm_add_layer_to_screen, wrap_ilm_add_surface_to_layer,
}
use uhmi_ivi_wm.Json.{
  parse_version, get_json_string_value, parse_command, parse_screens, get_json_array,
  elements_or_none, parse_insert_info, order_of, get_json_integer_value, to_uint, parse_id,
  parse_layers, parse_surfaces,
}
use uhmi_ivi_wm.Json.Properties.{
  parse_surface_properties, parse_layer_properties, parse_add_properties, add_layout,
}
use uhmi_ivi_wm.Decide.{
  decide_add_or_update_layer, add_new_layer, parsed_layer, decide_add_or_update_surface,
  add_new_surface,
}
use uhmi_ivi_wm.Commands.{
  parse_add_layer_command, for_each_of, add_layers, send_screen, parse_add_surface_command,
  add_surfaces, send_layer,
}
use uhmi_ivi_wm.Tree.{
  LayerElement, SurfacePropertiesElement, get_layer, update_layer, pop_layer, update_element,
}
use uhmi_ivi_wm.EventLoop.{creation_delection, handle_notification, initialize}
use uhmi_ivi_wm.Parser.{
  wrap_ilm_set_surface_add_notification, add_notification, parser_init, parser_parse_recv_command,
  dispatch,
}
use uhmi_ivi_wm.Init.{init_default_config}
use uhmi_ivi_wm.Store.{
  parser_check_registered_surface_in_list_tree, zero_layout, add_surface, add_surface_properties,
  list_surface_properties, add_screen, add_layer, add_layers_to_screen,
  add_exists_surfaces_to_layer, existing_surfaces,
}
use uhmi_ivi_wm.ElementList.{
  insert_list_element, get_list_element, insert_by, effective_order, pop_list_element,
}
use uhmi_ivi_wm.Ilm.{IlmCall}

abbrev pub running : State
running = record {
  screens = record { id = 0; layers = [] } ∷ [];
  surface_properties = [];
  calls = IlmCall.register_notification ∷ IlmCall.get_screen_ids ∷ IlmCall.init ∷ [];
  locals = 0;
}

pub starts : initialize world none start ≡ returned tt running
unfolding initialize wrap_ilm_init parser_init init_default_config wrap_ilm_get_screen_ids query
    visit add_screen insert_list_element wrap_ilm_set_notification_callback call ◌>>=◌
starts = refl

abbrev pub five : LayerElement
five = record {
  id = 5;
  prop = record { width = 640; height = 480; lp = zero_layout };
  surfaces = [];
}

abbrev set_five : List IlmCall
set_five =
    IlmCall.commit_changes
    ∷ IlmCall.layer_remove_notification 5
    ∷ IlmCall.layer_set_visibility 5 0
    ∷ IlmCall.layer_set_opacity 5 0
    ∷ IlmCall.layer_set_source_rectangle 5 0 0 0 0
    ∷ IlmCall.layer_set_destination_rectangle 5 0 0 0 0
    ∷ []

abbrev pub added : State
added = record {
  screens = record { id = 0; layers = five ∷ [] } ∷ [];
  surface_properties = [];
  calls =
      (IlmCall.commit_changes ∷ IlmCall.display_set_render_order 0 (5 ∷ []) ∷ [])
      ++ (IlmCall.commit_changes ∷ IlmCall.layer_set_render_order 5 [] ∷ [])
      ++ set_five
      ++ (IlmCall.get_layer_ids ∷ [])
      ++ set_five
      ++ (IlmCall.commit_changes
          ∷ IlmCall.layer_create_with_dimension 5 640 480
          ∷ IlmCall.get_layer_ids
          ∷ running.calls);
  locals = 1;
}

pub adds : parser_parse_recv_command world "layer 5" running ≡ returned tt added
unfolding parser_parse_recv_command parse_version get_json_string_value parse_command dispatch
    parse_add_layer_command for_each_of parse_screens get_json_array elements_or_none for_each
    parse_insert_info order_of get_json_integer_value to_uint parse_id add_layers parse_layers
    decide_add_or_update_layer pop_layer add_new_layer parsed_layer parse_layer_properties
    parse_add_properties add_layout add_layer update_element insert_list_element get_list_element
    wrap_ilm_set_layer wrap_ilm_layer_exists wrap_ilm_module_exists query contains_id
    wrap_ilm_create_layer call_or_exit set_layer_layout send_screen add_layers_to_screen
    wrap_ilm_add_layer_to_screen add_exists_surfaces_to_layer existing_surfaces
    wrap_ilm_add_surface_to_layer visit call ◌>>=◌ insert_by effective_order pop_list_element
adds = refl

abbrev pub ten : SurfacePropertiesElement
ten = record { id = 10; prop = record { referred_cnt = 1; lp = zero_layout } }

abbrev pub filled : State
filled = record {
  screens =
      record {
        id = 0;
        layers = record { id = 5; prop = five.prop; surfaces = record { id = 10 } ∷ [] } ∷ [];
      }
      ∷ [];
  surface_properties = ten ∷ [];
  calls =
      IlmCall.commit_changes
      ∷ IlmCall.layer_set_render_order 5 (10 ∷ [])
      ∷ IlmCall.get_surface_ids
      ∷ IlmCall.commit_changes
      ∷ IlmCall.surface_remove_notification 10
      ∷ IlmCall.surface_set_visibility 10 0
      ∷ IlmCall.surface_set_opacity 10 0
      ∷ IlmCall.surface_set_source_rectangle 10 0 0 0 0
      ∷ IlmCall.surface_set_destination_rectangle 10 0 0 0 0
      ∷ IlmCall.get_surface_ids
      ∷ added.calls;
  locals = 2;
}

pub fills : parser_parse_recv_command world "surface 10" added ≡ returned tt filled
unfolding parser_parse_recv_command parse_version get_json_string_value parse_command dispatch
    parse_add_surface_command for_each_of parse_screens get_json_array elements_or_none for_each
    parse_insert_info order_of get_json_integer_value to_uint parse_id add_surfaces parse_layers
    parse_surfaces decide_add_or_update_surface add_new_surface parse_surface_properties
    parse_add_properties add_layout add_surface update_element insert_list_element get_list_element
    wrap_ilm_set_surface wrap_ilm_surface_exists wrap_ilm_module_exists query contains_id
    call_or_exit set_surface_layout send_layer add_exists_surfaces_to_layer existing_surfaces
    wrap_ilm_add_surface_to_layer call ◌>>=◌ insert_by effective_order pop_list_element get_layer
    update_layer add_surface_properties list_surface_properties
fills = refl

-- The surface is created, and the loop reads the notification.
abbrev pub watched : State
watched = record filled {
  calls =
      IlmCall.get_properties_of_surface 10
      ∷ IlmCall.commit_changes
      ∷ IlmCall.surface_add_notification 10
      ∷ filled.calls;
}

pub watches : handle_notification world creation_delection 10 filled ≡ returned tt watched
unfolding handle_notification wrap_ilm_set_surface_add_notification
    parser_check_registered_surface_in_list_tree get_list_element add_notification call ◌>>=◌
watches = refl
