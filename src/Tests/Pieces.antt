-- ===== src/Tests/Pieces.antt =====
-- The theorems on queues, JSON values and render orders at work.
use uhmi_ivi_wm.Base.{ℕ, List, [], ◌∷◌, ◌≡◌, refl, ◌↔◌, some}
use uhmi_ivi_wm.Exec.{returned}
use uhmi_ivi_wm.Properties.{LayoutProperties, SurfaceProperties}
use uhmi_ivi_wm.InsertOrder.{InsertInfo, InsertOrder}
use uhmi_ivi_wm.ElementList.{insert_list_element, pop_list_element, get_list_element}
use uhmi_ivi_wm.ElementList.Placement.{
  Placed, insert_list_element-Placed, Popped, pop_list_element-Popped,
}
use uhmi_ivi_wm.Tree.{
  LayerElement, ScreenElement, surface_has_id, layer_has_id, surface_properties_has_id,
}
use uhmi_ivi_wm.Ilm.{IlmCall}
use uhmi_ivi_wm.Json.{CmdType, get_json_integer_value, get_json_real_value, to_uint}
use uhmi_ivi_wm.Json.Properties.{
  parse_add_properties, parse_mod_properties, parse_surface_properties,
}
use uhmi_ivi_wm.Json.Fields.{
  IsRead, parse_add_properties-IsRead, parse_mod_properties-parse_add, IsTaken,
  parse_surface_properties-IsTaken,
}
use uhmi_ivi_wm.Store.{zero_layout, add_exists_surfaces_to_layer, add_layers_to_screen}
use uhmi_ivi_wm.Store.Sending.{
  queried, Shown, add_exists_surfaces_to_layer-Shown, add_layers_to_screen-sends,
}
use uhmi_ivi_wm.Tests.World.{large_document, world, compositor, obliging, steady, surface_document}
use uhmi_ivi_wm.Tests.Runs.{five, filled}

abbrev pub screen : ScreenElement
screen = record {
  id = 0;
  layers = record { id = 5; prop = five.prop; surfaces = record { id = 10 } ∷ [] } ∷ [];
}

add_layers_to_screen-sends_example :
    (h : List IlmCall) × (add_layers_to_screen compositor screen filled
      ≡ returned tt (record filled {
        calls = IlmCall.commit_changes ∷ IlmCall.display_set_render_order 0 (5 ∷ []) ∷ h;
      }))
add_layers_to_screen-sends_example = add_layers_to_screen-sends compositor obliging screen filled

abbrev crowded : LayerElement
crowded = record {
  id = 5;
  prop = five.prop;
  surfaces = record { id = 11 } ∷ record { id = 12 } ∷ record { id = 10 } ∷ [];
}

add_exists_surfaces_to_layer-Shown_example :
    (sent : List ℕ) × Shown (10 ∷ 11 ∷ []) crowded.surfaces sent
    × (add_exists_surfaces_to_layer compositor crowded filled
        ≡ returned tt (record filled {
          calls =
              IlmCall.commit_changes
              ∷ IlmCall.layer_set_render_order 5 sent
              ∷ queried crowded.surfaces filled.calls;
        }))
add_exists_surfaces_to_layer-Shown_example =
    add_exists_surfaces_to_layer-Shown compositor obliging (10 ∷ 11 ∷ []) crowded filled steady

abbrev pair : List LayerElement
pair = five ∷ record { id = 6; prop = five.prop; surfaces = [] } ∷ []

abbrev seven : LayerElement
seven = record { id = 7; prop = five.prop; surfaces = [] }

abbrev before_six : InsertInfo
before_six = record { order = InsertOrder.before; refid = 6 }

insert_list_element-Placed_example :
    Placed InsertOrder.before 6 seven pair (insert_list_element pair seven before_six)
insert_list_element-Placed_example = insert_list_element-Placed pair seven before_six

pop_list_element-Popped_example : Popped 6 pair (pop_list_element pair 6) (get_list_element pair 6)
pop_list_element-Popped_example = pop_list_element-Popped pair 6

abbrev pub stack : SurfaceProperties
stack = record { referred_cnt = 0; lp = zero_layout }

abbrev layout : LayoutProperties
layout = record {
  src_x = 1;
  src_y = 2;
  src_w = 3;
  src_h = 4;
  dst_x = 5;
  dst_y = 6;
  dst_w = 7;
  dst_h = 8;
  opacity = 9;
  visibility = 1;
}

parse_add_properties-IsRead_example :
    (parse_add_properties world.jansson (some surface_document) ≡ some layout)
    ↔ IsRead world.jansson (some surface_document) layout
parse_add_properties-IsRead_example =
    parse_add_properties-IsRead world.jansson (some surface_document) layout

parse_mod_properties-parse_add_example :
    parse_mod_properties world.jansson zero_layout (some surface_document) ≡ layout
unfolding parse_add_properties get_json_integer_value get_json_real_value to_uint
parse_mod_properties-parse_add_example =
    parse_mod_properties-parse_add world.jansson (some surface_document) layout zero_layout refl

parse_surface_properties-IsTaken_example :
    IsTaken world.jansson CmdType.modify
      (some large_document)
      stack.lp
      (parse_surface_properties world.jansson stack (some large_document) CmdType.modify).lp
    × ((parse_surface_properties world.jansson stack
          (some large_document)
          CmdType.modify).referred_cnt
        ≡ stack.referred_cnt)
parse_surface_properties-IsTaken_example =
    parse_surface_properties-IsTaken world.jansson stack (some large_document) CmdType.modify
