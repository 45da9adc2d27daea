-- ===== src/Decide.antt =====
-- app/comm_parser.c: `decide_add_or_update_layer` and `decide_add_or_update_surface`. Screens and
-- layers that the code holds by pointer are given by their ids.
pub mod Placement
pub mod Surfaces
use uhmi_ivi_wm.Base.{ℕ, ◌+◌, List, Option, none, some}
use uhmi_ivi_wm.Exec.{Exec, fault, modify, ◌>>=◌, ◌>>◌}
use uhmi_ivi_wm.InsertOrder.{InsertInfo}
use uhmi_ivi_wm.Properties.{LayerProperties, SurfaceProperties}
use uhmi_ivi_wm.ElementList.{pop_list_element, get_list_element, insert_list_element}
use uhmi_ivi_wm.Tree.{
  SurfaceElement, LayerElement, ScreenElement, SurfacePropertiesElement, update_element, get_layer,
  pop_layer, update_layer, surface_has_id, screen_has_id, surface_properties_has_id,
}
use uhmi_ivi_wm.State.{State}
use uhmi_ivi_wm.Wrapper.{Unit₀, wrap_ilm_set_layer, wrap_ilm_set_surface}
use uhmi_ivi_wm.Json.{CmdType, or_else}
use uhmi_ivi_wm.Json.Properties.{parse_layer_properties, parse_surface_properties}
use uhmi_ivi_wm.Store.{with_prop, with_surfaces, surfaces_of, add_surface, insert_layer, add_layer}
use uhmi_ivi_wm.Env.{Env}

-- One more local that was not set.
abbrev pub use_local : State → State
use_local s = record s { locals = s.locals + 1 }

-- The tree with the popped layer, under its new properties, in the screen.
abbrev pub reinsert_layer : ℕ → LayerElement → InsertInfo → List ScreenElement → State → State
reinsert_layer screen_id layer_elm insert_info screens s = record s {
  screens = update_element screen_id (insert_layer layer_elm insert_info) screens;
}

abbrev pub set_surfaces : ℕ → List SurfaceElement → State → State
set_surfaces layer_id surfaces s = record s {
  screens = update_layer layer_id (with_surfaces surfaces) s.screens;
}

abbrev pub set_properties : ℕ → SurfaceProperties → State → State
set_properties surface_id prop s = record s {
  surface_properties = update_element surface_id (with_prop prop) s.surface_properties;
}

module _ {J : Type 0} (env : Env J) where
  open env use {jansson, ilm}

  -- `parse_layer_properties(&prop, ...)`, with its status ignored.
  unfoldable pub parsed_layer : LayerProperties → Option J → CmdType → LayerProperties
  parsed_layer prop layer_jobj type =
      or_else (parse_layer_properties jansson prop layer_jobj type) prop

  -- The branch for a layer that is in no screen.
  unfoldable pub add_new_layer : ℕ → Option J → ℕ → CmdType → InsertInfo → Exec State Unit₀
  add_new_layer screen_id layer_jobj layer_id type insert_info s =
      let layer_prop = parsed_layer (env.stack_layer s.locals) layer_jobj type in
      (do
        modify use_local
        modify (add_layer screen_id layer_prop layer_id insert_info)
        wrap_ilm_set_layer ilm layer_prop layer_id)
        s

  -- The branch for a layer that was popped, with `screens` left.
  unfoldable pub update_popped_layer :
      ℕ → Option J → ℕ → CmdType → InsertInfo → LayerElement → List ScreenElement → Exec State Unit₀
  update_popped_layer screen_id layer_jobj layer_id type insert_info layer_elm screens = do
    let prop = parsed_layer layer_elm.prop layer_jobj type
    modify (reinsert_layer screen_id (record layer_elm { prop = prop }) insert_info screens)
    wrap_ilm_set_layer ilm prop layer_id

  unfoldable pub decide_add_or_update_layer :
      ℕ → Option J → ℕ → CmdType → InsertInfo → Exec State Unit₀
  decide_add_or_update_layer screen_id layer_jobj layer_id type insert_info s =
      elim (pop_layer s.screens layer_id) [
        | none ↦ add_new_layer screen_id layer_jobj layer_id type insert_info s
        | some (layer_elm, screens) ↦
            update_popped_layer screen_id layer_jobj layer_id type insert_info layer_elm screens s
      ]

  -- The branch for a surface that the layer does not hold.
  unfoldable pub add_new_surface : ℕ → Option J → ℕ → CmdType → InsertInfo → Exec State Unit₀
  add_new_surface layer_id surface_jobj surface_id type insert_info s =
      let surface_prop =
        parse_surface_properties jansson (env.stack_surface s.locals) surface_jobj type in
      (do
        modify use_local
        modify (add_surface layer_id surface_prop surface_id insert_info)
        wrap_ilm_set_surface ilm surface_prop surface_id)
        s

  -- The branch for a surface that was popped, with `rest` left: without properties for it the code
  -- reads through NULL.
  unfoldable pub update_popped_surface :
      ℕ
      → Option J
      → ℕ
      → CmdType
      → InsertInfo
      → SurfaceElement
      → List SurfaceElement
      → Exec State Unit₀
  update_popped_surface layer_id surface_jobj surface_id type insert_info surface_elm rest s =
      elim (get_list_element s.surface_properties surface_id) [
        | none ↦ (modify (set_surfaces layer_id rest) >> fault) s
        | some elm ↦
            (do
              let prop = parse_surface_properties jansson elm.prop surface_jobj type
              modify (set_properties surface_id prop)
              modify (set_surfaces layer_id (insert_list_element rest surface_elm insert_info))
              wrap_ilm_set_surface ilm prop surface_id)
              s
      ]

  unfoldable pub decide_add_or_update_surface :
      ℕ → Option J → ℕ → CmdType → InsertInfo → Exec State Unit₀
  decide_add_or_update_surface layer_id surface_jobj surface_id type insert_info s =
      elim (pop_list_element (surfaces_of (get_layer s.screens layer_id)) surface_id) [
        | none ↦ add_new_surface layer_id surface_jobj surface_id type insert_info s
        | some (surface_elm, rest) ↦
            update_popped_surface layer_id surface_jobj surface_id type insert_info surface_elm rest
              s
      ]
