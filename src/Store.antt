-- ===== src/Store.antt =====
-- app/comm_parser.c: the changes to the tree and to the surface properties, and the render orders
-- that are sent for them. Memory that is allocated or freed shows only in what is listed.
pub mod Properties
pub mod Keeps
pub mod Removal
pub mod Sending
use uhmi_ivi_wm.Base.{
  is_some, ℕ, ◌+◌, ◌-◌, ◌%◌, ◌^◌, List, [], ◌∷◌, map, Option, none, some, Bool, ◌==◌, if◌then◌else◌,
}
use uhmi_ivi_wm.Exec.{Exec, pure, ◌>>=◌, ◌>>◌, visit}
use uhmi_ivi_wm.InsertOrder.{InsertInfo, insert_info_default}
use uhmi_ivi_wm.Properties.{LayoutProperties, LayerProperties, SurfaceProperties}
use uhmi_ivi_wm.ElementList.{pop_list_element, get_list_element, insert_list_element}
use uhmi_ivi_wm.Tree.{
  SurfaceElement, LayerElement, ScreenElement, SurfacePropertiesElement, update_element, get_layer,
  pop_layer, update_layer, with_layers, surface_has_id, layer_has_id, screen_has_id,
  surface_properties_has_id,
}
use uhmi_ivi_wm.Ilm.{Ilm}
use uhmi_ivi_wm.State.{State}
use uhmi_ivi_wm.Wrapper.{
  Unit₀, wrap_ilm_surface_exists, wrap_ilm_set_layer, wrap_ilm_add_layer_to_screen,
  wrap_ilm_add_surface_to_layer,
}

-- What `calloc` gives for properties.
abbrev pub zero_layout : LayoutProperties
zero_layout = record {
  src_x = 0;
  src_y = 0;
  src_w = 0;
  src_h = 0;
  dst_x = 0;
  dst_y = 0;
  dst_w = 0;
  dst_h = 0;
  opacity = 0;
  visibility = 0;
}

-- `prop->referred_cnt++` on an unsigned int.
abbrev pub one_more_reference : SurfaceProperties → SurfaceProperties
one_more_reference prop = record prop { referred_cnt = (prop.referred_cnt + 1) % 2 ^ 32 }

-- `prop->referred_cnt--`.
abbrev pub one_less_reference : SurfaceProperties → SurfaceProperties
one_less_reference prop = record prop { referred_cnt = (prop.referred_cnt + (2 ^ 32 - 1)) % 2 ^ 32 }

abbrev pub with_prop : SurfaceProperties → SurfacePropertiesElement → SurfacePropertiesElement
with_prop prop elm = record elm { prop = prop }

-- `list` stands for `surface_properties_head` here and below.
unfoldable pub list_surface_properties :
    ℕ → List SurfacePropertiesElement → List SurfacePropertiesElement
list_surface_properties surface_id list = elim (get_list_element list surface_id) [
  | none ↦
      insert_list_element list
        (record { id = surface_id; prop = record { referred_cnt = 0; lp = zero_layout } })
        insert_info_default
  | some _ ↦ list
]

unfoldable pub add_surface_properties :
    SurfaceProperties → ℕ → List SurfacePropertiesElement → List SurfacePropertiesElement
add_surface_properties prop surface_id list =
    update_element surface_id (with_prop (one_more_reference prop))
      (list_surface_properties surface_id list)

-- What a pop leaves of the queue `list`.
abbrev pub rest_or : {A : Type 0} → List A → Option (A × List A) → List A
rest_or list (some (elm, rest)) = rest
rest_or list none = list

-- One reference less; at 0 the properties go.
unfoldable pub release_properties :
    ℕ → SurfaceProperties → List SurfacePropertiesElement → List SurfacePropertiesElement
release_properties surface_id prop list =
    if prop.referred_cnt == 0
    then rest_or list (pop_list_element list surface_id)
    else update_element surface_id (with_prop prop) list

unfoldable pub remove_surface_properties :
    ℕ → List SurfacePropertiesElement → List SurfacePropertiesElement
remove_surface_properties surface_id list = elim (get_list_element list surface_id) [
  | none ↦ list
  | some elm ↦ release_properties surface_id (one_less_reference elm.prop) list
]

-- The `while` loop takes the surfaces of a layer one by one from the front.
unfoldable pub remove_all_surface :
    List SurfaceElement → List SurfacePropertiesElement → List SurfacePropertiesElement
remove_all_surface [] list = list
remove_all_surface (surface_elm ∷ rest) list =
    remove_all_surface rest (remove_surface_properties surface_elm.id list)

abbrev pub with_surfaces : List SurfaceElement → LayerElement → LayerElement
with_surfaces surfaces layer_elm = record layer_elm { surfaces = surfaces }

abbrev pub surfaces_of : Option LayerElement → List SurfaceElement
surfaces_of (some layer_elm) = layer_elm.surfaces
surfaces_of none = []

-- A layer element in the code is given here by its id.
unfoldable pub add_surface : ℕ → SurfaceProperties → ℕ → InsertInfo → State → State
add_surface layer_id prop surface_id insert_info s = record s {
  surface_properties = add_surface_properties prop surface_id s.surface_properties;
  screens =
      update_layer layer_id
        (λ l.
          with_surfaces (insert_list_element l.surfaces (record { id = surface_id }) insert_info) l)
        s.screens;
}

unfoldable pub remove_surface : ℕ → ℕ → State → State
remove_surface layer_id surface_id s =
    elim (pop_list_element (surfaces_of (get_layer s.screens layer_id)) surface_id) [
      | none ↦ s
      | some (surface_elm, rest) ↦ record s {
        screens = update_layer layer_id (with_surfaces rest) s.screens;
        surface_properties = remove_surface_properties surface_id s.surface_properties;
      }
    ]

-- The layers of the screen, with a new one in its place.
abbrev pub insert_layer : LayerElement → InsertInfo → ScreenElement → ScreenElement
insert_layer layer_elm insert_info screen_elm =
    with_layers screen_elm (insert_list_element screen_elm.layers layer_elm insert_info)

-- A screen element in the code is given here by its id.
unfoldable pub add_layer : ℕ → LayerProperties → ℕ → InsertInfo → State → State
add_layer screen_id prop layer_id insert_info s = record s {
  screens =
      update_element screen_id
        (insert_layer (record { id = layer_id; prop = prop; surfaces = [] }) insert_info) s.screens;
}

unfoldable pub remove_layer : ℕ → State → State
remove_layer layer_id s = elim (pop_layer s.screens layer_id) [
  | none ↦ s
  | some (layer_elm, screens) ↦ record s {
    screens = screens;
    surface_properties = remove_all_surface layer_elm.surfaces s.surface_properties;
  }
]

unfoldable pub add_screen : ℕ → State → State
add_screen screen_id s = record s {
  screens =
      insert_list_element s.screens (record { id = screen_id; layers = [] }) insert_info_default;
}

-- The first loop of `remove_all`, over the layers of one screen.
unfoldable pub remove_layers :
    List LayerElement → List SurfacePropertiesElement → List SurfacePropertiesElement
remove_layers [] list = list
remove_layers (layer_elm ∷ rest) list =
    remove_layers rest (remove_all_surface layer_elm.surfaces list)

unfoldable pub remove_screens :
    List ScreenElement → List SurfacePropertiesElement → List SurfacePropertiesElement
remove_screens [] list = list
remove_screens (screen_elm ∷ rest) list = remove_screens rest (remove_layers screen_elm.layers list)

unfoldable pub remove_all : State → State
remove_all s = record s {
  screens = [];
  surface_properties = remove_screens s.screens s.surface_properties;
}

unfoldable pub parser_check_registered_surface_in_list_tree : ℕ → State → Bool
parser_check_registered_surface_in_list_tree surface_id s =
    is_some (get_list_element s.surface_properties surface_id)

module _ (ilm : Ilm) where
  -- `surface_array_n`: the surfaces that exist when they are asked for, in the layer's order.
  unfoldable pub existing_surfaces : List SurfaceElement → Exec State (List ℕ)
  existing_surfaces [] = pure []
  existing_surfaces (surface_elm ∷ rest) = do
    exists ← wrap_ilm_surface_exists ilm surface_elm.id
    ids ← existing_surfaces rest
    pure (if exists then surface_elm.id ∷ ids else ids)

  unfoldable pub add_exists_surfaces_to_layer : LayerElement → Exec State Unit₀
  add_exists_surfaces_to_layer layer_elm = do
    surface_array_n ← existing_surfaces layer_elm.surfaces
    wrap_ilm_add_surface_to_layer ilm layer_elm.id surface_array_n

  unfoldable pub add_layers_to_screen : ScreenElement → Exec State Unit₀
  add_layers_to_screen screen_elm = do
    visit screen_elm.layers λ layer_elm. do
      wrap_ilm_set_layer ilm layer_elm.prop layer_elm.id
      add_exists_surfaces_to_layer layer_elm
    wrap_ilm_add_layer_to_screen ilm screen_elm.id (map (λ l. l.id) screen_elm.layers)
