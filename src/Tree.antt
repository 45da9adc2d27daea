-- ===== src/Tree.antt =====
-- app/comm_parser.c: the tree of screens, layers and surfaces (`screen_head`), and the list of
-- surface properties (`surface_properties_head`). A list_element_t has one of four roles here, each
-- with the fields that the code uses in it. A pointer to a screen or layer element that the code
-- holds is the element's id, and a write through it changes the first such element: no id stands
-- twice (module Invariant), and the code moves no element while it uses the pointer afterwards.
pub mod Layers
pub mod Lookup
use mathlib.Core.Option
use uhmi_ivi_wm.Base.{ℕ, List, [], ◌∷◌, ◌++◌, Option, none, some, ◌==◌, if◌then◌else◌}
use uhmi_ivi_wm.Properties.{LayerProperties, SurfaceProperties}
use uhmi_ivi_wm.ElementList.{HasId, pop_list_element, get_list_element}

-- A surface in a layer carries only its id.
pub record SurfaceElement : Type 0 where
  pub id : ℕ

pub record LayerElement : Type 0 where
  pub id : ℕ
  pub prop : LayerProperties
  pub surfaces : List SurfaceElement

pub record ScreenElement : Type 0 where
  pub id : ℕ
  pub layers : List LayerElement

pub record SurfacePropertiesElement : Type 0 where
  pub id : ℕ
  pub prop : SurfaceProperties

instance abbrev pub surface_has_id : HasId SurfaceElement
surface_has_id = record { id = λ x. x.id }

instance abbrev pub layer_has_id : HasId LayerElement
layer_has_id = record { id = λ x. x.id }

instance abbrev pub screen_has_id : HasId ScreenElement
screen_has_id = record { id = λ x. x.id }

instance abbrev pub surface_properties_has_id : HasId SurfacePropertiesElement
surface_properties_has_id = record { id = λ x. x.id }

-- A write to the first element with the id, where there is one.
module _ {A : Type 0} ⦃h : HasId A⦄ where
  unfoldable pub update_element : ℕ → (A → A) → List A → List A
  update_element i f [] = []
  update_element i f (elm ∷ rest) =
      if h.id elm == i then f elm ∷ rest else elm ∷ update_element i f rest

unfoldable pub get_layer : List ScreenElement → ℕ → Option LayerElement
get_layer [] i = none
get_layer (screen_elm ∷ rest) i = elim (get_list_element screen_elm.layers i) [
  | some layer_elm ↦ some layer_elm
  | none ↦ get_layer rest i
]

-- The screens with `layers` for the layers of the first.
abbrev pub with_layers : ScreenElement → List LayerElement → ScreenElement
with_layers screen_elm layers = record screen_elm { layers = layers }

unfoldable pub pop_layer : List ScreenElement → ℕ → Option (LayerElement × List ScreenElement)
pop_layer [] i = none
pop_layer (screen_elm ∷ rest) i = elim (pop_list_element screen_elm.layers i) [
  | some (layer_elm, layers) ↦ some (layer_elm, with_layers screen_elm layers ∷ rest)
  | none ↦ Option.map (λ (layer_elm, screens). (layer_elm, screen_elm ∷ screens)) (pop_layer rest i)
]

-- A write to a layer element, found as `get_layer` finds it.
unfoldable pub update_layer :
    ℕ → (LayerElement → LayerElement) → List ScreenElement → List ScreenElement
update_layer i f [] = []
update_layer i f (screen_elm ∷ rest) = elim (get_list_element screen_elm.layers i) [
  | some _ ↦ with_layers screen_elm (update_element i f screen_elm.layers) ∷ rest
  | none ↦ screen_elm ∷ update_layer i f rest
]
