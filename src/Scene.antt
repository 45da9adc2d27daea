-- ===== src/Scene.antt =====
-- What a viewer could tell of app/comm_parser.c: which layers stand on each screen and which surfaces
-- on each layer, in which order. The properties, the calls and the list of surface properties are
-- forgotten, and the steps look at no queue position but through `InsertInfo`.
pub mod Queue
pub mod Layers
pub mod Surfaces
pub mod Placement
pub mod Steps
pub mod Spec
pub mod Sim
pub mod Effects
pub mod Commands
pub mod Refinement
use uhmi_ivi_wm.Base.{ℕ, String, List, [], ◌∷◌, ◌++◌, map, Option, none, some, ◌==◌, if◌then◌else◌}
use uhmi_ivi_wm.InsertOrder.{InsertInfo}
use uhmi_ivi_wm.ElementList.{HasId, id, get_list_element, insert_list_element, number_has_id}
use uhmi_ivi_wm.Tree.{LayerElement, ScreenElement}
use uhmi_ivi_wm.State.{State}

pub record LayerView : Type 0 where
  pub id : ℕ
  pub surfaces : List ℕ

pub record ScreenView : Type 0 where
  pub id : ℕ
  pub layers : List LayerView

abbrev pub Scene : Type 0
Scene = List ScreenView

instance abbrev pub layer_view_has_id : HasId LayerView
layer_view_has_id = record { id = λ x. x.id }

abbrev pub layer_view : LayerElement → LayerView
layer_view l = record { id = l.id; surfaces = map (λ x. x.id) l.surfaces }

abbrev pub screen_view : ScreenElement → ScreenView
screen_view s = record { id = s.id; layers = map layer_view s.layers }

abbrev pub view : State → Scene
view s = map screen_view s.screens

-- The queue but for every element with the id.
abbrev pub removing {ℓ} : {A : Type ℓ} ⦃h : HasId A⦄ → ℕ → List A → List A
removing i [] = []
removing i (x ∷ xs) = if id x == i then removing i xs else x ∷ removing i xs

abbrev pub surfaces_if_any : List ℕ → Option LayerView → List ℕ
surfaces_if_any rest none = rest
surfaces_if_any rest (some l) = l.surfaces

-- The surfaces of a layer, whichever screen it stands on.
abbrev pub surfaces_on : ℕ → Scene → List ℕ
unfolding get_list_element
surfaces_on i [] = []
surfaces_on i (s ∷ rest) = surfaces_if_any (surfaces_on i rest) (get_list_element s.layers i)

abbrev pub with_layer_views : ScreenView → List LayerView → ScreenView
with_layer_views s layers = record s { layers = layers }

-- The layer leaves the screen that it stands on.
abbrev pub take_layer : ℕ → Scene → Scene
take_layer i = map (λ s. with_layer_views s (removing i s.layers))

-- It comes, with its surfaces, to the screen.
abbrev pub layer_onto : ℕ → LayerView → InsertInfo → ScreenView → ScreenView
layer_onto screen_id l info s =
    let layers = removing l.id s.layers in
    with_layer_views s (if s.id == screen_id then insert_list_element layers l info else layers)

abbrev pub place_layer : ℕ → ℕ → InsertInfo → Scene → Scene
place_layer screen_id i info scene =
    map (layer_onto screen_id (record { id = i; surfaces = surfaces_on i scene }) info) scene

-- A change of the surfaces of one layer.
abbrev pub on_layer : ℕ → (List ℕ → List ℕ) → Scene → Scene
on_layer layer_id f = map (λ s.
    with_layer_views s
      (map (λ l. if l.id == layer_id then record l { surfaces = f l.surfaces } else l) s.layers))

abbrev pub take_surface : ℕ → ℕ → Scene → Scene
take_surface layer_id i = on_layer layer_id (removing i)

abbrev pub place_surface : ℕ → ℕ → InsertInfo → Scene → Scene
place_surface layer_id i info =
    on_layer layer_id (λ surfaces. insert_list_element (removing i surfaces) i info)

-- What `initial_screen` is made of.
pub data Move : Type 0 where
  layer_placed : (screen_id layer_id : ℕ) (info : InsertInfo) → Move
  surface_placed : (layer_id surface_id : ℕ) (info : InsertInfo) → Move
  screen_added : (screen_id : ℕ) → Move
  cleared : Move

abbrev pub apply : Move → Scene → Scene
apply (layer_placed screen_id layer_id info) scene = place_layer screen_id layer_id info scene
apply (surface_placed layer_id surface_id info) scene = place_surface layer_id surface_id info scene
apply (screen_added screen_id) scene = scene ++ record { id = screen_id; layers = [] } ∷ []
apply cleared scene = []

-- Moves of some kinds, one after the other.
pub data Moves (Allowed : Move → Type 0) (a : Scene) : Scene → Type 0 where
  unchanged : Moves Allowed a a
  then_move : {b : Scene} (m : Move) → Moves Allowed a b → Allowed m → Moves Allowed a (apply m b)
