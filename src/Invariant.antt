-- ===== src/Invariant.antt =====
-- What holds of the lists of app/comm_parser.c between any two steps: no id stands twice among the
-- screens, among the layers of all screens, among the surfaces of one layer, or among the surface
-- properties. So an element that the code finds by its id is the element it holds by pointer.
pub mod Store
pub mod Tree
pub mod Decide
pub mod Commands
pub mod Start
use uhmi_ivi_wm.Base.{ℕ, ◌≤◌}
use uhmi_ivi_wm.ElementList.Count.{IsUnique}
use uhmi_ivi_wm.Tree.{LayerElement, surface_has_id, screen_has_id, surface_properties_has_id}
use uhmi_ivi_wm.Tree.Layers.{layer_count, AllLayers}
use uhmi_ivi_wm.State.{State}

abbrev pub HasUniqueSurfaces : LayerElement → Type 0
HasUniqueSurfaces l = IsUnique l.surfaces

pub record IsWellFormed (s : State) : Type 0 where
  pub screens_unique : IsUnique s.screens
  pub layers_unique : (k : ℕ) → layer_count k s.screens ≤ 1
  pub surfaces_unique : AllLayers HasUniqueSurfaces s.screens
  pub properties_unique : IsUnique s.surface_properties
