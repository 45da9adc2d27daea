-- ===== src/Safety.antt =====
-- Undefined behaviour in app/comm_parser.c: where the code reads through NULL it does so for a
-- surface that a layer holds and that has no properties listed, and where it writes past a buffer
-- it does so for a text that is too long.
pub mod Steps
pub mod Decide
pub mod Commands
pub mod Notification
pub mod Shared
pub mod Start
use Prim.Native.String.{len}
use uhmi_ivi_wm.Base.{ℕ, ◌≤◌, ◌<◌, ◌≡◌, List, Option, some, none, String, true, All}
use uhmi_ivi_wm.ElementList.Count.{count}
use uhmi_ivi_wm.Tree.{LayerElement, SurfacePropertiesElement, surface_properties_has_id}
use uhmi_ivi_wm.Tree.Layers.{AllLayers}
use uhmi_ivi_wm.Ilm.{IlmCall, Ilm}
use uhmi_ivi_wm.Jansson.{Jansson}
use uhmi_ivi_wm.Json.Documents.{Part}
use uhmi_ivi_wm.State.{State}
use uhmi_ivi_wm.Env.{Env}

-- Each surface of the layer has its properties in the list.
abbrev pub ListedIn : List SurfacePropertiesElement → LayerElement → Type 0
ListedIn list l = All (λ x. 1 ≤ count x.id list) l.surfaces

pub record IsRegistered (s : State) : Type 0 where
  pub listed : AllLayers (ListedIn s.surface_properties) s.screens

-- In the document no text that the code copies is as long as the buffer for it.
pub record HasShortTexts {J : Type 0} (js : Jansson J) (root : Option J) : Type 0 where
  pub version_fits :
      (j : Option J)
      → Part js root j
      → len (js.json_string_value (js.json_object_get j "version")) < 32
  pub hostname_fits :
      (j : Option J)
      → Part js root j
      → len (js.json_string_value (js.json_object_get j "hostname")) < 32
  pub command_fits :
      (j : Option J)
      → Part js root j
      → len (js.json_string_value (js.json_object_get j "command")) < 16
  pub order_fits :
      (j : Option J)
      → Part js root j
      → len (js.json_string_value (js.json_object_get j "insert_order")) < 32

-- The configuration file's, where there is one.
abbrev pub HasShortConfig : {J : Type 0} → Jansson J → Option String → Type 0
HasShortConfig js none = Unit
HasShortConfig js (some path) = HasShortTexts js (js.json_load_file path)

-- libilm answers the queries whose result the code does not check.
pub record AnswersQueries (ilm : Ilm) : Type 0 where
  pub surfaces_answered : (h : List IlmCall) → ilm.succeeds h IlmCall.get_surface_ids ≡ true
  pub layers_answered : (h : List IlmCall) → ilm.succeeds h IlmCall.get_layer_ids ≡ true
