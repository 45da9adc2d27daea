-- ===== src/Ilm.antt =====
-- The ilm control library (wayland-ivi-extension), which the program calls and which is not part of
-- the repository: the calls as data, and what they answer as a parameter. An answer may depend on
-- all calls made before it, queries included; since no two calls see the same history, the library
-- and the applications behind it may answer each call in any way.
use uhmi_ivi_wm.Base.{ℕ, Bool, List}

pub data IlmCall : Type 0 where
  init unregister_notification destroy commit_changes : IlmCall
  register_notification : IlmCall
  get_surface_ids get_layer_ids get_screen_ids : IlmCall
  get_properties_of_screen get_properties_of_surface : ℕ → IlmCall
  layer_create_with_dimension : ℕ → ℕ → ℕ → IlmCall
  layer_set_destination_rectangle : ℕ → ℕ → ℕ → ℕ → ℕ → IlmCall
  layer_set_source_rectangle : ℕ → ℕ → ℕ → ℕ → ℕ → IlmCall
  layer_set_opacity layer_set_visibility : ℕ → ℕ → IlmCall
  layer_remove_notification layer_remove : ℕ → IlmCall
  layer_set_render_order display_set_render_order : ℕ → List ℕ → IlmCall
  layer_remove_surface : ℕ → ℕ → IlmCall
  surface_set_destination_rectangle : ℕ → ℕ → ℕ → ℕ → ℕ → IlmCall
  surface_set_source_rectangle : ℕ → ℕ → ℕ → ℕ → ℕ → IlmCall
  surface_set_opacity surface_set_visibility : ℕ → ℕ → IlmCall
  surface_add_notification surface_remove_notification : ℕ → IlmCall

-- The first argument is the history, newest call first.
pub record Ilm : Type 0 where
  -- whether the call returns ILM_SUCCESS
  pub succeeds : List IlmCall → IlmCall → Bool
  -- the array that a query for ids fills in when it succeeds
  pub surface_ids : List IlmCall → List ℕ
  pub layer_ids : List IlmCall → List ℕ
  pub screen_ids : List IlmCall → List ℕ
