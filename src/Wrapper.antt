-- ===== src/Wrapper.antt =====
-- app/ilm_control_wrapper.c: what the window manager does through libilm. A call of libilm is
-- recorded in the state; its result comes from the parameter `ilm`. Where a query of ids fails, the
-- code reads the array that was not filled in: a fault.
pub mod Keeps
pub mod Returns
use uhmi_ivi_wm.Base.{
  ℕ, List, [], ◌∷◌, Bool, true, false, ◌==◌, ◌||◌, if◌then◌else◌, Option, none, some,
}
use uhmi_ivi_wm.Exec.{Exec, returned, pure, exit, fault, ◌>>=◌, ◌>>◌}
use uhmi_ivi_wm.Properties.{LayoutProperties, LayerProperties, SurfaceProperties}
use uhmi_ivi_wm.Ilm.{IlmCall, Ilm}
use uhmi_ivi_wm.State.{State}

abbrev pub Unit₀ : Type 0
Unit₀ = Unit

pub data ObjectType : Type 0 where
  surface layer other : ObjectType

module _ (ilm : Ilm) where
  unfoldable pub call : IlmCall → Exec State Bool
  call c s = returned (ilm.succeeds s.calls c) (record s { calls = c ∷ s.calls })

  -- A query that fills in an array when it succeeds.
  unfoldable pub query : IlmCall → (List IlmCall → List ℕ) → Exec State (Option (List ℕ))
  query c answer s =
      returned (if ilm.succeeds s.calls c then some (answer s.calls) else none)
        (record s { calls = c ∷ s.calls })

  -- A call whose result is not looked at.
  abbrev pub call_only : IlmCall → Exec State Unit₀
  call_only c = call c >> pure tt

  unfoldable pub wrap_ilm_exit : {A : Type 0} → Exec State A
  wrap_ilm_exit = do call_only IlmCall.unregister_notification; call_only IlmCall.destroy; exit

  -- `callResult = c; if (ILM_SUCCESS != callResult) wrap_ilm_exit(callResult);`
  unfoldable pub call_or_exit : IlmCall → Exec State Unit₀
  call_or_exit c = do ok ← call c; if ok then pure tt else wrap_ilm_exit

  -- The part of `wrap_ilm_init` that concerns libilm.
  unfoldable pub wrap_ilm_init : Exec State Unit₀
  wrap_ilm_init = do ok ← call IlmCall.init; if ok then pure tt else exit

  -- `for (i = 0; i < length; i++) if (IDs[i] == id) { exists = 1; break; }`
  unfoldable pub contains_id : List ℕ → ℕ → Bool
  contains_id [] id = false
  contains_id (x ∷ xs) id = x == id || contains_id xs id

  abbrev pub found_in : ℕ → Option (List ℕ) → Exec State Bool
  found_in id (some ids) = pure (contains_id ids id)
  found_in id none = fault

  unfoldable pub wrap_ilm_module_exists : ObjectType → ℕ → Exec State Bool
  wrap_ilm_module_exists ObjectType.surface id =
      query IlmCall.get_surface_ids ilm.surface_ids >>= found_in id
  wrap_ilm_module_exists ObjectType.layer id =
      query IlmCall.get_layer_ids ilm.layer_ids >>= found_in id
  wrap_ilm_module_exists ObjectType.other id = fault

  unfoldable pub wrap_ilm_layer_exists : ℕ → Exec State Bool
  wrap_ilm_layer_exists id = wrap_ilm_module_exists ObjectType.layer id

  unfoldable pub wrap_ilm_surface_exists : ℕ → Exec State Bool
  wrap_ilm_surface_exists id = wrap_ilm_module_exists ObjectType.surface id

  unfoldable pub wrap_ilm_screen_exists : ℕ → Exec State Bool
  wrap_ilm_screen_exists id = call (IlmCall.get_properties_of_screen id)

  abbrev pub ids_or_exit : Option (List ℕ) → Exec State (List ℕ)
  ids_or_exit (some ids) = pure ids
  ids_or_exit none = wrap_ilm_exit

  unfoldable pub wrap_ilm_get_screen_ids : Exec State (List ℕ)
  wrap_ilm_get_screen_ids = query IlmCall.get_screen_ids ilm.screen_ids >>= ids_or_exit

  unfoldable pub wrap_ilm_create_layer : LayerProperties → ℕ → Exec State Unit₀
  wrap_ilm_create_layer prop id = do
    call_or_exit (IlmCall.layer_create_with_dimension id prop.width prop.height)
    call_only IlmCall.commit_changes

  -- The calls of `wrap_ilm_set_layer` for a layer that exists.
  unfoldable pub set_layer_layout : LayoutProperties → ℕ → Exec State Unit₀
  set_layer_layout prop id = do
    call_or_exit
        (IlmCall.layer_set_destination_rectangle id prop.dst_x prop.dst_y prop.dst_w prop.dst_h)
    call_or_exit (IlmCall.layer_set_source_rectangle id prop.src_x prop.src_y prop.src_w prop.src_h)
    call_or_exit (IlmCall.layer_set_opacity id prop.opacity)
    call_or_exit (IlmCall.layer_set_visibility id prop.visibility)
    call_only (IlmCall.layer_remove_notification id)
    call_only IlmCall.commit_changes

  unfoldable pub wrap_ilm_set_layer : LayerProperties → ℕ → Exec State Unit₀
  wrap_ilm_set_layer layer_prop id = do
    exists ← wrap_ilm_layer_exists id
    if exists then pure tt else wrap_ilm_create_layer layer_prop id
    set_layer_layout layer_prop.lp id

  unfoldable pub wrap_ilm_add_layer_to_screen : ℕ → List ℕ → Exec State Unit₀
  wrap_ilm_add_layer_to_screen id layer_array_n = do
    call_or_exit (IlmCall.display_set_render_order id layer_array_n)
    call_only IlmCall.commit_changes

  -- The calls of `wrap_ilm_remove_layer` for a layer that exists.
  unfoldable pub remove_ilm_layer : ℕ → Exec State Unit₀
  remove_ilm_layer layer_id = do
    call_or_exit (IlmCall.layer_remove layer_id)
    call_only (IlmCall.layer_remove_notification layer_id)
    call_only IlmCall.commit_changes

  unfoldable pub wrap_ilm_remove_layer : ℕ → Exec State Unit₀
  wrap_ilm_remove_layer layer_id = do
    exists ← wrap_ilm_layer_exists layer_id
    if exists then remove_ilm_layer layer_id else pure tt

  -- The calls of `wrap_ilm_set_surface` for a surface that exists.
  unfoldable pub set_surface_layout : LayoutProperties → ℕ → Exec State Unit₀
  set_surface_layout prop id = do
    call_or_exit
        (IlmCall.surface_set_destination_rectangle id prop.dst_x prop.dst_y prop.dst_w prop.dst_h)
    call_or_exit
        (IlmCall.surface_set_source_rectangle id prop.src_x prop.src_y prop.src_w prop.src_h)
    call_or_exit (IlmCall.surface_set_opacity id prop.opacity)
    call_or_exit (IlmCall.surface_set_visibility id prop.visibility)
    call_only (IlmCall.surface_remove_notification id)
    call_only IlmCall.commit_changes

  unfoldable pub wrap_ilm_set_surface : SurfaceProperties → ℕ → Exec State Unit₀
  wrap_ilm_set_surface surface_prop id = do
    exists ← wrap_ilm_surface_exists id
    if exists then set_surface_layout surface_prop.lp id else pure tt

  unfoldable pub wrap_ilm_add_surface_to_layer : ℕ → List ℕ → Exec State Unit₀
  wrap_ilm_add_surface_to_layer id surface_array_n = do
    call_or_exit (IlmCall.layer_set_render_order id surface_array_n)
    call_only IlmCall.commit_changes

  -- The calls of `wrap_ilm_remove_surface` for a surface that exists.
  unfoldable pub remove_ilm_surface : ℕ → ℕ → Exec State Unit₀
  remove_ilm_surface layer_id surface_id = do
    call_or_exit (IlmCall.layer_remove_surface layer_id surface_id)
    call_only (IlmCall.surface_remove_notification surface_id)
    call_only IlmCall.commit_changes

  unfoldable pub wrap_ilm_remove_surface : ℕ → ℕ → Exec State Unit₀
  wrap_ilm_remove_surface layer_id surface_id = do
    exists ← wrap_ilm_surface_exists surface_id
    if exists then remove_ilm_surface layer_id surface_id else pure tt

  unfoldable pub wrap_ilm_set_notification_callback : Exec State Unit₀
  wrap_ilm_set_notification_callback = call_only IlmCall.register_notification
