-- ===== src/Exits.antt =====
-- Where app/ ends the process: the functions of app/ilm_control_wrapper.c, and all that call them.
pub mod Calls
pub mod Tree
pub mod Steps
pub mod Commands
pub mod Closing
pub mod Commits
use uhmi_ivi_wm.Exec.Keeps.{Anything}
use uhmi_ivi_wm.Base.{ℕ, List, ◌∷◌, ◌≡◌, false, Option, none, some, Bool-cases, inl, inr}
use uhmi_ivi_wm.Exec.{◌>>=◌}
use uhmi_ivi_wm.Exec.Exits.{Exits, exits_rules}
use uhmi_ivi_wm.Properties.{LayoutProperties, LayerProperties, SurfaceProperties}
use uhmi_ivi_wm.Ilm.{IlmCall, Ilm}
use uhmi_ivi_wm.State.{State}
use uhmi_ivi_wm.Wrapper.{
  ObjectType, call, query, wrap_ilm_exit, call_or_exit, found_in, wrap_ilm_module_exists,
  wrap_ilm_layer_exists, wrap_ilm_surface_exists, wrap_ilm_screen_exists, wrap_ilm_get_screen_ids,
  wrap_ilm_create_layer, set_layer_layout, wrap_ilm_set_layer, wrap_ilm_add_layer_to_screen,
  remove_ilm_layer, wrap_ilm_remove_layer, set_surface_layout, wrap_ilm_set_surface,
  wrap_ilm_add_surface_to_layer, remove_ilm_surface, wrap_ilm_remove_surface,
  wrap_ilm_set_notification_callback,
}
use uhmi_ivi_wm.Wrapper.Keeps.{logged}

-- The state that `wrap_ilm_exit` leaves after the failed call.
abbrev pub closed_after : IlmCall → State → State
closed_after c s = logged IlmCall.destroy (logged IlmCall.unregister_notification (logged c s))

-- What holds where a call fails and the process ends.
abbrev pub FailsIn : Ilm → (State → Type 0) → Type 0
FailsIn ilm E = (c : IlmCall) (s : State) → ilm.succeeds s.calls c ≡ false → E (closed_after c s)

module _ (ilm : Ilm) {E : State → Type 0} (fails : FailsIn ilm E) where
  pub Exits-call : (c : IlmCall) → Exits Anything E (call ilm c)
  unfolding call
  Exits-call c = record { at = λ s h. tt }

  Exits-call_or_exit : (c : IlmCall) → Exits Anything E (call_or_exit ilm c)
  unfolding call_or_exit wrap_ilm_exit call ◌>>=◌
  Exits-call_or_exit c = record {
    at = λ s h. elim (Bool-cases (ilm.succeeds s.calls c)) [
      | inl e ↦ rw e tt
      | inr e ↦ rw e (fails c s e)
    ];
  }

  pub Exits-wrap_ilm_get_screen_ids : Exits Anything E (wrap_ilm_get_screen_ids ilm)
  unfolding wrap_ilm_get_screen_ids query wrap_ilm_exit call ◌>>=◌
  Exits-wrap_ilm_get_screen_ids = record {
    at = λ s h. elim (Bool-cases (ilm.succeeds s.calls IlmCall.get_screen_ids)) [
      | inl e ↦ rw e tt
      | inr e ↦ rw e (fails IlmCall.get_screen_ids s e)
    ];
  }

  Exits-query :
      (c : IlmCall) (answer : List IlmCall → List ℕ) → Exits Anything E (query ilm c answer)
  unfolding query
  Exits-query c answer = record { at = λ s h. tt }

  Exits-found_in : (id : ℕ) (o : Option (List ℕ)) → Exits Anything E (found_in ilm id o)
  Exits-found_in id (some ids) = search exits_rules
  Exits-found_in id none = search exits_rules

  Exits-wrap_ilm_layer_exists : (id : ℕ) → Exits Anything E (wrap_ilm_layer_exists ilm id)
  unfolding wrap_ilm_layer_exists wrap_ilm_module_exists
  Exits-wrap_ilm_layer_exists id = search (exits_rules, Exits-query, Exits-found_in)

  pub Exits-wrap_ilm_surface_exists : (id : ℕ) → Exits Anything E (wrap_ilm_surface_exists ilm id)
  unfolding wrap_ilm_surface_exists wrap_ilm_module_exists
  Exits-wrap_ilm_surface_exists id = search (exits_rules, Exits-query, Exits-found_in)

  ruleset call_rules = (
    exits_rules, Exits-call, Exits-call_or_exit, Exits-wrap_ilm_layer_exists,
    Exits-wrap_ilm_surface_exists,
  )

  pub Exits-wrap_ilm_screen_exists : (id : ℕ) → Exits Anything E (wrap_ilm_screen_exists ilm id)
  unfolding wrap_ilm_screen_exists
  Exits-wrap_ilm_screen_exists id = search call_rules

  pub Exits-wrap_ilm_set_notification_callback :
      Exits Anything E (wrap_ilm_set_notification_callback ilm)
  unfolding wrap_ilm_set_notification_callback
  Exits-wrap_ilm_set_notification_callback = search call_rules

  pub Exits-wrap_ilm_set_layer :
      (prop : LayerProperties) (id : ℕ) → Exits Anything E (wrap_ilm_set_layer ilm prop id)
  unfolding wrap_ilm_set_layer wrap_ilm_create_layer set_layer_layout
  Exits-wrap_ilm_set_layer prop id = search call_rules depth 30

  pub Exits-wrap_ilm_set_surface :
      (prop : SurfaceProperties) (id : ℕ) → Exits Anything E (wrap_ilm_set_surface ilm prop id)
  unfolding wrap_ilm_set_surface set_surface_layout
  Exits-wrap_ilm_set_surface prop id = search call_rules depth 30

  pub Exits-wrap_ilm_remove_layer : (id : ℕ) → Exits Anything E (wrap_ilm_remove_layer ilm id)
  unfolding wrap_ilm_remove_layer remove_ilm_layer
  Exits-wrap_ilm_remove_layer id = search call_rules depth 20

  pub Exits-wrap_ilm_remove_surface :
      (layer_id surface_id : ℕ) → Exits Anything E (wrap_ilm_remove_surface ilm layer_id surface_id)
  unfolding wrap_ilm_remove_surface remove_ilm_surface
  Exits-wrap_ilm_remove_surface layer_id surface_id = search call_rules depth 20

  pub Exits-wrap_ilm_add_layer_to_screen :
      (id : ℕ) (ids : List ℕ) → Exits Anything E (wrap_ilm_add_layer_to_screen ilm id ids)
  unfolding wrap_ilm_add_layer_to_screen
  Exits-wrap_ilm_add_layer_to_screen id ids = search call_rules

  pub Exits-wrap_ilm_add_surface_to_layer :
      (id : ℕ) (ids : List ℕ) → Exits Anything E (wrap_ilm_add_surface_to_layer ilm id ids)
  unfolding wrap_ilm_add_surface_to_layer
  Exits-wrap_ilm_add_surface_to_layer id ids = search call_rules
