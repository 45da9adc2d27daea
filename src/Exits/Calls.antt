-- ===== src/Exits/Calls.antt =====
-- What the theorems on how the functions of app/comm_parser.c end use of the functions of
-- app/ilm_control_wrapper.c that they call.
use uhmi_ivi_wm.Base.{ℕ, List, ◌≡◌}
use uhmi_ivi_wm.Exec.{modify}
use uhmi_ivi_wm.Exec.Exits.{Exits, Exits-modify}
use uhmi_ivi_wm.Properties.{LayerProperties, SurfaceProperties}
use uhmi_ivi_wm.State.{State}
use uhmi_ivi_wm.Wrapper.{
  wrap_ilm_surface_exists, wrap_ilm_screen_exists, wrap_ilm_get_screen_ids, wrap_ilm_set_layer,
  wrap_ilm_set_surface, wrap_ilm_remove_layer, wrap_ilm_remove_surface,
  wrap_ilm_add_layer_to_screen, wrap_ilm_add_surface_to_layer, wrap_ilm_set_notification_callback,
}
use uhmi_ivi_wm.Parser.{add_notification}
use uhmi_ivi_wm.Env.{Env}

-- `P` looks at the recorded calls alone, and every function of the wrapper keeps it where it
-- returns, and has `E` where it ends the process.
pub record CallsEnd {J : Type 0} (env : Env J) (P E : State → Type 0) : Type 0 where
  pub of_calls : (s t : State) → t.calls ≡ s.calls → P s → P t
  pub surface_exists : (i : ℕ) → Exits P E (wrap_ilm_surface_exists env.ilm i)
  pub screen_exists : (i : ℕ) → Exits P E (wrap_ilm_screen_exists env.ilm i)
  pub screen_ids : Exits P E (wrap_ilm_get_screen_ids env.ilm)
  pub callback_set : Exits P E (wrap_ilm_set_notification_callback env.ilm)
  pub layer_set : (p : LayerProperties) (i : ℕ) → Exits P E (wrap_ilm_set_layer env.ilm p i)
  pub surface_set : (p : SurfaceProperties) (i : ℕ) → Exits P E (wrap_ilm_set_surface env.ilm p i)
  pub layer_removed : (i : ℕ) → Exits P E (wrap_ilm_remove_layer env.ilm i)
  pub surface_removed : (i k : ℕ) → Exits P E (wrap_ilm_remove_surface env.ilm i k)
  pub layer_order_sent :
      (i : ℕ) (ids : List ℕ) → Exits P E (wrap_ilm_add_layer_to_screen env.ilm i ids)
  pub surface_order_sent :
      (i : ℕ) (ids : List ℕ) → Exits P E (wrap_ilm_add_surface_to_layer env.ilm i ids)
  pub notification_added : (i : ℕ) → Exits P E (add_notification env i)

-- A change of the lists alone.
pub changed :
    {J : Type 0} {env : Env J} {P E : State → Type 0}
    → CallsEnd env P E
    → (f : State → State) → ((s : State) → (f s).calls ≡ s.calls)
    → Exits P E (modify f)
changed k f same = Exits-modify f (λ s h. k.of_calls s (f s) (same s) h)
