-- ===== src/Wrapper/Keeps.antt =====
-- What the functions of app/ilm_control_wrapper.c keep: every property of the state that does not
-- look at the recorded calls.
use uhmi_ivi_wm.Base.{ℕ, List, ◌∷◌, ◌≡◌, false, Option, none, some, Bool-cases, inl, inr, refl, ◌⊎◌}
use uhmi_ivi_wm.Exec.{◌>>=◌}
use uhmi_ivi_wm.Exec.Keeps.{Keeps, keeps_rules}
use uhmi_ivi_wm.Properties.{LayoutProperties, LayerProperties, SurfaceProperties}
use uhmi_ivi_wm.Ilm.{IlmCall, Ilm}
use uhmi_ivi_wm.State.{State}
use uhmi_ivi_wm.Wrapper.{
  call, query, wrap_ilm_exit, call_or_exit, found_in, ids_or_exit, wrap_ilm_module_exists,
  wrap_ilm_layer_exists, wrap_ilm_surface_exists, wrap_ilm_screen_exists, wrap_ilm_get_screen_ids,
  wrap_ilm_create_layer, set_layer_layout, wrap_ilm_set_layer, wrap_ilm_add_layer_to_screen,
  remove_ilm_layer, wrap_ilm_remove_layer, set_surface_layout, wrap_ilm_set_surface,
  wrap_ilm_add_surface_to_layer, remove_ilm_surface, wrap_ilm_remove_surface,
  wrap_ilm_set_notification_callback,
}

abbrev pub logged : IlmCall → State → State
logged c s = record s { calls = c ∷ s.calls }

-- A property that recorded calls do not change.
abbrev pub IsQuiet : (State → Type 0) → Type 0
IsQuiet P = (c : IlmCall) (s : State) → P s → P (logged c s)

module _ (ilm : Ilm) {P F : State → Type 0} (quiet : IsQuiet P) where
  pub Keeps-call : (c : IlmCall) → Keeps P F (call ilm c)
  unfolding call
  Keeps-call c = record { at = quiet c }

  pub Keeps-query : (c : IlmCall) (answer : List IlmCall → List ℕ) → Keeps P F (query ilm c answer)
  unfolding query
  Keeps-query c answer = record { at = quiet c }

  pub Keeps-wrap_ilm_exit : {A : Type 0} → Keeps P F (wrap_ilm_exit ilm {A = A})
  unfolding wrap_ilm_exit
  Keeps-wrap_ilm_exit = search (keeps_rules, Keeps-call)

  pub Keeps-call_or_exit : (c : IlmCall) → Keeps P F (call_or_exit ilm c)
  unfolding call_or_exit
  Keeps-call_or_exit c = search (keeps_rules, Keeps-call, Keeps-wrap_ilm_exit)

  ruleset call_rules = (keeps_rules, Keeps-call, Keeps-wrap_ilm_exit, Keeps-call_or_exit)

  pub Keeps-wrap_ilm_screen_exists : (id : ℕ) → Keeps P F (wrap_ilm_screen_exists ilm id)
  unfolding wrap_ilm_screen_exists
  Keeps-wrap_ilm_screen_exists id = search call_rules

  pub Keeps-set_layer_layout :
      (lp : LayoutProperties) (id : ℕ) → Keeps P F (set_layer_layout ilm lp id)
  unfolding set_layer_layout
  Keeps-set_layer_layout lp id = search call_rules depth 20

  pub Keeps-set_surface_layout :
      (lp : LayoutProperties) (id : ℕ) → Keeps P F (set_surface_layout ilm lp id)
  unfolding set_surface_layout
  Keeps-set_surface_layout lp id = search call_rules depth 20

  pub Keeps-wrap_ilm_create_layer :
      (prop : LayerProperties) (id : ℕ) → Keeps P F (wrap_ilm_create_layer ilm prop id)
  unfolding wrap_ilm_create_layer
  Keeps-wrap_ilm_create_layer prop id = search call_rules depth 20

  pub Keeps-remove_ilm_layer : (id : ℕ) → Keeps P F (remove_ilm_layer ilm id)
  unfolding remove_ilm_layer
  Keeps-remove_ilm_layer id = search call_rules depth 20

  pub Keeps-remove_ilm_surface :
      (layer_id surface_id : ℕ) → Keeps P F (remove_ilm_surface ilm layer_id surface_id)
  unfolding remove_ilm_surface
  Keeps-remove_ilm_surface layer_id surface_id = search call_rules depth 20

  pub Keeps-wrap_ilm_add_layer_to_screen :
      (id : ℕ) (ids : List ℕ) → Keeps P F (wrap_ilm_add_layer_to_screen ilm id ids)
  unfolding wrap_ilm_add_layer_to_screen
  Keeps-wrap_ilm_add_layer_to_screen id ids = search call_rules depth 20

  pub Keeps-wrap_ilm_add_surface_to_layer :
      (id : ℕ) (ids : List ℕ) → Keeps P F (wrap_ilm_add_surface_to_layer ilm id ids)
  unfolding wrap_ilm_add_surface_to_layer
  Keeps-wrap_ilm_add_surface_to_layer id ids = search call_rules depth 20

  pub Keeps-wrap_ilm_set_notification_callback : Keeps P F (wrap_ilm_set_notification_callback ilm)
  unfolding wrap_ilm_set_notification_callback
  Keeps-wrap_ilm_set_notification_callback = search call_rules

  Keeps-ids_or_exit : (o : Option (List ℕ)) → Keeps P F (ids_or_exit ilm o)
  Keeps-ids_or_exit (some ids) = search call_rules
  Keeps-ids_or_exit none = search call_rules

  pub Keeps-wrap_ilm_get_screen_ids : Keeps P F (wrap_ilm_get_screen_ids ilm)
  unfolding wrap_ilm_get_screen_ids
  Keeps-wrap_ilm_get_screen_ids = search (keeps_rules, Keeps-query, Keeps-ids_or_exit)

-- `answers` says what holds where a query of the surfaces or layers fails.
abbrev pub Answers : Ilm → (State → Type 0) → (State → Type 0) → Type 0
Answers ilm P F =
    (c : IlmCall) (s : State)
    → (c ≡ IlmCall.get_surface_ids) ⊎ (c ≡ IlmCall.get_layer_ids)
    → ilm.succeeds s.calls c ≡ false
    → P s
    → F (logged c s)

module _ (ilm : Ilm) {P F : State → Type 0} (quiet : IsQuiet P) (answers : Answers ilm P F) where
  Keeps-found_in :
      (c : IlmCall) (answer : List IlmCall → List ℕ) (id : ℕ)
      → (c ≡ IlmCall.get_surface_ids) ⊎ (c ≡ IlmCall.get_layer_ids)
      → Keeps P F (query ilm c answer >>= found_in ilm id)
  unfolding query ◌>>=◌
  Keeps-found_in c answer id which = record {
    at = λ s h. elim (Bool-cases (ilm.succeeds s.calls c)) [
      | inl yes_ ↦ rw yes_ (quiet c s h)
      | inr no_ ↦ rw no_ (answers c s which no_ h)
    ];
  }

  pub Keeps-wrap_ilm_layer_exists : (id : ℕ) → Keeps P F (wrap_ilm_layer_exists ilm id)
  unfolding wrap_ilm_layer_exists wrap_ilm_module_exists
  Keeps-wrap_ilm_layer_exists id = Keeps-found_in IlmCall.get_layer_ids ilm.layer_ids id (inr refl)

  pub Keeps-wrap_ilm_surface_exists : (id : ℕ) → Keeps P F (wrap_ilm_surface_exists ilm id)
  unfolding wrap_ilm_surface_exists wrap_ilm_module_exists
  Keeps-wrap_ilm_surface_exists id =
      Keeps-found_in IlmCall.get_surface_ids ilm.surface_ids id (inl refl)

  ruleset exists_rules = (keeps_rules, Keeps-wrap_ilm_layer_exists, Keeps-wrap_ilm_surface_exists)

  pub Keeps-wrap_ilm_set_layer :
      (prop : LayerProperties) (id : ℕ) → Keeps P F (wrap_ilm_set_layer ilm prop id)
  unfolding wrap_ilm_set_layer
  Keeps-wrap_ilm_set_layer prop id =
      search (exists_rules, Keeps-wrap_ilm_create_layer ilm quiet, Keeps-set_layer_layout ilm quiet)
        depth 10

  pub Keeps-wrap_ilm_set_surface :
      (prop : SurfaceProperties) (id : ℕ) → Keeps P F (wrap_ilm_set_surface ilm prop id)
  unfolding wrap_ilm_set_surface
  Keeps-wrap_ilm_set_surface prop id =
      search (exists_rules, Keeps-set_surface_layout ilm quiet) depth 10

  pub Keeps-wrap_ilm_remove_layer : (id : ℕ) → Keeps P F (wrap_ilm_remove_layer ilm id)
  unfolding wrap_ilm_remove_layer
  Keeps-wrap_ilm_remove_layer id = search (exists_rules, Keeps-remove_ilm_layer ilm quiet) depth 10

  pub Keeps-wrap_ilm_remove_surface :
      (layer_id surface_id : ℕ) → Keeps P F (wrap_ilm_remove_surface ilm layer_id surface_id)
  unfolding wrap_ilm_remove_surface
  Keeps-wrap_ilm_remove_surface layer_id surface_id =
      search (exists_rules, Keeps-remove_ilm_surface ilm quiet) depth 10
