-- ===== src/Exits/Commits.antt =====
-- The commits of app/ilm_control_wrapper.c: libilm does what it was told at the next
-- `ilm_commitChanges`.
use uhmi_ivi_wm.Base.{
  ℕ, List, [], ◌∷◌, Bool, true, false, ◌≡◌, refl, Option, none, some, subst, sym,
}
use uhmi_ivi_wm.Exec.{Outcome, returned, exited, faulted, Exec, ◌>>=◌}
use uhmi_ivi_wm.Exec.Keeps.{Anything}
use uhmi_ivi_wm.Exec.Exits.{Ends, Ends-continue, Exits, Exits-pure, Exits-bind, exits_rules}
use uhmi_ivi_wm.Properties.{LayerProperties, SurfaceProperties}
use uhmi_ivi_wm.Ilm.{IlmCall, Ilm}
use uhmi_ivi_wm.State.{State}
use uhmi_ivi_wm.Wrapper.{
  call, call_only, query, ids_or_exit, found_in, wrap_ilm_exit, wrap_ilm_module_exists,
  wrap_ilm_layer_exists, wrap_ilm_surface_exists, wrap_ilm_screen_exists, wrap_ilm_get_screen_ids,
  set_layer_layout, wrap_ilm_set_layer, wrap_ilm_add_layer_to_screen, remove_ilm_layer,
  wrap_ilm_remove_layer, set_surface_layout, wrap_ilm_set_surface, wrap_ilm_add_surface_to_layer,
  remove_ilm_surface, wrap_ilm_remove_surface, wrap_ilm_set_notification_callback,
}
use uhmi_ivi_wm.Parser.{add_notification}
use uhmi_ivi_wm.Env.{Env}
use uhmi_ivi_wm.Exits.Calls.{CallsEnd}

-- The calls that ask for nothing that a commit brings about: those of a start or an end, and queries.
abbrev pub changes : IlmCall → Bool
changes IlmCall.init = false
changes IlmCall.unregister_notification = false
changes IlmCall.destroy = false
changes IlmCall.commit_changes = false
changes IlmCall.register_notification = false
changes IlmCall.get_surface_ids = false
changes IlmCall.get_layer_ids = false
changes IlmCall.get_screen_ids = false
changes (IlmCall.get_properties_of_screen i) = false
changes (IlmCall.get_properties_of_surface i) = false
changes _ = true

-- No change was asked for since the last call of `ilm_commitChanges`, whose result the code does not
-- look at; the newest call comes first.
pub data HasCommitCalled : List IlmCall → Type 0 where
  nothing_asked : HasCommitCalled []
  committed : (h : List IlmCall) → HasCommitCalled (IlmCall.commit_changes ∷ h)
  asked_nothing :
      (c : IlmCall) (h : List IlmCall)
      → changes c ≡ false
      → HasCommitCalled h
      → HasCommitCalled (c ∷ h)

abbrev pub CommitCalled : State → Type 0
CommitCalled s = HasCommitCalled s.calls

-- From any state the function returns with a commit called after all changes.
record Commits {A : Type 0} (m : Exec State A) : Type 0 where
  at : (s : State) → Ends CommitCalled Anything (m s)

any_end : {A : Type 0} (o : Outcome State A) → Ends Anything Anything o
any_end (returned a s) = tt
any_end (exited s) = tt
any_end (faulted s) = tt

module _ {A B : Type 0} where
  -- What comes last counts.
  Commits-bind :
      (m : Exec State A) (f : A → Exec State B) → ((a : A) → Commits (f a)) → Commits (m >>= f)
  unfolding ◌>>=◌
  Commits-bind m f cf = record {
    at = λ s.
        Ends-continue Anything CommitCalled Anything f (m s) (λ a t p. (cf a).at t) (any_end (m s));
  }

  Commits-then :
      (m : Exec State A) (f : A → Exec State B)
      → Commits m
      → ((a : A) → Exits CommitCalled Anything (f a))
      → Commits (m >>= f)
  unfolding ◌>>=◌
  Commits-then m f cm ef = record {
    at = λ s.
        Ends-continue CommitCalled CommitCalled Anything f (m s) (λ a t p. (ef a).at t p) (cm.at s);
  }

Commits-Exits : {A : Type 0} (m : Exec State A) → Commits m → Exits CommitCalled Anything m
Commits-Exits m cm = record { at = λ s h. cm.at s }

module _ (ilm : Ilm) where
  commits : Commits (call ilm IlmCall.commit_changes)
  unfolding call
  commits = record { at = λ s. committed s.calls }

  only_commit : Commits (call_only ilm IlmCall.commit_changes)
  only_commit = Commits-then _ _ commits (λ ok. Exits-pure tt)

  pub asks : (c : IlmCall) → changes c ≡ false → Exits CommitCalled Anything (call ilm c)
  unfolding call
  asks c e = record { at = λ s h. asked_nothing c s.calls e h }

  asks_for_ids :
      (c : IlmCall) (answer : List IlmCall → List ℕ)
      → changes c ≡ false
      → Exits CommitCalled Anything (query ilm c answer)
  unfolding query
  asks_for_ids c answer e = record { at = λ s h. asked_nothing c s.calls e h }

  exits_anyhow : {A : Type 0} → Exits CommitCalled Anything (wrap_ilm_exit ilm {A = A})
  unfolding wrap_ilm_exit call ◌>>=◌
  exits_anyhow = record { at = λ s h. tt }

  ids_found : (o : Option (List ℕ)) → Exits CommitCalled Anything (ids_or_exit ilm o)
  ids_found (some ids) = Exits-pure ids
  ids_found none = exits_anyhow

  id_found : (id : ℕ) (o : Option (List ℕ)) → Exits CommitCalled Anything (found_in ilm id o)
  id_found id (some ids) = search exits_rules
  id_found id none = search exits_rules

  surface_exists : (id : ℕ) → Exits CommitCalled Anything (wrap_ilm_surface_exists ilm id)
  unfolding wrap_ilm_surface_exists wrap_ilm_module_exists
  surface_exists id =
      Exits-bind _ _ (asks_for_ids IlmCall.get_surface_ids ilm.surface_ids refl) (id_found id)

  layer_exists : (id : ℕ) → Exits CommitCalled Anything (wrap_ilm_layer_exists ilm id)
  unfolding wrap_ilm_layer_exists wrap_ilm_module_exists
  layer_exists id =
      Exits-bind _ _ (asks_for_ids IlmCall.get_layer_ids ilm.layer_ids refl) (id_found id)

  screen_exists : (id : ℕ) → Exits CommitCalled Anything (wrap_ilm_screen_exists ilm id)
  unfolding wrap_ilm_screen_exists
  screen_exists id = asks _ refl

  screen_ids : Exits CommitCalled Anything (wrap_ilm_get_screen_ids ilm)
  unfolding wrap_ilm_get_screen_ids
  screen_ids = Exits-bind _ _ (asks_for_ids IlmCall.get_screen_ids ilm.screen_ids refl) ids_found

  callback_set : Exits CommitCalled Anything (wrap_ilm_set_notification_callback ilm)
  unfolding wrap_ilm_set_notification_callback
  callback_set = Exits-bind _ _ (asks _ refl) (λ ok. Exits-pure tt)

  ruleset commit_rules = (Commits-bind, only_commit)

  layer_set :
      (p : LayerProperties) (id : ℕ) → Exits CommitCalled Anything (wrap_ilm_set_layer ilm p id)
  unfolding wrap_ilm_set_layer set_layer_layout
  layer_set p id = Commits-Exits _ (search commit_rules depth 20)

  surface_set :
      (p : SurfaceProperties) (id : ℕ) → Exits CommitCalled Anything (wrap_ilm_set_surface ilm p id)
  unfolding wrap_ilm_set_surface set_surface_layout
  surface_set p id = search (exits_rules, surface_exists, Commits-Exits, commit_rules) depth 20

  layer_removed : (id : ℕ) → Exits CommitCalled Anything (wrap_ilm_remove_layer ilm id)
  unfolding wrap_ilm_remove_layer remove_ilm_layer
  layer_removed id = search (exits_rules, layer_exists, Commits-Exits, commit_rules) depth 20

  surface_removed : (i k : ℕ) → Exits CommitCalled Anything (wrap_ilm_remove_surface ilm i k)
  unfolding wrap_ilm_remove_surface remove_ilm_surface
  surface_removed i k = search (exits_rules, surface_exists, Commits-Exits, commit_rules) depth 20

  layer_order_sent :
      (i : ℕ) (ids : List ℕ) → Exits CommitCalled Anything (wrap_ilm_add_layer_to_screen ilm i ids)
  unfolding wrap_ilm_add_layer_to_screen
  layer_order_sent i ids = Commits-Exits _ (search commit_rules)

  surface_order_sent :
      (i : ℕ) (ids : List ℕ) → Exits CommitCalled Anything (wrap_ilm_add_surface_to_layer ilm i ids)
  unfolding wrap_ilm_add_surface_to_layer
  surface_order_sent i ids = Commits-Exits _ (search commit_rules)

module _ {J : Type 0} (env : Env J) where
  notification_added : (i : ℕ) → Exits CommitCalled Anything (add_notification env i)
  unfolding add_notification
  notification_added i = Commits-Exits _ (
      Commits-bind _ _ (λ ok. Commits-then _ _ (commits env.ilm) (λ ok.
        Exits-bind _ _ (asks env.ilm (IlmCall.get_properties_of_surface i) refl)
          (λ ok. Exits-pure tt))))

  pub committing : CallsEnd env CommitCalled Anything
  committing = record {
    of_calls = λ s t same h. subst HasCommitCalled (sym same) h;
    surface_exists = surface_exists env.ilm;
    screen_exists = screen_exists env.ilm;
    screen_ids = screen_ids env.ilm;
    callback_set = callback_set env.ilm;
    layer_set = layer_set env.ilm;
    surface_set = surface_set env.ilm;
    layer_removed = layer_removed env.ilm;
    surface_removed = surface_removed env.ilm;
    layer_order_sent = layer_order_sent env.ilm;
    surface_order_sent = surface_order_sent env.ilm;
    notification_added = notification_added;
  }
