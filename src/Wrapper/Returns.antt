-- ===== src/Wrapper/Returns.antt =====
-- Where libilm does all that it is asked for, the functions of app/ilm_control_wrapper.c return.
use uhmi_ivi_wm.Base.{ℕ, List, [], ◌∷◌, ◌≡◌, refl, Bool, true, false, if◌then◌else◌}
use uhmi_ivi_wm.Exec.{Exec, returned, pure, ◌>>=◌, visit}
use uhmi_ivi_wm.Properties.{LayoutProperties, LayerProperties}
use uhmi_ivi_wm.Ilm.{IlmCall, Ilm}
use uhmi_ivi_wm.State.{State}
use uhmi_ivi_wm.Wrapper.{
  Unit₀, call, query, call_or_exit, found_in, contains_id, wrap_ilm_module_exists,
  wrap_ilm_layer_exists, wrap_ilm_surface_exists, wrap_ilm_create_layer, set_layer_layout,
  wrap_ilm_set_layer, wrap_ilm_add_surface_to_layer,
}

-- The function returns, and leaves the lists as they were.
pub record Returns {A : Type 0} (m : Exec State A) : Type 0 where
  pub value : State → A
  pub calls : State → List IlmCall
  pub at : (s : State) → m s ≡ returned (value s) (record s { calls = calls s })

pub Returns-pure : {A : Type 0} (a : A) → Returns (pure a)
Returns-pure a = record { value = λ s. a; calls = λ s. s.calls; at = λ s. refl }

pub Returns-if :
    {A : Type 0} (b : Bool) (m n : Exec State A)
    → Returns m
    → Returns n
    → Returns (if b then m else n)
Returns-if true m n rm rn = rm
Returns-if false m n rm rn = rn

pub Returns-bind :
    {A B : Type 0} (m : Exec State A) (f : A → Exec State B)
    → Returns m
    → ((a : A) → Returns (f a))
    → Returns (m >>= f)
unfolding ◌>>=◌
Returns-bind m f rm rf = record {
  value = λ s. (rf (rm.value s)).value (record s { calls = rm.calls s });
  calls = λ s. (rf (rm.value s)).calls (record s { calls = rm.calls s });
  at = λ s. rw (rm.at s, (rf (rm.value s)).at (record s { calls = rm.calls s })) refl;
}

pub Returns-visit :
    {J : Type 0} (xs : List J) (body : J → Exec State Unit₀)
    → ((x : J) → Returns (body x))
    → Returns (visit xs body)
unfolding visit
Returns-visit [] body r = Returns-pure tt
Returns-visit (x ∷ xs) body r = Returns-bind (body x) _ (r x) (λ _. Returns-visit xs body r)

-- Every call succeeds.
abbrev pub IsObliging : Ilm → Type 0
IsObliging ilm = (h : List IlmCall) (c : IlmCall) → ilm.succeeds h c ≡ true

module _ (ilm : Ilm) (obliging : IsObliging ilm) where
  Returns-call : (c : IlmCall) → Returns (call ilm c)
  unfolding call
  Returns-call c = record {
    value = λ s. ilm.succeeds s.calls c;
    calls = λ s. c ∷ s.calls;
    at = λ s. refl;
  }

  pub Returns-call_or_exit : (c : IlmCall) → Returns (call_or_exit ilm c)
  unfolding call_or_exit call ◌>>=◌
  Returns-call_or_exit c = record {
    value = λ s. tt;
    calls = λ s. c ∷ s.calls;
    at = λ s. rw (obliging s.calls c) refl;
  }

  Returns-found :
      (c : IlmCall) (answer : List IlmCall → List ℕ) (id : ℕ)
      → Returns (query ilm c answer >>= found_in ilm id)
  unfolding query ◌>>=◌
  Returns-found c answer id = record {
    value = λ s. contains_id ilm (answer s.calls) id;
    calls = λ s. c ∷ s.calls;
    at = λ s. rw (obliging s.calls c) refl;
  }

  pub Returns-wrap_ilm_surface_exists : (id : ℕ) → Returns (wrap_ilm_surface_exists ilm id)
  unfolding wrap_ilm_surface_exists wrap_ilm_module_exists
  Returns-wrap_ilm_surface_exists id = Returns-found IlmCall.get_surface_ids ilm.surface_ids id

  Returns-wrap_ilm_layer_exists : (id : ℕ) → Returns (wrap_ilm_layer_exists ilm id)
  unfolding wrap_ilm_layer_exists wrap_ilm_module_exists
  Returns-wrap_ilm_layer_exists id = Returns-found IlmCall.get_layer_ids ilm.layer_ids id

  Returns-wrap_ilm_create_layer :
      (p : LayerProperties) (i : ℕ) → Returns (wrap_ilm_create_layer ilm p i)
  unfolding wrap_ilm_create_layer
  Returns-wrap_ilm_create_layer p i =
      search (Returns-pure, Returns-bind, Returns-call, Returns-call_or_exit) depth 10

  Returns-set_layer_layout : (p : LayoutProperties) (i : ℕ) → Returns (set_layer_layout ilm p i)
  unfolding set_layer_layout
  Returns-set_layer_layout p i =
      search (Returns-pure, Returns-bind, Returns-call, Returns-call_or_exit) depth 20

  pub Returns-wrap_ilm_set_layer :
      (p : LayerProperties) (i : ℕ) → Returns (wrap_ilm_set_layer ilm p i)
  unfolding wrap_ilm_set_layer
  Returns-wrap_ilm_set_layer p i =
      search
        (
          Returns-pure, Returns-bind, Returns-if, Returns-wrap_ilm_layer_exists,
          Returns-wrap_ilm_create_layer, Returns-set_layer_layout,
        )
        depth 10

  pub Returns-wrap_ilm_add_surface_to_layer :
      (i : ℕ) (ids : List ℕ) → Returns (wrap_ilm_add_surface_to_layer ilm i ids)
  unfolding wrap_ilm_add_surface_to_layer
  Returns-wrap_ilm_add_surface_to_layer i ids =
      search (Returns-pure, Returns-bind, Returns-call, Returns-call_or_exit) depth 10
