-- ===== src/Scene/Sim.antt =====
-- How a function of app/comm_parser.c that returns changes the scene, with one rule for each way to
-- build such a function.
use uhmi_ivi_wm.Base.{
  ℕ, ◌≡◌, refl, sym, subst, String, List, [], ◌∷◌, Option, some, inl, inr, Bool-cases,
}
use uhmi_ivi_wm.Exec.{
  Exec, Outcome, returned, exited, faulted, Status, success, failure, pure, gets, continue, ◌>>=◌,
  and_then, for_each,
}
use uhmi_ivi_wm.Exec.Keeps.{Keeps, Holds, Anything}
use uhmi_ivi_wm.State.{State}
use uhmi_ivi_wm.Invariant.{IsWellFormed}
use uhmi_ivi_wm.Wrapper.{Unit₀}
use uhmi_ivi_wm.Json.{parse_id, get_json_array, get_json_integer_value, elements_or_none}
use uhmi_ivi_wm.Json.Reading.{get_json_integer_value-some}
use uhmi_ivi_wm.Commands.{for_each_of, with_id, then_send}
use uhmi_ivi_wm.Env.{Env}
use uhmi_ivi_wm.Scene.{Scene, view}
use uhmi_ivi_wm.Scene.Spec.{Change, Stays, Fails, Each, none_left, stopped, went_on, EachOf, WithId}

-- The state is well formed, with this scene.
abbrev pub Seen : Scene → State → Type 0
Seen a t = IsWellFormed t × (view t ≡ a)

abbrev pub Comes : Change → Scene → Outcome State Status → Type 0
Comes R a (returned st t) = IsWellFormed t × R a st (view t)
Comes R a (exited t) = Unit
Comes R a (faulted t) = Unit

-- From each well-formed state the function changes the scene by `R`, where it returns.
pub record Sim (R : Change) (m : Exec State Status) : Type 0 where
  pub at : (s : State) → IsWellFormed s → Comes R (view s) (m s)

-- What a function that does not change the scene keeps.
abbrev pub IsUnseen : {A : Type 0} → Exec State A → Type 0
IsUnseen m = (a : Scene) → Keeps (Seen a) Anything m

Comes-continue :
    {A : Type 0} (R : Change) (a b : Scene) (f : A → Exec State Status) (o : Outcome State A)
    → Holds (Seen b) Anything o
    → ((x : A) (t : State) → Seen b t → Comes R a (f x t))
    → Comes R a (continue f o)
Comes-continue R a b f (returned x t) h next = next x t h
Comes-continue R a b f (exited t) h next = tt
Comes-continue R a b f (faulted t) h next = tt

-- A first part that leads to the scene `b`.
pub Comes-bind :
    {A : Type 0} (R : Change) (a b : Scene) (m : Exec State A) (f : A → Exec State Status)
    (s : State)
    → Holds (Seen b) Anything (m s)
    → ((x : A) (t : State) → Seen b t → Comes R a (f x t))
    → Comes R a ((m >>= f) s)
unfolding ◌>>=◌
Comes-bind R a b m f s h next = Comes-continue R a b f (m s) h next

pub Sim-unseen :
    {A : Type 0} (R : Change) (m : Exec State A) (f : A → Exec State Status)
    → IsUnseen m
    → ((x : A) → Sim R (f x))
    → Sim R (m >>= f)
Sim-unseen R m f unseen next = record {
  at = λ s w.
      Comes-bind R (view s) (view s) m f s ((unseen (view s)).at s (w, refl))
        (λ x t seen. subst (λ c. Comes R c (f x t)) seen.1 ((next x).at t seen.0));
}

pub Sim-gets :
    {A : Type 0} (R : Change) (g : State → A) (f : A → Exec State Status)
    → ((s : State) → IsWellFormed s → Comes R (view s) (f (g s) s))
    → Sim R (gets g >>= f)
unfolding ◌>>=◌
Sim-gets R g f next = record { at = next }

pub Sim-success : Sim Stays (pure success)
Sim-success = record { at = λ s w. (w, (refl, refl)) }

pub Sim-failure : Sim Fails (pure failure)
Sim-failure = record { at = λ s w. (w, (refl, refl)) }

pub Sim-change :
    (R Q : Change) (m : Exec State Status)
    → ((a : Scene) (st : Status) (b : Scene) → R a st b → Q a st b)
    → Sim R m
    → Sim Q m
Sim-change R Q m change sim = record { at = λ s w. go s (m s) (sim.at s w) }
  where
    go : (s : State) (o : Outcome State Status) → Comes R (view s) o → Comes Q (view s) o
    go s (returned st t) (w, r) = (w, change (view s) st (view t) r)
    go s (exited t) h = tt
    go s (faulted t) h = tt

module _ {J : Type 0} (step : J → Change) where
  Comes-and_then :
      (x : J) (xs : List J) (a : Scene) (rest : Exec State Status) (o : Outcome State Status)
      → Sim (Each step xs) rest
      → Comes (step x) a o
      → Comes (Each step (x ∷ xs)) a (continue (and_then rest) o)
  Comes-and_then x xs a rest (returned success t) sim (w, r) = go (rest t) (sim.at t w)
    where
      go :
          (o : Outcome State Status)
          → Comes (Each step xs) (view t) o
          → Comes (Each step (x ∷ xs)) a o
      go (returned st t') (w', r') = (w', went_on r r')
      go (exited t') h = tt
      go (faulted t') h = tt
  Comes-and_then x xs a rest (returned failure t) sim (w, r) = (w, stopped r)
  Comes-and_then x xs a rest (exited t) sim h = tt
  Comes-and_then x xs a rest (faulted t) sim h = tt

  pub Sim-for_each :
      (xs : List J) (body : J → Exec State Status)
      → ((x : J) → Sim (step x) (body x))
      → Sim (Each step xs) (for_each xs body)
  unfolding for_each ◌>>=◌
  Sim-for_each [] body sims = record { at = λ s w. (w, none_left) }
  Sim-for_each (x ∷ xs) body sims = record {
    at = λ s w.
        Comes-and_then x xs (view s) (for_each xs body) (body x s) (Sim-for_each xs body sims)
          ((sims x).at s w);
  }

module _ {J : Type 0} (env : Env J) where
  open env use {jansson}

  pub Sim-for_each_of :
      (j : Option J) (key : String) (step : Option J → Change) (body : Option J → Exec State Status)
      → ((x : Option J) → Sim (step x) (body x))
      → Sim (EachOf jansson j key step) (for_each_of env (get_json_array jansson j key) body)
  unfolding for_each_of get_json_array elements_or_none
  Sim-for_each_of j key step body sims =
      elim (Bool-cases (jansson.json_is_array (jansson.json_object_get j key))) [
        | inl e ↦ rw e (
            Sim-change (Each (λ x. step (some x)) _) _ _ (λ a st b r. inl (e, r))
              (Sim-for_each (λ x. step (some x)) _ (λ x. body (some x)) (λ x. sims (some x))))
        | inr e ↦ rw e (Sim-change Fails _ _ (λ a st b r. inr (e, r)) Sim-failure)
      ]

  pub Sim-with_id :
      (j : Option J) (step : ℕ → Change) (body : ℕ → Exec State Status)
      → ((i : ℕ) → Sim (step i) (body i))
      → Sim (WithId jansson j step) (with_id env j body)
  unfolding parse_id get_json_integer_value
  Sim-with_id j step body sims =
      elim (Bool-cases (jansson.json_is_integer (jansson.json_object_get j "id"))) [
        | inl e ↦ rw e (
            Sim-change (step _) _ _
              (λ a st b r. inl (_, get_json_integer_value-some jansson j "id" _ (rw e refl), r))
              (sims _))
        | inr e ↦ rw e (Sim-change Fails _ _ (λ a st b r. inr (e, r)) Sim-failure)
      ]

-- What is sent at the end does not change the scene.
pub Sim-then_send :
    (R : Change) (m : Exec State Status) (send : Exec State Unit₀)
    → Sim R m
    → IsUnseen send
    → Sim R (m >>= then_send send)
unfolding ◌>>=◌
Sim-then_send R m send sim unseen = record { at = λ s w. go (view s) (m s) (sim.at s w) }
  where
    sent :
        (a : Scene) (t : State) (o : Outcome State Unit₀)
        → R a success (view t)
        → Holds (Seen (view t)) Anything o
        → Comes R a (continue (λ u. pure success) o)
    sent a t (returned u t') r (w, same) = (w, subst (R a success) (sym same) r)
    sent a t (exited t') r h = tt
    sent a t (faulted t') r h = tt

    go :
        (a : Scene) (o : Outcome State Status)
        → Comes R a o
        → Comes R a (continue (then_send send) o)
    go a (returned success t) (w, r) = sent a t (send t) r ((unseen (view t)).at t (w, refl))
    go a (returned failure t) h = h
    go a (exited t) h = tt
    go a (faulted t) h = tt
