-- ===== src/Exec/Exits.antt =====
-- How a function that runs as `Exec` returns and where it may end the process, with one rule for
-- each way to build such a function.
use uhmi_ivi_wm.Exec.Keeps.{Anything}
use uhmi_ivi_wm.Base.{Bool, true, false, List, [], ◌∷◌, if◌then◌else◌}
use uhmi_ivi_wm.Exec.{
  Outcome, returned, exited, faulted, Exec, Status, success, failure, pure, gets, modify, exit,
  fault, continue, ◌>>=◌, and_then, for_each, visit,
}

abbrev pub Ends : {S A : Type 0} → (S → Type 0) → (S → Type 0) → Outcome S A → Type 0
Ends P E (returned a s) = P s
Ends P E (exited s) = E s
Ends P E (faulted s) = Unit

abbrev pub LeavesIn : {S A : Type 0} → (S → Type 0) → Outcome S A → Type 0
LeavesIn E o = Ends Anything E o

-- From a state with `P`, `P` holds where the function returns and `E` where it exits.
pub record Exits {S A : Type 0} (P E : S → Type 0) (m : Exec S A) : Type 0 where
  pub at : (s : S) → P s → Ends P E (m s)

module _ {S A : Type 0} {P E : S → Type 0} where
  pub Exits-pure : (a : A) → Exits P E (pure a)
  Exits-pure a = record { at = λ s h. h }

  pub Exits-gets : (f : S → A) → Exits P E (gets f)
  Exits-gets f = record { at = λ s h. h }

  pub Exits-fault : Exits P E (fault {A = A})
  Exits-fault = record { at = λ s h. tt }

  pub Exits-exit : ((s : S) → P s → E s) → Exits P E (exit {A = A})
  Exits-exit e = record { at = e }

  pub Exits-if :
      (b : Bool) (m n : Exec S A) → Exits P E m → Exits P E n → Exits P E (if b then m else n)
  Exits-if true m n em en = em
  Exits-if false m n em en = en

module _ {S A B : Type 0} (P Q E : S → Type 0) where
  -- A function that goes on from `P` to `Q`.
  pub Ends-continue :
      (f : A → Exec S B) (o : Outcome S A)
      → ((a : A) (s : S) → P s → Ends Q E (f a s))
      → Ends P E o
      → Ends Q E (continue f o)
  Ends-continue f (returned a s) ef h = ef a s h
  Ends-continue f (exited s) ef h = h
  Ends-continue f (faulted s) ef h = tt

module _ {S A B : Type 0} {P E : S → Type 0} where
  pub Exits-bind :
      (m : Exec S A) (f : A → Exec S B)
      → Exits P E m
      → ((a : A) → Exits P E (f a))
      → Exits P E (m >>= f)
  unfolding ◌>>=◌
  Exits-bind m f em ef = record {
    at = λ s h. Ends-continue P P E f (m s) (λ a t p. (ef a).at t p) (em.at s h);
  }

module _ {S : Type 0} {P E : S → Type 0} where
  pub Exits-modify : (f : S → S) → ((s : S) → P s → P (f s)) → Exits P E (modify f)
  Exits-modify f kept = record { at = kept }

  pub Exits-and_then :
      (rest : Exec S Status) (r : Status) → Exits P E rest → Exits P E (and_then rest r)
  Exits-and_then rest success e = e
  Exits-and_then rest failure e = Exits-pure failure

  pub Exits-for_each :
      {J : Type 0} (xs : List J) (body : J → Exec S Status)
      → ((x : J) → Exits P E (body x))
      → Exits P E (for_each xs body)
  unfolding for_each
  Exits-for_each [] body eb = Exits-pure success
  Exits-for_each (x ∷ xs) body eb =
      Exits-bind (body x) (and_then (for_each xs body)) (eb x)
        (λ r. Exits-and_then (for_each xs body) r (Exits-for_each xs body eb))

  pub Exits-visit :
      {J : Type 0} (xs : List J) (body : J → Exec S (Unit {0}))
      → ((x : J) → Exits P E (body x))
      → Exits P E (visit xs body)
  unfolding visit
  Exits-visit [] body eb = Exits-pure tt
  Exits-visit (x ∷ xs) body eb =
      Exits-bind (body x) (λ _. visit xs body) (eb x) (λ _. Exits-visit xs body eb)

pub ruleset exits_rules = (
  Exits-pure, Exits-gets, Exits-fault, Exits-if, Exits-bind, Exits-and_then, Exits-for_each,
  Exits-visit,
)
