-- ===== src/Exec.antt =====
-- How a C function of the program runs: it returns, it ends the process (`exit`), or it reaches
-- undefined behaviour. Static variables and the calls made to libilm are the state, which comes
-- back in each case.
pub mod Keeps
pub mod Exits
use uhmi_ivi_wm.Base.{List, [], ◌∷◌}

pub data Outcome (S A : Type 0) : Type 0 where
  returned : A → S → Outcome S A
  exited : S → Outcome S A
  faulted : S → Outcome S A

abbrev pub Exec : Type 0 → Type 0 → Type 0
Exec S A = S → Outcome S A

-- The `int` that the parser's functions return: 0 and -1.
pub data Status : Type 0 where
  success failure : Status

module _ {S A : Type 0} where
  abbrev pub pure : A → Exec S A
  pure a s = returned a s

  abbrev pub gets : (S → A) → Exec S A
  gets f s = returned (f s) s

  abbrev pub exit : Exec S A
  exit s = exited s

  abbrev pub fault : Exec S A
  fault s = faulted s

abbrev pub modify : {S : Type 0} → (S → S) → Exec S (Unit {0})
modify f s = returned tt (f s)

module _ {S A B : Type 0} where
  abbrev pub continue : (A → Exec S B) → Outcome S A → Outcome S B
  continue f (returned a s) = f a s
  continue f (exited s) = exited s
  continue f (faulted s) = faulted s

  infixl 5 ◌>>=◌ ◌>>◌
  unfoldable pub ◌>>=◌ : Exec S A → (A → Exec S B) → Exec S B
  ◌>>=◌ m f s = continue f (m s)

  abbrev pub ◌>>◌ : Exec S A → Exec S B → Exec S B
  m >> n = m >>= λ _. n

module _ {S : Type 0} where
  -- `if (e < 0) return -1;`
  abbrev pub and_then : Exec S Status → Status → Exec S Status
  and_then rest success = rest
  and_then rest failure = pure failure

  -- A loop whose body may leave the function by `return -1`.
  unfoldable pub for_each : {J : Type 0} → List J → (J → Exec S Status) → Exec S Status
  unfolding ◌>>=◌
  for_each [] body = pure success
  for_each (x ∷ xs) body = body x >>= and_then (for_each xs body)

  -- A loop whose body always goes on.
  unfoldable pub visit : {J : Type 0} → List J → (J → Exec S (Unit {0})) → Exec S (Unit {0})
  unfolding ◌>>=◌
  visit [] body = pure tt
  visit (x ∷ xs) body = body x >> visit xs body
