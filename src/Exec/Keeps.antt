-- ===== src/Exec/Keeps.antt =====
-- Invariants of functions that run as `Exec`, with one rule for each way to build such a function.
use uhmi_ivi_wm.Base.{◌≡◌, refl, Bool, true, false, List, [], ◌∷◌, All, if◌then◌else◌}
use uhmi_ivi_wm.Exec.{
  Outcome, returned, exited, faulted, Exec, Status, success, failure, pure, gets, modify, exit,
  fault, continue, ◌>>=◌, and_then, for_each, visit,
}

-- `P` holds when the function returns or exits, and `F` where it reaches undefined behaviour.
abbrev pub Holds : {S A : Type 0} → (S → Type 0) → (S → Type 0) → Outcome S A → Type 0
Holds P F (returned a s) = P s
Holds P F (exited s) = P s
Holds P F (faulted s) = F s

pub Holds-weaken :
    {S A : Type 0} (P Q F G : S → Type 0) (o : Outcome S A)
    → ((s : S) → P s → Q s)
    → ((s : S) → F s → G s)
    → Holds P F o
    → Holds Q G o
Holds-weaken P Q F G (returned a s) f g h = f s h
Holds-weaken P Q F G (exited s) f g h = f s h
Holds-weaken P Q F G (faulted s) f g h = g s h

-- From a state with `P` the function ends as `Holds` says. With `⊥` for `F` it never faults.
pub record Keeps {S A : Type 0} (P F : S → Type 0) (m : Exec S A) : Type 0 where
  pub at : (s : S) → P s → Holds P F (m s)

abbrev pub Never : {S : Type 0} → S → Type 0
Never s = ⊥

abbrev pub Anything : {S : Type 0} → S → Type 0
Anything s = Unit

trivial : {J : Type 0} (xs : List J) → All (λ x. Unit {0}) xs
trivial [] = tt
trivial (x ∷ xs) = (tt, trivial xs)

module _ {S A : Type 0} {P F : S → Type 0} where
  pub Keeps-pure : (a : A) → Keeps P F (pure a)
  Keeps-pure a = record { at = λ s h. h }

  pub Keeps-gets : (f : S → A) → Keeps P F (gets f)
  Keeps-gets f = record { at = λ s h. h }

  pub Keeps-exit : Keeps P F (exit {A = A})
  Keeps-exit = record { at = λ s h. h }

  pub Keeps-if :
      (b : Bool) (m n : Exec S A) → Keeps P F m → Keeps P F n → Keeps P F (if b then m else n)
  Keeps-if true m n km kn = km
  Keeps-if false m n km kn = kn

  -- Each branch may use how the test came out.
  pub Keeps-cases :
      (b : Bool) (m n : Exec S A)
      → (b ≡ true → Keeps P F m)
      → (b ≡ false → Keeps P F n)
      → Keeps P F (if b then m else n)
  Keeps-cases true m n km kn = km refl
  Keeps-cases false m n km kn = kn refl

  -- A branch that is not taken.
  pub Keeps-else :
      (b : Bool) (m n : Exec S A) → b ≡ false → Keeps P F n → Keeps P F (if b then m else n)
  Keeps-else true m n e kn = cc
  Keeps-else false m n e kn = kn

module _ {S A : Type 0} {P : S → Type 0} where
  pub Keeps-fault : Keeps P P (fault {A = A})
  Keeps-fault = record { at = λ s h. h }

module _ {S A B : Type 0} {P F : S → Type 0} where
  Holds-continue :
      (f : A → Exec S B) (o : Outcome S A)
      → ((a : A) → Keeps P F (f a))
      → Holds P F o
      → Holds P F (continue f o)
  Holds-continue f (returned a s) kf h = (kf a).at s h
  Holds-continue f (exited s) kf h = h
  Holds-continue f (faulted s) kf h = h

  pub Keeps-bind :
      (m : Exec S A) (f : A → Exec S B)
      → Keeps P F m
      → ((a : A) → Keeps P F (f a))
      → Keeps P F (m >>= f)
  unfolding ◌>>=◌
  Keeps-bind m f km kf = record { at = λ s h. Holds-continue f (m s) kf (km.at s h) }

module _ {S A B : Type 0} (P Q F : S → Type 0) where
  -- A function that goes on from `P` to `Q`.
  pub Holds-bind :
      (m : Exec S A) (f : A → Exec S B) (s : S)
      → ((s : S) → P s → Q s)
      → Holds P F (m s)
      → ((a : A) (s : S) → P s → Holds Q F (f a s))
      → Holds Q F ((m >>= f) s)
  unfolding ◌>>=◌
  Holds-bind m f s weaken h next = go (m s) h
    where
      go : (o : Outcome S A) → Holds P F o → Holds Q F (continue f o)
      go (returned a t) p = next a t p
      go (exited t) p = weaken t p
      go (faulted t) p = p

module _ {S : Type 0} {P F : S → Type 0} where
  pub Keeps-modify : (f : S → S) → ((s : S) → P s → P (f s)) → Keeps P F (modify f)
  Keeps-modify f kf = record { at = kf }

  pub Keeps-and_then :
      (rest : Exec S Status) (r : Status) → Keeps P F rest → Keeps P F (and_then rest r)
  Keeps-and_then rest success k = k
  Keeps-and_then rest failure k = Keeps-pure failure

  module _ {J : Type 0} (Q : J → Type 0) where
    pub Keeps-for_each-All :
        (xs : List J) (body : J → Exec S Status)
        → All Q xs
        → ((x : J) → Q x → Keeps P F (body x))
        → Keeps P F (for_each xs body)
    unfolding for_each
    Keeps-for_each-All [] body all kb = Keeps-pure success
    Keeps-for_each-All (x ∷ xs) body all kb =
        Keeps-bind (body x) (and_then (for_each xs body)) (kb x all.0)
          (λ r. Keeps-and_then (for_each xs body) r (Keeps-for_each-All xs body all.1 kb))

    pub Keeps-visit-All :
        (xs : List J) (body : J → Exec S (Unit {0}))
        → All Q xs
        → ((x : J) → Q x → Keeps P F (body x))
        → Keeps P F (visit xs body)
    unfolding visit
    Keeps-visit-All [] body all kb = Keeps-pure tt
    Keeps-visit-All (x ∷ xs) body all kb =
        Keeps-bind (body x) (λ _. visit xs body) (kb x all.0)
          (λ _. Keeps-visit-All xs body all.1 kb)

  pub Keeps-for_each :
      {J : Type 0} (xs : List J) (body : J → Exec S Status)
      → ((x : J) → Keeps P F (body x))
      → Keeps P F (for_each xs body)
  Keeps-for_each xs body kb = Keeps-for_each-All (λ x. Unit) xs body (trivial xs) (λ x u. kb x)

  pub Keeps-visit :
      {J : Type 0} (xs : List J) (body : J → Exec S (Unit {0}))
      → ((x : J) → Keeps P F (body x))
      → Keeps P F (visit xs body)
  Keeps-visit xs body kb = Keeps-visit-All (λ x. Unit) xs body (trivial xs) (λ x u. kb x)

pub ruleset keeps_rules = (
  Keeps-pure, Keeps-gets, Keeps-exit, Keeps-fault, Keeps-if, Keeps-bind, Keeps-and_then,
  Keeps-for_each, Keeps-visit,
)
