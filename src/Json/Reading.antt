-- ===== src/Json/Reading.antt =====
-- What it means that a value stands in the JSON, with no function of app/comm_parser.c in it, and that
-- `get_json_integer_value` and `get_json_real_value` read it.
use uhmi_ivi_wm.Base.{
  ℕ, ◌+◌, ◌*◌, ◌/◌, ◌^◌, ◌<◌, ◌≡◌, refl, ◌⊎◌, inl, inr, String, Option, none, some, true, false,
  Bool-cases, arith, some-eq-some, ap, subst, sym,
}
use uhmi_ivi_wm.Jansson.{ℤ, pos, negsuc, Jansson}
use uhmi_ivi_wm.Json.{or_else, to_uint, get_json_integer_value, get_json_real_value}
use uhmi_ivi_wm.Json.Properties.{integer_or}

-- `v` is the value of an unsigned int of 32 bits that is congruent to the integer modulo 2 ^ 32.
abbrev pub IsUint : ℤ → ℕ → Type 0
IsUint (pos n) v = (v < 2 ^ 32) × (k : ℕ) × (n ≡ k * 2 ^ 32 + v)
IsUint (negsuc n) v = (v < 2 ^ 32) × (k : ℕ) × (n + 1 + v ≡ k * 2 ^ 32)

to_uint-IsUint : (z : ℤ) → IsUint z (to_uint z)
unfolding to_uint
to_uint-IsUint (pos n) = (omega arith, n / 2 ^ 32, omega arith)
to_uint-IsUint (negsuc n) = (omega arith, n / 2 ^ 32 + 1, omega arith)

IsUint-unique : (z : ℤ) (v w : ℕ) → IsUint z v → IsUint z w → v ≡ w
IsUint-unique (pos n) v w (lv, k, ev) (lw, l, ew) = omega (arith, lv, lw, ev, ew)
IsUint-unique (negsuc n) v w (lv, k, ev) (lw, l, ew) = omega (arith, lv, lw, ev, ew)

module _ {J : Type 0} (js : Jansson J) where
  open js use {
    json_object_get, json_is_integer, json_is_real, json_integer_value, json_real_value,
    float_of_integer, float_of_double,
  }

  -- The object has an integer under the key, and `v` is that as an unsigned int.
  abbrev pub HasInteger : Option J → String → ℕ → Type 0
  HasInteger j key v =
      (json_is_integer (json_object_get j key) ≡ true)
      × IsUint (json_integer_value (json_object_get j key)) v

  -- The object has a number under the key, integer or real, and `v` is that as a float.
  abbrev pub HasReal : Option J → String → ℕ → Type 0
  HasReal j key v =
      ((json_is_integer (json_object_get j key) ≡ true)
        × (v ≡ float_of_integer (json_integer_value (json_object_get j key))))
      ⊎ ((json_is_integer (json_object_get j key) ≡ false)
          × (json_is_real (json_object_get j key) ≡ true)
          × (v ≡ float_of_double (json_real_value (json_object_get j key))))

  pub get_json_integer_value-some :
      (j : Option J) (key : String) (v : ℕ)
      → get_json_integer_value js j key ≡ some v
      → HasInteger j key v
  unfolding get_json_integer_value
  get_json_integer_value-some j key v e =
      elim (Bool-cases (json_is_integer (json_object_get j key))) [
        | inl is ↦
            let read : some (to_uint (json_integer_value (json_object_get j key))) ≡ some v =
              rw is at e in
            (
              is,
              subst (IsUint (json_integer_value (json_object_get j key))) (some-eq-some read)
                  (to_uint-IsUint (json_integer_value (json_object_get j key))),
            )
        | inr not_ ↦ let read : none ≡ some v = rw not_ at e in cc
      ]

  pub HasInteger-get :
      (j : Option J) (key : String) (v : ℕ)
      → HasInteger j key v
      → get_json_integer_value js j key ≡ some v
  unfolding get_json_integer_value
  HasInteger-get j key v (is, value) = rw is (
      ap some (
        IsUint-unique (json_integer_value (json_object_get j key)) _ v
          (to_uint-IsUint (json_integer_value (json_object_get j key))) value))

  pub get_json_real_value-some :
      (j : Option J) (key : String) (v : ℕ)
      → get_json_real_value js j key ≡ some v
      → HasReal j key v
  unfolding get_json_real_value
  get_json_real_value-some j key v e = elim (Bool-cases (json_is_integer (json_object_get j key))) [
    | inl is ↦
        let read : some (float_of_integer (json_integer_value (json_object_get j key))) ≡ some v =
          rw is at e in
        inl (is, sym (some-eq-some read))
    | inr not_ ↦ elim (Bool-cases (json_is_real (json_object_get j key))) [
      | inl real ↦
          let read : some (float_of_double (json_real_value (json_object_get j key))) ≡ some v =
            rw (not_, real) at e in
          inr (not_, real, sym (some-eq-some read))
      | inr neither ↦ let read : none ≡ some v = rw (not_, neither) at e in cc
    ]
  ]

  pub HasReal-get :
      (j : Option J) (key : String) (v : ℕ)
      → HasReal j key v
      → get_json_real_value js j key ≡ some v
  unfolding get_json_real_value
  HasReal-get j key v (inl (is, value)) = rw (is, value) refl
  HasReal-get j key v (inr (not_, real, value)) = rw (not_, real, value) refl

  -- A field is the integer under the key, and the old one where there is no integer.
  abbrev pub TakesInteger : Option J → String → ℕ → ℕ → Type 0
  TakesInteger j key old v =
      HasInteger j key v ⊎ ((json_is_integer (json_object_get j key) ≡ false) × (v ≡ old))

  abbrev pub TakesReal : Option J → String → ℕ → ℕ → Type 0
  TakesReal j key old v =
      HasReal j key v
      ⊎ ((json_is_integer (json_object_get j key) ≡ false)
          × (json_is_real (json_object_get j key) ≡ false)
          × (v ≡ old))

  pub integer_or-TakesInteger :
      (j : Option J) (key : String) (old : ℕ) → TakesInteger j key old (integer_or js j key old)
  unfolding get_json_integer_value
  integer_or-TakesInteger j key old = elim (Bool-cases (json_is_integer (json_object_get j key))) [
    | inl is ↦ inl (is, rw is (to_uint-IsUint (json_integer_value (json_object_get j key))))
    | inr not_ ↦ inr (not_, rw not_ refl)
  ]

  pub real_or-TakesReal :
      (j : Option J) (key : String) (old : ℕ)
      → TakesReal j key old (or_else (get_json_real_value js j key) old)
  unfolding get_json_real_value
  real_or-TakesReal j key old = elim (Bool-cases (json_is_integer (json_object_get j key))) [
    | inl is ↦ inl (inl (is, rw is refl))
    | inr not_ ↦ elim (Bool-cases (json_is_real (json_object_get j key))) [
      | inl real ↦ inl (inr (not_, real, rw (not_, real) refl))
      | inr neither ↦ inr (not_, neither, rw (not_, neither) refl)
    ]
  ]
