-- ===== src/Jansson.antt =====
-- The jansson library, which is not part of the repository, as a parameter. A `json_t *` is an
-- `Option J`, with `none` for NULL: jansson's functions take NULL for a value of no type.
use uhmi_ivi_wm.Base.{ℕ, String, Bool, List, Option}

-- `json_int_t`, a signed 64-bit number: `negsuc n` is -(n + 1).
pub data ℤ : Type 0 where
  pos : ℕ → ℤ
  negsuc : ℕ → ℤ

pub record Jansson (J : Type 0) : Type 0 where
  -- `json_loads` and `json_load_file` (on the path), NULL on an error
  pub json_loads : String → Option J
  pub json_load_file : String → Option J
  pub json_object_get : Option J → String → Option J
  pub json_is_string : Option J → Bool
  pub json_is_integer : Option J → Bool
  pub json_is_real : Option J → Bool
  pub json_is_array : Option J → Bool
  -- up to the first NUL, as `%s` reads it
  pub json_string_value : Option J → String
  pub json_integer_value : Option J → ℤ
  -- the bit pattern of a double
  pub json_real_value : Option J → ℕ
  -- the values that `json_array_foreach` visits, in order
  pub json_array_elements : Option J → List J
  -- the compiler's conversions to `float`, as bit patterns
  pub float_of_integer : ℤ → ℕ
  pub float_of_double : ℕ → ℕ
