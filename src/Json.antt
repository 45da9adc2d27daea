-- ===== src/Json.antt =====
-- app/comm_parser.c: reading JSON values (`get_json_*`) and the parts of a command (`parse_*`).
-- What a function writes through a pointer is part of its result, `none` where it returns -1 and
-- writes nothing. Messages on stderr are left out.
pub mod Properties
pub mod Reading
pub mod Fields
pub mod Documents
use Prim.Native.String.{len}
use uhmi_ivi_wm.Base.{
  ℕ, ◌+◌, ◌-◌, ◌%◌, ◌^◌, String, List, Bool, true, false, if◌then◌else◌, Option, none, some, ltb,
  str_eq,
}
use uhmi_ivi_wm.Exec.{Exec, Status, success, failure, pure, fault, ◌>>=◌}
use uhmi_ivi_wm.InsertOrder.{InsertOrder, InsertInfo}
use uhmi_ivi_wm.Jansson.{ℤ, pos, negsuc, Jansson}

pub data CmdType : Type 0 where
  no_type add modify : CmdType

-- `(t_ilm_uint)` of a `json_int_t`.
unfoldable pub to_uint : ℤ → ℕ
to_uint (pos n) = n % 2 ^ 32
to_uint (negsuc n) = 2 ^ 32 - 1 - n % 2 ^ 32

abbrev pub or_else {ℓ} : {A : Type ℓ} → Option A → A → A
or_else (some a) d = a
or_else none d = d

module _ {J : Type 0} (js : Jansson J) where
  open js use {
    json_object_get, json_is_string, json_is_integer, json_is_real, json_is_array,
    json_string_value, json_integer_value, json_real_value, json_array_elements, float_of_integer,
    float_of_double,
  }

  -- `value` is a buffer of `size` bytes, which `sprintf` fills with the text and a NUL.
  unfoldable pub get_json_string_value :
      {S : Type 0} → Option J → String → ℕ → Exec S (Option String)
  get_json_string_value jobject key size =
      let text = json_string_value (json_object_get jobject key) in
      if json_is_string (json_object_get jobject key)
      then (if ltb (len text) size then pure (some text) else fault)
      else pure none

  unfoldable pub get_json_integer_value : Option J → String → Option ℕ
  get_json_integer_value jobject key =
      if json_is_integer (json_object_get jobject key)
      then some (to_uint (json_integer_value (json_object_get jobject key)))
      else none

  unfoldable pub get_json_real_value : Option J → String → Option ℕ
  get_json_real_value jobject key =
      if json_is_integer (json_object_get jobject key)
      then some (float_of_integer (json_integer_value (json_object_get jobject key)))
      else if json_is_real (json_object_get jobject key)
      then some (float_of_double (json_real_value (json_object_get jobject key)))
      else none

  unfoldable pub get_json_array : Option J → String → Option (Option J)
  get_json_array jobject key =
      if json_is_array (json_object_get jobject key)
      then some (json_object_get jobject key)
      else none

  unfoldable pub parse_target : Option J → Option (Option J)
  parse_target jobject = get_json_array jobject "target"

  unfoldable pub parse_screens : Option J → Option (Option J)
  parse_screens jobject = get_json_array jobject "screens"

  unfoldable pub parse_layers : Option J → Option (Option J)
  parse_layers jobject = get_json_array jobject "layers"

  unfoldable pub parse_surfaces : Option J → Option (Option J)
  parse_surfaces jobject = get_json_array jobject "surfaces"

  unfoldable pub parse_id : Option J → Option ℕ
  parse_id jobject = get_json_integer_value jobject "id"

  -- What a loop visits where the array was parsed into a pointer that began as NULL.
  unfoldable pub elements_or_none : Option (Option J) → List J
  elements_or_none parsed = json_array_elements (or_else parsed none)

  abbrev pub text_matches : String → Option String → Status
  text_matches expected (some text) = if str_eq expected text then success else failure
  text_matches expected none = failure

  -- `local_hostname` is what `gethostname` leaves in the buffer.
  unfoldable pub parse_hostname : {S : Type 0} → String → Option J → Exec S Status
  parse_hostname local_hostname jobject = do
    hostname ← get_json_string_value jobject "hostname" 32
    pure (text_matches local_hostname hostname)

  unfoldable pub parse_version : {S : Type 0} → Option J → Exec S Status
  parse_version jobject = do
    version ← get_json_string_value jobject "version" 32
    pure (text_matches "1.0.0" version)

  unfoldable pub parse_command : {S : Type 0} → Option J → Exec S (Option String)
  parse_command jobject = get_json_string_value jobject "command" 16

  -- The order that a text names; `unordered` for no text and for any other one.
  unfoldable pub order_of : Option String → InsertOrder
  order_of none = InsertOrder.unordered
  order_of (some val) =
      if str_eq "append" val
      then InsertOrder.append
      else if str_eq "prepend" val
      then InsertOrder.prepend
      else if str_eq "before" val
      then InsertOrder.before
      else if str_eq "after" val
      then InsertOrder.after
      else InsertOrder.unordered

  -- The result is `*insert_info` afterwards; no caller looks at the status.
  unfoldable pub parse_insert_info : {S : Type 0} → InsertInfo → Option J → Exec S InsertInfo
  parse_insert_info insert_info jobject = do
    val ← get_json_string_value jobject "insert_order" 32
    pure (record {
      order = order_of val;
      refid = or_else (get_json_integer_value jobject "referenceID") insert_info.refid;
    })
