-- ===== src/Tests/World.antt =====
-- A JSON library on data types and an ivi compositor with fixed answers, for the runs.
use Prim.Native.String.{len}
use uhmi_ivi_wm.Safety.{HasShortTexts, AnswersQueries}
use uhmi_ivi_wm.Wrapper.Returns.{IsObliging}
use uhmi_ivi_wm.Store.Sending.{IsSteady}
use uhmi_ivi_wm.Invariant.Start.{HasUniqueScreens}
use uhmi_ivi_wm.Base.{
  arith, ◌<◌, refl, ℕ, String, List, [], ◌∷◌, Bool, true, false, if◌then◌else◌, Option, none, some,
  str_eq, ◌==◌,
}
use uhmi_ivi_wm.Ilm.{Ilm, IlmCall}
use uhmi_ivi_wm.Jansson.{ℤ, pos, negsuc, Jansson}
use uhmi_ivi_wm.Env.{Env}
use uhmi_ivi_wm.Store.{zero_layout}

-- The texts of the documents.
pub data Word : Type 0 where
  add_layer remove_layer add_surface modify_surface shutdown append before version : Word

abbrev spelled : Word → String
spelled add_layer = "add_layer"
spelled remove_layer = "remove_layer"
spelled add_surface = "add_surface"
spelled modify_surface = "modify_surface"
spelled shutdown = "shutdown"
spelled append = "append"
spelled before = "before"
spelled version = "1.0.0"

mutual
  pub data Value : Type 0 where
    text : Word → Value
    number : ℕ → Value
    array : Values → Value
    object : Fields → Value

  pub data Values : Type 0 where
    end : Values
    item : Value → Values → Values

  pub data Fields : Type 0 where
    done : Fields
    field : String → Value → Fields → Fields

abbrev lookup : Fields → String → Option Value
lookup done key = none
lookup (field name value rest) key = if str_eq name key then some value else lookup rest key

abbrev elements : Values → List Value
elements end = []
elements (item value rest) = value ∷ elements rest

abbrev object_get : Option Value → String → Option Value
object_get (some (object fields)) key = lookup fields key
object_get _ key = none

abbrev is_string : Option Value → Bool
is_string (some (text s)) = true
is_string _ = false

abbrev string_value : Option Value → String
string_value (some (text w)) = spelled w
string_value _ = ""

abbrev is_integer : Option Value → Bool
is_integer (some (number n)) = true
is_integer _ = false

abbrev integer_value : Option Value → ℤ
integer_value (some (number n)) = pos n
integer_value _ = pos 0

abbrev is_array : Option Value → Bool
is_array (some (array values)) = true
is_array _ = false

abbrev array_elements : Option Value → List Value
array_elements (some (array values)) = elements values
array_elements _ = []

abbrev float_of : ℤ → ℕ
float_of (pos n) = n
float_of (negsuc n) = 0

spelled_short : (w : Word) → len (spelled w) < 16
spelled_short add_layer = omega arith
spelled_short remove_layer = omega arith
spelled_short add_surface = omega arith
spelled_short modify_surface = omega arith
spelled_short shutdown = omega arith
spelled_short append = omega arith
spelled_short before = omega arith
spelled_short version = omega arith

value_short : (j : Option Value) → len (string_value j) < 16
value_short none = omega arith
value_short (some (text w)) = spelled_short w
value_short (some (number n)) = omega arith
value_short (some (array values)) = omega arith
value_short (some (object fields)) = omega arith

-- The configuration file does not exist.
abbrev pub jansson_with : (String → Option Value) → Jansson Value
jansson_with received = record {
  json_loads = received;
  json_load_file = λ path. none;
  json_object_get = object_get;
  json_is_string = is_string;
  json_is_integer = is_integer;
  json_is_real = λ j. false;
  json_is_array = is_array;
  json_string_value = string_value;
  json_integer_value = integer_value;
  json_real_value = λ j. 0;
  json_array_elements = array_elements;
  float_of_integer = float_of;
  float_of_double = λ d. d;
}

abbrev created : List IlmCall → List ℕ
created [] = []
created (IlmCall.layer_create_with_dimension id width height ∷ h) = id ∷ created h
created (c ∷ h) = created h

-- libilm never fails; there are the surfaces 10 and 11, the layers made so far, and the screen 0.
abbrev pub compositor : Ilm
compositor = record {
  succeeds = λ h c. true;
  surface_ids = λ h. 10 ∷ 11 ∷ [];
  layer_ids = created;
  screen_ids = λ h. 0 ∷ [];
}

abbrev one : Value → Value
one value = array (item value end)

-- {"command": "add_layer", "screens": [{"id": 0, "insert_order": "append", "layers": [...]}]}
abbrev pub layer_document : Value
layer_document =
    object (field "id" (number 5) (field "width" (number 640) (field "height" (number 480) done)))

-- {"width": 800, "opacity": 1}, where there is no height.
abbrev pub wide_document : Value
wide_document = object (field "width" (number 800) (field "opacity" (number 1) done))

-- {"src_x": 4294967303}, which is 7 modulo 2 ^ 32.
abbrev pub large_document : Value
large_document = object (field "src_x" (number 4294967303) done)

-- {"id": 10, "src_x": 1, ...}
abbrev pub surface_document : Value
surface_document = object (
    field "src_x" (number 1) (
      field "src_y" (number 2) (
        field "src_w" (number 3) (
          field "src_h" (number 4) (
            field "dst_x" (number 5) (
              field "dst_y" (number 6) (
                field "dst_w" (number 7) (
                  field "dst_h" (number 8)
                    (field "opacity" (number 9) (field "visibility" (number 1) done))))))))))

abbrev pub screen_document : Value
screen_document = object (
    field "id" (number 0)
      (field "insert_order" (text append) (field "layers" (one layer_document) done)))

abbrev pub add_layer_document : Value
add_layer_document =
    object (field "command" (text add_layer) (field "screens" (one screen_document) done))

abbrev remove_layer_document : Value
remove_layer_document = object (
    field "command" (text remove_layer)
      (field "layers" (one (object (field "id" (number 5) done))) done))

abbrev add_surface_document : Value
add_surface_document = object (
    field "command" (text add_surface) (
      field "screens"
        (one (
          object (
            field "insert_order" (text append) (
              field "layers"
                (one (
                  object (
                    field "id" (number 5)
                      (field "surfaces" (one (object (field "id" (number 10) done))) done))))
                done))))
        done))

abbrev shutdown_document : Value
shutdown_document = object (field "command" (text shutdown) (field "version" (text version) done))

-- The messages of the clients; any other one is no JSON.
abbrev received : String → Option Value
received msg =
    if str_eq msg "layer 5"
    then some add_layer_document
    else if str_eq msg "surface 10"
    then some add_surface_document
    else if str_eq msg "no layer 5"
    then some remove_layer_document
    else if str_eq msg "shutdown"
    then some shutdown_document
    else none

-- The clients' messages stand for documents, so that short ones can be sent.
abbrev text_of : List ℕ → String
text_of [] = ""
text_of (b ∷ bytes) = if b == 53 then "layer 5" else if b == 49 then "surface 10" else "shutdown"

abbrev pub world : Env Value
world = record {
  jansson = jansson_with received;
  ilm = compositor;
  local_hostname = "host";
  stack_layer = λ n. record { width = 7; height = 7; lp = zero_layout };
  stack_surface = λ n. record { referred_cnt = 0; lp = zero_layout };
  text_of = text_of;
}

pub short_texts : (root : Option Value) → HasShortTexts world.jansson root
short_texts root = record {
  version_fits = λ j part. omega (arith, value_short (object_get j "version"));
  hostname_fits = λ j part. omega (arith, value_short (object_get j "hostname"));
  command_fits = λ j part. omega (arith, value_short (object_get j "command"));
  order_fits = λ j part. omega (arith, value_short (object_get j "insert_order"));
}

pub answering : AnswersQueries compositor
answering = record { surfaces_answered = λ h. refl; layers_answered = λ h. refl }

pub obliging : IsObliging compositor
obliging h c = refl

pub steady : IsSteady compositor (10 ∷ 11 ∷ [])
steady h = refl

pub one_screen : HasUniqueScreens compositor
one_screen h k = ground arith
