-- ===== src/Json/Properties.antt =====
-- app/comm_parser.c: reading the properties of a layer or surface. `none` where the C function
-- returns -1 and leaves `*dst_prop` as it was.
use uhmi_ivi_wm.Base.{ℕ, String, Option, none, some}
use uhmi_ivi_wm.Properties.{LayoutProperties, LayerProperties, SurfaceProperties}
use uhmi_ivi_wm.Jansson.{Jansson}
use uhmi_ivi_wm.Json.{CmdType, or_else, get_json_integer_value, get_json_real_value}

-- `if (get_...(...) < 0) return -1;`
infixl 5 ◌>>=◌
abbrev pub ◌>>=◌ : {A B : Type 0} → Option A → (A → Option B) → Option B
none >>= f = none
some a >>= f = f a

module _ {J : Type 0} (js : Jansson J) where
  -- A value that is read into a field, which stays as it was where the value is missing.
  abbrev pub integer_or : Option J → String → ℕ → ℕ
  integer_or jobject key old = or_else (get_json_integer_value js jobject key) old

  unfoldable pub parse_mod_properties : LayoutProperties → Option J → LayoutProperties
  parse_mod_properties dst_prop jobject = record {
    src_x = integer_or jobject "src_x" dst_prop.src_x;
    src_y = integer_or jobject "src_y" dst_prop.src_y;
    src_w = integer_or jobject "src_w" dst_prop.src_w;
    src_h = integer_or jobject "src_h" dst_prop.src_h;
    dst_x = integer_or jobject "dst_x" dst_prop.dst_x;
    dst_y = integer_or jobject "dst_y" dst_prop.dst_y;
    dst_w = integer_or jobject "dst_w" dst_prop.dst_w;
    dst_h = integer_or jobject "dst_h" dst_prop.dst_h;
    opacity = or_else (get_json_real_value js jobject "opacity") dst_prop.opacity;
    visibility = integer_or jobject "visibility" dst_prop.visibility;
  }

  unfoldable pub parse_add_properties : Option J → Option LayoutProperties
  parse_add_properties jobject = do
    src_x ← get_json_integer_value js jobject "src_x"
    src_y ← get_json_integer_value js jobject "src_y"
    src_w ← get_json_integer_value js jobject "src_w"
    src_h ← get_json_integer_value js jobject "src_h"
    dst_x ← get_json_integer_value js jobject "dst_x"
    dst_y ← get_json_integer_value js jobject "dst_y"
    dst_w ← get_json_integer_value js jobject "dst_w"
    dst_h ← get_json_integer_value js jobject "dst_h"
    opacity ← get_json_real_value js jobject "opacity"
    visibility ← get_json_integer_value js jobject "visibility"
    some (record {
      src_x = src_x;
      src_y = src_y;
      src_w = src_w;
      src_h = src_h;
      dst_x = dst_x;
      dst_y = dst_y;
      dst_w = dst_w;
      dst_h = dst_h;
      opacity = opacity;
      visibility = visibility;
    })

  -- `parse_add_properties(&src_prop.lp, jobject);` with its status ignored.
  unfoldable pub add_layout : LayoutProperties → Option J → LayoutProperties
  add_layout lp jobject = or_else (parse_add_properties jobject) lp

  unfoldable pub parse_layer_properties :
      LayerProperties → Option J → CmdType → Option LayerProperties
  parse_layer_properties dst_prop jobject CmdType.add = do
    width ← get_json_integer_value js jobject "width"
    height ← get_json_integer_value js jobject "height"
    some (record { width = width; height = height; lp = add_layout dst_prop.lp jobject })
  parse_layer_properties dst_prop jobject _ = some (record {
    width = integer_or jobject "width" dst_prop.width;
    height = integer_or jobject "height" dst_prop.height;
    lp = parse_mod_properties dst_prop.lp jobject;
  })

  unfoldable pub parse_surface_properties :
      SurfaceProperties → Option J → CmdType → SurfaceProperties
  parse_surface_properties dst_prop jobject CmdType.add = record dst_prop {
    lp = add_layout dst_prop.lp jobject;
  }
  parse_surface_properties dst_prop jobject _ = record dst_prop {
    lp = parse_mod_properties dst_prop.lp jobject;
  }
