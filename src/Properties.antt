-- ===== src/Properties.antt =====
-- app/comm_parser.h: the properties of layers and surfaces. A `t_ilm_uint` is its value below 2 ^
-- 32, a `t_ilm_float` its 32-bit pattern, and a `t_ilm_bool` has the width of a `t_ilm_uint`, as
-- `parse_add_properties` presumes when it writes `visibility` through such a pointer.
use uhmi_ivi_wm.Base.{ℕ}

pub record LayoutProperties : Type 0 where
  pub src_x : ℕ
  pub src_y : ℕ
  pub src_w : ℕ
  pub src_h : ℕ
  pub dst_x : ℕ
  pub dst_y : ℕ
  pub dst_w : ℕ
  pub dst_h : ℕ
  pub opacity : ℕ
  pub visibility : ℕ

pub record LayerProperties : Type 0 where
  pub width : ℕ
  pub height : ℕ
  pub lp : LayoutProperties

pub record SurfaceProperties : Type 0 where
  pub referred_cnt : ℕ
  pub lp : LayoutProperties
