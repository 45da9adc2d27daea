-- ===== src/InsertOrder.antt =====
-- app/comm_parser.c: the insert position that a command asks for (INSERT_ORDER, insert_info_t).
use uhmi_ivi_wm.Base.{ℕ}

pub data InsertOrder : Type 0 where
  unordered prepend append before after : InsertOrder

-- `order` is one of the five constants wherever the code sets it.
pub record InsertInfo : Type 0 where
  pub order : InsertOrder
  pub refid : ℕ

abbrev pub insert_info_default : InsertInfo
insert_info_default = record { order = append; refid = 0 }
