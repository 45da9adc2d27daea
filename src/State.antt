-- ===== src/State.antt =====
-- The static variables of app/comm_parser.c and what the program has asked of libilm so far.
use uhmi_ivi_wm.Base.{ℕ, List, []}
use uhmi_ivi_wm.Ilm.{IlmCall}
use uhmi_ivi_wm.Tree.{ScreenElement, SurfacePropertiesElement}

pub record State : Type 0 where
  pub screens : List ScreenElement  -- screen_head
  pub surface_properties : List SurfacePropertiesElement  -- surface_properties_head
  -- the calls of libilm, newest first
  pub calls : List IlmCall
  -- how many properties on the stack were read before they were set (`decide_add_or_update_*`)
  pub locals : ℕ

-- At the start of the process.
abbrev pub start : State
start = record { screens = []; surface_properties = []; calls = []; locals = 0 }
