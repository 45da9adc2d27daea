-- ===== src/Env.antt =====
-- What the window manager runs in: the libraries, the host, and the bytes that are on the stack
-- where a function declares a local variable and does not set it.
use uhmi_ivi_wm.Base.{ℕ, List, String}
use uhmi_ivi_wm.Properties.{LayerProperties, SurfaceProperties}
use uhmi_ivi_wm.Ilm.{Ilm}
use uhmi_ivi_wm.Jansson.{Jansson}

pub record Env (J : Type 0) : Type 0 where
  pub jansson : Jansson J
  pub ilm : Ilm
  -- what `gethostname` leaves in a buffer of 32 bytes that was zeroed
  pub local_hostname : String
  -- the uninitialised `layer_prop` and `surface_prop` of the n-th such use
  pub stack_layer : ℕ → LayerProperties
  pub stack_surface : ℕ → SurfaceProperties
  -- the text that the bytes before the NUL of a string make
  pub text_of : List ℕ → String
