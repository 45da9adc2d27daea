-- ===== src/Options.antt =====
-- `parse_option` of app/main.c and of example/wmsendcmd.c.
use uhmi_ivi_wm.Base.{ℕ, String, List, [], ◌∷◌, Option}

-- What `getopt_long` returns, with `optarg`, which is NULL for the long option without `=`.
pub data Opt : Type 0 where
  help : Opt
  path : Option String → Opt
  unknown : Opt

-- `usage` ends the process with its argument.
pub data Parsed : Type 0 where
  usage : ℕ → Parsed
  parsed : Option String → Parsed

-- The second argument is the path so far, which is NULL at first.
unfoldable pub parse_option : List Opt → Option String → Parsed
parse_option [] json_cfg_path = parsed json_cfg_path
parse_option (help ∷ opts) json_cfg_path = usage 0
parse_option (path optarg ∷ opts) json_cfg_path = parse_option opts optarg
parse_option (unknown ∷ opts) json_cfg_path = usage 1
