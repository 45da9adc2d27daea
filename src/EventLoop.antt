-- ===== src/EventLoop.antt =====
-- The notifications of app/ilm_control_wrapper.c and the loop of app/main.c that takes them from
-- the pipe and the commands from a client.
pub mod Commits
pub mod Invariants
pub mod Refinement
pub mod Refused
use uhmi_ivi_wm.Base.{
  ℕ, String, List, [], ◌∷◌, ◌++◌, Bool, true, false, ◌≡◌, if◌then◌else◌, Option, none, some,
}
use uhmi_ivi_wm.Exec.{Exec, returned, pure, fault, ◌>>=◌, ◌>>◌}
use uhmi_ivi_wm.Jansson.{pos, negsuc}
use uhmi_ivi_wm.Receiver.{Connection}
use uhmi_ivi_wm.Options.{Opt, Parsed, parsed, parse_option}
use uhmi_ivi_wm.Request.{
  Request, refused, overflowed, over_read, message, receive_request, c_string, answered,
}
use uhmi_ivi_wm.State.{State, start}
use uhmi_ivi_wm.Wrapper.{Unit₀, ObjectType, wrap_ilm_init}
use uhmi_ivi_wm.Parser.{
  parser_init, parser_parse_recv_command, parser_add_ivi_surface_by_event_notification,
  wrap_ilm_set_surface_add_notification,
}
use uhmi_ivi_wm.Env.{Env}

pub data NtfType : Type 0 where
  creation_delection surface_prop_change : NtfType

pub record CbData : Type 0 where
  pub type : NtfType
  pub id : ℕ

-- `write(pipe_writefd, &data, sizeof(cbdata))`: what is in the pipe, the oldest first. A `cbdata`
-- is smaller than PIPE_BUF, so a write puts all of it in, as POSIX says.
abbrev pub write : CbData → List CbData → List CbData
write ntf pipe = pipe ++ ntf ∷ []

-- `configured` is whether the mask has ILM_NOTIFICATION_CONFIGURED.
unfoldable pub surface_notification_callback : ℕ → Bool → List CbData → List CbData
surface_notification_callback surface_id configured pipe =
    if configured then write (record { type = surface_prop_change; id = surface_id }) pipe else pipe

unfoldable pub notification_callback : ObjectType → ℕ → Bool → List CbData → List CbData
notification_callback ObjectType.surface id created pipe =
    if created then write (record { type = creation_delection; id = id }) pipe else pipe
notification_callback ObjectType.layer id created pipe = pipe
notification_callback ObjectType.other id created pipe = pipe

pub record System : Type 0 where
  pub state : State
  pub pipe : List CbData
  pub accepted : Option Connection

-- The test that `main` makes before it reads the options: `dashed` is whether there is a first
-- argument and begins with `-`.
unfoldable pub parse_arguments : Bool → List Opt → Parsed
parse_arguments dashed opts = if dashed then parse_option opts none else parsed none

module _ {J : Type 0} (env : Env J) where
  -- The switch on `data.type`.
  unfoldable pub handle_notification : NtfType → ℕ → Exec State Unit₀
  handle_notification creation_delection id = wrap_ilm_set_surface_add_notification env id
  handle_notification surface_prop_change id = parser_add_ivi_surface_by_event_notification env id

  -- `main` before the loop.
  unfoldable pub initialize : Option String → Exec State Unit₀
  initialize json_cfg_path = wrap_ilm_init env.ilm >> parser_init env json_cfg_path

  -- `handle_request` from the call of the parser on; the result of the last `send` is not looked at.
  unfoldable pub handle_request : Request → Connection → Exec State Connection
  handle_request refused c = pure (answered (negsuc 0) c)
  handle_request overflowed c = fault
  handle_request over_read c = fault
  handle_request (message msg) c =
      parser_parse_recv_command env (env.text_of (c_string msg)) >> pure (answered (pos 0) c)

  abbrev pub run_request : Option (Request × Connection) → Option (Exec State Connection)
  run_request none = none
  run_request (some (r, c)) = some (handle_request r c)

  -- What the loop does when bytes of the client are there; `none` where it waits for more.
  unfoldable pub receive_command : List ℕ → List ℕ → Connection → Option (Exec State Connection)
  receive_command magic_str size_str c = run_request (receive_request magic_str size_str c)

  -- What the texts of the messages are.
  abbrev pub IsSent : (String → Type 0) → Option (Request × Connection) → Type 0
  IsSent Sent (some (message msg, c)) = Sent (env.text_of (c_string msg))
  IsSent Sent _ = Unit

-- What happens next: libilm calls back on its own thread at any time, the loop reads the pipe, and a
-- client comes, hangs up, or brings bytes; `Sent` is what texts clients send. One client is connected
-- at a time.
pub data SystemStep {J : Type 0} (env : Env J) (Sent : String → Type 0) (sys : System)
    : System → Type 0 where
  object_notified :
      (object : ObjectType) (id : ℕ) (created : Bool)
      → SystemStep env Sent sys
          (record sys { pipe = notification_callback object id created sys.pipe })
  surface_notified :
      (id : ℕ) (configured : Bool)
      → SystemStep env Sent sys
          (record sys { pipe = surface_notification_callback id configured sys.pipe })
  pipe_read :
      {t : State} (ntf : CbData) (rest : List CbData)
      → sys.pipe ≡ ntf ∷ rest
      → handle_notification env ntf.type ntf.id sys.state ≡ returned tt t
      → SystemStep env Sent sys (record sys { state = t; pipe = rest })
  client_accepted :
      (c : Connection)
      → sys.accepted ≡ none
      → SystemStep env Sent sys (record sys { accepted = some c })
  client_closed : SystemStep env Sent sys (record sys { accepted = none })
  command_received :
      {t : State} (magic_str size_str : List ℕ) (c c' : Connection) (run : Exec State Connection)
      → sys.accepted ≡ some c
      → IsSent env Sent (receive_request magic_str size_str c)
      → receive_command env magic_str size_str c ≡ some run
      → run sys.state ≡ returned c' t
      → SystemStep env Sent sys (record sys { state = t; accepted = some c' })

-- `Given` is what configuration files the program may be started with.
pub data Running {J : Type 0} (env : Env J) (Given : Option String → Type 0)
    (Sent : String → Type 0) : System → Type 0 where
  initialized :
      {s : State} (dashed : Bool) (opts : List Opt) (path : Option String)
      → parse_arguments dashed opts ≡ parsed path
      → Given path
      → initialize env path start ≡ returned tt s
      → Running env Given Sent (record { state = s; pipe = []; accepted = none })
  going_on :
      {a b : System} → Running env Given Sent a → SystemStep env Sent a b → Running env Given Sent b
