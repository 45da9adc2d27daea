-- ===== src/EventLoop/Refinement.antt =====
-- The loop of app/main.c with the callbacks that come in between at any time: in each state that it
-- comes to the invariant holds, and no step has undefined behaviour while no command removes.
use uhmi_ivi_wm.Base.{arith, ℕ, String, ◌≢◌, ◌≡◌, Option, none, some, List, subst}
use uhmi_ivi_wm.Exec.{Exec}
use uhmi_ivi_wm.Exec.Keeps.{
  Keeps, Holds, Never, Keeps-bind, Keeps-pure, Keeps-exit, Keeps-if, Holds-bind, Anything,
}
use uhmi_ivi_wm.Ilm.{IlmCall, Ilm}
use uhmi_ivi_wm.State.{State, start}
use uhmi_ivi_wm.Wrapper.{wrap_ilm_init}
use uhmi_ivi_wm.Wrapper.Keeps.{IsQuiet, Keeps-call}
use uhmi_ivi_wm.Parser.{parser_parse_recv_command}
use uhmi_ivi_wm.Parser.Keeps.{Keeps-wrap_ilm_set_surface_add_notification}
use uhmi_ivi_wm.Env.{Env}
use uhmi_ivi_wm.EventLoop.Invariants.{Holds-Ends, Keeps-Exits, running_kept}
use uhmi_ivi_wm.EventLoop.{
  NtfType, creation_delection, surface_prop_change, System, handle_notification, initialize,
  handle_request, run_request, receive_command, Running,
}
use uhmi_ivi_wm.Receiver.{Connection}
use uhmi_ivi_wm.Request.{
  Request, refused, overflowed, over_read, message, receive_request, c_string,
}
use uhmi_ivi_wm.Invariant.{IsWellFormed}
use uhmi_ivi_wm.Invariant.Decide.{IsWellFormed-quiet}
use uhmi_ivi_wm.Invariant.Commands.{
  parser_parse_recv_command-IsWellFormed, notification-IsWellFormed, add_notification-IsWellFormed,
}
use uhmi_ivi_wm.Invariant.Start.{HasUniqueScreens, parser_init-IsWellFormed}
use uhmi_ivi_wm.Safety.{IsRegistered, HasShortTexts, HasShortConfig, AnswersQueries}
use uhmi_ivi_wm.Safety.Decide.{IsRegistered-quiet}
use uhmi_ivi_wm.Safety.Commands.{parser_parse_recv_command_safe}
use uhmi_ivi_wm.Safety.Notification.{notification_safe}
use uhmi_ivi_wm.Safety.Start.{name_in, growth, parser_init-IsRegistered, outcome-IsRegistered}

Keeps-wrap_ilm_init : {P F : State → Type 0} (ilm : Ilm) → IsQuiet P → Keeps P F (wrap_ilm_init ilm)
unfolding wrap_ilm_init
Keeps-wrap_ilm_init ilm quiet =
    Keeps-bind _ _ (Keeps-call ilm quiet IlmCall.init)
      (λ ok. Keeps-if ok _ _ (Keeps-pure tt) Keeps-exit)

module _ {J : Type 0} (env : Env J) where
  -- What is done for a request, where anything is.
  abbrev Ends : (P F : State → Type 0) → State → Option (Exec State Connection) → Type 0
  Ends P F s none = Unit
  Ends P F s (some run) = Holds P F (run s)

  -- What is done for it in the parser.
  abbrev Handles : (P F : State → Type 0) → State → Option (Request × Connection) → Type 0
  Handles P F s none = Unit
  Handles P F s (some (refused, c)) = P s
  Handles P F s (some (overflowed, c)) = F s
  Handles P F s (some (over_read, c)) = F s
  Handles P F s (some (message msg, c)) =
      Holds P F (parser_parse_recv_command env (env.text_of (c_string msg)) s)

  run_request-Ends :
      (P F : State → Type 0) (s : State) (r : Option (Request × Connection))
      → Handles P F s r
      → Ends P F s (run_request env r)
  unfolding handle_request
  run_request-Ends P F s none h = tt
  run_request-Ends P F s (some (refused, c)) h = h
  run_request-Ends P F s (some (overflowed, c)) h = h
  run_request-Ends P F s (some (over_read, c)) h = h
  run_request-Ends P F s (some (message msg, c)) h =
      Holds-bind P P F _ _ s (λ s' p. p) h (λ u s' p. p)

start-IsWellFormed : IsWellFormed start
start-IsWellFormed = record {
  screens_unique = λ k. omega arith;
  layers_unique = λ k. omega arith;
  surfaces_unique = tt;
  properties_unique = λ k. omega arith;
}

module _ {J : Type 0} (env : Env J) (unique : HasUniqueScreens env.ilm) where
  begun-IsWellFormed :
      (path : Option String) → Holds IsWellFormed IsWellFormed (initialize env path start)
  unfolding initialize
  begun-IsWellFormed path =
      Holds-bind IsWellFormed IsWellFormed IsWellFormed _ _ start (λ s p. p)
        ((Keeps-wrap_ilm_init env.ilm IsWellFormed-quiet).at start start-IsWellFormed)
        (λ u s p. parser_init-IsWellFormed env unique path s)

  handled-IsWellFormed :
      (type : NtfType) (id : ℕ) → Keeps IsWellFormed IsWellFormed (handle_notification env type id)
  unfolding handle_notification
  handled-IsWellFormed creation_delection id = add_notification-IsWellFormed env id
  handled-IsWellFormed surface_prop_change id = notification-IsWellFormed env id

  -- In every state of the running program, whatever messages come and wherever callbacks come in
  -- between, no id stands twice, if libilm reports no screen twice.
  pub Running-IsWellFormed :
      (Given : Option String → Type 0) (Sent : String → Type 0) {sys : System}
      → Running env Given Sent sys
      → IsWellFormed sys.state
  Running-IsWellFormed Given Sent =
      running_kept env Sent IsWellFormed (λ type id. Keeps-Exits _ (handled-IsWellFormed type id))
        (λ msg sent. Keeps-Exits _ (parser_parse_recv_command-IsWellFormed env msg)) Given
        (λ path g.
          Holds-Ends IsWellFormed IsWellFormed (initialize env path start)
            (begun-IsWellFormed path))

-- The messages whose command does not remove and whose texts fit.
abbrev pub KeepsObjects : {J : Type 0} → Env J → String → Type 0
KeepsObjects env msg =
    HasShortTexts env.jansson (env.jansson.json_loads msg)
    × (name_in env msg ≢ "remove_surface")
    × (name_in env msg ≢ "remove_layer")

-- The size that came is not the one that overflows, a wrong magic code holds a NUL, and the texts of
-- the message fit.
abbrev pub IsTolerable : {J : Type 0} → Env J → Option (Request × Connection) → Type 0
IsTolerable env (some (message msg, c)) =
    HasShortTexts env.jansson (env.jansson.json_loads (env.text_of (c_string msg)))
IsTolerable env (some (overflowed, c)) = ⊥
IsTolerable env (some (over_read, c)) = ⊥
IsTolerable env _ = Unit

-- Neither the next notification in the pipe, whichever it is, nor what any client brings that is
-- tolerable faults.
abbrev pub IsSound : {J : Type 0} → Env J → State → Type 0
IsSound env s =
    ((type : NtfType) (id : ℕ) → Holds IsRegistered Never (handle_notification env type id s))
    × ((magic_str size_str : List ℕ) (c : Connection) (run : Exec State Connection)
        → IsTolerable env (receive_request magic_str size_str c)
        → receive_command env magic_str size_str c ≡ some run
        → Holds Anything Never (run s))

module _ {J : Type 0} (env : Env J) (a : AnswersQueries env.ilm) where
  handled-IsRegistered :
      (type : NtfType) (id : ℕ) → Keeps IsRegistered Never (handle_notification env type id)
  unfolding handle_notification
  handled-IsRegistered creation_delection id =
      Keeps-wrap_ilm_set_surface_add_notification env IsRegistered-quiet id
  handled-IsRegistered surface_prop_change id = record {
    at = λ s r. outcome-IsRegistered s _ (notification_safe env a id s r) r;
  }

  begun-IsRegistered :
      (path : Option String)
      → HasShortConfig env.jansson path
      → Holds IsRegistered Never (initialize env path start)
  unfolding initialize
  begun-IsRegistered path t =
      Holds-bind IsRegistered IsRegistered Never _ _ start (λ s p. p)
        ((Keeps-wrap_ilm_init env.ilm IsRegistered-quiet).at start (record { listed = tt }))
        (λ u s p. parser_init-IsRegistered env a path s t)

  pub Running-IsRegistered :
      {sys : System}
      → Running env (HasShortConfig env.jansson) (KeepsObjects env) sys
      → IsRegistered sys.state
  Running-IsRegistered =
      running_kept env (KeepsObjects env) IsRegistered
        (λ type id. Keeps-Exits _ (handled-IsRegistered type id))
        (λ msg sent. record {
          at = λ s r.
              Holds-Ends IsRegistered Never (parser_parse_recv_command env msg s)
                (growth env a msg s sent.0 sent.1 sent.2 r);
        })
        (HasShortConfig env.jansson)
        (λ path fit.
          Holds-Ends IsRegistered Never (initialize env path start) (begun-IsRegistered path fit))

  request_safe :
      (s : State)
      → IsRegistered s
      → (r : Option (Request × Connection)) → IsTolerable env r
      → Handles env Anything Never s r
  request_safe s registered none tolerable = tt
  request_safe s registered (some (refused, c)) tolerable = tt
  request_safe s registered (some (overflowed, c)) tolerable = tolerable
  request_safe s registered (some (over_read, c)) tolerable = tolerable
  request_safe s registered (some (message msg, c)) tolerable =
      parser_parse_recv_command_safe env _ s a tolerable registered

  -- As long as no message removes a surface or a layer, neither a notification from the pipe nor
  -- what a client brings makes the running program fault, whichever clients come and hang up and
  -- wherever callbacks come in between, if libilm answers queries, no text of the configuration file
  -- and of the messages is too long for its buffer, and the client neither announces the one size
  -- that overflows nor begins with a wrong magic code without a NUL, which the window manager prints.
  pub Running-IsSound :
      {sys : System}
      → Running env (HasShortConfig env.jansson) (KeepsObjects env) sys
      → IsSound env sys.state
  unfolding receive_command receive_request
  Running-IsSound {sys} r = (
    λ type id. (handled-IsRegistered type id).at sys.state (Running-IsRegistered r),
    λ magic_str size_str c run tolerable e. subst (Ends env Anything Never sys.state) e (
        run_request-Ends env Anything Never sys.state _
          (request_safe sys.state (Running-IsRegistered r) _ tolerable)),
  )
