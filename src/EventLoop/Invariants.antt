-- ===== src/EventLoop/Invariants.antt =====
-- Invariants of the loop of app/main.c: what the start, the notifications and the commands keep
-- where they return holds in every state of the running program.
use uhmi_ivi_wm.Base.{ℕ, String, Option, none, some, subst}
use uhmi_ivi_wm.Exec.{Exec, Outcome, returned, exited, faulted}
use uhmi_ivi_wm.Exec.Keeps.{Keeps, Holds, Anything}
use uhmi_ivi_wm.Exec.Exits.{Ends, Exits, Exits-pure, Exits-fault, Exits-bind}
use uhmi_ivi_wm.Receiver.{Connection}
use uhmi_ivi_wm.Request.{Request, refused, overflowed, over_read, message, receive_request}
use uhmi_ivi_wm.State.{State, start}
use uhmi_ivi_wm.Parser.{parser_parse_recv_command}
use uhmi_ivi_wm.Env.{Env}
use uhmi_ivi_wm.EventLoop.{
  NtfType, System, SystemStep, object_notified, surface_notified, pipe_read, client_accepted,
  client_closed, command_received, Running, initialized, going_on, IsSent, run_request,
  handle_request, handle_notification, receive_command, initialize,
}

pub Holds-Ends :
    {S A : Type 0} (P F : S → Type 0) (o : Outcome S A) → Holds P F o → Ends P Anything o
Holds-Ends P F (returned a s) h = h
Holds-Ends P F (exited s) h = tt
Holds-Ends P F (faulted s) h = tt

pub Keeps-Exits :
    {S A : Type 0} {P F : S → Type 0} (m : Exec S A) → Keeps P F m → Exits P Anything m
Keeps-Exits {P} {F} m k = record { at = λ s h. Holds-Ends P F (m s) (k.at s h) }

-- What is done for a request, where anything is.
abbrev Kept : (State → Type 0) → Option (Exec State Connection) → Type 0
Kept P none = Unit
Kept P (some run) = Exits P Anything run

module _ {J : Type 0} (env : Env J) (Sent : String → Type 0) (P : State → Type 0)
    (handled : (type : NtfType) (id : ℕ) → Exits P Anything (handle_notification env type id))
    (commanded : (msg : String)
      → Sent msg
      → Exits P Anything (parser_parse_recv_command env msg)) where
  handle_request-kept :
      (r : Request) (c : Connection)
      → IsSent env Sent (some (r, c))
      → Exits P Anything (handle_request env r c)
  unfolding handle_request
  handle_request-kept refused c sent = Exits-pure _
  handle_request-kept overflowed c sent = Exits-fault
  handle_request-kept over_read c sent = Exits-fault
  handle_request-kept (message msg) c sent = Exits-bind _ _ (commanded _ sent) (λ u. Exits-pure _)

  run_request-Kept :
      (r : Option (Request × Connection)) → IsSent env Sent r → Kept P (run_request env r)
  run_request-Kept none sent = tt
  run_request-Kept (some (r, c)) sent = handle_request-kept r c sent

  step_kept : {a b : System} → SystemStep env Sent a b → P a.state → P b.state
  unfolding receive_command
  step_kept (object_notified object id created) p = p
  step_kept (surface_notified id configured) p = p
  step_kept {a} (pipe_read ntf rest front e) p =
      subst (Ends P Anything) e ((handled ntf.type ntf.id).at a.state p)
  step_kept (client_accepted c e) p = p
  step_kept client_closed p = p
  step_kept {a} (command_received magic_str size_str c c' run front sent e f) p =
      let kept = subst (Kept P) e (run_request-Kept (receive_request magic_str size_str c) sent) in
      subst (Ends P Anything) f (kept.at a.state p)

  module _ (Given : Option String → Type 0)
      (begun : (path : Option String)
        → Given path
        → Ends P Anything (initialize env path start)) where
    pub running_kept : {a : System} → Running env Given Sent a → P a.state
    running_kept (initialized dashed opts path p given e) =
        subst (Ends P Anything) e (begun path given)
    running_kept (going_on r step) = step_kept step (running_kept r)
