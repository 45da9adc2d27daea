-- ===== src/Client/Progress.antt =====
-- What becomes of a client's command in the running window manager.
use uhmi_ivi_wm.Base.{
  arith, ℕ, ◌+◌, ◌-◌, ◌^◌, ◌<◌, ◌≡◌, ◌≢◌, refl, sym, subst, String, List, [], ◌∷◌, ◌++◌, some, All,
  length,
}
use uhmi_ivi_wm.Exec.{success, Exec, returned, pure, ◌>>=◌, ◌>>◌}
use uhmi_ivi_wm.State.{State}
use uhmi_ivi_wm.Jansson.{pos}
use uhmi_ivi_wm.Receiver.{done, Received, Connection, magic_code, htonl, of_int}
use uhmi_ivi_wm.Receiver.Body.{joined, AreFull}
use uhmi_ivi_wm.Receiver.Session.{open_with}
use uhmi_ivi_wm.Request.{message}
use uhmi_ivi_wm.Parser.{parser_parse_recv_command}
use uhmi_ivi_wm.Env.{Env}
use uhmi_ivi_wm.EventLoop.{System, SystemStep, command_received, Running, IsSent}
use uhmi_ivi_wm.EventLoop.Refinement.{KeepsObjects, Running-IsRegistered}
use uhmi_ivi_wm.Safety.{HasShortConfig}
use uhmi_ivi_wm.Wrapper.Returns.{IsObliging}
use uhmi_ivi_wm.Exits.Closing.{command, perform_returns, obliging-AnswersQueries}
use uhmi_ivi_wm.Client.{send_request}
use uhmi_ivi_wm.Client.RoundTrip.{KeepsFields, receive_request-stream, c_string-nul, stream_sent}
use uhmi_ivi_wm.Client.Served.{receive_command-send_request}

answered_with :
    (m : Exec State (Unit {0})) (c : Connection) (s t : State)
    → m s ≡ returned tt t
    → (m >> pure c) s ≡ returned c t
unfolding ◌>>=◌
answered_with m c s t e = rw e refl

module _ {J : Type 0} (env : Env J) (magic_str size_str : List ℕ) (magic_4 : length magic_str ≡ 4)
    (size_4 : length size_str ≡ 4) (obliging : IsObliging env.ilm) where
  text-IsSent :
      (Sent : String → Type 0) (cmd : List ℕ) (c : Connection)
      → All (λ b. b ≢ 0) cmd
      → Sent (env.text_of cmd)
      → IsSent env Sent (some (message (cmd ++ 0 ∷ 0 ∷ []), c))
  text-IsSent Sent cmd c ok sent = rw (c_string-nul cmd (0 ∷ []) ok) sent

  -- In every state of the running window manager, while no command removes, the command of a client
  -- that is connected leads to a next state, in which the client has the magic code and 0 as its
  -- answer: the text has no NUL and does not overflow, its texts fit their buffers, the stream is cut
  -- outside its first two fields, and libilm does what it is asked for.
  pub command_served :
      {sys : System} (cmd : List ℕ) (c : Connection) (pieces : List (List ℕ))
      (socket : List Received) (outgoing : List ℕ)
      → Running env (HasShortConfig env.jansson) (KeepsObjects env) sys
      → sys.accepted ≡ some (open_with pieces socket outgoing)
      → All (λ b. b ≢ 0) cmd
      → length cmd + 1 < 2 ^ 31 - 1
      → KeepsObjects env (env.text_of cmd)
      → send_request cmd (open_with [] [] []) ≡ some (done success, c)
      → joined pieces ≡ c.outgoing
      → AreFull pieces
      → KeepsFields pieces
      → (t : State) × SystemStep env (KeepsObjects env) sys (record sys {
        state = t;
        accepted = some (open_with [] socket ((outgoing ++ magic_code) ++ htonl (of_int (pos 0))));
      })
  command_served {sys} cmd c pieces socket outgoing running accepted ok short keeps sent cut full
        fields =
      let registered =
        Running-IsRegistered env (obliging-AnswersQueries env.ilm obliging) running in
      let (t, performed) =
        perform_returns env obliging (command (env.text_of cmd)) sys.state keeps.0 registered in
      (
        t,
        command_received magic_str size_str (open_with pieces socket outgoing) _ _ accepted
            (subst (IsSent env (KeepsObjects env))
              (sym (
                receive_request-stream cmd pieces full fields
                  (stream_sent cmd c pieces (omega (arith, short)) sent cut) magic_str size_str
                  socket outgoing magic_4 size_4 short))
              (text-IsSent (KeepsObjects env) cmd (open_with [] socket (outgoing ++ magic_code)) ok
                keeps))
            (receive_command-send_request env magic_str size_str magic_4 size_4 cmd c pieces socket
              outgoing ok short sent cut full fields)
            (answered_with (parser_parse_recv_command env (env.text_of cmd)) _ sys.state t
              performed),
      )
