-- ===== src/Client/Served.antt =====
-- A session of example/wmsendcmd.c with the loop of app/main.c.
use uhmi_ivi_wm.Base.{
  ℕ, ◌+◌, ◌-◌, ◌^◌, ◌<◌, ◌≡◌, ◌≢◌, refl, ap, String, List, [], ◌∷◌, ◌++◌, some, All, length, true,
  arith,
}
use uhmi_ivi_wm.Exec.{success, pure, fault, ◌>>◌}
use uhmi_ivi_wm.Jansson.{ℤ, pos, Jansson}
use uhmi_ivi_wm.Receiver.{
  done, ByteOrder, Received, Connection, magic_code, htonl, of_int, to_int, send,
  send_response_to_client,
}
use uhmi_ivi_wm.Receiver.Body.{joined, AreFull, after}
use uhmi_ivi_wm.Receiver.Session.{
  BringsNext, open_with, exchange_magiccode_with_client-send, acquire_body_size_from_client-send,
}
use uhmi_ivi_wm.Request.{message, receive_request, acquire_request, if_accepted, answered}
use uhmi_ivi_wm.Options.{Opt, parsed}
use uhmi_ivi_wm.Parser.{parser_parse_recv_command}
use uhmi_ivi_wm.Env.{Env}
use uhmi_ivi_wm.EventLoop.{receive_command, handle_request}
use uhmi_ivi_wm.Client.{shown, send_request, send_document, send_file, main, parse_client_options}
use uhmi_ivi_wm.Client.RoundTrip.{
  KeepsFields, IsResponse, stream, stream_sent, send_request-stream, receive_request-stream,
  c_string-nul, receive_response-answer,
}

-- The local arrays of the window manager.
module _ {J : Type 0} (env : Env J) (magic_str size_str : List ℕ) (magic_4 : length magic_str ≡ 4)
    (size_4 : length size_str ≡ 4) where
  handle_request-message :
      (cmd : List ℕ) (socket : List Received) (outgoing : List ℕ)
      → All (λ b. b ≢ 0) cmd
      → handle_request env
          (message (cmd ++ 0 ∷ 0 ∷ []))
          (open_with [] socket (outgoing ++ magic_code))
        ≡ (parser_parse_recv_command env (env.text_of cmd)
            >> pure (open_with [] socket ((outgoing ++ magic_code) ++ htonl (of_int (pos 0)))))
  unfolding handle_request answered send_response_to_client send
  handle_request-message cmd socket outgoing ok = rw (c_string-nul cmd (0 ∷ []) ok) refl

  -- A text without NUL that a client sends reaches the parser as it was, however the stream is cut
  -- outside its first two fields, nothing behind it is taken, and the answer is the magic code and 0,
  -- where its size with the NUL is below 2 ^ 31 - 1.
  pub receive_command-send_request :
      (cmd : List ℕ) (c : Connection) (pieces : List (List ℕ)) (socket : List Received)
      (outgoing : List ℕ)
      → All (λ b. b ≢ 0) cmd
      → length cmd + 1 < 2 ^ 31 - 1
      → send_request cmd (open_with [] [] []) ≡ some (done success, c)
      → joined pieces ≡ c.outgoing
      → AreFull pieces
      → KeepsFields pieces
      → receive_command env magic_str size_str (open_with pieces socket outgoing)
        ≡ some (
            parser_parse_recv_command env (env.text_of cmd)
            >> pure (open_with [] socket ((outgoing ++ magic_code) ++ htonl (of_int (pos 0)))))
  unfolding receive_command
  receive_command-send_request cmd c pieces socket outgoing ok short sent cut full fields =
      let cut' : joined pieces ≡ stream cmd =
        stream_sent cmd c pieces (omega (arith, short)) sent cut in
      rw
        (receive_request-stream cmd pieces full fields cut' magic_str size_str socket outgoing
          magic_4 size_4 short)
        (ap some (handle_request-message cmd socket outgoing ok))

  -- A client that announces a body of 2 ^ 31 - 1 bytes makes the window manager overflow an int
  -- before it reads any of them.
  pub receive_command-overflow :
      (pieces : List (List ℕ)) (socket : List Received) (outgoing : List ℕ)
      → BringsNext magic_code pieces
      → BringsNext (htonl (2 ^ 31 - 1)) (after 4 pieces)
      → receive_command env magic_str size_str (open_with pieces socket outgoing) ≡ some fault
  unfolding receive_command receive_request if_accepted to_int acquire_request handle_request
  receive_command-overflow pieces socket outgoing magic size =
      rw
        (
          exchange_magiccode_with_client-send pieces socket outgoing magic_str magic_4 magic,
          acquire_body_size_from_client-send (after 4 pieces) socket (outgoing ++ magic_code)
              size_str (2 ^ 31 - 1) size_4 (omega arith) size,
        )
        refl

-- A client with a document in a file, whose text is shorter than 2 ^ 31 - 1 bytes, sends its size and
-- its text, and shows the response that comes, 0 or -1, whatever the byte order, however the answer is cut between its two fields, and whatever
-- options come before the path.
pub main-answered :
    {J : Type 0} (jansson : Jansson J) (json_dumps : J → List ℕ) (order : ByteOrder)
    (stack : List ℕ) (opts : List Opt) (path : String) (j : J) (resp : ℤ) (pieces : List (List ℕ))
    (socket : List Received)
    → parse_client_options opts ≡ parsed (some path)
    → jansson.json_load_file path ≡ some j
    → length (json_dumps j) + 1 < 2 ^ 31
    → length stack ≡ 4
    → IsResponse resp
    → joined pieces ≡ magic_code ++ htonl (of_int resp)
    → KeepsFields pieces
    → main jansson json_dumps order stack opts (open_with pieces socket [])
      ≡ some (shown true resp, open_with (after 4 (after 4 pieces)) socket (stream (json_dumps j)))
unfolding main send_file send_document
main-answered jansson json_dumps order stack opts path j resp pieces socket given loaded short four
      is cut fields =
    rw (given, loaded, send_request-stream (json_dumps j) [] _ short)
      (receive_response-answer order stack resp pieces socket (stream (json_dumps j)) four fields
        cut is)
