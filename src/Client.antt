-- ===== src/Client.antt =====
-- example/wmsendcmd.c: a client that sends the JSON document of a file.
pub mod RoundTrip
pub mod Served
pub mod Progress
use uhmi_ivi_wm.Base.{
  ℕ, ◌+◌, String, List, [], ◌∷◌, ◌++◌, Option, none, some, Bool, length, if◌then◌else◌, ◌||◌, ◌%◌,
  ◌^◌,
}
use uhmi_ivi_wm.Jansson.{ℤ, pos, Jansson}
use uhmi_ivi_wm.Options.{Opt, Parsed, usage, parsed, parse_option}
use uhmi_ivi_wm.Receiver.{
  ByteOrder, Wire, Sent, done, past_buffer, has_nul, to_int, pure, ◌>>=◌, magic_code, strncmp_equal,
  send_data_to_server, send_body_size_to_server, recv_str_response_from_server,
  recv_response_from_server,
}

-- How the client ends: by `usage`, with whether the magic code came back and the response, which it
-- prints, or by reading past a buffer that it sends or an array that it prints.
pub data Ended : Type 0 where
  exited : ℕ → Ended
  shown : Bool → ℤ → Ended
  over_read : Ended

-- The client's `parse_option` and `usage` are those of app/main.c; `json_conf_path` is NULL at first.
unfoldable pub parse_client_options : List Opt → Parsed
parse_client_options opts = parse_option opts none

-- `cmdsize` is an unsigned int, which becomes the int that `send_data_to_server` takes. Whether the
-- sends succeed is not looked at.
unfoldable pub send_request : List ℕ → Wire Sent
send_request cmd =
    let cmdsize = (length cmd + 1) % 2 ^ 32 in
    send_data_to_server magic_code (pos 4) >>= λ _.
    send_body_size_to_server cmdsize >>= λ _. send_data_to_server (cmd ++ 0 ∷ []) (to_int cmdsize)

-- `stack` is what stands in the local variable `res` of
-- `recv_response_from_server`.
unfoldable pub receive_response : ByteOrder → List ℕ → Wire Ended
receive_response order stack = recv_str_response_from_server (0 ∷ 0 ∷ 0 ∷ 0 ∷ []) >>= λ resp.
    let magic = strncmp_equal resp magic_code in
    let rest = recv_response_from_server order stack >>= λ res. pure (shown magic res) in
    if magic || has_nul resp then rest else pure over_read

module _ {J : Type 0} (jansson : Jansson J) (json_dumps : J → List ℕ) (order : ByteOrder)
    (stack : List ℕ) where
  abbrev pub if_sent : Sent → Wire Ended
  if_sent (done status) = receive_response order stack
  if_sent past_buffer = pure over_read

  unfoldable pub send_document : Option J → Wire Ended
  send_document none = pure (exited 1)
  send_document (some jobject) = send_request (json_dumps jobject) >>= if_sent

  unfoldable pub send_file : Parsed → Wire Ended
  send_file (usage ret) = pure (exited ret)
  send_file (parsed none) = pure (exited 0)
  send_file (parsed (some json_conf_path)) = send_document (jansson.json_load_file json_conf_path)

  -- `main`, on the connection that `connect_to_server` makes.
  unfoldable pub main : List Opt → Wire Ended
  main opts = send_file (parse_client_options opts)
