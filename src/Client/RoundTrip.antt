-- ===== src/Client/RoundTrip.antt =====
-- What example/wmsendcmd.c sends is what the window manager reads, and it answers it.
use mathlib.Core.Option.{some-injective}
use uhmi_ivi_wm.Base.{
  subst, ℕ, ◌+◌, ◌-◌, ◌^◌, ◌%◌, ◌≤◌, ◌<◌, ◌≡◌, ◌≢◌, refl, sym, ap, ◌∙◌, List, [], ◌∷◌, ◌++◌,
  append_assoc, append-nil, some, All, length, take, drop, ltb, zero, suc, Option, take-append,
  drop-append, length-append, ◌==◌, true, false, arith,
}
use uhmi_ivi_wm.Jansson.{ℤ, pos, negsuc}
use uhmi_ivi_wm.Exec.{success}
use uhmi_ivi_wm.Receiver.{
  Sent, ByteOrder, little_endian, big_endian, int_of, of_int, ntohl, strncmp_equal, Received,
  Connection, ◌>>=◌, pure, acquire_body_from_client, magic_code, htonl, to_int, send,
  send_data_to_server, send_body_size_to_server,
}
use uhmi_ivi_wm.Receiver.Body.{
  joined, AreFull, after, joined-after, after-AreFull, after_all, acquire_body_from_client-joined,
}
use uhmi_ivi_wm.Receiver.Session.{
  HasWhole, BringsNext, open_with, exchange_magiccode_with_client-send,
  acquire_body_size_from_client-send, recv_str_response_from_server-send,
  recv_response_from_server-send,
}
use uhmi_ivi_wm.Request.{message, receive_request, acquire_request, if_accepted, c_string}
use uhmi_ivi_wm.Client.{send_request, receive_response, shown}

pub c_string-nul : (cmd rest : List ℕ) → All (λ b. b ≢ 0) cmd → c_string (cmd ++ 0 ∷ rest) ≡ cmd
unfolding c_string
c_string-nul [] rest ok = refl
c_string-nul (b ∷ cmd) rest ok =
    let ne : (b == 0) ≡ false = ground (arith, ok.0) in rw (ne, c_string-nul cmd rest ok.1) refl

take_all : (xs : List ℕ) (n : ℕ) → n ≡ length xs → take n xs ≡ xs
take_all xs n e = ap (take n) (sym (append-nil xs)) ∙ take-append n xs [] e

acquire_request-message :
    (size : ℕ) (c : Connection)
    → 1 ≤ size
    → size < 2 ^ 31 - 1
    → acquire_request (pos size) c ≡ (acquire_body_from_client size >>= λ msg. pure (message msg)) c
unfolding acquire_request
acquire_request-message zero c some_size short = absurd (omega (arith, some_size))
acquire_request-message (suc n) c some_size short =
    let bounded : (suc n == 2 ^ 31 - 1) ≡ false = ground (arith, short) in rw bounded refl

-- The stream that a client with this text puts out.
abbrev pub stream : List ℕ → List ℕ
stream cmd = magic_code ++ (htonl (length cmd + 1) ++ (cmd ++ 0 ∷ []))

put_out :
    (cmd outgoing : List ℕ) (socket : List Received)
    → Path
        (Option (Sent × Connection))
        (some (
          Sent.done success,
          record {
            incoming = socket;
            refused = [];
            outgoing = ((outgoing ++ magic_code) ++ htonl (length cmd + 1)) ++ (cmd ++ 0 ∷ []);
          },
        ))
        (some (
          Sent.done success,
          record { incoming = socket; refused = []; outgoing = outgoing ++ stream cmd },
        ))
put_out cmd outgoing socket =
    ap (λ o. some (Sent.done success, record { incoming = socket; refused = []; outgoing = o }))
      (append_assoc (outgoing ++ magic_code) (htonl (length cmd + 1)) (cmd ++ 0 ∷ [])
        ∙ append_assoc outgoing magic_code (htonl (length cmd + 1) ++ (cmd ++ 0 ∷ [])))

pub send_request-stream :
    (cmd outgoing : List ℕ) (socket : List Received)
    → length cmd + 1 < 2 ^ 31
    → send_request cmd (record { incoming = socket; refused = []; outgoing = outgoing })
      ≡ some (
        Sent.done success,
        record { incoming = socket; refused = []; outgoing = outgoing ++ stream cmd },
      )
unfolding send_request send send_data_to_server send_body_size_to_server to_int
send_request-stream cmd outgoing socket short =
    let size : (length cmd + 1) % 2 ^ 32 ≡ suc (length cmd) = omega (arith, short) in
    let plus : length cmd + 1 ≡ suc (length cmd) = omega arith in
    let in_int : ltb (suc (length cmd)) (2 ^ 31) ≡ true = ground (arith, short) in
    let long : length (cmd ++ 0 ∷ []) ≡ suc (length cmd) =
      length-append cmd (0 ∷ []) ∙ omega arith in
    let enough : ltb (suc (length cmd)) (suc (length cmd)) ≡ false = ground arith in
    rw (size, in_int, long, enough, take_all (cmd ++ 0 ∷ []) (suc (length cmd)) (sym long))
      (subst
        (λ n.
          Path (Option (Sent × Connection))
            (some (
              Sent.done success,
              record {
                incoming = socket;
                refused = [];
                outgoing = ((outgoing ++ magic_code) ++ htonl n) ++ (cmd ++ 0 ∷ []);
              },
            ))
            (some (
              Sent.done success,
              record { incoming = socket; refused = []; outgoing = outgoing ++ stream cmd },
            )))
        plus (put_out cmd outgoing socket))

-- The stream that is cut is the one that the client put out.
pub stream_sent :
    (cmd : List ℕ) (c : Connection) (pieces : List (List ℕ))
    → length cmd + 1 < 2 ^ 31
    → send_request cmd (open_with [] [] []) ≡ some (Sent.done success, c)
    → joined pieces ≡ c.outgoing
    → joined pieces ≡ stream cmd
stream_sent cmd c pieces short sent cut =
    cut
    ∙ ap (λ r. r.1.outgoing)
        (some-injective (Sent.done success, c) (_, _)
          (sym sent ∙ send_request-stream cmd [] [] short))

-- The two fields of four bytes are not cut.
abbrev pub KeepsFields : List (List ℕ) → Type 0
KeepsFields pieces = HasWhole 4 pieces × HasWhole 4 (after 4 pieces)

module _ (cmd : List ℕ) (pieces : List (List ℕ)) (full : AreFull pieces)
    (fields : KeepsFields pieces) (cut : joined pieces ≡ stream cmd) where
  brings_magic : BringsNext magic_code pieces
  brings_magic = (fields.0, ap (take 4) cut ∙ take-append 4 magic_code _ refl)

  after_magic : joined (after 4 pieces) ≡ htonl (length cmd + 1) ++ (cmd ++ 0 ∷ [])
  after_magic = joined-after 4 pieces ∙ (ap (drop 4) cut ∙ drop-append 4 magic_code _ refl)

  brings_size : BringsNext (htonl (length cmd + 1)) (after 4 pieces)
  unfolding htonl
  brings_size = (
    fields.1,
    ap (take 4) after_magic ∙ take-append 4 (htonl (length cmd + 1)) (cmd ++ 0 ∷ []) refl,
  )

  after_size : joined (after 4 (after 4 pieces)) ≡ cmd ++ 0 ∷ []
  unfolding htonl
  after_size =
      joined-after 4 (after 4 pieces)
      ∙ (ap (drop 4) after_magic ∙ drop-append 4 (htonl (length cmd + 1)) (cmd ++ 0 ∷ []) refl)

  body-message :
      (socket : List Received) (outgoing : List ℕ)
      → length cmd + 1 < 2 ^ 31 - 1
      → acquire_request
          (pos (length cmd + 1))
          (open_with (after 4 (after 4 pieces)) socket (outgoing ++ magic_code))
        ≡ some (message (cmd ++ 0 ∷ 0 ∷ []), open_with [] socket (outgoing ++ magic_code))
  body-message socket outgoing short =
      let body_full : AreFull (after 4 (after 4 pieces)) =
        after-AreFull 4 (after 4 pieces) (after-AreFull 4 pieces full) in
      let size : length (joined (after 4 (after 4 pieces))) ≡ length cmd + 1 =
        ap length after_size ∙ length-append cmd (0 ∷ []) in
      let whole : take (length cmd + 1) (joined (after 4 (after 4 pieces))) ≡ cmd ++ 0 ∷ [] =
        ap (take (length cmd + 1)) after_size
        ∙ take_all (cmd ++ 0 ∷ []) (length cmd + 1) (sym (length-append cmd (0 ∷ []))) in
      let none_left : after (length cmd + 1) (after 4 (after 4 pieces)) ≡ [] =
        ap (λ n. after n (after 4 (after 4 pieces))) (sym size) ∙ after_all _ body_full in
      rw
        (
          acquire_request-message (length cmd + 1)
              (open_with (after 4 (after 4 pieces)) socket (outgoing ++ magic_code)) (omega arith)
              short,
          acquire_body_from_client-joined (length cmd + 1) (after 4 (after 4 pieces)) socket []
              (outgoing ++ magic_code) body_full (omega (arith, size)) (omega (arith, short)),
          whole,
          none_left,
          append_assoc cmd (0 ∷ []) (0 ∷ []),
        )
        refl

  pub receive_request-stream :
      (magic_str size_str : List ℕ) (socket : List Received) (outgoing : List ℕ)
      → length magic_str ≡ 4
      → length size_str ≡ 4
      → length cmd + 1 < 2 ^ 31 - 1
      → receive_request magic_str size_str (open_with pieces socket outgoing)
        ≡ some (message (cmd ++ 0 ∷ 0 ∷ []), open_with [] socket (outgoing ++ magic_code))
  unfolding receive_request if_accepted to_int
  receive_request-stream magic_str size_str socket outgoing magic_4 size_4 short =
      let in_int : (ltb (length cmd + 1) (2 ^ 31)) ≡ true = ground (arith, short) in
      rw
        (
          exchange_magiccode_with_client-send pieces socket outgoing magic_str magic_4 brings_magic,
          acquire_body_size_from_client-send (after 4 pieces) socket (outgoing ++ magic_code)
              size_str (length cmd + 1) size_4 (omega (arith, short)) brings_size,
          in_int,
        )
        (body-message socket outgoing short)

-- The window manager's answer: the magic code, and 0 where it took a command or -1.
pub data IsResponse : ℤ → Type 0 where
  done : IsResponse (pos 0)
  refused : IsResponse (negsuc 0)

int_of-response :
    (order : ByteOrder) (resp : ℤ) → IsResponse resp → int_of order (htonl (of_int resp)) ≡ resp
unfolding int_of htonl of_int to_int ntohl
int_of-response little_endian _ done = refl
int_of-response big_endian _ done = refl
int_of-response little_endian _ refused = refl
int_of-response big_endian _ refused = refl

pub receive_response-answer :
    (order : ByteOrder) (stack : List ℕ) (resp : ℤ) (pieces : List (List ℕ))
    (socket : List Received) (outgoing : List ℕ)
    → length stack ≡ 4
    → KeepsFields pieces
    → joined pieces ≡ magic_code ++ htonl (of_int resp)
    → IsResponse resp
    → receive_response order stack (open_with pieces socket outgoing)
      ≡ some (shown true resp, open_with (after 4 (after 4 pieces)) socket outgoing)
unfolding receive_response htonl strncmp_equal
receive_response-answer order stack resp pieces socket outgoing four fields cut is =
    let field : joined (after 4 pieces) ≡ htonl (of_int resp) =
      joined-after 4 pieces ∙ (ap (drop 4) cut ∙ drop-append 4 magic_code _ refl) in
    let magic : BringsNext magic_code pieces =
      (fields.0, ap (take 4) cut ∙ take-append 4 magic_code (htonl (of_int resp)) refl) in
    let response : BringsNext (htonl (of_int resp)) (after 4 pieces) =
      (fields.1, ap (take 4) field) in
    rw
      (
        recv_str_response_from_server-send pieces socket outgoing (0 ∷ 0 ∷ 0 ∷ 0 ∷ []) magic_code
            refl magic,
        recv_response_from_server-send (after 4 pieces) socket outgoing order stack
            (htonl (of_int resp)) four response,
        int_of-response order resp is,
      )
      refl
