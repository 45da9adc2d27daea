-- ===== src/Receiver/Session.antt =====
-- The fields of four bytes of app/comm_receiver.c, which one `recv` takes: the magic code, the size
-- and the response.
use uhmi_ivi_wm.Base.{
  append_assoc, true, ℕ, ◌-◌, ◌+◌, ◌^◌, ◌≤◌, ◌<◌, ◌≡◌, refl, ap, ◌∙◌, List, [], ◌∷◌, ◌++◌, some,
  length, take, ltb, ◌==◌, Bool-cases, inl, inr, false, arith, take-append_front, take-append, suc,
}
use uhmi_ivi_wm.Exec.{success}
use uhmi_ivi_wm.Jansson.{pos}
use uhmi_ivi_wm.Receiver.{
  send_body_size_to_server, Exchange, Received, bytes, Connection, recv_piece, recv, send, htonl,
  ntohl, to_int, magic_code, size_of, strncmp_equal, check_magic, exchange_magiccode_with_client,
  acquire_body_size_from_client, recv_str_response_from_server, response_into,
  recv_response_from_server, response_of, ByteOrder, int_of,
}
use uhmi_ivi_wm.Receiver.Body.{joined, arriving, after, store_whole}

-- The next piece has at least `n` bytes.
abbrev pub HasWhole : ℕ → List (List ℕ) → Type 0
HasWhole n [] = ⊥
HasWhole n (piece ∷ pieces) = n ≤ length piece

-- An end whose peer's bytes come in as these pieces, and on which no `send` fails.
abbrev pub open_with : List (List ℕ) → List Received → List ℕ → Connection
open_with pieces socket outgoing = record {
  incoming = arriving pieces socket;
  refused = [];
  outgoing = outgoing;
}

after_none : (pieces : List (List ℕ)) → after 0 pieces ≡ pieces
unfolding after
after_none [] = refl
after_none (piece ∷ pieces) = refl

recv_piece-HasWhole :
    (n : ℕ) (pieces : List (List ℕ)) (socket : List Received)
    → HasWhole (suc n) pieces
    → recv_piece (suc n) (arriving pieces socket)
      ≡ some (bytes (take (suc n) (joined pieces)), arriving (after (suc n) pieces) socket)
unfolding recv_piece after
recv_piece-HasWhole n [] socket whole = absurd whole
recv_piece-HasWhole n (piece ∷ pieces) socket whole =
    let ne : (suc n == 0) ≡ false = ground arith in
    elim (Bool-cases (ltb (suc n) (length piece))) [
      | inl short ↦ rw (ne, short, take-append_front (suc n) piece (joined pieces) whole) refl
      | inr long ↦
          let exactly : suc n ≡ length piece + 0 = ground (arith, long, whole) in
          let left : suc n - length piece ≡ 0 = omega (arith, exactly) in
          let taken : take (suc n) (piece ++ joined pieces) ≡ piece =
            take-append (suc n) piece (joined pieces) (omega (arith, exactly)) in
          rw (ne, long, taken, left, after_none pieces) refl
    ]

ntohl-htonl : (n : ℕ) → n < 2 ^ 32 → ntohl (htonl n) ≡ n
unfolding ntohl htonl
ntohl-htonl n lt = omega (arith, lt)

recv-HasWhole :
    (n : ℕ) (pieces : List (List ℕ)) (socket : List Received) (outgoing : List ℕ)
    → HasWhole (suc n) pieces
    → recv (suc n) (open_with pieces socket outgoing)
      ≡ some
          (bytes (take (suc n) (joined pieces)), open_with (after (suc n) pieces) socket outgoing)
unfolding recv
recv-HasWhole n pieces socket outgoing whole = rw (recv_piece-HasWhole n pieces socket whole) refl

-- What comes next at the end is what `field` sent, and it comes in one piece.
abbrev pub BringsNext : List ℕ → List (List ℕ) → Type 0
BringsNext field pieces = HasWhole 4 pieces × (take 4 (joined pieces) ≡ field)

module _ (pieces : List (List ℕ)) (socket : List Received) (outgoing : List ℕ) where
  pub recv-BringsNext :
      (field : List ℕ)
      → BringsNext field pieces
      → recv 4 (open_with pieces socket outgoing)
        ≡ some (bytes field, open_with (after 4 pieces) socket outgoing)
  recv-BringsNext field brings =
      recv-HasWhole 3 pieces socket outgoing brings.0
      ∙ ap (λ f. some (bytes f, open_with (after 4 pieces) socket outgoing)) brings.1

  pub acquire_body_size_from_client-send :
      (stack : List ℕ) (size : ℕ)
      → length stack ≡ 4
      → size < 2 ^ 32
      → BringsNext (htonl size) pieces
      → acquire_body_size_from_client stack (open_with pieces socket outgoing)
        ≡ some (to_int size, open_with (after 4 pieces) socket outgoing)
  unfolding acquire_body_size_from_client size_of htonl
  acquire_body_size_from_client-send stack size four lt brings =
      rw
        (
          recv-BringsNext (htonl size) brings,
          store_whole stack (htonl size) four,
          ntohl-htonl size lt,
        )
        refl

  pub exchange_magiccode_with_client-send :
      (stack : List ℕ)
      → length stack ≡ 4
      → BringsNext magic_code pieces
      → exchange_magiccode_with_client stack (open_with pieces socket outgoing)
        ≡ some (Exchange.accepted, open_with (after 4 pieces) socket (outgoing ++ magic_code))
  unfolding exchange_magiccode_with_client check_magic send strncmp_equal
  exchange_magiccode_with_client-send stack four brings =
      rw (recv-BringsNext magic_code brings, store_whole stack magic_code four) refl

  pub recv_str_response_from_server-send :
      (res field : List ℕ)
      → length res ≡ length field
      → BringsNext field pieces
      → recv_str_response_from_server res (open_with pieces socket outgoing)
        ≡ some (field, open_with (after 4 pieces) socket outgoing)
  unfolding recv_str_response_from_server response_into
  recv_str_response_from_server-send res field four brings =
      rw (recv-BringsNext field brings, store_whole res field four) refl

  pub recv_response_from_server-send :
      (order : ByteOrder) (stack field : List ℕ)
      → length stack ≡ length field
      → BringsNext field pieces
      → recv_response_from_server order stack (open_with pieces socket outgoing)
        ≡ some (int_of order field, open_with (after 4 pieces) socket outgoing)
  unfolding recv_response_from_server response_of
  recv_response_from_server-send order stack field four brings =
      rw (recv-BringsNext field brings, store_whole stack field four) refl

-- The client puts out the size as a field, and where that field comes in one piece, whatever follows
-- it, the window manager takes the number itself, for every size below 2 ^ 31, and no byte behind it.
pub acquire_body_size_from_client-send_body_size_to_server :
    (stack : List ℕ) (size : ℕ) (more : List ℕ) (later : List (List ℕ))
    (socket incoming : List Received) (outgoing sent : List ℕ)
    → length stack ≡ 4
    → size < 2 ^ 31
    → (field : List ℕ) × (send_body_size_to_server size
          (record { incoming = incoming; refused = []; outgoing = sent })
        ≡ some (success, record { incoming = incoming; refused = []; outgoing = sent ++ field }))
      × (acquire_body_size_from_client stack (open_with ((field ++ more) ∷ later) socket outgoing)
          ≡ some (pos size, open_with (after 4 ((field ++ more) ∷ later)) socket outgoing))
unfolding send_body_size_to_server send htonl to_int
acquire_body_size_from_client-send_body_size_to_server stack size more later socket incoming
      outgoing sent four lt =
    let in_int : ltb size (2 ^ 31) ≡ true = ground (arith, lt) in
    (
      htonl size,
      refl,
      rw
          (
            acquire_body_size_from_client-send ((htonl size ++ more) ∷ later) socket outgoing stack
                size four (omega (arith, lt))
                (
                  omega arith,
                  ap (take 4) (append_assoc (htonl size) more (joined later))
                      ∙ take-append 4 (htonl size) (more ++ joined later) refl,
                ),
            in_int,
          )
          refl,
    )
