-- ===== src/EventLoop/Refused.antt =====
-- The clients that app/main.c turns away: without the magic code, or without a size for a body.
use uhmi_ivi_wm.State.{State}
use uhmi_ivi_wm.Base.{
  Among, ==_iff, Bool-cases, true, false, if◌then◌else◌, ap, ◌==◌, ℕ, ◌^◌, ◌≤◌, ◌<◌, ◌≡◌, ◌≢◌, refl,
  ◌⊎◌, List, [], ◌∷◌, ◌++◌, some, length, ltb, inl, inr, arith, All, append-nil,
}
use uhmi_ivi_wm.Exec.{Exec, fault, pure}
use uhmi_ivi_wm.Jansson.{negsuc}
use uhmi_ivi_wm.Receiver.{
  has_nul, Exchange, Connection, Received, magic_code, htonl, of_int, to_int, strncmp_equal,
  check_magic, exchange_magiccode_with_client, send, send_response_to_client,
}
use uhmi_ivi_wm.Receiver.Body.{after, store_whole}
use uhmi_ivi_wm.Receiver.Session.{
  BringsNext, open_with, recv-BringsNext, exchange_magiccode_with_client-send,
  acquire_body_size_from_client-send,
}
use uhmi_ivi_wm.Request.{
  Request, over_read, refused, receive_request, acquire_request, if_accepted, answered,
}
use uhmi_ivi_wm.Env.{Env}
use uhmi_ivi_wm.EventLoop.{receive_command, handle_request}

-- What a client brings that is no command, what comes behind it, what the client has been sent by
-- then, and what the window manager makes of it.
pub data IsTurnedAway (pieces : List (List ℕ)) : List (List ℕ) → List ℕ → Request → Type 0 where
  without_magic :
      (field : List ℕ)
      → length field ≡ 4
      → BringsNext field pieces
      → field ≢ magic_code
      → Among 0 field
      → IsTurnedAway pieces (after 4 pieces) [] refused
  with_other_text :
      (field : List ℕ)
      → length field ≡ 4
      → BringsNext field pieces
      → field ≢ magic_code
      → ¬ Among 0 field
      → IsTurnedAway pieces (after 4 pieces) [] over_read
  without_size :
      (size : ℕ)
      → size < 2 ^ 32
      → (size ≡ 0) ⊎ (2 ^ 31 ≤ size)
      → BringsNext magic_code pieces
      → BringsNext (htonl size) (after 4 pieces)
      → IsTurnedAway pieces (after 4 (after 4 pieces)) magic_code refused

strncmp_equal-same :
    (a b : List ℕ) → length a ≡ length b → All (λ y. y ≢ 0) b → strncmp_equal a b ≡ true → a ≡ b
unfolding strncmp_equal
strncmp_equal-same [] [] len text same = refl
strncmp_equal-same [] (y ∷ b) len text same = absurd (omega (arith, len))
strncmp_equal-same (x ∷ a) [] len text same = absurd (omega (arith, len))
strncmp_equal-same (x ∷ a) (y ∷ b) len text same =
    let head : x ≡ y = ground (arith, same) in
    let tail : strncmp_equal a b ≡ true = ground (arith, same, text.0) in
    let rest = strncmp_equal-same a b (omega (arith, len)) text.1 tail in cc (head, rest)

magic_code-text : All (λ y. y ≢ 0) magic_code
magic_code-text = (
  (λ e. omega (arith, e)),
  ((λ e. omega (arith, e)), ((λ e. omega (arith, e)), ((λ e. omega (arith, e)), tt))),
)

has_nul-Among : (xs : List ℕ) → Among 0 xs → has_nul xs ≡ true
unfolding has_nul
has_nul-Among [] among = absurd among
has_nul-Among (x ∷ xs) (inl e) = ground (arith, e)
has_nul-Among (x ∷ xs) (inr later) = ground (arith, has_nul-Among xs later)

Among-has_nul : (xs : List ℕ) → has_nul xs ≡ true → Among 0 xs
unfolding has_nul
Among-has_nul [] e = cc
Among-has_nul (x ∷ xs) e = elim (Bool-cases (x == 0)) [
  | inl zero ↦ inl ((==_iff x 0).0 zero)
  | inr other ↦ inr (Among-has_nul xs (ground (arith, e, other)))
]

has_nul-none : (xs : List ℕ) → ¬ Among 0 xs → has_nul xs ≡ false
has_nul-none xs absent = elim (Bool-cases (has_nul xs)) [
  | inl e ↦ absurd (absent (Among-has_nul xs e))
  | inr e ↦ e
]

acquire_request-refused :
    (size : ℕ) (c : Connection)
    → size < 2 ^ 32
    → (size ≡ 0) ⊎ (2 ^ 31 ≤ size)
    → acquire_request (to_int size) c ≡ some (refused, c)
unfolding acquire_request to_int
acquire_request-refused size c lt (inl e) = rw e refl
acquire_request-refused size c lt (inr big) =
    let far : ltb size (2 ^ 31) ≡ false = ground (arith, big) in rw far refl

module _ (pieces : List (List ℕ)) (socket : List Received) (outgoing magic_str : List ℕ)
    (magic_4 : length magic_str ≡ 4) where
  exchange_magiccode_with_client-other :
      (field : List ℕ)
      → length field ≡ 4
      → BringsNext field pieces
      → field ≢ magic_code
      → exchange_magiccode_with_client magic_str (open_with pieces socket outgoing)
        ≡ some (
          if has_nul field then Exchange.rejected else Exchange.over_read,
          open_with (after 4 pieces) socket outgoing,
        )
  unfolding exchange_magiccode_with_client check_magic
  exchange_magiccode_with_client-other field four brings other =
      elim (Bool-cases (strncmp_equal field magic_code)) [
        | inl same ↦ absurd (other (strncmp_equal-same field magic_code four magic_code-text same))
        | inr apart ↦
            rw
              (
                recv-BringsNext pieces socket outgoing field brings,
                store_whole magic_str field (cc (magic_4, four)),
                apart,
              )
              refl
      ]

  receive_request-refused :
      (size_str : List ℕ) (rest : List (List ℕ)) (sent : List ℕ) (request : Request)
      → length size_str ≡ 4
      → IsTurnedAway pieces rest sent request
      → receive_request magic_str size_str (open_with pieces socket outgoing)
        ≡ some (request, open_with rest socket (outgoing ++ sent))
  unfolding receive_request if_accepted
  receive_request-refused size_str _ _ _ size_4 (without_magic field four brings other nul) =
      rw (exchange_magiccode_with_client-other field four brings other, has_nul-Among field nul)
        (rw (append-nil outgoing) refl)
  receive_request-refused size_str _ _ _ size_4
        (with_other_text field four brings other none_there) =
      rw
        (
          exchange_magiccode_with_client-other field four brings other,
          has_nul-none field none_there,
        )
        (rw (append-nil outgoing) refl)
  receive_request-refused size_str _ _ _ size_4 (without_size size lt none_there magic announced) =
      rw
        (
          exchange_magiccode_with_client-send pieces socket outgoing magic_str magic_4 magic,
          acquire_body_size_from_client-send (after 4 pieces) socket (outgoing ++ magic_code)
              size_str size size_4 lt announced,
        )
        (acquire_request-refused size _ lt none_there)

-- What the window manager does where it turns a client away.
abbrev pub Answer : Request → Connection → Exec State Connection
Answer over_read c = fault
Answer _ c = pure (record c { outgoing = c.outgoing ++ htonl (of_int (negsuc 0)) })

Answer-handle_request :
    {J : Type 0} (env : Env J) (pieces rest : List (List ℕ)) (socket : List Received)
    (outgoing sent : List ℕ) (request : Request)
    → IsTurnedAway pieces rest sent request
    → handle_request env request (open_with rest socket outgoing)
      ≡ Answer request (open_with rest socket outgoing)
unfolding handle_request answered send_response_to_client send
Answer-handle_request env pieces _ socket outgoing _ _ (without_magic field four brings other nul) =
    refl
Answer-handle_request env pieces _ socket outgoing _ _
      (with_other_text field four brings other no_nul) =
    refl
Answer-handle_request env pieces _ socket outgoing _ _
      (without_size size lt no_size magic announced) =
    refl

-- A client that begins with four other bytes than the magic code, one of them a NUL, or that announces
-- a body of no bytes or of 2 ^ 31 bytes or more, changes nothing of the window manager: it is answered
-- -1, behind the magic code where its own was right, and what it sent behind its fields is left on the
-- connection. Where there is no NUL in its wrong magic code, the window manager reads past its array.
pub receive_command-refused :
    {J : Type 0} (env : Env J) (pieces : List (List ℕ)) (socket : List Received)
    (outgoing magic_str size_str : List ℕ) (rest : List (List ℕ)) (sent : List ℕ)
    (request : Request)
    → length magic_str ≡ 4
    → length size_str ≡ 4
    → IsTurnedAway pieces rest sent request
    → receive_command env magic_str size_str (open_with pieces socket outgoing)
      ≡ some (Answer request (open_with rest socket (outgoing ++ sent)))
unfolding receive_command
receive_command-refused env pieces socket outgoing magic_str size_str rest sent request magic_4
      size_4 away =
    rw
      (receive_request-refused pieces socket outgoing magic_str magic_4 size_str rest sent request
        size_4 away)
      (ap some (Answer-handle_request env pieces rest socket (outgoing ++ sent) sent request away))
