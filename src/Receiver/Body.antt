-- ===== src/Receiver/Body.antt =====
-- What `acquire_body_from_client` of app/comm_receiver.c makes of the pieces of a stream.
use uhmi_ivi_wm.Base.{
  ◌∙◌, sym, All, zero, suc, ℕ, ◌+◌, ◌-◌, ◌%◌, ◌^◌, ◌≤◌, ◌<◌, ◌≡◌, refl, List, [], ◌∷◌, ◌++◌, some,
  none, length, ltb, arith, ap, map, append_assoc, length-append, true, false, take, drop,
  length-take, length-drop, take-append_front, take-append_past, drop-append_front,
  drop-append_past, drop_zero, take_zero, Bool-cases, inl, inr, if◌then◌else◌, ◌==◌, Bool,
}
use uhmi_ivi_wm.Receiver.{
  Received, bytes, failed, store, acquire_body, zeros, acquire_body_from_client,
}

pub store-append :
    (xs ys piece : List ℕ) → store (xs ++ ys) (length xs) piece ≡ xs ++ store ys 0 piece
unfolding store
store-append [] ys piece = refl
store-append (x ∷ xs) ys piece = ap (◌∷◌ x) (store-append xs ys piece)

store-nil : (buffer : List ℕ) → store buffer 0 [] ≡ buffer
unfolding store
store-nil [] = refl
store-nil (x ∷ buffer) = refl

store-zeros :
    (piece : List ℕ) (k n : ℕ) → n ≡ length piece + k → store (zeros n) 0 piece ≡ piece ++ zeros k
unfolding store zeros
store-zeros [] k n e = store-nil (zeros n) ∙ ap zeros (omega (arith, e))
store-zeros (b ∷ piece) k zero e = absurd (omega (arith, e))
store-zeros (b ∷ piece) k (suc n) e = ap (◌∷◌ b) (store-zeros piece k n (omega (arith, e)))

-- An array that is as long as the piece is filled by it.
pub store_whole :
    (buffer piece : List ℕ) → length buffer ≡ length piece → store buffer 0 piece ≡ piece
unfolding store
store_whole [] [] e = refl
store_whole [] (b ∷ piece) e = absurd (omega (arith, e))
store_whole (x ∷ buffer) [] e = absurd (omega (arith, e))
store_whole (x ∷ buffer) (b ∷ piece) e = ap (◌∷◌ b) (store_whole buffer piece (omega (arith, e)))

-- The stream of bytes that the pieces make.
abbrev pub joined : List (List ℕ) → List ℕ
joined [] = []
joined (piece ∷ pieces) = piece ++ joined pieces

-- None of the pieces is empty: the client does not hang up.
abbrev pub AreFull : List (List ℕ) → Type 0
AreFull = All (λ piece. 1 ≤ length piece)

abbrev pub arriving : List (List ℕ) → List Received → List Received
arriving pieces socket = map bytes pieces ++ socket

-- The pieces that are left when `n` bytes were taken.
unfoldable pub after : ℕ → List (List ℕ) → List (List ℕ)
after n [] = []
after n (piece ∷ pieces) =
    if n == 0
    then piece ∷ pieces
    else if ltb n (length piece)
    then drop n piece ∷ pieces
    else after (n - length piece) pieces

pub joined-after :
    (n : ℕ) (pieces : List (List ℕ)) → joined (after n pieces) ≡ drop n (joined pieces)
unfolding after
joined-after n [] = refl
joined-after n (piece ∷ pieces) = elim (Bool-cases (n == 0)) [
  | inl e ↦ rw e (
      sym (
        ap (λ k. drop k (piece ++ joined pieces)) (ground (arith, e))
        ∙ drop_zero (piece ++ joined pieces)))
  | inr ne ↦ elim (Bool-cases (ltb n (length piece))) [
    | inl short ↦
        rw (ne, short) (sym (drop-append_front n piece (joined pieces) (ground (arith, short))))
    | inr long ↦
        rw (ne, long)
          (joined-after (n - length piece) pieces
            ∙ sym (
                drop-append_past n (n - length piece) piece (joined pieces) (ground (arith, long))))
  ]
]

pub after-AreFull : (n : ℕ) (pieces : List (List ℕ)) → AreFull pieces → AreFull (after n pieces)
unfolding after
after-AreFull n [] full = tt
after-AreFull n (piece ∷ pieces) full = elim (Bool-cases (n == 0)) [
  | inl e ↦ rw e full
  | inr ne ↦ elim (Bool-cases (ltb n (length piece))) [
    | inl short ↦ rw (ne, short) (ground (arith, short, length-drop n piece), full.1)
    | inr long ↦ rw (ne, long) (after-AreFull (n - length piece) pieces full.1)
  ]
]

pub after_all :
    (pieces : List (List ℕ)) → AreFull pieces → after (length (joined pieces)) pieces ≡ []
unfolding after
after_all [] full = refl
after_all (piece ∷ pieces) full =
    let some_bytes : (length (piece ++ joined pieces) == 0) ≡ false =
      ground (arith, full.0, length-append piece (joined pieces)) in
    let past : ltb (length (piece ++ joined pieces)) (length piece) ≡ false =
      ground (arith, length-append piece (joined pieces)) in
    let left : length (piece ++ joined pieces) - length piece ≡ length (joined pieces) =
      omega (arith, length-append piece (joined pieces)) in
    rw (some_bytes, past, left) (after_all pieces full.1)

finished :
    (size bytes_read : ℕ) (buffer : List ℕ) (socket : List Received)
    → size ≤ bytes_read
    → acquire_body size bytes_read buffer socket ≡ some (buffer, socket)
unfolding acquire_body
finished size bytes_read buffer [] h = ground arith
finished size bytes_read buffer (failed ∷ socket) h = ground arith
finished size bytes_read buffer (bytes piece ∷ socket) h = ground arith

stored :
    (front piece : List ℕ) (n k : ℕ)
    → n ≡ length piece + k
    → store (front ++ zeros n) (length front) piece ≡ front ++ (piece ++ zeros k)
stored front piece n k e =
    store-append front (zeros n) piece ∙ ap (λ ys. front ++ ys) (store-zeros piece k n e)

put_together :
    (pieces : List (List ℕ)) (front : List ℕ) (size n : ℕ) (socket : List Received)
    → AreFull pieces
    → n ≤ length (joined pieces)
    → size ≡ length front + n
    → size < 2 ^ 32
    → acquire_body size (length front) (front ++ zeros (n + 1)) (arriving pieces socket)
      ≡ some (front ++ (take n (joined pieces) ++ 0 ∷ []), arriving (after n pieces) socket)
unfolding acquire_body zeros after
put_together [] front size zero socket full le e lt =
    finished size (length front) _ socket (omega (arith, e))
put_together [] front size (suc n) socket full le e lt = absurd (omega (arith, le))
put_together (piece ∷ pieces) front size zero socket full le e lt =
    rw (take_zero (piece ++ joined pieces)) (
      finished size (length front) (front ++ 0 ∷ []) (bytes piece ∷ arriving pieces socket)
        (omega (arith, e)))
put_together (piece ∷ pieces) front size (suc n) socket full le e lt =
    let ne : (suc n == 0) ≡ false = ground arith in
    let asked : size - length front ≡ suc n = omega (arith, e) in
    let more : ltb (length front) size ≡ true = ground (arith, e) in
    elim (Bool-cases (ltb (suc n) (length piece))) [
      | inl short ↦
          let fits : suc n ≤ length piece = ground (arith, short) in
          rw
            (
              more,
              asked,
              ne,
              short,
              stored front (take (suc n) piece) (suc n + 1) 1
                  (omega (arith, length-take (suc n) piece fits)),
              take-append_front (suc n) piece (joined pieces) fits,
            )
            refl
      | inr long ↦
          let rest : suc n ≡ length piece + (suc n - length piece) = ground (arith, long) in
          let position : (length front + length piece) % 2 ^ 32 ≡ length (front ++ piece) =
            omega (arith, lt, e, rest, length-append front piece) in
          rw
            (
              more,
              asked,
              ne,
              long,
              stored front piece (suc n + 1) (suc n - length piece + 1) (omega (arith, rest)),
              position,
              ← append_assoc front piece (zeros (suc n - length piece + 1)),
              take-append_past (suc n) (suc n - length piece) piece (joined pieces) rest,
            )
            (put_together pieces (front ++ piece) size (suc n - length piece) socket full.1
                (omega (arith, le, rest, length-append piece (joined pieces)))
                (omega (arith, e, rest, length-append front piece)) lt
              ∙ ap (λ ys. some (ys, arriving (after (suc n - length piece) pieces) socket))
                  (append_assoc front piece (take (suc n - length piece) (joined pieces) ++ 0 ∷ [])
                    ∙ ap (λ ys. front ++ ys)
                        (sym (
                          append_assoc piece (take (suc n - length piece) (joined pieces))
                            (0 ∷ [])))))
    ]

-- However a message of less than 2 ^ 32 bytes is cut into pieces, the loop puts all of it together
-- in its order, leaves the NUL behind it, and leaves the rest of the stream.
pub acquire_body_from_client-joined :
    (size : ℕ) (pieces : List (List ℕ)) (socket : List Received) (refused : List Bool)
    (outgoing : List ℕ)
    → AreFull pieces
    → size ≤ length (joined pieces)
    → size < 2 ^ 32
    → acquire_body_from_client size
        (record { incoming = arriving pieces socket; refused = refused; outgoing = outgoing })
      ≡ some (
        take size (joined pieces) ++ 0 ∷ [],
        record {
          incoming = arriving (after size pieces) socket;
          refused = refused;
          outgoing = outgoing;
        },
      )
unfolding acquire_body_from_client
acquire_body_from_client-joined size pieces socket refused outgoing full le lt =
    rw (put_together pieces [] size size socket full le (omega arith) lt) refl

failed_first :
    (size : ℕ) (buffer : List ℕ) (socket : List Received)
    → 1 ≤ size
    → size < 2 ^ 32
    → acquire_body size 0 buffer (failed ∷ socket) ≡ some (buffer, socket)
unfolding acquire_body
failed_first size buffer socket some_size lt =
    let more : ltb 0 size ≡ true = ground arith in
    rw more (finished size ((0 + (2 ^ 32 - 1)) % 2 ^ 32) buffer socket (omega (arith, lt)))

-- Where the first `recv` fails, the loop takes the buffer of zeros for the whole message and reports
-- no error.
pub acquire_body_from_client-failed :
    (size : ℕ) (socket : List Received) (refused : List Bool) (outgoing : List ℕ)
    → 1 ≤ size
    → size < 2 ^ 32
    → acquire_body_from_client size
        (record { incoming = failed ∷ socket; refused = refused; outgoing = outgoing })
      ≡ some
          (zeros (size + 1), record { incoming = socket; refused = refused; outgoing = outgoing })
unfolding acquire_body_from_client
acquire_body_from_client-failed size socket refused outgoing some_size lt =
    rw (failed_first size (zeros (size + 1)) socket some_size lt) refl

acquire_body-short :
    (pieces : List (List ℕ)) (size bytes_read : ℕ) (buffer : List ℕ)
    → size < 2 ^ 32
    → bytes_read + length (joined pieces) < size
    → acquire_body size bytes_read buffer (arriving pieces []) ≡ none
unfolding acquire_body
acquire_body-short [] size bytes_read buffer lt short =
    let more : ltb bytes_read size ≡ true = ground (arith, short) in rw more refl
acquire_body-short (piece ∷ pieces) size bytes_read buffer lt short =
    let all : length (piece ++ joined pieces) ≡ length piece + length (joined pieces) =
      length-append piece (joined pieces) in
    let more : ltb bytes_read size ≡ true = ground (arith, short) in
    let fits : ltb (size - bytes_read) (length piece) ≡ false = ground (arith, short, all) in
    let position : (bytes_read + length piece) % 2 ^ 32 ≡ bytes_read + length piece =
      omega (arith, short, all, lt) in
    rw (more, fits, position)
      (acquire_body-short pieces size (bytes_read + length piece) (store buffer bytes_read piece) lt
        (omega (arith, short, all)))

-- Where less than `size` bytes come in, however cut and however often `recv` returns 0 since the
-- client has hung up, the loop does not end.
pub acquire_body_from_client-short :
    (size : ℕ) (pieces : List (List ℕ)) (refused : List Bool) (outgoing : List ℕ)
    → length (joined pieces) < size
    → size < 2 ^ 32
    → acquire_body_from_client size
        (record { incoming = arriving pieces []; refused = refused; outgoing = outgoing })
      ≡ none
unfolding acquire_body_from_client
acquire_body_from_client-short size pieces refused outgoing short lt =
    rw (acquire_body-short pieces size 0 (zeros (size + 1)) lt (omega (arith, short))) refl
