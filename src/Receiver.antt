-- ===== src/Receiver.antt =====
-- app/comm_receiver.c: what the window manager and its clients send and receive over a socket.
pub mod Body
pub mod Session
use uhmi_ivi_wm.Base.{
  ℕ, ◌+◌, ◌-◌, ◌*◌, ◌/◌, ◌%◌, ◌^◌, List, [], ◌∷◌, ◌++◌, Option, none, some, Bool, true, false,
  length, take, drop, ltb, ◌==◌, ◌&&◌, ◌||◌, zero, suc, if◌then◌else◌,
}
use uhmi_ivi_wm.Exec.{Status, success, failure}
use uhmi_ivi_wm.Jansson.{ℤ, pos, negsuc}

-- What comes in at a socket: a piece of the stream of bytes (an empty one where the peer has closed
-- it), or an error.
pub data Received : Type 0 where
  bytes : List ℕ → Received
  failed : Received

-- An end of a connection. `incoming` is all that will come in, `refused` is for each `send` to come
-- whether it fails (where nothing is listed, it does not), and `outgoing` is what was sent.
pub record Connection : Type 0 where
  pub incoming : List Received
  pub refused : List Bool
  pub outgoing : List ℕ

-- A function that uses the socket; `none` where it waits in `recv` after all that comes in.
abbrev pub Wire : Type 0 → Type 0
Wire A = Connection → Option (A × Connection)

module _ {A B : Type 0} where
  abbrev continue : (A → Wire B) → Option (A × Connection) → Option (B × Connection)
  continue f none = none
  continue f (some (a, c)) = f a c

  infixl 5 ◌>>=◌
  abbrev pub ◌>>=◌ : Wire A → (A → Wire B) → Wire B
  ◌>>=◌ m f c = continue f (m c)

abbrev pub pure : {A : Type 0} → A → Wire A
pure a c = some (a, c)

-- What came in was taken from the stream.
abbrev taking : {A : Type 0} → Connection → Option (A × List Received) → Option (A × Connection)
taking c none = none
taking c (some (a, rest)) = some (a, record c { incoming = rest })

-- `recv` of up to `n` bytes: it waits for the next piece, and leaves what is more.
unfoldable pub recv_piece : ℕ → List Received → Option (Received × List Received)
recv_piece n [] = none
recv_piece n (failed ∷ rest) = some (failed, rest)
recv_piece n (bytes piece ∷ rest) =
    if ltb n (length piece)
    then some (bytes (take n piece), bytes (drop n piece) ∷ rest)
    else some (bytes piece, rest)

unfoldable pub recv : ℕ → Wire Received
unfolding recv_piece
recv n c = taking c (recv_piece n c.incoming)

unfoldable pub send : List ℕ → Wire Status
send buffer c = elim c.refused [
  | [] ↦ some (success, record c { outgoing = c.outgoing ++ buffer })
  | true ∷ later ↦ some (failure, record c { refused = later })
  | false ∷ later ↦ some (success, record c { refused = later; outgoing = c.outgoing ++ buffer })
]

-- `MAGIC_CODE`, which example/wmsendcmd.c spells out again.
abbrev pub magic_code : List ℕ
magic_code = 0x55 ∷ 0x4C ∷ 0x41 ∷ 0x30 ∷ []

-- `strncmp(a, b, n) == 0`, on arrays of `n` bytes.
unfoldable pub strncmp_equal : List ℕ → List ℕ → Bool
strncmp_equal [] b = true
strncmp_equal (x ∷ a) [] = true
strncmp_equal (x ∷ a) (y ∷ b) = x == y && (x == 0 || strncmp_equal a b)

-- What `recv` writes from the position on.
unfoldable pub store : List ℕ → ℕ → List ℕ → List ℕ
store [] offset piece = []
store (x ∷ buffer) (suc offset) piece = x ∷ store buffer offset piece
store (x ∷ buffer) zero [] = x ∷ buffer
store (x ∷ buffer) zero (b ∷ piece) = b ∷ store buffer 0 piece

-- `htonl` of an unsigned int, as the four bytes that are sent.
unfoldable pub htonl : ℕ → List ℕ
htonl n = n / 2 ^ 24 % 2 ^ 8 ∷ n / 2 ^ 16 % 2 ^ 8 ∷ n / 2 ^ 8 % 2 ^ 8 ∷ n % 2 ^ 8 ∷ []

-- `ntohl` of the unsigned int in four bytes.
unfoldable pub ntohl : List ℕ → ℕ
ntohl (a ∷ b ∷ c ∷ d ∷ _) = a * 2 ^ 24 + b * 2 ^ 16 + c * 2 ^ 8 + d
ntohl _ = 0

-- An unsigned int as an int, and the other way.
unfoldable pub to_int : ℕ → ℤ
to_int n = if ltb n (2 ^ 31) then pos n else negsuc (2 ^ 32 - 1 - n)

unfoldable pub of_int : ℤ → ℕ
of_int (pos n) = n % 2 ^ 32
of_int (negsuc n) = 2 ^ 32 - 1 - n % 2 ^ 32

-- Whether `%s` stops within the array that it is given.
unfoldable pub has_nul : List ℕ → Bool
has_nul [] = false
has_nul (x ∷ xs) = x == 0 || has_nul xs

-- How the exchange of the magic code ends: 0, -1, or a message on stderr that reads past the array.
pub data Exchange : Type 0 where
  accepted rejected over_read : Exchange

-- The side of the window manager. `stack` is what stands in the local array of four bytes, which the
-- functions do not set.
module _ (stack : List ℕ) where
  unfoldable pub check_magic : Received → Wire Exchange
  check_magic failed = pure rejected
  check_magic (bytes piece) =
      let magic_str = store stack 0 piece in
      if strncmp_equal magic_str magic_code
      then (send magic_str >>= λ _. pure accepted)
      else pure (if has_nul magic_str then rejected else over_read)

  unfoldable pub exchange_magiccode_with_client : Wire Exchange
  exchange_magiccode_with_client = recv 4 >>= check_magic

  unfoldable pub size_of : Received → ℤ
  size_of failed = negsuc 0
  size_of (bytes piece) = to_int (ntohl (store stack 0 piece))

  unfoldable pub acquire_body_size_from_client : Wire ℤ
  acquire_body_size_from_client = recv 4 >>= λ r. pure (size_of r)

-- The loop of `acquire_body_from_client`, on what comes in; `len` is unsigned, so that an error adds
-- 2 ^ 32 - 1 to `bytes_read`. A piece that is longer than what is asked for ends the loop.
unfoldable pub acquire_body : ℕ → ℕ → List ℕ → List Received → Option (List ℕ × List Received)
acquire_body size bytes_read buffer [] = if ltb bytes_read size then none else some (buffer, [])
acquire_body size bytes_read buffer (failed ∷ rest) =
    let next = acquire_body size ((bytes_read + (2 ^ 32 - 1)) % 2 ^ 32) buffer rest in
    if ltb bytes_read size then next else some (buffer, failed ∷ rest)
acquire_body size bytes_read buffer (bytes piece ∷ rest) =
    let asked = size - bytes_read in
    let next =
      acquire_body size ((bytes_read + length piece) % 2 ^ 32) (store buffer bytes_read piece)
        rest in
    let last = some (store buffer bytes_read (take asked piece), bytes (drop asked piece) ∷ rest) in
    if ltb bytes_read size
    then (if ltb asked (length piece) then last else next)
    else some (buffer, bytes piece ∷ rest)

-- `calloc(size + 1, 1)` of app/main.c.
unfoldable pub zeros : ℕ → List ℕ
zeros zero = []
zeros (suc n) = 0 ∷ zeros n

-- The result is `*msg` afterwards; it always returns 0.
unfoldable pub acquire_body_from_client : ℕ → Wire (List ℕ)
acquire_body_from_client size c = taking c (acquire_body size 0 (zeros (size + 1)) c.incoming)

unfoldable pub send_response_to_client : ℤ → Wire Status
send_response_to_client res = send (htonl (of_int res))

-- The side of the client.
unfoldable pub send_body_size_to_server : ℕ → Wire Status
send_body_size_to_server size = send (htonl size)

-- What comes of sending data: 0 or -1, or a `send` that reads past the buffer.
pub data Sent : Type 0 where
  done : Status → Sent
  past_buffer : Sent

-- A `send` of nothing counts as a failure. A negative `int size` becomes a `size_t` that is larger
-- than any buffer.
unfoldable pub send_data_to_server : List ℕ → ℤ → Wire Sent
send_data_to_server buf (pos zero) = send [] >>= λ _. pure (done failure)
send_data_to_server buf (pos (suc n)) =
    if ltb (length buf) (suc n)
    then pure past_buffer
    else send (take (suc n) buf) >>= λ status. pure (done status)
send_data_to_server buf (negsuc n) = pure past_buffer

-- How the machine stores an int.
pub data ByteOrder : Type 0 where
  little_endian big_endian : ByteOrder

unfoldable pub int_of : ByteOrder → List ℕ → ℤ
int_of big_endian stored = to_int (ntohl stored)
int_of little_endian (a ∷ b ∷ c ∷ d ∷ _) = to_int (ntohl (d ∷ c ∷ b ∷ a ∷ []))
int_of little_endian _ = to_int 0

-- `int res` as it is received, with no `ntohl`. The result of a failed `recv` is -1.
unfoldable pub response_of : ByteOrder → List ℕ → Received → ℤ
response_of order stack failed = negsuc 0
response_of order stack (bytes piece) = int_of order (store stack 0 piece)

unfoldable pub recv_response_from_server : ByteOrder → List ℕ → Wire ℤ
recv_response_from_server order stack = recv 4 >>= λ r. pure (response_of order stack r)

-- `res` is the caller's array.
unfoldable pub response_into : List ℕ → Received → List ℕ
response_into res failed = res
response_into res (bytes piece) = store res 0 piece

unfoldable pub recv_str_response_from_server : List ℕ → Wire (List ℕ)
recv_str_response_from_server res = recv 4 >>= λ r. pure (response_into res r)
