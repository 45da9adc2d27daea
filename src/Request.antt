-- ===== src/Request.antt =====
-- What the loop of app/main.c takes from a client before it calls the parser, and what it answers.
use uhmi_ivi_wm.Base.{ℕ, ◌-◌, ◌^◌, List, [], ◌∷◌, none, some, zero, suc, ◌==◌, if◌then◌else◌}
use uhmi_ivi_wm.Jansson.{ℤ, pos, negsuc}
use uhmi_ivi_wm.Receiver.{
  Exchange, Connection, Wire, pure, ◌>>=◌, exchange_magiccode_with_client,
  acquire_body_size_from_client, acquire_body_from_client, send_response_to_client,
}

-- What came with a client's bytes: no command, one whose size is 2 ^ 31 - 1, so that `size + 1`
-- overflows, a wrong magic code without a NUL, whose message on stderr reads past the array, or what
-- `msg` then holds.
pub data Request : Type 0 where
  refused overflowed over_read : Request
  message : List ℕ → Request

unfoldable pub acquire_request : ℤ → Wire Request
acquire_request (negsuc n) = pure refused
acquire_request (pos zero) = pure refused
acquire_request (pos (suc n)) =
    if suc n == 2 ^ 31 - 1
    then pure overflowed
    else acquire_body_from_client (suc n) >>= λ msg. pure (message msg)

unfoldable pub if_accepted : Wire Request → Exchange → Wire Request
if_accepted rest Exchange.accepted = rest
if_accepted rest Exchange.rejected = pure refused
if_accepted rest Exchange.over_read = pure over_read

-- What the loop takes from the client before it calls the parser; `magic_str` and `size_str` are what
-- stands in the local arrays.
unfoldable pub receive_request : List ℕ → List ℕ → Wire Request
receive_request magic_str size_str =
    exchange_magiccode_with_client magic_str
    >>= if_accepted (acquire_body_size_from_client size_str >>= acquire_request)

-- The bytes before the first NUL.
unfoldable pub c_string : List ℕ → List ℕ
c_string [] = []
c_string (x ∷ xs) = if x == 0 then [] else x ∷ c_string xs

unfoldable pub answered : ℤ → Connection → Connection
answered resp c = elim (send_response_to_client resp c) [ none ↦ c | some (_, c') ↦ c' ]
