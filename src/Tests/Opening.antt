-- ===== src/Tests/Opening.antt =====
-- The theorem on sockets at work, where the address is taken.
use uhmi_ivi_wm.Base.{[], ℕ, List, some, none, Option}
use uhmi_ivi_wm.Sockets.{
  SystemCall, socket, unlink, bind, listen, accept, connect, close, create_server_socket,
  connect_to_client, connect_to_server,
}
use uhmi_ivi_wm.Sockets.Owned.{Owns, sockets-Owns}

abbrev address_taken : List SystemCall → SystemCall → Option ℕ
address_taken calls (bind fd) = none
address_taken calls socket = some 3
address_taken calls unlink = some 0
address_taken calls (listen fd) = some 0
address_taken calls (accept fd) = some 4
address_taken calls (connect fd) = some 0
address_taken calls (close fd) = some 0

sockets-Owns_example :
    Owns address_taken [] (create_server_socket address_taken [])
    × Owns address_taken [] (connect_to_server address_taken [])
    × Owns address_taken [] (connect_to_client address_taken 3 [])
sockets-Owns_example = sockets-Owns address_taken [] 3 tt
