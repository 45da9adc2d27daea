-- ===== src/Sockets.antt =====
-- app/comm_receiver.c: how the window manager and its clients make a socket. The system's answers are
-- a parameter, each depending on all calls before it.
pub mod Owned
use uhmi_ivi_wm.Base.{ℕ, List, ◌∷◌, Option, none, some}

-- The calls on a socket, by its descriptor.
pub data SystemCall : Type 0 where
  socket unlink : SystemCall
  bind listen accept connect close : ℕ → SystemCall

-- What a call returns after those before it, the newest first: `none` is -1.
abbrev pub SystemAnswers : Type 0
SystemAnswers = List SystemCall → SystemCall → Option ℕ

-- A function that makes system calls.
abbrev pub Calls : Type 0 → Type 0
Calls A = List SystemCall → A × List SystemCall

module _ (answers : SystemAnswers) where
  abbrev pub system : SystemCall → Calls (Option ℕ)
  system c calls = (answers calls c, c ∷ calls)

  -- `if (ret < 0) { close(sock_fd); return -1; }`
  abbrev pub or_close :
      ℕ → Option ℕ × List SystemCall → Calls (Option ℕ) → Option ℕ × List SystemCall
  or_close sock_fd (none, calls) next = (none, close sock_fd ∷ calls)
  or_close sock_fd (some ret, calls) next = next calls

  unfoldable pub listen_on : ℕ → Calls (Option ℕ)
  listen_on sock_fd calls = or_close sock_fd (system (bind sock_fd) calls) λ bound.
      or_close sock_fd (system (listen sock_fd) bound) λ listening. (some sock_fd, listening)

  unfoldable pub create_server_socket : Calls (Option ℕ)
  create_server_socket calls = elim (answers calls socket) [
    | none ↦ (none, socket ∷ calls)
    | some sock_fd ↦ listen_on sock_fd (unlink ∷ socket ∷ calls)
  ]

  unfoldable pub connect_to_client : ℕ → Calls (Option ℕ)
  connect_to_client sock_fd calls = system (accept sock_fd) calls

  unfoldable pub connect_to_server : Calls (Option ℕ)
  connect_to_server calls = elim (answers calls socket) [
    | none ↦ (none, socket ∷ calls)
    | some sock_fd ↦
        or_close sock_fd (system (connect sock_fd) (socket ∷ calls))
          λ connected. (some sock_fd, connected)
  ]
