-- ===== src/Sockets/Owned.antt =====
-- The sockets of app/comm_receiver.c that stay open.
use uhmi_ivi_wm.Base.{
  ℕ, ◌≡◌, ◌≢◌, refl, List, [], ◌∷◌, Option, none, some, ◌==◌, if◌then◌else◌, inl, inr, Option-cases,
  arith, All,
}
use uhmi_ivi_wm.Sockets.{
  SystemCall, socket, unlink, bind, listen, accept, connect, close, SystemAnswers, listen_on,
  create_server_socket, connect_to_client, connect_to_server,
}

abbrev without : ℕ → List ℕ → List ℕ
without fd [] = []
without fd (x ∷ xs) = if x == fd then without fd xs else x ∷ without fd xs

without_absent : (fd : ℕ) (xs : List ℕ) → All (λ x. x ≢ fd) xs → without fd xs ≡ xs
without_absent fd [] a = refl
without_absent fd (x ∷ xs) a = ground (arith, a.0, without_absent fd xs a.1)

abbrev opened : Option ℕ → List ℕ → List ℕ
opened none fds = fds
opened (some fd) fds = fd ∷ fds

module _ (answers : SystemAnswers) where
  -- The descriptors that the calls opened and did not close.
  abbrev pub left_open : List SystemCall → List ℕ
  left_open [] = []
  left_open (socket ∷ calls) = opened (answers calls socket) (left_open calls)
  left_open (accept fd ∷ calls) = opened (answers calls (accept fd)) (left_open calls)
  left_open (close fd ∷ calls) = without fd (left_open calls)
  left_open (unlink ∷ calls) = left_open calls
  left_open (bind fd ∷ calls) = left_open calls
  left_open (listen fd ∷ calls) = left_open calls
  left_open (connect fd ∷ calls) = left_open calls

  -- The system gives no descriptor that is open.
  abbrev pub GivesNew : List SystemCall → Option ℕ → Type 0
  GivesNew calls none = Unit
  GivesNew calls (some fd) = All (λ x. x ≢ fd) (left_open calls)

  -- What was open stays open, and of new descriptors just the one that is returned.
  abbrev pub Owns : List SystemCall → Option ℕ × List SystemCall → Type 0
  Owns calls (none, after) = left_open after ≡ left_open calls
  Owns calls (some fd, after) = left_open after ≡ fd ∷ left_open calls

  closed :
      (fd : ℕ) (calls : List SystemCall)
      → All (λ x. x ≢ fd) (left_open calls)
      → without fd (fd ∷ left_open calls) ≡ left_open calls
  closed fd calls new = ground (arith, without_absent fd (left_open calls) new)

  listen_on-Owns :
      (fd : ℕ) (calls : List SystemCall)
      → answers calls socket ≡ some fd
      → All (λ x. x ≢ fd) (left_open calls)
      → Owns calls (listen_on answers fd (unlink ∷ socket ∷ calls))
  unfolding listen_on
  listen_on-Owns fd calls e new =
      elim (Option-cases (answers (unlink ∷ socket ∷ calls) (bind fd))) [
        | inl b ↦ rw (b, e) (closed fd calls new)
        | inr (r, b) ↦
            elim (Option-cases (answers (bind fd ∷ unlink ∷ socket ∷ calls) (listen fd))) [
              | inl l ↦ rw (b, l, e) (closed fd calls new)
              | inr (q, l) ↦ rw (b, l, e) refl
            ]
      ]

  connect-Owns :
      (fd : ℕ) (calls : List SystemCall)
      → answers calls socket ≡ some fd
      → All (λ x. x ≢ fd) (left_open calls)
      → Owns calls (connect_to_server answers calls)
  unfolding connect_to_server
  connect-Owns fd calls e new = elim (Option-cases (answers (socket ∷ calls) (connect fd))) [
    | inl c ↦ rw (e, connect_to_server, c, e) (closed fd calls new)
    | inr (r, c) ↦ rw (e, connect_to_server, c, e) refl
  ]

  -- Whichever system call fails, no function that makes a socket leaks one: where it returns -1 the
  -- open descriptors are those from before, and otherwise there is one more, which it returns, if the
  -- system gives no descriptor that is open.
  pub sockets-Owns :
      (calls : List SystemCall) (sock_fd : ℕ)
      → GivesNew calls (answers calls socket)
      → Owns calls (create_server_socket answers calls)
        × Owns calls (connect_to_server answers calls)
        × Owns calls (connect_to_client answers sock_fd calls)
  unfolding create_server_socket connect_to_server connect_to_client
  sockets-Owns calls sock_fd new = elim (Option-cases (answers calls socket)) [
    | inl e ↦ (rw (e, create_server_socket, e) refl, rw (e, connect_to_server, e) refl, accepted)
    | inr (fd, e) ↦
        let fresh : All (λ x. x ≢ fd) (left_open calls) = rw e at new in
        (
          rw (e, create_server_socket) (listen_on-Owns fd calls e fresh),
          connect-Owns fd calls e fresh,
          accepted,
        )
  ]
    where
      accepted : Owns calls (connect_to_client answers sock_fd calls)
      accepted = elim (Option-cases (answers calls (accept sock_fd))) [
        | inl a ↦ rw (a, left_open, a) refl
        | inr (fd, a) ↦ rw (a, left_open, a) refl
      ]
