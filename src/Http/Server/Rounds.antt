-- ===== src/Http/Server/Rounds.antt =====
-- The number of clients through the set-up and the rounds of `main`.
use ti.Base.{
  Option, none, some, ℕ, refl, Bool, List, [], ◌∷◌, arith, ltb, ◌==◌, if◌then◌else◌, ◌&&◌, not,
}
use ti.Base.Process.{pure, crash}
use ti.Base.Outcome.{Outcome, Outcome-after, Outcome-check, Outcome-if}
use ti.Http.{err_arg, err_signal, err_socket}
use ti.Http.Server.{
  Glib, Select, ready, interrupted, select_error, Events, Server, register, accept_client,
  shut_down, react, watches, after_select, round, rounds, SetUp, open_socket, set_up, main,
}
use ti.Http.Server.Counting.{
  Documented, IsCounted, attend_all-IsCounted, accept_client-IsCounted, shut_down-IsCounted,
}

module _ (g : Glib) (documented : Documented g) where
  module _ (events : Events) (sock_fd : ℕ) where
    react-IsCounted :
        (is_set : ℕ → Bool) (s : Server)
        → IsCounted s
        → Outcome IsCounted (λ _. IsCounted) (react g events sock_fd is_set s)
    unfolding react
    react-IsCounted is_set s h =
        Outcome-after IsCounted (λ _. IsCounted) (λ _. IsCounted) _
          ((if events.got_sigint then shut_down events.system sock_fd else pure tt) s)
          (Outcome-if IsCounted (λ _. IsCounted) (events.got_sigint)
            (shut_down events.system sock_fd) (pure tt) s
            (λ _. shut_down-IsCounted g documented events.system sock_fd s h) (λ _. h))
          (λ _ t k.
            Outcome-after IsCounted (λ _. IsCounted) (λ _. IsCounted) _
              (accept_client g events sock_fd is_set t)
              (accept_client-IsCounted g documented events.system events sock_fd is_set t k)
              (λ _ u l.
                attend_all-IsCounted g documented events.system is_set u.client_fds u
                  (l, λ x. omega arith)))

    register-IsCounted :
        (fds : List ℕ) (s : Server)
        → IsCounted s
        → Outcome IsCounted (λ _. IsCounted) (register fds s)
    unfolding register
    register-IsCounted [] s h = h
    register-IsCounted (fd ∷ fds) s h =
        Outcome-if IsCounted (λ _. IsCounted) (ltb fd 1024) (register fds) crash s
          (λ _. register-IsCounted fds s h) (λ _. h)

    after_select-IsCounted :
        (client_fds : List ℕ) (event : Select) (s : Server)
        → IsCounted s
        → Outcome IsCounted (λ _. IsCounted) (after_select g events sock_fd client_fds event s)
    after_select-IsCounted client_fds select_error s h = h
    after_select-IsCounted client_fds interrupted s h =
        react-IsCounted (watches (sock_fd ∷ client_fds)) s h
    after_select-IsCounted client_fds (ready is_set) s h =
        react-IsCounted (λ fd. watches (sock_fd ∷ client_fds) fd && is_set fd) s h

    round-IsCounted :
        (s : Server) → IsCounted s → Outcome IsCounted (λ _. IsCounted) (round g events sock_fd s)
    unfolding round
    round-IsCounted s h =
        Outcome-after IsCounted (λ _. IsCounted) (λ _. IsCounted) _
          (register (sock_fd ∷ s.client_fds) s) (register-IsCounted (sock_fd ∷ s.client_fds) s h)
          (λ _ t k. after_select-IsCounted s.client_fds events.pselect t k)

  rounds-IsCounted :
      (sock_fd : ℕ) (events : List Events) (s : Server)
      → IsCounted s
      → Outcome IsCounted (λ _. IsCounted) (rounds g sock_fd events s)
  unfolding rounds
  rounds-IsCounted sock_fd [] s h = h
  rounds-IsCounted sock_fd (now ∷ others) s h =
      Outcome-after IsCounted (λ _. IsCounted) (λ _. IsCounted) _ (round g now sock_fd s)
        (round-IsCounted now sock_fd s h) (λ _ t k. rounds-IsCounted sock_fd others t k)

  open_socket-IsCounted :
      (socket : Option ℕ) (s : Server)
      → IsCounted s
      → Outcome IsCounted (λ _. IsCounted) (open_socket socket s)
  open_socket-IsCounted none s h = h
  open_socket-IsCounted (some sock_fd) s h = h

  set_up-IsCounted :
      (answers : SetUp) (argc : ℕ) (s : Server)
      → IsCounted s
      → Outcome IsCounted (λ _. IsCounted) (set_up answers argc s)
  unfolding set_up
  set_up-IsCounted answers argc s h =
      Outcome-check IsCounted (λ _. IsCounted) (not (argc == 3)) err_arg _ s h
        (λ _.
          Outcome-check IsCounted (λ _. IsCounted) answers.sigprocmask err_signal _ s h
            (λ _.
              Outcome-check IsCounted (λ _. IsCounted) answers.sigaction err_signal _ s h
                (λ _.
                  Outcome-after IsCounted (λ _. IsCounted) (λ _. IsCounted) _
                    (open_socket answers.socket s) (open_socket-IsCounted answers.socket s h)
                    (λ sock_fd t k.
                      Outcome-check IsCounted (λ _. IsCounted) (not answers.address) err_arg _ t k
                        (λ _.
                          Outcome-check IsCounted (λ _. IsCounted) answers.bind err_socket _ t k
                            (λ _.
                              Outcome-check IsCounted (λ _. IsCounted) answers.listen err_socket _ t
                                k (λ _. (refl, omega arith))))))))

  -- GLib's functions are as documented, and at the start `client_cnt` is the number of clients in
  -- `client_fds`, which is at most MAX_CLIENT_CNT. This holds however `main` ends, and after any
  -- number of rounds of its loop, whatever the system answers and the clients send.
  pub main-IsCounted :
      (answers : SetUp) (argc : ℕ) (events : List Events) (s : Server)
      → IsCounted s
      → Outcome IsCounted (λ _. IsCounted) (main g answers argc events s)
  unfolding main
  main-IsCounted answers argc events s h =
      Outcome-after IsCounted (λ _. IsCounted) (λ _. IsCounted) _ (set_up answers argc s)
        (set_up-IsCounted answers argc s h) (λ sock_fd t k. rounds-IsCounted sock_fd events t k)
