-- ===== src/Http/Server.antt =====
-- The loop of `main`: it waits for events, takes new clients, and answers requests. GLib's lists are
-- a parameter.
pub mod Counting
pub mod Rounds
use ti.Base.{
  ℕ, zero, suc, ◌+◌, ◌-◌, ◌%◌, ◌^◌, ◌&&◌, ◌||◌, not, Bool, true, false, List, [], ◌∷◌, ◌++◌, Option,
  none, some, Bytes, ltb, ◌==◌, if◌then◌else◌,
}
use ti.Base.Process.{Process, Result, pure, exit, crash, ◌>>=◌, ◌>>◌, modify, gets, check}
use ti.Http.Request.{received}
use ti.Http.Serving.{answer}
use ti.Http.{
  System, Trace, Read, got, at_eof, read_error, close, exit_ok, err_select, err_shutdown,
  err_signal, err_arg, err_socket, max_client_cnt,
}

-- `g_slist_prepend` and `g_slist_remove` on the data of a list; and whether `g_slist_next` of a node
-- that was just freed still gives the node behind it, which GLib does not promise.
pub record Glib : Type 0 where
  pub prepend : List ℕ → ℕ → List ℕ
  pub remove : List ℕ → ℕ → List ℕ
  pub link_stays : Bool

-- `pselect`: which descriptors are ready; interrupted by a signal; another error.
pub data Select : Type 0 where
  ready : (ℕ → Bool) → Select
  interrupted : Select
  select_error : Select

-- What happens in a round of the loop. A failing `accept` gives -1 as a bit pattern.
pub record Events : Type 0 where
  pub system : System
  pub pselect : Select
  pub got_sigint : Bool
  pub accept : ℕ

-- The variables of `main`; an `int` is its bit pattern.
pub record Server : Type 0 where
  pub client_fds : List ℕ
  pub client_cnt : ℕ
  pub max_fd : ℕ
  pub trace : Trace

abbrev pub int_range : ℕ
int_range = 2 ^ 32

-- `a < b` for an `int` and a small constant.
abbrev pub int_lt : ℕ → ℕ → Bool
int_lt a b = ltb a b || not (ltb a (2 ^ 31))

abbrev pub int_max : ℕ → ℕ → ℕ
int_max a b = if ltb ((a + 2 ^ 31) % int_range) ((b + 2 ^ 31) % int_range) then b else a

abbrev pub keep_trace : {A : Type 0} → Server → Result A × Trace → Result A × Server
keep_trace s (r, trace) = (r, record s { trace = trace })

abbrev pub on_trace : {A : Type 0} → Process Trace A → Process Server A
on_trace m s = keep_trace s (m s.trace)

-- `register_in_set` for each client: `FD_SET` is defined below FD_SETSIZE only.
unfoldable pub register : List ℕ → Process Server (Unit {0})
register [] = pure tt
register (client_fd ∷ client_fds) =
    let others = register client_fds in if ltb client_fd 1024 then others else crash

abbrev pub remove_client : Glib → ℕ → Server → Server
remove_client g client_fd s = record s {
  client_fds = g.remove s.client_fds client_fd;
  client_cnt = (s.client_cnt + (int_range - 1)) % int_range;
}

-- The work on a client behind `read`, with what it delivered. The value is whether the client was
-- removed from the list.
unfoldable pub attend_read : Glib → System → ℕ → Read → Process Server Bool
unfolding received answer close
attend_read g sys client_fd at_eof = pure false
attend_read g sys client_fd read_error = do
  stale ← gets (λ s. sys.stale s.trace)
  fails ← on_trace (close sys client_fd)
  modify (remove_client g client_fd)
  on_trace (answer sys client_fd (received [] stale))
  pure true
attend_read g sys client_fd (got bytes) = do
  stale ← gets (λ s. sys.stale s.trace)
  modify (remove_client g client_fd)
  on_trace (answer sys client_fd (received bytes stale))
  pure true

-- `FD_ISSET` is defined below FD_SETSIZE only.
unfoldable pub attend : Glib → System → (ℕ → Bool) → ℕ → Process Server Bool
unfolding attend_read
attend g sys is_set client_fd =
    if not (ltb client_fd 1024) then crash else if not (is_set client_fd) then pure false else (do
      data_read ← gets (λ s. sys.read s.trace client_fd)
      attend_read g sys client_fd data_read)

-- The loop over the clients, on the nodes from the current one on.
unfoldable pub attend_all : Glib → System → (ℕ → Bool) → List ℕ → Process Server (Unit {0})
unfolding attend
attend_all g sys is_set [] = pure tt
attend_all g sys is_set (client_fd ∷ nodes) = do
  removed ← attend g sys is_set client_fd
  if removed && not g.link_stays then crash else pure tt
  attend_all g sys is_set nodes

-- Accept a connection if there is one, and room for it.
unfoldable pub accept_client : Glib → Events → ℕ → (ℕ → Bool) → Process Server (Unit {0})
accept_client g events sock_fd is_set s =
    (if is_set sock_fd && int_lt s.client_cnt max_client_cnt
        then modify (λ s. record s {
          client_fds = g.prepend s.client_fds events.accept;
          client_cnt = (s.client_cnt + 1) % int_range;
          max_fd = int_max s.max_fd events.accept;
        })
        else pure tt)
      s

-- `close_fd` for each client; the value is whether all were closed properly.
unfoldable pub close_all : System → List ℕ → Process Trace Bool
unfolding close
close_all sys [] = pure true
close_all sys (client_fd ∷ client_fds) = do
  fails ← close sys client_fd
  others ← close_all sys client_fds
  pure (not fails && others)

unfoldable pub shut_down : System → ℕ → Process Server (Unit {0})
unfolding close_all close
shut_down sys sock_fd = do
  client_fds ← gets (λ s. s.client_fds)
  clients_closed ← on_trace (close_all sys client_fds)
  fails ← on_trace (close sys sock_fd)
  exit (if clients_closed && not fails then exit_ok else err_shutdown)

-- What follows `pselect`, with the descriptors that are set then.
unfoldable pub react : Glib → Events → ℕ → (ℕ → Bool) → Process Server (Unit {0})
unfolding shut_down accept_client attend_all
react g events sock_fd is_set = do
  if events.got_sigint then shut_down events.system sock_fd else pure tt
  accept_client g events sock_fd is_set
  nodes ← gets (λ s. s.client_fds)
  attend_all g events.system is_set nodes

abbrev pub watches : List ℕ → ℕ → Bool
watches [] fd = false
watches (client_fd ∷ client_fds) fd = fd == client_fd || watches client_fds fd

-- `pselect` takes descriptors out of those that are watched; an interrupted one leaves all.
abbrev pub after_select : Glib → Events → ℕ → List ℕ → Select → Process Server (Unit {0})
after_select g events sock_fd client_fds select_error = exit err_select
after_select g events sock_fd client_fds interrupted =
    react g events sock_fd (watches (sock_fd ∷ client_fds))
after_select g events sock_fd client_fds (ready is_set) =
    react g events sock_fd (λ fd. watches (sock_fd ∷ client_fds) fd && is_set fd)

-- A round of the loop of `main`.
unfoldable pub round : Glib → Events → ℕ → Process Server (Unit {0})
unfolding register react
round g events sock_fd = do
  client_fds ← gets (λ s. s.client_fds)
  register (sock_fd ∷ client_fds)
  after_select g events sock_fd client_fds events.pselect

-- The endless loop, for as many rounds as events are given.
unfoldable pub rounds : Glib → ℕ → List Events → Process Server (Unit {0})
unfolding round
rounds g sock_fd [] = pure tt
rounds g sock_fd (events ∷ others) = do round g events sock_fd; rounds g sock_fd others

-- Which calls of the first part of `main` fail. `address` is whether the first argument is one.
pub record SetUp : Type 0 where
  pub sigprocmask : Bool
  pub sigaction : Bool
  pub socket : Option ℕ
  pub address : Bool
  pub bind : Bool
  pub listen : Bool

abbrev pub open_socket : Option ℕ → Process Server ℕ
open_socket none = exit err_socket
open_socket (some sock_fd) = pure sock_fd

unfoldable pub set_up : SetUp → ℕ → Process Server ℕ
set_up answers argc = do
  check (not (argc == 3)) err_arg
  check answers.sigprocmask err_signal
  check answers.sigaction err_signal
  sock_fd ← open_socket answers.socket
  check (not answers.address) err_arg
  check answers.bind err_socket
  check answers.listen err_socket
  modify (λ s. record s { client_fds = []; client_cnt = 0; max_fd = sock_fd })
  pure sock_fd

unfoldable pub main : Glib → SetUp → ℕ → List Events → Process Server (Unit {0})
unfolding set_up rounds
main g answers argc events = do sock_fd ← set_up answers argc; rounds g sock_fd events
