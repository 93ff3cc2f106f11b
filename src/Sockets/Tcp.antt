-- ===== src/Sockets/Tcp.antt =====
-- tcp-server.c sends every client away; tcp-client.c prints what a server sends.
pub mod Farewell
use ti.Base.{
  ℕ, Bool, not, List, [], ◌∷◌, ◌++◌, Option, none, some, Bytes, codes, ◌==◌, if◌then◌else◌, length,
  take,
}
use ti.Base.Process.{Process, pure, exit, crash, ◌>>=◌, ◌>>◌, modify, check}
use ti.Base.Text.{digits}
use ti.Streams.{c_string}
use ti.Sockets.{
  arg_error, sock_error, recv_error, send_error, output_error, sig_error, overwrite, is_string,
}

-- messages.h
abbrev pub server_cancel : Bytes
server_cancel = codes "Buggar off."

abbrev pub max_msg_len : ℕ
max_msg_len = 72

-- What the server does to its log and to descriptors.
pub data Action : Type 0 where
  logged : Bytes → Action
  log_closed : Action
  sent : ℕ → Bytes → Action
  closed : ℕ → Action

abbrev pub Trace : Type 0
Trace = List Action

-- A connection that `accept` gives, the text of its address, and which calls for it fail.
pub record Connection : Type 0 where
  pub client_sock_fd : ℕ
  pub address : Bytes
  pub port : ℕ
  pub time : ℕ
  pub send_fails : Bool
  pub close_fails : Bool

-- What happens to the server that waits: a connection, an error of `accept`, or SIGINT.
pub data Event : Type 0 where
  connection : Connection → Event
  no_connection : Event
  interrupted : (fclose_fails close_fails : Bool) → Event

abbrev pub log_entry : Connection → Bytes
log_entry client =
    codes "A: "
    ++ (client.address
        ++ (codes "\tP: "
            ++ (digits 5 client.port ++ (codes "\tT: " ++ (digits 10 client.time ++ codes "\n")))))

-- The body of the loop: log the client, and ditch it.
unfoldable pub ditch : Connection → Process Trace (Unit {0})
ditch client = do
  modify (λ trace. trace ++ logged (log_entry client) ∷ [])
  check client.send_fails send_error
  modify (λ trace. trace ++ sent client.client_sock_fd (server_cancel ++ 0 ∷ []) ∷ [])
  modify (λ trace. trace ++ closed client.client_sock_fd ∷ [])
  check client.close_fails sock_error

unfoldable pub shut_down : ℕ → Bool → Bool → Process Trace (Unit {0})
shut_down sock_fd fclose_fails close_fails = do
  modify (λ trace. trace ++ log_closed ∷ [])
  check fclose_fails output_error
  modify (λ trace. trace ++ closed sock_fd ∷ [])
  check close_fails sock_error
  exit 0

-- The loop, for as many rounds as events are given.
unfoldable pub serve : ℕ → List Event → Process Trace (Unit {0})
unfolding ditch shut_down
serve sock_fd [] = pure tt
serve sock_fd (no_connection ∷ events) = exit 0
serve sock_fd (interrupted fclose_fails close_fails ∷ events) =
    shut_down sock_fd fclose_fails close_fails
serve sock_fd (connection client ∷ events) = do ditch client; serve sock_fd events

-- Which calls of the first part of `main` fail. `address` is whether the first argument is one.
pub record SetUp : Type 0 where
  pub sigaction : Bool
  pub fopen : Bool
  pub socket : Option ℕ
  pub address : Bool
  pub bind : Bool
  pub listen : Bool

abbrev pub open_socket : {S : Type 0} → Option ℕ → Process S ℕ
open_socket none = exit sock_error
open_socket (some sock_fd) = pure sock_fd

-- `main` of the server; a SIGINT is taken from its loop on.
unfoldable pub server : SetUp → ℕ → List Event → Process Trace (Unit {0})
unfolding serve
server answers argc events = do
  check (not (argc == 4)) arg_error
  check answers.sigaction sig_error
  check answers.fopen output_error
  sock_fd ← open_socket answers.socket
  check (not answers.address) arg_error
  check answers.bind sock_error
  check answers.listen sock_error
  serve sock_fd events

-- `recv` of the client: bytes, the end of the stream if there are none, or an error.
pub data Recv : Type 0 where
  got : Bytes → Recv
  recv_failed : Recv

-- What was received is written to the buffer, which is printed up to its first 0.
unfoldable pub print_message : Bytes → Bytes → Process Bytes Bytes
unfolding is_string c_string
print_message buffer received =
    let buffer' = overwrite received buffer in
    if length received == 0
    then (do modify (λ printed. printed ++ codes "Server closed connection.\n"); exit 0)
    else if not (is_string buffer')
    then crash
    else (do modify (λ printed. printed ++ (c_string buffer' ++ codes "\n")); pure buffer')

unfoldable pub listen_on : Bytes → List Recv → Process Bytes (Unit {0})
unfolding print_message
listen_on buffer [] = pure tt
listen_on buffer (recv_failed ∷ others) = exit recv_error
listen_on buffer (got bytes ∷ others) = do
  buffer' ← print_message buffer (take max_msg_len bytes)
  listen_on buffer' others

-- `main` of the client: which calls fail, its arguments, and what stands in its buffer.
unfoldable pub client :
    (socket_fails is_address connect_fails : Bool)
    → ℕ
    → Bytes
    → List Recv
    → Process Bytes (Unit {0})
unfolding listen_on
client socket_fails is_address connect_fails argc buffer received = do
  check (not (argc == 3)) arg_error
  check socket_fails sock_error
  check (not is_address) arg_error
  check connect_fails sock_error
  listen_on buffer received
