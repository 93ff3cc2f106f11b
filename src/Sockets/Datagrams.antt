-- ===== src/Sockets/Datagrams.antt =====
-- uds-client.c sends lines from the standard input as datagrams; uds-server.c prints datagrams.
pub mod RoundTrip
use ti.Base.{
  ℕ, zero, suc, Bool, not, List, [], ◌∷◌, ◌++◌, Option, none, some, Bytes, ◌==◌, if◌then◌else◌,
  length, take,
}
use ti.Base.Process.{Process, pure, exit, crash, ◌>>=◌, ◌>>◌, modify, gets, check}
use ti.Streams.{Input, c_string, fgets}
use ti.Sockets.{arg_error, sock_error, recv_error, send_error, input_error, overwrite, is_string}

abbrev pub bufsize : ℕ
bufsize = 1024

-- The loop of the client, on what `fgets` delivered, with more fuel than bytes are left. All of the
-- buffer is sent. Whether `sendto` fails may depend on what was sent.
unfoldable pub send_lines :
    (List Bytes → Bool)
    → ℕ
    → Bytes
    → Bool
    → Option (Bytes × Input)
    → Process (List Bytes) (Unit {0})
unfolding fgets
send_lines sendto_fails fuel buffer error none = check error input_error
send_lines sendto_fails zero buffer error (some (line, stdin)) = crash
send_lines sendto_fails (suc fuel) buffer error (some (line, stdin)) = do
  let buffer' = overwrite (line ++ 0 ∷ []) buffer
  fails ← gets sendto_fails
  check fails send_error
  modify (λ datagrams. datagrams ++ buffer' ∷ [])
  send_lines sendto_fails fuel buffer' error (fgets bufsize stdin)

-- `main` of the client, on what stands in its buffer.
unfoldable pub client :
    (List Bytes → Bool) → Bool → ℕ → Bytes → Input → Process (List Bytes) (Unit {0})
unfolding send_lines fgets
client sendto_fails socket_fails argc buffer stdin = do
  check (not (argc == 2)) arg_error
  check socket_fails sock_error
  send_lines sendto_fails (suc (length stdin.bytes)) buffer stdin.error (fgets bufsize stdin)
  exit 0

-- `recv` takes a datagram, or fails.
pub data Recv : Type 0 where
  datagram : Bytes → Recv
  recv_failed : Recv

-- What was received is written to the buffer, which is printed up to its first 0. A datagram
-- without bytes ends the loop as an error does.
unfoldable pub print_datagram : Bytes → Bytes → Process Bytes Bytes
unfolding is_string c_string
print_datagram buffer received =
    let buffer' = overwrite received buffer in
    if length received == 0
    then exit recv_error
    else if not (is_string buffer')
    then crash
    else (do modify (λ printed. printed ++ c_string buffer'); pure buffer')

-- The endless loop of the server, for as many rounds as `recv` gives results.
unfoldable pub print_all : Bytes → List Recv → Process Bytes (Unit {0})
unfolding print_datagram
print_all buffer [] = pure tt
print_all buffer (recv_failed ∷ others) = exit recv_error
print_all buffer (datagram bytes ∷ others) = do
  buffer' ← print_datagram buffer (take bufsize bytes)
  print_all buffer' others

unfoldable pub server : Bool → Bool → ℕ → Bytes → List Recv → Process Bytes (Unit {0})
unfolding print_all
server socket_fails bind_fails argc buffer received = do
  check (not (argc == 2)) arg_error
  check socket_fails sock_error
  check bind_fails sock_error
  print_all buffer received
