-- ===== src/Route.antt =====
-- U11/pseudo-tr.c: packets with growing TTLs are sent by the parent; the child prints the addresses
-- that ICMP packets come from. The network and the system's answers are parameters.
pub mod Hops
pub mod Interleaving
pub mod Probing
mod Tests
use ti.Base.{
  ℕ, zero, suc, ◌+◌, Bool, not, List, [], ◌∷◌, ◌++◌, Option, none, some, Bytes, codes, str_eq, ◌==◌,
  if◌then◌else◌, length, take, drop,
}
use ti.Base.Process.{Process, Result, exits, pure, exit, ◌>>=◌, ◌>>◌, modify, check}
use ti.Base.Text.{digits}

-- errors.h
abbrev pub err_socket : ℕ
err_socket = 1

abbrev pub err_recv : ℕ
err_recv = 2

abbrev pub err_arg : ℕ
err_arg = 3

abbrev pub err_fork : ℕ
err_fork = 4

abbrev pub err_send : ℕ
err_send = 5

abbrev pub err_signal : ℕ
err_signal = 6

abbrev pub bufsize : ℕ
bufsize = 1024

abbrev pub max_ttl : ℕ
max_ttl = 30

abbrev pub data_text : Bytes
data_text = codes "What-ho!" ++ 0 ∷ []

-- `inet_ntoa`, on the bytes of an address.
unfoldable pub inet_ntoa : Bytes → Bytes
inet_ntoa [] = []
inet_ntoa (a ∷ []) = digits 3 a
inet_ntoa (a ∷ b ∷ address) = digits 3 a ++ b'.' ∷ inet_ntoa (b ∷ address)

-- The member `saddr` of the IP header at the start of the buffer.
abbrev pub saddr : Bytes → Bytes
saddr buffer = take 4 (drop 12 buffer)

-- `recvfrom` delivers a packet, or fails.
pub data Recv : Type 0 where
  packet : Bytes → Recv
  recv_failed : Recv

-- The state of the child is the list of the lines that it printed.
abbrev pub Printed : Type 0
Printed = List Bytes

-- The work on a packet of which something was received; the value is what the buffer holds then.
unfoldable pub print_sender : Bytes → Bool → Bytes → Bytes → Process Printed Bytes
unfolding inet_ntoa str_eq
print_sender final_address close_fails buffer received = do
  let buffer' = received ++ drop (length received) buffer
  let ip_address = inet_ntoa (saddr buffer')
  modify (λ printed. printed ++ ip_address ∷ [])
  if str_eq ip_address final_address
      then (do check close_fails err_socket; exit 0)
      else pure buffer'

-- The endless loop of the child, for as many rounds as `recvfrom` gives results.
unfoldable pub listen_for : Bytes → Bool → Bytes → List Recv → Process Printed (Unit {0})
unfolding print_sender
listen_for final_address close_fails buffer [] = pure tt
listen_for final_address close_fails buffer (recv_failed ∷ others) = exit err_recv
listen_for final_address close_fails buffer (packet bytes ∷ others) = do
  if length bytes == 0 then exit 0 else pure tt
  buffer' ← print_sender final_address close_fails buffer (take bufsize bytes)
  listen_for final_address close_fails buffer' others

unfoldable pub child :
    Bytes → (socket_fails close_fails : Bool) → Bytes → List Recv → Process Printed (Unit {0})
unfolding listen_for
child final_address socket_fails close_fails buffer received = do
  check socket_fails err_socket
  listen_for final_address close_fails buffer received

-- A packet that was sent: its TTL and its data.
pub record Probe : Type 0 where
  pub ttl : ℕ
  pub data_sent : Bytes

-- What the system answers the parent, by the TTL that is next. `sendto` takes all data, or not.
pub record System : Type 0 where
  pub sigaction_fails : Bool
  pub socket_fails : Bool
  pub is_address : Bool
  pub close_fails : Bool
  pub got_sigchld : ℕ → Bool
  pub setsockopt_fails : ℕ → Bool
  pub sendto_fails : ℕ → Bool

-- The body of the loop of the parent.
unfoldable pub send_probe : System → ℕ → Process (List Probe) (Unit {0})
send_probe sys ttl = do
  if sys.got_sigchld ttl then (do check sys.close_fails err_socket; exit 0) else pure tt
  check (sys.setsockopt_fails ttl) err_socket
  check (sys.sendto_fails ttl) err_send
  modify (λ sent. sent ++ record { ttl = ttl; data_sent = data_text } ∷ [])

-- The loop from a TTL on, for the rounds that are left of it.
unfoldable pub send_probes : System → (rounds ttl : ℕ) → Process (List Probe) (Unit {0})
unfolding send_probe
send_probes sys zero ttl = pure tt
send_probes sys (suc rounds) ttl = do send_probe sys ttl; send_probes sys rounds (ttl + 1)

-- The parent, to the end of `main`.
unfoldable pub parent : System → Process (List Probe) (Unit {0})
unfolding send_probes
parent sys = do
  check sys.sigaction_fails err_signal
  check sys.socket_fails err_socket
  check (not sys.is_address) err_arg
  send_probes sys max_ttl 1
  exit 0

-- What a process prints and sends.
pub record Outputs : Type 0 where
  pub printed : Printed
  pub probes : List Probe

abbrev pub keep_printed : {A : Type 0} → Outputs → Result A × Printed → Result A × Outputs
keep_printed s (r, printed) = (r, record s { printed = printed })

abbrev pub keep_probes : {A : Type 0} → Outputs → Result A × List Probe → Result A × Outputs
keep_probes s (r, probes) = (r, record s { probes = probes })

-- `fork`: the child goes on, or the parent; or it failed.
pub data Fork : Type 0 where
  in_child : (socket_fails close_fails : Bool) → Bytes → List Recv → Fork
  in_parent : System → Fork
  not_forked : Fork

abbrev pub after_fork : Bytes → Fork → Process Outputs (Unit {0})
after_fork final_address (in_child socket_fails close_fails buffer received) s =
    keep_printed s (child final_address socket_fails close_fails buffer received s.printed)
after_fork final_address (in_parent sys) s = keep_probes s (parent sys s.probes)
after_fork final_address not_forked s = (exits err_fork, s)

-- `main`, on the arguments with the program's name in front.
unfoldable pub main : List Bytes → Fork → Process Outputs (Unit {0})
unfolding child parent
main (prog ∷ final_address ∷ []) fork = after_fork final_address fork
main _ fork = exit err_arg
