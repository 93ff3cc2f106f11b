-- ===== src/Sockets.antt =====
-- U08: a server and a client over TCP (Tcp), and over datagrams of a Unix socket (Datagrams). What
-- the system answers is a parameter, or a list of events; a buffer is the list of its bytes.
pub mod Datagrams
pub mod Tcp
mod Tests
use ti.Base.{ℕ, Bool, ◌++◌, Bytes, length, drop, ltb, codes}
use ti.Streams.{c_string}

-- errors.h
abbrev pub arg_error : ℕ
arg_error = 1

abbrev pub sock_error : ℕ
sock_error = 2

abbrev pub recv_error : ℕ
recv_error = 3

abbrev pub send_error : ℕ
send_error = 4

abbrev pub input_error : ℕ
input_error = 5

abbrev pub output_error : ℕ
output_error = 6

abbrev pub sig_error : ℕ
sig_error = 7

-- Bytes that are written to the start of a buffer.
abbrev pub overwrite : Bytes → Bytes → Bytes
overwrite bytes buffer = bytes ++ drop (length bytes) buffer

-- Whether a buffer holds a string, so that a function for strings stays inside.
unfoldable pub is_string : Bytes → Bool
unfolding c_string
is_string buffer = ltb (length (c_string buffer)) (length buffer)
