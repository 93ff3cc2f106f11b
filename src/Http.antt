-- ===== src/Http.antt =====
-- U09/http-server.c: a server for files over HTTP, one process for all its clients. Request has the
-- parsing of a request line, Response the messages, Serving the delivery of a file, Server the loop
-- over the clients. What was sent to which descriptor and what was closed is kept in a trace; what
-- the system answers may depend on all of it.
pub mod Request
pub mod Response
pub mod Serving
pub mod Server
mod Tests
use ti.Base.{ℕ, Bool, List, [], ◌∷◌, ◌++◌, Option, none, some, Bytes, codes, take, length, min}
use ti.Base.Process.{Process, pure, ◌>>=◌, ◌>>◌, modify, gets}
use ti.Streams.{Input}

-- errors.h
abbrev pub exit_ok : ℕ
exit_ok = 0

abbrev pub err_signal : ℕ
err_signal = 1

abbrev pub err_select : ℕ
err_select = 2

abbrev pub err_shutdown : ℕ
err_shutdown = 3

abbrev pub err_arg : ℕ
err_arg = 4

abbrev pub err_socket : ℕ
err_socket = 5

abbrev pub status_400 : Bytes
status_400 = codes "400 Bad Request"

abbrev pub status_501 : Bytes
status_501 = codes "501 Not Implemented"

abbrev pub status_404 : Bytes
status_404 = codes "404 Not Found"

abbrev pub status_500 : Bytes
status_500 = codes "500 Internal Server Error"

abbrev pub max_client_cnt : ℕ
max_client_cnt = 50

abbrev pub max_request_line_len : ℕ
max_request_line_len = 500

abbrev pub bufsize : ℕ
bufsize = 1024

-- What was done to a descriptor.
pub data Action : Type 0 where
  sent : ℕ → Bytes → Action
  closed : ℕ → Action

abbrev pub Trace : Type 0
Trace = List Action

-- `read` delivers bytes, the end of the stream, or an error.
pub data Read : Type 0 where
  got : Bytes → Read
  at_eof : Read
  read_error : Read

-- `stat` and `fopen`: the error ENOENT, or another.
pub data Stat : Type 0 where
  st_size : ℕ → Stat
  no_entry : Stat
  stat_error : Stat

pub data Fopen : Type 0 where
  opened : Input → Fopen
  disappeared : Fopen
  fopen_error : Fopen

-- What the system answers behind a trace. `send` takes at most so many bytes, or fails; `stale` is
-- what stands in the buffer for the request line before it is read into.
pub record System : Type 0 where
  pub read : Trace → ℕ → Read
  pub stale : Trace → Bytes
  pub send : Trace → ℕ → Option ℕ
  pub close_fails : Trace → ℕ → Bool
  pub stat : Trace → Bytes → Stat
  pub fopen : Trace → Bytes → Fopen

abbrev pub accepted : Option ℕ → Bytes → Bytes
accepted none message = []
accepted (some n) message = take n message

-- The result of `send`; none stands for -1.
abbrev pub sent_count : Option ℕ → Bytes → Option ℕ
sent_count none message = none
sent_count (some n) message = some (min n (length message))

unfoldable pub send : System → ℕ → Bytes → Process Trace (Option ℕ)
send sys fd message = do
  answer ← gets (λ trace. sys.send trace fd)
  modify (λ trace. trace ++ sent fd (accepted answer message) ∷ [])
  pure (sent_count answer message)

-- The value is whether it failed.
unfoldable pub close : System → ℕ → Process Trace Bool
close sys fd = do
  fails ← gets (λ trace. sys.close_fails trace fd)
  modify (λ trace. trace ++ closed fd ∷ [])
  pure fails
