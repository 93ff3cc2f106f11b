-- ===== src/Http/Serving.antt =====
-- What becomes of a request: an error message, or the file with a header. A `continue` ends the work
-- on the client.
pub mod Delivery
pub mod Closing
use ti.Base.{
  ℕ, zero, suc, ◌+◌, ◌||◌, Bool, List, [], ◌∷◌, ◌++◌, Option, none, some, Bytes, codes, str_eq,
  take, drop, length, ◌==◌, if◌then◌else◌, false,
}
use ti.Base.Process.{Process, pure, crash, ◌>>=◌, ◌>>◌, gets}
use ti.Base.Text.{strrchr}
use ti.Streams.{Input}
use ti.Http.Request.{Parsed, refused, wanted, broken, parse}
use ti.Http.Response.{respond, in_buffer, header_len, header_text}
use ti.Http.{
  System, Trace, Stat, st_size, no_entry, stat_error, Fopen, opened, disappeared, fopen_error, send,
  close, status_400, status_404, status_500, bufsize,
}

-- The MIME type for an extension.
unfoldable pub mime_type : Bytes → Option Bytes
unfolding str_eq
mime_type filename_ext =
    if str_eq filename_ext (codes "html") || str_eq filename_ext (codes "htm")
    then some (codes "text/html")
    else if str_eq filename_ext (codes "jpeg") || str_eq filename_ext (codes "jpg")
    then some (codes "image/jpeg")
    else if str_eq filename_ext (codes "gif")
    then some (codes "image/gif")
    else none

-- The loop of `fread` and `send`, with more fuel than bytes. That a block was not sent only leads to
-- a warning.
unfoldable pub send_blocks : System → ℕ → ℕ → Bytes → Process Trace (Unit {0})
unfolding send
send_blocks sys client_fd zero unread = crash
send_blocks sys client_fd (suc fuel) [] = pure tt
send_blocks sys client_fd (suc fuel) (c ∷ unread) = do
  count ← send sys client_fd (take bufsize (c ∷ unread))
  send_blocks sys client_fd fuel (drop bufsize (c ∷ unread))

-- From `fopen` on. Behind a read error the descriptor is closed twice.
unfoldable pub send_file : System → ℕ → Fopen → Process Trace (Unit {0})
unfolding send_blocks respond close
send_file sys client_fd disappeared = respond sys status_404 client_fd
send_file sys client_fd fopen_error = respond sys status_500 client_fd
send_file sys client_fd (opened infile) = do
  send_blocks sys client_fd (suc (length infile.bytes)) infile.bytes
  if infile.error then respond sys status_500 client_fd else pure tt
  fails ← close sys client_fd
  pure tt

abbrev pub is_whole : Option ℕ → Bytes → Bool
is_whole none text = false
is_whole (some n) text = n == length text

-- From the header on. If it is not sent as a whole, the descriptor is left open.
unfoldable pub send_header : System → ℕ → Bytes → ℕ → Option Bytes → Process Trace (Unit {0})
unfolding in_buffer send send_file
send_header sys client_fd uri size none = respond sys status_400 client_fd
send_header sys client_fd uri size (some mime) = do
  let header = header_text mime size
  buffer ← in_buffer (header_len + 1) header
  count ← send sys client_fd header
  if is_whole count header
      then (do infile ← gets (λ trace. sys.fopen trace uri); send_file sys client_fd infile)
      else pure tt

-- `strrchr(uri, '.') + 1`; with no dot in the URI, `strcmp` reads through a pointer near null.
unfoldable pub guess_type :
    System → ℕ → Bytes → ℕ → Option (Bytes × Bytes) → Process Trace (Unit {0})
unfolding mime_type send_header
guess_type sys client_fd uri size none = crash
guess_type sys client_fd uri size (some (stem, dot)) =
    send_header sys client_fd uri size (mime_type (drop 1 dot))

unfoldable pub after_stat : System → ℕ → Bytes → Stat → Process Trace (Unit {0})
unfolding strrchr guess_type respond
after_stat sys client_fd uri no_entry = respond sys status_404 client_fd
after_stat sys client_fd uri stat_error = respond sys status_500 client_fd
after_stat sys client_fd uri (st_size size) = guess_type sys client_fd uri size (strrchr uri b'.')

unfoldable pub answer_parsed : System → ℕ → Parsed → Process Trace (Unit {0})
unfolding respond after_stat
answer_parsed sys client_fd (refused status) = respond sys status client_fd
answer_parsed sys client_fd broken = crash
answer_parsed sys client_fd (wanted uri) = do
  info ← gets (λ trace. sys.stat trace uri)
  after_stat sys client_fd uri info

-- The work on a request, from the end of the request line on.
unfoldable pub answer : System → ℕ → Bytes → Process Trace (Unit {0})
unfolding parse answer_parsed
answer sys client_fd request_line = answer_parsed sys client_fd (parse request_line)
