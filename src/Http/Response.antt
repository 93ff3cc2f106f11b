-- ===== src/Http/Response.antt =====
-- The status lines that are sent on an error, and the header that goes before a file.
pub mod Bounds
use ti.Base.{
  ℕ, ◌+◌, ◌-◌, Bool, List, [], ◌∷◌, ◌++◌, Option, none, some, Bytes, codes, ltb, length, replicate,
  if◌then◌else◌,
}
use ti.Base.Process.{Process, pure, crash, ◌>>=◌, ◌>>◌}
use ti.Base.Text.{digits}
use ti.Http.{System, Trace, send, close}

abbrev pub msg_len : Bytes → ℕ
msg_len status_msg =
    8 + 1 + length status_msg + 1 + 13 + 1 + 10 + 1 + 17 + 1 + 15 + 1 + 1 + 1 + 1 + 6 + 1

abbrev pub error_text : Bytes
error_text = codes "Error.\n"

abbrev pub message : Bytes → Bytes
message status_msg =
    codes "HTTP/1.1 "
    ++ (status_msg
        ++ (codes "\n"
            ++ (codes "Content-Type: text/plain\n"
                ++ (codes "Content-Length: 7\n" ++ (codes "Connection: close\n\n" ++ error_text)))))

-- A text at the start of a buffer of zeros; one that does not fit with its final 0 is written behind
-- the buffer.
unfoldable pub in_buffer : {S : Type 0} → ℕ → Bytes → Process S Bytes
in_buffer size text =
    if ltb size (length text + 1) then crash else pure (text ++ replicate (size - length text) 0)

-- All of the buffer is sent. The results of `send` and `close` only lead to warnings.
unfoldable pub respond : System → Bytes → ℕ → Process Trace (Unit {0})
unfolding in_buffer send close
respond sys status_msg sock_fd = do
  msg ← in_buffer (msg_len status_msg + 1) (message status_msg)
  count ← send sys sock_fd msg
  fails ← close sys sock_fd
  pure tt

abbrev pub max_mime_len : ℕ
max_mime_len = 10

abbrev pub header_len : ℕ
header_len = 8 + 1 + 3 + 1 + 2 + 1 + 13 + 1 + max_mime_len + 1 + 17 + 1 + 15 + 1 + 20 + 1 + 1

-- A `long` that is not negative has at most 19 digits.
abbrev pub header_text : Bytes → ℕ → Bytes
header_text mime_type size =
    codes "HTTP/1.0 200 OK\n"
    ++ (codes "Content-Type: "
        ++ (mime_type
            ++ (codes "\n"
                ++ (codes "Connection: close\n"
                    ++ (codes "Content-Length: " ++ (digits 19 size ++ codes "\n\n"))))))
