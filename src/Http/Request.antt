-- ===== src/Http/Request.antt =====
-- The parsing of a request line, in the buffer that it was read into.
pub mod Parsing
use ti.Base.{
  ℕ, ◌+◌, ◌-◌, Bool, List, [], ◌∷◌, ◌++◌, Option, none, some, Bytes, codes, str_eq, take, drop,
  length, if◌then◌else◌,
}
use ti.Base.Text.{strchr}
use ti.Streams.{c_string}
use ti.Http.{status_400, status_501, max_request_line_len}

-- A request is refused with a status, or a file is wanted; or the code writes through a pointer that
-- is null or lies before the buffer.
pub data Parsed : Type 0 where
  refused : Bytes → Parsed
  wanted : Bytes → Parsed
  broken : Parsed

-- What the buffer holds as a string, behind a `read` that delivered `bytes`. There is no 0 behind
-- these: what stood in the buffer goes on.
unfoldable pub received : Bytes → Bytes → Bytes
unfolding c_string
received bytes stale =
    let n_read = take max_request_line_len bytes in
    c_string (take max_request_line_len (n_read ++ drop (length n_read) stale))

abbrev pub default_uri : Bytes → Bytes
default_uri [] = codes "index.html"
default_uri (c ∷ uri) = c ∷ uri

-- The version, from the first dot in it. With no dot the null pointer is written to.
abbrev pub check_version : Bytes → Bytes → Option (Bytes × Bytes) → Parsed
check_version uri version none = broken
check_version uri version (some (major, dot)) =
    if str_eq (take (length major + 2) version) (codes "HTTP/1.0")
    then wanted (default_uri uri)
    else refused status_501

-- The URI is what stands before the blank.
unfoldable pub check_uri : Option (Bytes × Bytes) → Parsed
unfolding strchr str_eq
check_uri none = broken
check_uri (some (uri, blank)) =
    let version = drop 1 blank in check_version uri version (strchr version b'.')

-- The method is what stands before the byte in front of the slash; this byte is overwritten.
unfoldable pub check_method : Option (Bytes × Bytes) → Parsed
unfolding strchr str_eq check_uri
check_method none = broken
check_method (some ([], slash)) = broken
check_method (some (c ∷ front, slash)) =
    if str_eq (take (length front) (c ∷ front)) (codes "GET")
    then check_uri (strchr (drop 1 slash) b' ')
    else refused status_501

-- The request line ends with the first newline.
unfoldable pub check_line : Option (Bytes × Bytes) → Parsed
unfolding strchr check_method
check_line none = refused status_400
check_line (some (line, newline)) = check_method (strchr (line ++ b'\n' ∷ []) b'/')

unfoldable pub parse : Bytes → Parsed
unfolding strchr check_line
parse request_line = check_line (strchr request_line b'\n')
