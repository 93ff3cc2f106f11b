-- ===== src/Streams.antt =====
-- What the filters of U06 share: the statuses of errors.h, the streams that they read, and characters;
-- the streams and `fgets` are those of the other programs, too.
pub mod Lines
use ti.Base.{
  ℕ, zero, suc, ◌-◌, Bool, true, false, ◌&&◌, ◌||◌, [], ◌∷◌, Option, none, some, Bytes, ltb, ◌+◌,
  ◌^◌, ◌==◌, if◌then◌else◌, length,
}

abbrev pub input_error : ℕ
input_error = 1

abbrev pub output_error : ℕ
output_error = 2

abbrev pub arg_error : ℕ
arg_error = 3

-- What the reading functions deliver before EOF, and whether that EOF stands for an error.
pub record Input : Type 0 where
  pub bytes : Bytes
  pub error : Bool

-- The text up to its first 0: what a function that takes a string sees of a buffer.
unfoldable pub c_string : Bytes → Bytes
c_string [] = []
c_string (c ∷ bytes) = if c == 0 then [] else c ∷ c_string bytes

-- What `fgets` gathered, what it left, and whether it came to the end of the stream.
pub record Gathered : Type 0 where
  pub line : Bytes
  pub rest : Bytes
  pub at_end : Bool

abbrev pub onto_line : ℕ → Gathered → Gathered
onto_line c g = record g { line = c ∷ g.line }

-- Up to `room` bytes, but not beyond a newline.
unfoldable pub gather : ℕ → Bytes → Gathered
gather zero unread = record { line = []; rest = unread; at_end = false }
gather (suc room) [] = record { line = []; rest = []; at_end = true }
gather (suc room) (c ∷ unread) =
    if c == b'\n'
    then record { line = c ∷ []; rest = unread; at_end = false }
    else onto_line c (gather room unread)

-- `fgets(buffer, size, stream)`: the line and the rest of the stream. An error, or the end before
-- the first byte, gives the null pointer.
unfoldable pub fgets : ℕ → Input → Option (Bytes × Input)
unfolding gather
fgets size stream =
    let g = gather (size - 1) stream.bytes in
    if g.at_end && (stream.error || length g.line == 0)
    then none
    else some (g.line, record stream { bytes = g.rest })

-- The value of a signed `char` as an `int`, as a bit pattern.
abbrev pub char_to_int : ℕ → ℕ
char_to_int byte = if ltb byte 128 then byte else byte + (2 ^ 32 - 2 ^ 8)
