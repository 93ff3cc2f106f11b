-- ===== src/Grep.antt =====
-- U06/pseudo-grep.c: the lines of a stream that contain a pattern are printed. The stream is read
-- byte by byte, with seeks back into it. A `long` is its bit pattern, so that a seek by a negative
-- number wraps around; so is a `char`, which is signed.
pub mod Absent
pub mod Lines
pub mod Rounds
pub mod Tracking
pub mod Selection
mod Tests
use ti.Base.{
  ℕ, zero, suc, ◌+◌, ◌-◌, ◌*◌, ◌/◌, ◌%◌, ◌^◌, Bool, true, false, not, ◌&&◌, ◌||◌, List, [], ◌∷◌,
  ◌++◌, Option, none, some, Bytes, ltb, ◌==◌, if◌then◌else◌, length, get_elem?, drop,
}
use ti.Base.Process.{Process, Result, pure, exit, crash, ◌>>=◌, ◌>>◌, modify, gets, check}
use ti.Base.Disk.{Disk}
use ti.Base.Text.{digits}
use ti.Streams.{Input, input_error, output_error, arg_error, char_to_int}

-- Whether `fseek` fails (as it does on a pipe), `fputc` and `fclose`.
pub record Faults : Type 0 where
  pub fseek : Bool
  pub fputc : Bool
  pub fclose : Bool

-- The variables of `pseudo_grep`, the position in the stream, and what stands on the standard
-- output.
pub record Search : Type 0 where
  pub position : ℕ
  pub from_linestart : ℕ
  pub matched_chars : ℕ
  pub printed : Bytes

abbrev pub long_range : ℕ
long_range = 2 ^ 64

abbrev pub seek_target : ℕ → Search → ℕ
seek_target offset s = (s.position + (long_range - offset)) % long_range

abbrev pub seeks : Faults → ℕ → Bool
seeks f target = not f.fseek && ltb target (2 ^ 63)

-- `fseek(stream, -offset, SEEK_CUR)`: not before the start of the stream.
unfoldable pub seek_back : Faults → ℕ → Process Search (Unit {0})
seek_back f offset = do
  target ← gets (seek_target offset)
  check (not (seeks f target)) input_error
  modify (λ s. record s { position = target })

-- What the inner loop reads of a line, up to its newline, and whether it comes to the end of the
-- stream.
unfoldable pub rest_of_line : Bytes → Bytes × Bool
rest_of_line [] = ([], true)
rest_of_line (line_char ∷ unread) =
    let (line, at_end) = rest_of_line unread in
    if line_char == b'\n' then (line_char ∷ [], false) else (line_char ∷ line, at_end)

-- The inner loop, and the check for an error, which the end of the stream may stand for.
unfoldable pub print_line : Faults → Input → Process Search (Unit {0})
unfolding rest_of_line
print_line f stream = do
  (line, at_end) ← gets (λ s. rest_of_line (drop s.position stream.bytes))
  check (f.fputc && not (length line == 0)) output_error
  modify (λ s. record s { position = s.position + length line; printed = s.printed ++ line })
  check (at_end && stream.error) input_error

-- `printf("%d", (int) from_linestart)`
abbrev pub int_text : ℕ → Bytes
int_text from_linestart =
    let n = from_linestart % 2 ^ 32 in
    if ltb n (2 ^ 31) then digits 10 n else b'-' ∷ digits 10 (2 ^ 32 - n)

-- The whole pattern matched. The number is printed only if the seek fails.
unfoldable pub found : Faults → Input → Process Search (Unit {0})
unfolding seek_back print_line
found f stream = do
  offset ← gets (λ s. s.from_linestart)
  target ← gets (seek_target offset)
  if not (seeks f target)
      then modify (λ s. record s { printed = s.printed ++ int_text offset })
      else pure tt
  seek_back f offset
  print_line f stream
  modify (λ s. record s { matched_chars = 0; from_linestart = 0 })

unfoldable pub mismatch : Faults → Process Search (Unit {0})
unfolding seek_back
mismatch f = do
  offset ← gets (λ s. s.matched_chars)
  seek_back f offset
  modify (λ s. record s {
    from_linestart = (s.from_linestart + (long_range - s.matched_chars)) % long_range;
    matched_chars = 0;
  })

-- `++from_linestart`, and its reset at the end of a line.
abbrev pub count_from_linestart : ℕ → Search → Search
count_from_linestart cur_char s = record s {
  from_linestart = if cur_char == b'\n' then 0 else (s.from_linestart + 1) % long_range;
}

-- The comparison with the next character of the pattern, if it has one or this is its final 0.
unfoldable pub compare_char : Faults → Bytes → Input → ℕ → ℕ → Option ℕ → Process Search (Unit {0})
unfolding found mismatch
compare_char f pattern stream cur_char matched_chars none = crash
compare_char f pattern stream cur_char matched_chars (some next_char) =
    if cur_char == char_to_int next_char
    then (do
      modify (λ s. record s { matched_chars = matched_chars + 1 })
      if matched_chars + 1 == length pattern then found f stream else pure tt)
    else if ltb 0 matched_chars
    then mismatch f
    else pure tt

-- A round of the outer loop, with what `fgetc` delivered and the rest of the loop, or the check
-- behind it.
unfoldable pub search_round :
    Faults → Bytes → Input → Process Search (Unit {0}) → Option ℕ → Process Search (Unit {0})
unfolding compare_char
search_round f pattern stream next none = check stream.error input_error
search_round f pattern stream next (some cur_char) = do
  modify (λ s. count_from_linestart cur_char (record s { position = s.position + 1 }))
  matched_chars ← gets (λ s. s.matched_chars)
  compare_char f pattern stream cur_char matched_chars (get_elem? (pattern ++ 0 ∷ []) matched_chars)
  next

unfoldable pub search_loop : Faults → Bytes → Input → ℕ → Process Search (Unit {0})
unfolding search_round
search_loop f pattern stream zero = crash
search_loop f pattern stream (suc fuel) = do
  cur_char ← gets (λ s. get_elem? stream.bytes s.position)
  search_round f pattern stream (search_loop f pattern stream fuel) cur_char

abbrev pub begin : Bytes → Search
begin printed = record { position = 0; from_linestart = 0; matched_chars = 0; printed = printed }

abbrev pub keep_printed : Result (Unit {0}) × Search → Result (Unit {0}) × Bytes
keep_printed (r, s) = (r, s.printed)

-- Every start of a match takes no more rounds than the pattern has characters, and one.
unfoldable pub pseudo_grep : Faults → Bytes → Input → Process Bytes (Unit {0})
unfolding search_loop
pseudo_grep f pattern stream printed = keep_printed (
    search_loop f pattern stream (suc (length stream.bytes * (length pattern + 1))) (begin printed))

abbrev pub grep_file : Faults → Bytes → Option Input → Process Bytes (Unit {0})
grep_file f pattern none = exit arg_error
grep_file f pattern (some stream) = do
  pseudo_grep f pattern stream
  check f.fclose input_error
  exit 0

-- On the arguments with the program's name in front. After the search of the standard input, with
-- a pattern only, the program goes on to open the null pointer, which fails.
unfoldable pub main : Faults → Input → Disk Input → List Bytes → Process Bytes (Unit {0})
unfolding pseudo_grep
main f stdin files (prog ∷ pattern ∷ []) = do pseudo_grep f pattern stdin; exit arg_error
main f stdin files (prog ∷ pattern ∷ name ∷ _) = grep_file f pattern (files name)
main f stdin files (prog ∷ []) = exit arg_error
main f stdin files [] = crash
