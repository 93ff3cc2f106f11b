-- ===== src/Wc.antt =====
-- U06/wc.c: the number of newlines, words and bytes of a file or of the standard input. An `int` is
-- its bit pattern. What is printed is the list of the summaries; `printf` only lays them out.
pub mod Counting
mod Tests
use ti.Base.{
  ℕ, ◌+◌, ◌%◌, ◌^◌, Bool, true, false, not, ◌&&◌, ◌||◌, List, [], ◌∷◌, ◌++◌, Option, none, some,
  Bytes, ◌==◌, if◌then◌else◌,
}
use ti.Base.Process.{Process, exit, crash, ◌>>=◌, ◌>>◌, modify, check, pure}
use ti.Base.Disk.{Disk}
use ti.Streams.{Input, input_error, output_error, arg_error}

pub record Counts : Type 0 where
  pub newline_cnt : ℕ
  pub word_cnt : ℕ
  pub byte_cnt : ℕ
  pub in_word : Bool

abbrev pub start : Counts
start = record { newline_cnt = 0; word_cnt = 0; byte_cnt = 0; in_word = false }

unfoldable pub is_whitespace : ℕ → Bool
is_whitespace character = character == b'\n' || character == b' ' || character == b'\t'

abbrev pub increment : ℕ → ℕ
increment n = (n + 1) % 2 ^ 32

-- The second half of the loop's body: words.
unfoldable pub count_word : Counts → ℕ → Counts
unfolding is_whitespace
count_word s cur_char =
    if not s.in_word && not (is_whitespace cur_char)
    then record s { word_cnt = increment s.word_cnt; in_word = true }
    else if is_whitespace cur_char
    then record s { in_word = false }
    else s

unfoldable pub count_char : Counts → ℕ → Counts
unfolding count_word
count_char s cur_char =
    let s' = record s { byte_cnt = increment s.byte_cnt } in
    count_word
      (if cur_char == b'\n' then record s' { newline_cnt = increment s'.newline_cnt } else s')
      cur_char

unfoldable pub count_all : Counts → Bytes → Counts
unfolding count_char
count_all s [] = s
count_all s (cur_char ∷ bytes) = count_all (count_char s cur_char) bytes

-- What `printf` is given: newlines, words, bytes.
pub record Summary : Type 0 where
  pub newlines : ℕ
  pub words : ℕ
  pub bytes : ℕ

unfoldable pub wc : Input → Process (List Summary) (Unit {0})
unfolding count_all
wc stream = do
  let s = count_all start stream.bytes
  check stream.error output_error
  modify (λ printed.
      printed ++ record { newlines = s.newline_cnt; words = s.word_cnt; bytes = s.byte_cnt } ∷ [])

abbrev pub wc_file : Bool → Option Input → Process (List Summary) (Unit {0})
wc_file close_fails none = exit arg_error
wc_file close_fails (some stream) = do wc stream; check close_fails input_error

-- `main`, on the arguments with the program's name in front. A name that cannot be opened stands
-- for no input. With no arguments at all, not even that name, `argv[1]` lies behind the array.
unfoldable pub main : Input → Disk Input → Bool → List Bytes → Process (List Summary) (Unit {0})
unfolding wc
main stdin files close_fails [] = crash
main stdin files close_fails (prog ∷ []) = do wc stdin; exit 0
main stdin files close_fails (prog ∷ filename ∷ _) = do wc_file close_fails (files filename); exit 0
