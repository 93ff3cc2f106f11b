-- ===== src/Wc/Counting.antt =====
-- The counts against an independent description of lines, words and bytes.
use ti.Base.{
  ℕ, ◌+◌, ◌-◌, ◌^◌, ◌≤◌, ◌<◌, ◌≡◌, refl, ap, Bool, true, false, not, ◌&&◌, ◌||◌, List, [], ◌∷◌,
  ◌++◌, arith, Bytes, length, ◌==◌, if◌then◌else◌, Bool-cases, inl, inr,
}
use ti.Base.Process.{ok, exits}
use ti.Wc.{Counts, start, is_whitespace, count_char, count_all, Summary, wc}
use ti.Streams.{Input, output_error}

-- How often a byte occurs.
abbrev pub occurrences : ℕ → Bytes → ℕ
occurrences c [] = 0
occurrences c (x ∷ bytes) = (if x == c then 1 else 0) + occurrences c bytes

-- The text goes on with the current word.
abbrev pub goes_on : Bytes → Bool
goes_on [] = false
goes_on (c ∷ _) = not (is_whitespace c)

abbrev pub onto_first : ℕ → List Bytes → List Bytes
onto_first c [] = (c ∷ []) ∷ []
onto_first c (word ∷ words) = (c ∷ word) ∷ words

-- The words of a text, from its end on: the longest runs of bytes that are no whitespace.
abbrev pub words_of : Bytes → List Bytes
words_of [] = []
words_of (c ∷ bytes) =
    if is_whitespace c
    then words_of bytes
    else if goes_on bytes
    then onto_first c (words_of bytes)
    else (c ∷ []) ∷ words_of bytes

length-onto_first :
    (c : ℕ) (words : List Bytes) → 1 ≤ length words → length (onto_first c words) ≡ length words
length-onto_first c [] h = absurd (omega arith)
length-onto_first c (word ∷ words) h = refl

onto_first_pos : (c : ℕ) (words : List Bytes) → 1 ≤ length (onto_first c words)
onto_first_pos c [] = omega arith
onto_first_pos c (word ∷ words) = omega arith

-- A text that goes on with a word has a first word.
words_of_pos : (bytes : Bytes) → goes_on bytes ≡ true → 1 ≤ length (words_of bytes)
words_of_pos [] h = cc
words_of_pos (c ∷ bytes) h = ground (arith, onto_first_pos c (words_of bytes))

-- The words that begin in a text, after a byte within a word or not.
abbrev begun : Bool → Bytes → ℕ
begun in_word bytes = length (words_of bytes) - (if in_word && goes_on bytes then 1 else 0)

begun-cons :
    (in_word : Bool) (c : ℕ) (bytes : Bytes)
    → begun in_word (c ∷ bytes)
      ≡ (if in_word || is_whitespace c then 0 else 1) + begun (not (is_whitespace c)) bytes
begun-cons in_word c bytes = ground (
  arith,
  length-onto_first c (words_of bytes),
  words_of_pos bytes,
  onto_first_pos c (words_of bytes),
)

record Counted (s : Counts) (bytes : Bytes) (t : Counts) : Type 0 where
  newlines : t.newline_cnt ≡ s.newline_cnt + occurrences b'\n' bytes
  words : t.word_cnt ≡ s.word_cnt + begun s.in_word bytes
  all_bytes : t.byte_cnt ≡ s.byte_cnt + length bytes

-- No counter can reach 2^32 over so many bytes.
record HasRoom (s : Counts) (n : ℕ) : Type 0 where
  newlines : s.newline_cnt + n < 2 ^ 32
  words : s.word_cnt + n < 2 ^ 32
  all_bytes : s.byte_cnt + n < 2 ^ 32

count_all-Counted :
    (s : Counts) (bytes : Bytes) → HasRoom s (length bytes) → Counted s bytes (count_all s bytes)
unfolding count_all
count_all-Counted s [] room = ground arith
count_all-Counted s (c ∷ bytes) room =
    ground (arith, count_all-Counted (count_char s c) bytes, begun-cons s.in_word c bytes)

abbrev pub summary : Bytes → Summary
summary bytes = record {
  newlines = occurrences b'\n' bytes;
  words = length (words_of bytes);
  bytes = length bytes;
}

-- On an input of less than 2^31 bytes: `wc` prints one summary, with the number of newline bytes,
-- of longest runs of bytes that are no blank, tab or newline, and of bytes. If reading ended with
-- an error, it prints nothing and ends with the status OUTPUT_ERROR.
pub wc_lem :
    (stream : Input) (printed : List Summary)
    → length stream.bytes < 2 ^ 31
    → wc stream printed ≡ (
        if stream.error
        then (exits output_error, printed)
        else (ok tt, printed ++ summary stream.bytes ∷ []))
unfolding wc
wc_lem stream printed short = elim (Bool-cases stream.error) [
  | inl failed ↦ rw failed
  | inr fine ↦ rw fine (ap (λ t. (ok tt, printed ++ t ∷ [])) counts)
]
  where
    counted : Counted start stream.bytes (count_all start stream.bytes)
    counted = count_all-Counted start stream.bytes (omega arith)

    counts :
        record {
          newlines = (count_all start stream.bytes).newline_cnt;
          words = (count_all start stream.bytes).word_cnt;
          bytes = (count_all start stream.bytes).byte_cnt;
        }
        ≡ summary stream.bytes
    counts = ground (arith, counted)
