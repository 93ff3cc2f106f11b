-- ===== src/Grep/Absent.antt =====
-- A pattern whose first character does not occur.
use ti.Base.{
  ℕ, zero, suc, ◌+◌, ◌*◌, ◌≤◌, ◌<◌, ◌≡◌, refl, ap, ◌∙◌, Bool, true, false, [], ◌∷◌, some, arith,
  Bytes, length, get_elem?, ◌==◌, if◌then◌else◌, Option-cases, inl, inr,
}
use ti.Base.Process.{Result, ok, exits, after as then_do, check}
use ti.Streams.{Input, input_error, char_to_int}
use ti.Grep.{Faults, Search, compare_char, search_round, search_loop, keep_printed, pseudo_grep}

get_elem?_bound : (bytes : Bytes) (n c : ℕ) → get_elem? bytes n ≡ some c → n < length bytes
get_elem?_bound [] n c h = absurd (ground arith)
get_elem?_bound (x ∷ bytes) zero c h = omega arith
get_elem?_bound (x ∷ bytes) (suc n) c h = let ih = get_elem?_bound bytes n c h in omega arith

-- No byte equals the character. As a `char` is signed, one from 128 on equals no byte below 256.
abbrev pub Absent : ℕ → Bytes → Type 0
Absent character bytes =
    (n c : ℕ) → get_elem? bytes n ≡ some c → (c == char_to_int character) ≡ false

abbrev searching : ℕ → ℕ → Bytes → Search
searching position from_linestart printed = record {
  position = position;
  from_linestart = from_linestart;
  matched_chars = 0;
  printed = printed;
}

abbrev pub at_end : Bool → Result (Unit {0})
at_end error = if error then exits input_error else ok tt

check_end :
    (error : Bool) (s : Search)
    → keep_printed (check error input_error s) ≡ (at_end error, s.printed)
check_end true s = refl
check_end false s = refl

module _ (f : Faults) (first : ℕ) (pattern : Bytes) (stream : Input)
    (absent : Absent first stream.bytes) where
  round_lem :
      (n c : ℕ) (s : Search)
      → get_elem? stream.bytes n ≡ some c
      → compare_char f (first ∷ pattern) stream c 0 (some first) s ≡ (ok tt, s)
  unfolding compare_char
  round_lem n c s here = rw (absent n c here)

  search_loop_lem :
      (fuel position from_linestart : ℕ) (printed : Bytes)
      → position ≤ length stream.bytes
      → length stream.bytes < position + fuel
      → keep_printed
          (search_loop f (first ∷ pattern) stream fuel (searching position from_linestart printed))
        ≡ (at_end stream.error, printed)
  unfolding search_loop search_round
  search_loop_lem zero position from_linestart printed inside enough = absurd (omega arith)
  search_loop_lem (suc fuel) position from_linestart printed inside enough =
      elim (Option-cases (get_elem? stream.bytes position)) [
        | inl end ↦
            ap
              (λ t. keep_printed (
                search_round f (first ∷ pattern) stream
                  (search_loop f (first ∷ pattern) stream fuel) t
                  (searching position from_linestart printed)))
              end
            ∙ check_end stream.error (searching position from_linestart printed)
        | inr (c, here) ↦
            ap
              (λ t. keep_printed (
                search_round f (first ∷ pattern) stream
                  (search_loop f (first ∷ pattern) stream fuel) t
                  (searching position from_linestart printed)))
              here
            ∙ ap (λ t. keep_printed (then_do (λ _. search_loop f (first ∷ pattern) stream fuel) t))
                (round_lem position c _ here)
            ∙ search_loop_lem fuel (position + 1) _ printed
                (omega (arith, get_elem?_bound stream.bytes position c here)) (omega arith)
      ]

-- If the first character of the pattern, as an `int`, equals no byte of the stream, `pseudo_grep`
-- comes to its end and prints nothing: it returns, or ends with INPUT_ERROR if reading failed.
pub pseudo_grep-Absent :
    (f : Faults) (first : ℕ) (pattern : Bytes) (stream : Input) (printed : Bytes)
    → Absent first stream.bytes
    → pseudo_grep f (first ∷ pattern) stream printed
      ≡ (if stream.error then exits input_error else ok tt, printed)
unfolding pseudo_grep
pseudo_grep-Absent f first pattern stream printed absent =
    search_loop_lem f first pattern stream absent
      (suc (length stream.bytes * (length (first ∷ pattern) + 1))) 0 0 printed (omega arith)
      (enough (length stream.bytes) (length pattern))
  where
    enough : (n k : ℕ) → n < 0 + suc (n * (suc k + 1))
    enough n k = omega arith
