-- ===== src/Grep/Rounds.antt =====
-- The rounds of the search on a stream that can be read and sought in: matches one after the other,
-- then a mismatch, a whole match, or the end.
use ti.Base.{
  ℕ, zero, suc, ◌+◌, ◌-◌, ◌%◌, ◌^◌, ◌≤◌, ◌<◌, ◌≡◌, ◌≢◌, refl, sym, ap, ap₂, lt→ltb, ◌∙◌, Bool, true,
  false, not, ◌&&◌, [], ◌∷◌, ◌++◌, append_assoc, some, arith, Bytes, length, drop, get_elem?,
  get_elem?-drop, get_elem?-drop_nil, get_elem?-length_append, drop-append, ltb, ◌==◌,
  if◌then◌else◌, Bool-cases, inl, inr, length-append,
}
use ti.Base.Process.{Result, ok, after as then_do, modify, check}
use ti.Streams.{Input, char_to_int, input_error}
use ti.Grep.Lines.{line, IsClean}
use ti.Grep.{
  Faults, Search, long_range, seeks, rest_of_line, print_line, seek_back, seek_target, found,
  mismatch, compare_char, search_round, search_loop,
}

-- No seek and no output fails.
abbrev pub fine : Bool → Faults
fine fclose = record { fseek = false; fputc = false; fclose = fclose }

abbrev pub readable : Bytes → Input
readable bytes = record { bytes = bytes; error = false }

abbrev pub at : ℕ → ℕ → ℕ → Bytes → Search
at position from_linestart matched_chars printed = record {
  position = position;
  from_linestart = from_linestart;
  matched_chars = matched_chars;
  printed = printed;
}

char_clean : (q : ℕ) → q < 128 → char_to_int q ≡ q
char_clean q h = ground arith

pub at_eq :
    (printed : Bytes) {p q g h k l : ℕ}
    → p ≡ q
    → g ≡ h
    → k ≡ l
    → at p g k printed ≡ at q h l printed
at_eq printed e e' e'' = cc

unwrapped : (k n : ℕ) → k ≡ 0 → n < long_range → n ≡ (n + (long_range - k)) % long_range
unwrapped k n e h = omega arith

-- `from_linestart` behind a byte.
abbrev pub counted : ℕ → ℕ → ℕ
counted c g = if c == b'\n' then 0 else (g + 1) % long_range

counted-lt : (c g : ℕ) → counted c g < long_range
counted-lt c g = ground arith

module _ (fclose : Bool) (pattern bytes : Bytes) where
  abbrev pub run : ℕ → Search → Result (Unit {0}) × Search
  run = search_loop (fine fclose) pattern (readable bytes)

  round_lem :
      (fuel pos g k c : ℕ) (text printed : Bytes)
      → drop pos bytes ≡ c ∷ text
      → run (suc fuel) (at pos g k printed)
        ≡ then_do
            (λ _. run fuel)
            (compare_char
              (fine fclose)
              pattern
              (readable bytes)
              c
              k
              (get_elem? (pattern ++ 0 ∷ []) k)
              (at (pos + 1) (counted c g) k printed))
  unfolding search_loop search_round
  round_lem fuel pos g k c text printed here =
      ap
        (λ o. search_round (fine fclose) pattern (readable bytes) (run fuel) o (at pos g k printed))
        (get_elem?-drop pos bytes here).0

  pub round_end :
      (fuel pos g k : ℕ) (printed : Bytes)
      → drop pos bytes ≡ []
      → run (suc fuel) (at pos g k printed) ≡ (ok tt, at pos g k printed)
  unfolding search_loop search_round
  round_end fuel pos g k printed here =
      ap
        (λ o. search_round (fine fclose) pattern (readable bytes) (run fuel) o (at pos g k printed))
        (get_elem?-drop_nil pos bytes here)

  next_char :
      (m : Bytes) (q : ℕ) (r : Bytes)
      → pattern ≡ m ++ q ∷ r
      → get_elem? (pattern ++ 0 ∷ []) (length m) ≡ some q
  next_char m q r e =
      ap (λ p. get_elem? (p ++ 0 ∷ []) (length m)) e
      ∙ ap (λ p. get_elem? p (length m)) (append_assoc m (q ∷ r) (0 ∷ []))
      ∙ get_elem?-length_append m q (r ++ 0 ∷ [])

  -- A round with the next character of the pattern.
  round_char :
      (fuel pos g c : ℕ) (m : Bytes) (q : ℕ) (r text printed : Bytes)
      → pattern ≡ m ++ q ∷ r
      → drop pos bytes ≡ c ∷ text
      → run (suc fuel) (at pos g (length m) printed)
        ≡ then_do
            (λ _. run fuel)
            (compare_char
              (fine fclose)
              pattern
              (readable bytes)
              c
              (length m)
              (some q)
              (at (pos + 1) (counted c g) (length m) printed))
  round_char fuel pos g c m q r text printed e here =
      round_lem fuel pos g (length m) c text printed here
      ∙ ap
          (λ o.
            then_do (λ _. run fuel)
              (compare_char (fine fclose) pattern (readable bytes) c (length m) o
                (at (pos + 1) (counted c g) (length m) printed)))
          (next_char m q r e)

  seek_back_lem :
      (s : Search) (offset target : ℕ)
      → (s.position + (long_range - offset)) % long_range ≡ target
      → target < 2 ^ 63
      → seek_back (fine fclose) offset s ≡ (ok tt, record s { position = target })
  unfolding seek_back
  seek_back_lem s offset target e h =
      ap
        (λ t.
          then_do (λ _. modify (λ s. record s { position = t }))
            (check (not (seeks (fine fclose) t)) input_error s))
        e
      ∙ rw (lt→ltb target (2 ^ 63) h)

  match_round :
      (fuel pos g : ℕ) (m : Bytes) (q : ℕ) (r text printed : Bytes)
      → pattern ≡ m ++ q ∷ r
      → 1 ≤ length r
      → drop pos bytes ≡ q ∷ text
      → q < 128
      → q ≢ b'\n'
      → g + 1 < long_range
      → run (suc fuel) (at pos g (length m) printed)
        ≡ run fuel (at (pos + 1) (g + 1) (length m + 1) printed)
  unfolding compare_char
  match_round fuel pos g m q r text printed e more_left here small ne room =
      round_char fuel pos g q m q r text printed e here
      ∙ rw (same, more) (ap (λ h. run fuel (at (pos + 1) h (length m + 1) printed)) (ground arith))
    where
      same : (q == char_to_int q) ≡ true
      same = ground arith

      more : (length m + 1 == length pattern) ≡ false
      more = ground (arith, ap length e, length-append m (q ∷ r))

  mismatch_lem :
      (s : Search) (target : ℕ)
      → (s.position + (long_range - s.matched_chars)) % long_range ≡ target
      → target < 2 ^ 63
      → mismatch (fine fclose) s ≡ (
        ok tt,
        at target ((s.from_linestart + (long_range - s.matched_chars)) % long_range) 0 s.printed,
      )
  unfolding mismatch
  mismatch_lem s target e h = ap (then_do _) (seek_back_lem s s.matched_chars target e h)

  pub mismatch_round :
      (fuel pos g c : ℕ) (m : Bytes) (q : ℕ) (r text printed : Bytes)
      → pattern ≡ m ++ q ∷ r
      → drop pos bytes ≡ c ∷ text
      → q < 128
      → (c == q) ≡ false
      → length m ≤ pos
      → pos + 1 < 2 ^ 63
      → run (suc fuel) (at pos g (length m) printed)
        ≡ run fuel (
            at
              (pos + 1 - length m)
              ((counted c g + (long_range - length m)) % long_range)
              0
              printed)
  unfolding compare_char
  mismatch_round fuel pos g c m q r text printed e here small differ inside room =
      round_char fuel pos g c m q r text printed e here
      ∙ rw other (elim (Bool-cases (ltb 0 (length m))) [
        | inl back ↦ rw back (
            ap (then_do (λ _. run fuel)) (
              mismatch_lem (at (pos + 1) (counted c g) (length m) printed) (pos + 1 - length m)
                (omega arith) (omega arith)))
        | inr stay ↦ rw stay (
            let none_yet : length m ≡ 0 = ground arith in
            ap (run fuel) (
              at_eq printed {p = pos + 1} {q = pos + 1 - length m} (omega arith)
                (unwrapped (length m) (counted c g) none_yet (counted-lt c g)) none_yet))
      ])
    where
      other : (c == char_to_int q) ≡ false
      other = ap (λ x. c == x) (char_clean q small) ∙ differ

  -- The characters `m` match, behind `front`.
  pub matching_rounds :
      (m front : Bytes) (q : ℕ) (r : Bytes) (fuel fuel' pos g : ℕ) (text printed : Bytes)
      → pattern ≡ front ++ (m ++ q ∷ r)
      → drop pos bytes ≡ m ++ text
      → IsClean m
      → g + length m < long_range
      → fuel ≡ length m + fuel'
      → run fuel (at pos g (length front) printed)
        ≡ run fuel' (at (pos + length m) (g + length m) (length front + length m) printed)
  matching_rounds [] front q r fuel fuel' pos g text printed e here clean room enough =
      ap₂ run enough' (at_eq printed (omega arith) (omega arith) (omega arith))
    where
      enough' : fuel ≡ fuel'
      enough' = omega arith
  matching_rounds (x ∷ m) front q r zero fuel' pos g text printed e here clean room enough =
      absurd (omega arith)
  matching_rounds (x ∷ m) front q r (suc fuel) fuel' pos g text printed e here (small, ne, clean)
        room enough =
      match_round fuel pos g front x (m ++ q ∷ r) (m ++ text) printed e
        (omega (arith, length-append m (q ∷ r))) here small ne (omega arith)
      ∙ ap (run fuel) (at_eq printed refl refl (sym one_more))
      ∙ matching_rounds m (front ++ x ∷ []) q r fuel fuel' (pos + 1) (g + 1) text printed
          (e ∙ sym (append_assoc front (x ∷ []) (m ++ q ∷ r)))
          (drop-append pos bytes (x ∷ []) (m ++ text) here) clean (omega arith) (omega arith)
      ∙ ap (run fuel') (at_eq printed (omega arith) (omega arith) (omega (arith, one_more)))
    where
      one_more : length (front ++ x ∷ []) ≡ length front + 1
      one_more = length-append front (x ∷ [])

  print_line_lem :
      (s : Search)
      → print_line (fine fclose) (readable bytes) s ≡ (
        ok tt,
        record s {
          position = s.position + length (line (drop s.position bytes));
          printed = s.printed ++ line (drop s.position bytes);
        },
      )
  unfolding print_line
  print_line_lem s = no_error (rest_of_line (drop s.position bytes)).1 _
    where
      no_error : (end : Bool) (t : Search) → check (end && false) input_error t ≡ (ok tt, t)
      no_error true t = refl
      no_error false t = refl

  found_lem :
      (s : Search) (start : ℕ)
      → seek_target s.from_linestart s ≡ start
      → start < 2 ^ 63
      → found (fine fclose) (readable bytes) s ≡ (
        ok tt,
        at (start + length (line (drop start bytes))) 0 0 (s.printed ++ line (drop start bytes)),
      )
  unfolding found
  found_lem s start e h = rw seeks_there (
      ap (then_do _) (seek_back_lem s s.from_linestart start e h)
      ∙ ap (then_do _) (print_line_lem (record s { position = start })))
    where
      seeks_there : not (seeks (fine fclose) (seek_target s.from_linestart s)) ≡ false
      seeks_there = ap (λ t. not (seeks (fine fclose) t)) e ∙ rw (lt→ltb start (2 ^ 63) h)

  -- The last character of the pattern.
  pub found_round :
      (fuel pos g start : ℕ) (m : Bytes) (q : ℕ) (text printed : Bytes)
      → pattern ≡ m ++ q ∷ []
      → drop pos bytes ≡ q ∷ text
      → q < 128
      → q ≢ b'\n'
      → g + 1 < long_range
      → start + (g + 1) ≡ pos + 1
      → pos + 1 < 2 ^ 63
      → run (suc fuel) (at pos g (length m) printed)
        ≡ run fuel
            (at (start + length (line (drop start bytes))) 0 0 (printed ++ line (drop start bytes)))
  unfolding compare_char
  found_round fuel pos g start m q text printed e here small ne room back inside =
      round_char fuel pos g q m q [] text printed e here
      ∙ rw (same, all)
          (ap (then_do (λ _. run fuel)) (
            found_lem (at (pos + 1) (counted q g) (length m + 1) printed) start target
              (omega arith)))
    where
      same : (q == char_to_int q) ≡ true
      same = ground arith

      all : (length m + 1 == length pattern) ≡ true
      all = ground (arith, ap length e, length-append m (q ∷ []))

      one_on : counted q g ≡ g + 1
      one_on = ground arith

      target : (pos + 1 + (long_range - counted q g)) % long_range ≡ start
      target = ap (λ h. (pos + 1 + (long_range - h)) % long_range) one_on ∙ omega arith
