-- ===== src/Grep/Selection.antt =====
-- What the search prints, line by line.
use ti.Base.{
  ℕ, zero, suc, ◌+◌, ◌-◌, ◌*◌, ◌^◌, ◌≤◌, ◌<◌, ◌≡◌, refl, sym, ap, ap₂, subst, ◌∙◌, Bool, true,
  false, [], ◌∷◌, ◌++◌, append_assoc, append-nil, arith, Bytes, length, drop, drop-append,
  drop-drop, length-drop, length-append, ◌==◌,
}
use ti.Base.Process.{ok}
use ti.Grep.Lines.{
  line, rest, is_prefix, matching, IsClean, InLine, IsClean-InLine, remaining, remaining_start,
  line-append, is_prefix-append, contains-line, remaining_found, remaining_end,
}
use ti.Grep.Rounds.{
  fine, readable, at, at_eq, run, round_end, matching_rounds, mismatch_round, found_round,
}
use ti.Grep.Tracking.{
  Attempt, ended, whole, missed, attempt, behind, ahead, Tracked, IsClean-front, ends, line_pos,
  room, Onward-missed, tail_of,
}
use ti.Grep.{long_range, keep_printed, pseudo_grep}

mul_step : (r t k : ℕ) → r + 1 ≤ t → r * k + k ≤ t * k
mul_step r t k h = grind arith

some_line : (m : Bytes) (q : ℕ) (after : Bytes) → 1 ≤ length (line (m ++ q ∷ after))
some_line [] q after = line_pos q after
some_line (x ∷ m) q after = line_pos x (m ++ q ∷ after)

fewer :
    (m : Bytes) (q : ℕ) (after : Bytes)
    → length (rest (m ++ q ∷ after)) + 1 ≤ length (m ++ q ∷ after)
fewer m q after = omega (
  arith,
  length-drop (length (line (m ++ q ∷ after))) (m ++ q ∷ after),
  some_line m q after,
  length-append m (q ∷ after),
)

Attempt-nonempty : (pattern text : Bytes) → 1 ≤ length pattern → Attempt pattern text
Attempt-nonempty [] text h = absurd (omega arith)
Attempt-nonempty (p ∷ pattern) text h = attempt p pattern text

length-tail_of :
    (m : Bytes) (c : ℕ) (after : Bytes) → length (m ++ c ∷ after) ≡ suc (length (tail_of m c after))
length-tail_of [] c after = refl
length-tail_of (x ∷ m) c after = refl

drop-tail_of :
    (m : Bytes) (c : ℕ) (after bytes : Bytes) (pos : ℕ)
    → drop pos bytes ≡ m ++ c ∷ after
    → drop (pos + 1) bytes ≡ tail_of m c after
drop-tail_of [] c after bytes pos here = drop-append pos bytes (c ∷ []) after here
drop-tail_of (x ∷ m) c after bytes pos here = drop-append pos bytes (x ∷ []) (m ++ c ∷ after) here

module _ (fclose : Bool) (pattern bytes : Bytes) (some_pattern : 1 ≤ length pattern)
    (clean : IsClean pattern) (small : length bytes < 2 ^ 62) where
  abbrev HasFuel : Bytes → ℕ → Type 0
  HasFuel text fuel = length text * suc (length pattern) < fuel

  -- The search, from a byte on where no character has matched, prints what remains.
  abbrev Prints : Bytes → Type 0
  Prints text =
      (pos g fuel : ℕ) (front printed : Bytes)
      → drop pos bytes ≡ text
      → Tracked pattern bytes some_pattern clean small pos g front text
      → HasFuel text fuel
      → keep_printed (run fclose pattern bytes fuel (at pos g 0 printed))
        ≡ (ok tt, printed ++ remaining pattern front text)

  ended_Prints : (m : Bytes) (q : ℕ) (r : Bytes) → pattern ≡ m ++ q ∷ r → Prints m
  ended_Prints m q r e pos g fuel front printed here tracks enough =
      ap keep_printed (
        matching_rounds fclose pattern bytes m [] q r fuel (suc left) pos g [] printed e
          (here ∙ sym (append-nil m)) m_clean (no_wrap tracks) fuel_is
        ∙ round_end fclose pattern bytes left (pos + length m) (g + length m) (0 + length m) printed
            (drop-append pos bytes m [] (here ∙ sym (append-nil m))))
      ∙ ap (λ t. (ok tt, t)) (sym (append-nil printed))
      ∙ ap (λ t. (ok tt, printed ++ t))
          (sym
            (remaining_end pattern some_pattern clean front m (IsClean-InLine m m_clean) shorter))
    where
      m_clean : IsClean m
      m_clean = (IsClean-front m (q ∷ r) (subst IsClean e clean)).0

      shorter : length m < length pattern
      shorter = omega (arith, ap length e, length-append m (q ∷ r))

      left : ℕ
      left = fuel - length m - 1

      fuel_is : fuel ≡ length m + suc left
      fuel_is = omega arith

      no_wrap :
          Tracked pattern bytes some_pattern clean small pos g front m → g + length m < long_range
      no_wrap (behind start at_pos g_is there _) =
          omega (arith, ap length there, length-drop start bytes, length-append front m)
      no_wrap (ahead _ not_ended _) =
          absurd (differ (sym not_ended ∙ ends m (IsClean-InLine m m_clean)))
        where
          differ : ◌≡◌ {A = Bool} false true → ⊥
          differ h = cc

  missed_Prints :
      (m : Bytes) (q c : ℕ) (r after : Bytes)
      → pattern ≡ m ++ q ∷ r
      → (c == q) ≡ false
      → Prints (tail_of m c after)
      → Prints (m ++ c ∷ after)
  missed_Prints m q c r after e differ ih pos g fuel front printed here tracks enough =
      let goes_on =
        Onward-missed pattern bytes some_pattern clean small pos g front m q c r after e differ
          in_line here g_room tracks in
      ap keep_printed (
        matching_rounds fclose pattern bytes m [] q r fuel (suc left) pos g (c ∷ after) printed e
          here m_clean g_room fuel_is
        ∙ ap (run fclose pattern bytes (suc left)) (at_eq printed refl refl (omega arith))
        ∙ mismatch_round fclose pattern bytes left (pos + length m) (g + length m) c m q r after
            printed e (drop-append pos bytes m (c ∷ after) here) q_clean.0 differ (omega arith)
            inside
        ∙ ap (run fclose pattern bytes left) (at_eq printed (omega arith) refl refl))
      ∙ ih (pos + 1) _ left goes_on.front' printed (drop-tail_of m c after bytes pos here)
          goes_on.tracks less
      ∙ ap (λ t. (ok tt, printed ++ t)) (sym goes_on.same)
    where
      m_clean : IsClean m
      m_clean = (IsClean-front m (q ∷ r) (subst IsClean e clean)).0

      q_clean : IsClean (q ∷ r)
      q_clean = (IsClean-front m (q ∷ r) (subst IsClean e clean)).1

      in_line : InLine m
      in_line = IsClean-InLine m m_clean

      g_room : g + length m < long_range
      g_room = room pattern bytes some_pattern clean small pos g front m c after in_line tracks

      left : ℕ
      left = fuel - length m - 1

      shorter : length m < length pattern
      shorter = omega (arith, ap length e, length-append m (q ∷ r))

      fuel_is : fuel ≡ length m + suc left
      fuel_is = omega (arith, length-append m (c ∷ after))

      inside : pos + length m + 1 < 2 ^ 63
      inside = omega (arith, ap length here, length-drop pos bytes, length-append m (c ∷ after))

      less : length (tail_of m c after) * suc (length pattern) < left
      less = omega (
        arith,
        fuel_is,
        shorter,
        ap (λ (t : ℕ). t * suc (length pattern)) (length-tail_of m c after),
      )

  whole_Prints :
      (m : Bytes) (q : ℕ) (after : Bytes)
      → pattern ≡ m ++ q ∷ []
      → Prints (rest (m ++ q ∷ after))
      → Prints (m ++ q ∷ after)
  whole_Prints m q after e ih pos g fuel front printed here tracks enough = elim tracks [
    | ahead without _ _ ↦
        absurd (differ (sym without ∙ contains-line pattern some_pattern clean text is_here))
    | behind start at_pos g_is there in_front ↦
        ap keep_printed (
          matching_rounds fclose pattern bytes m [] q [] fuel (suc left) pos g (q ∷ after) printed e
            here cleans.0 g_room fuel_is
          ∙ ap (run fclose pattern bytes (suc left)) (at_eq printed refl refl (omega arith))
          ∙ found_round fclose pattern bytes left (pos + length m) (g + length m) start m q after
              printed e (drop-append pos bytes m (q ∷ after) here) cleans.1.0 cleans.1.1
              (omega (arith, inside)) (omega arith) (omega (arith, inside))
          ∙ ap (λ l. run fclose pattern bytes left (at (start + length l) 0 0 (printed ++ l)))
              (ap line there ∙ line-append front text in_front)
          ∙ ap (run fclose pattern bytes left) (
              at_eq (printed ++ (front ++ line text))
                (omega (arith, length-append front (line text))) refl refl))
        ∙ ih (pos + length (line text)) 0 left [] (printed ++ (front ++ line text)) behind_line
            (behind (pos + length (line text)) (omega arith) refl behind_line tt) less
        ∙ ap (λ t. (ok tt, t))
            (ap (λ t. (printed ++ (front ++ line text)) ++ t)
                (remaining_start pattern (rest text) some_pattern)
              ∙ append_assoc printed (front ++ line text) (matching pattern (rest text))
              ∙ ap (λ t. printed ++ t)
                  (sym (remaining_found pattern some_pattern clean front text is_here)))
  ]
    where
      text : Bytes
      text = m ++ q ∷ after

      differ : ◌≡◌ {A = Bool} false true → ⊥
      differ h = cc

      is_here : is_prefix pattern text ≡ true
      is_here =
          ap₂ is_prefix e (sym (append_assoc m (q ∷ []) after))
          ∙ is_prefix-append (m ++ q ∷ []) after

      cleans : IsClean m × IsClean (q ∷ [])
      cleans = IsClean-front m (q ∷ []) (subst IsClean e clean)

      g_room : g + length m < long_range
      g_room =
          room pattern bytes some_pattern clean small pos g front m q after
            (IsClean-InLine m cleans.0) tracks

      left : ℕ
      left = fuel - length m - 1

      fuel_is : fuel ≡ length m + suc left
      fuel_is = omega (arith, length-append m (q ∷ after))

      inside : pos + length m + 1 ≤ length bytes
      inside = omega (arith, ap length here, length-drop pos bytes, length-append m (q ∷ after))

      behind_line : drop (pos + length (line text)) bytes ≡ rest text
      behind_line =
          sym (drop-drop pos (length (line text)) bytes) ∙ ap (drop (length (line text))) here

      less : length (rest text) * suc (length pattern) < left
      less = omega (
        arith,
        mul_step (length (rest text)) (length text) (suc (length pattern)) (fewer m q after),
        fuel_is,
        ap length e,
        length-append m (q ∷ []),
      )

  Prints-all : (n : ℕ) (text : Bytes) → length text < n → Prints text
  Prints-all zero text h = absurd (omega arith)
  Prints-all (suc n) text h = elim (Attempt-nonempty pattern text some_pattern) [
    | ended m q r e f ↦ subst Prints (sym f) (ended_Prints m q r e)
    | whole m q after e f ↦
        let shorter : length (rest (m ++ q ∷ after)) < n =
          omega (arith, fewer m q after, ap length f) in
        subst Prints (sym f)
          (whole_Prints m q after e (Prints-all n (rest (m ++ q ∷ after)) shorter))
    | missed m q c r after e f differ ↦
        let shorter : length (tail_of m c after) < n =
          omega (arith, length-tail_of m c after, ap length f) in
        subst Prints (sym f)
          (missed_Prints m q c r after e differ (Prints-all n (tail_of m c after) shorter))
  ]

-- On a stream of less than 2^62 bytes that can be read to its end, with no seek and no output
-- failing, and for a pattern that is not empty, of bytes below 128 that are no newlines:
-- `pseudo_grep` returns, and has printed just the lines that contain the pattern, in their order,
-- each once and with its newline, if it has one.
pub pseudo_grep_lem :
    (fclose : Bool) (pattern bytes printed : Bytes)
    → 1 ≤ length pattern
    → IsClean pattern
    → length bytes < 2 ^ 62
    → pseudo_grep (fine fclose) pattern (readable bytes) printed
      ≡ (ok tt, printed ++ matching pattern bytes)
unfolding pseudo_grep
pseudo_grep_lem fclose pattern bytes printed some_pattern clean small =
    Prints-all fclose pattern bytes some_pattern clean small (suc (length bytes)) bytes
      (omega arith) 0 0 (suc (length bytes * (length pattern + 1))) [] printed refl
      (behind 0 refl refl refl tt) (omega arith)
    ∙ ap (λ t. (ok tt, printed ++ t)) (remaining_start pattern bytes some_pattern)
