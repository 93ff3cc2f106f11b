-- ===== src/Grep/Tracking.antt =====
-- The ways in which an attempt to match ends, and what `from_linestart` tells behind each.
use ti.Base.{
  ℕ, ◌+◌, ◌-◌, ◌%◌, ◌^◌, ◌≤◌, ◌<◌, ◌≡◌, ◌≢◌, refl, sym, ap, ap₂, subst, ◌∙◌, true, false, [], ◌∷◌,
  ◌++◌, append_assoc, arith, Bytes, length, drop, drop-append, length-drop, ◌==◌, ==_iff,
  Bool-cases, inl, inr, length-append,
}
use ti.Grep.Lines.{
  line, rest, is_prefix, contains, IsClean, InLine, InLine-append, remaining, remaining_start,
  line-append, line_step, is_prefix_mismatch, contains_short, remaining_step, remaining_newline,
}
use ti.Grep.Rounds.{counted}
use ti.Grep.{long_range, rest_of_line}

-- How a text compares with a pattern that is not empty.
pub data Attempt (pattern text : Bytes) : Type 0 where
  ended : (m : Bytes) (q : ℕ) (r : Bytes) → pattern ≡ m ++ q ∷ r → text ≡ m → Attempt pattern text
  whole :
      (m : Bytes) (q : ℕ) (after : Bytes)
      → pattern ≡ m ++ q ∷ []
      → text ≡ m ++ q ∷ after
      → Attempt pattern text
  missed :
      (m : Bytes) (q c : ℕ) (r after : Bytes)
      → pattern ≡ m ++ q ∷ r
      → text ≡ m ++ c ∷ after
      → (c == q) ≡ false
      → Attempt pattern text

longer :
    (x y : ℕ) (pattern text : Bytes)
    → y ≡ x
    → Attempt pattern text
    → Attempt (x ∷ pattern) (y ∷ text)
longer x y pattern text h (ended m q r e f) = ended (x ∷ m) q r (ap (◌∷◌ x) e) (ap₂ ◌∷◌ h f)
longer x y pattern text h (whole m q after e f) = whole (x ∷ m) q after (ap (◌∷◌ x) e) (ap₂ ◌∷◌ h f)
longer x y pattern text h (missed m q c r after e f d) =
    missed (x ∷ m) q c r after (ap (◌∷◌ x) e) (ap₂ ◌∷◌ h f) d

pub attempt : (p : ℕ) (pattern text : Bytes) → Attempt (p ∷ pattern) text
attempt p pattern [] = ended [] p pattern refl refl
attempt p [] (c ∷ text) = elim (Bool-cases (c == p)) [
  | inl same ↦ whole [] p text refl (ap (λ x. x ∷ text) ((==_iff c p).0 same))
  | inr other ↦ missed [] p c [] text refl refl other
]
attempt p (q ∷ pattern) (c ∷ text) = elim (Bool-cases (c == p)) [
  | inl same ↦ longer p c (q ∷ pattern) text ((==_iff c p).0 same) (attempt q pattern text)
  | inr other ↦ missed [] p c (q ∷ pattern) text refl refl other
]

pub IsClean-front : (m rest : Bytes) → IsClean (m ++ rest) → IsClean m × IsClean rest
IsClean-front [] rest h = (tt, h)
IsClean-front (x ∷ m) rest (a, b, h) = let (k, l) = IsClean-front m rest h in ((a, b, k), l)

-- What `from_linestart` tells in front of a text: the length of the line's part that was passed; or,
-- if the search is back in a line whose newline it has seen, the distance of that newline, negative.
pub data Tracks (bytes pattern : Bytes) (pos g : ℕ) (front text : Bytes) : Type 0 where
  behind :
      (start : ℕ)
      → start + length front ≡ pos
      → g ≡ length front
      → drop start bytes ≡ front ++ text
      → InLine front
      → Tracks bytes pattern pos g front text
  ahead :
      contains pattern (line text) ≡ false
      → (rest_of_line text).1 ≡ false
      → g + length (line text) ≡ long_range
      → Tracks bytes pattern pos g front text

pub line_pos : (c : ℕ) (text : Bytes) → 1 ≤ length (line (c ∷ text))
unfolding rest_of_line
line_pos c text = ground arith

pub ends : (text : Bytes) → InLine text → (rest_of_line text).1 ≡ true
unfolding rest_of_line
ends [] h = refl
ends (c ∷ text) (ne, h) = ground (arith, ends text h)

ends_step : (c : ℕ) (text : Bytes) → c ≢ b'\n' → (rest_of_line (c ∷ text)).1 ≡ (rest_of_line text).1
unfolding rest_of_line
ends_step c text ne = ground arith

unended_pos : (text : Bytes) → (rest_of_line text).1 ≡ false → 1 ≤ length (line text)
unfolding rest_of_line
unended_pos [] h = cc
unended_pos (c ∷ text) h = line_pos c text

newline_line : (m text : Bytes) → InLine m → line (m ++ b'\n' ∷ text) ≡ m ++ b'\n' ∷ []
unfolding rest_of_line
newline_line m text h = line-append m (b'\n' ∷ text) h

newline_end : (m text : Bytes) → InLine m → (rest_of_line (m ++ b'\n' ∷ text)).1 ≡ false
unfolding rest_of_line
newline_end [] text h = refl
newline_end (x ∷ m) text (ne, h) = ends_step x (m ++ b'\n' ∷ text) ne ∙ newline_end m text h

-- What is left of the text behind the byte where the attempt began.
abbrev pub tail_of : Bytes → ℕ → Bytes → Bytes
tail_of [] c text = text
tail_of (x ∷ m) c text = m ++ c ∷ text

module _ (pattern bytes : Bytes) (some_pattern : 1 ≤ length pattern) (clean : IsClean pattern)
    (small : length bytes < 2 ^ 62) where
  abbrev pub Tracked : ℕ → ℕ → Bytes → Bytes → Type 0
  Tracked = Tracks bytes pattern

  -- The counter does not wrap around within the characters that match.
  pub room :
      (pos g : ℕ) (front m : Bytes) (c : ℕ) (text : Bytes)
      → InLine m
      → Tracked pos g front (m ++ c ∷ text)
      → g + length m < long_range
  room pos g front m c text in_line (behind start at_pos g_is here _) = omega (
    arith,
    ap length here,
    length-drop start bytes,
    length-append front (m ++ c ∷ text),
    length-append m (c ∷ text),
  )
  room pos g front m c text in_line (ahead _ _ g_is) = omega (
    arith,
    g_is,
    ap length (line-append m (c ∷ text) in_line),
    length-append m (line (c ∷ text)),
    line_pos c text,
  )

  Tracks_step :
      (pos g : ℕ) (front : Bytes) (c : ℕ) (text : Bytes)
      → c ≢ b'\n'
      → is_prefix pattern (c ∷ text) ≡ false
      → Tracked pos g front (c ∷ text)
      → Tracked (pos + 1) ((g + 1) % long_range) (front ++ c ∷ []) text
  Tracks_step pos g front c text ne not_here (behind start at_pos g_is here in_line) =
      let front_length = length-append front (c ∷ []) in
      behind start (omega (arith, front_length))
        (omega (
          arith,
          front_length,
          ap length here,
          length-drop start bytes,
          length-append front (c ∷ text),
        ))
        (here ∙ sym (append_assoc front (c ∷ []) text))
        (InLine-append front (c ∷ []) in_line (ne, tt))
  Tracks_step pos g front c text ne not_here (ahead without ended_not g_is) =
      ahead (sym (remaining_step pattern some_pattern clean front text c ne not_here).0 ∙ without)
        (sym (ends_step c text ne) ∙ ended_not)
        (omega (
          arith,
          ap length (line_step c text ne),
          unended_pos text (sym (ends_step c text ne) ∙ ended_not),
        ))

  -- Where the search goes on after a mismatch.
  pub record Onward (pos g : ℕ) (front text text' : Bytes) : Type 0 where
    pub front' : Bytes
    pub tracks : Tracked (pos + 1) g front' text'
    pub same : remaining pattern front text ≡ remaining pattern front' text'

  Onward-newline :
      (pos g : ℕ) (front text : Bytes)
      → is_prefix pattern (b'\n' ∷ text) ≡ false
      → drop pos bytes ≡ b'\n' ∷ text
      → Onward pos
          ((counted b'\n' (g + 0) + (long_range - 0)) % long_range)
          front
          (b'\n' ∷ text)
          text
  Onward-newline pos g front text not_here here = record {
    front' = [];
    tracks = behind (pos + 1) (omega arith) refl (drop-append pos bytes (b'\n' ∷ []) text here) tt;
    same =
        remaining_newline pattern some_pattern clean front text not_here
        ∙ sym (remaining_start pattern text some_pattern);
  }

  Onward-back :
      (pos g : ℕ) (front : Bytes) (x : ℕ) (m : Bytes) (text : Bytes)
      → InLine (x ∷ m)
      → length (x ∷ m) < length pattern
      → length (x ∷ m) < long_range
      → is_prefix pattern (x ∷ m ++ b'\n' ∷ text) ≡ false
      → Onward pos
          ((counted b'\n' (g + length (x ∷ m)) + (long_range - length (x ∷ m))) % long_range)
          front
          (x ∷ m ++ b'\n' ∷ text)
          (m ++ b'\n' ∷ text)
  Onward-back pos g front x m text (ne, in_line) short bound not_here = record {
    front' = front ++ x ∷ [];
    tracks = ahead without (newline_end m text in_line) (omega (arith, lengths, bound));
    same = (remaining_step pattern some_pattern clean front (m ++ b'\n' ∷ text) x ne not_here).1;
  }
    where
      lengths : length (line (m ++ b'\n' ∷ text)) ≡ length m + 1
      lengths = ap length (newline_line m text in_line) ∙ length-append m (b'\n' ∷ [])

      without : contains pattern (line (m ++ b'\n' ∷ text)) ≡ false
      without = contains_short pattern (line (m ++ b'\n' ∷ text)) (omega (arith, lengths))

  Onward-step :
      (pos g : ℕ) (front : Bytes) (c k y : ℕ) (text : Bytes)
      → y ≢ b'\n'
      → c ≢ b'\n'
      → is_prefix pattern (y ∷ text) ≡ false
      → g + k < long_range
      → Tracked pos g front (y ∷ text)
      → Onward pos ((counted c (g + k) + (long_range - k)) % long_range) front (y ∷ text) text
  Onward-step pos g front c k y text y_ne c_ne not_here room tracks = record {
    front' = front ++ y ∷ [];
    tracks =
        subst (λ h. Tracked (pos + 1) h (front ++ y ∷ []) text) back
          (Tracks_step pos g front y text y_ne not_here tracks);
    same = (remaining_step pattern some_pattern clean front text y y_ne not_here).1;
  }
    where
      plain : counted c (g + k) ≡ (g + k + 1) % long_range
      plain = ground arith

      back : (g + 1) % long_range ≡ (counted c (g + k) + (long_range - k)) % long_range
      back = omega (arith, plain)

  pub Onward-missed :
      (pos g : ℕ) (front m : Bytes) (q c : ℕ) (r text : Bytes)
      → pattern ≡ m ++ q ∷ r
      → (c == q) ≡ false
      → InLine m
      → drop pos bytes ≡ m ++ c ∷ text
      → g + length m < long_range
      → Tracked pos g front (m ++ c ∷ text)
      → Onward pos
          ((counted c (g + length m) + (long_range - length m)) % long_range)
          front
          (m ++ c ∷ text)
          (tail_of m c text)
  Onward-missed pos g front [] q c r text e differ in_line here room tracks =
      elim (Bool-cases (c == b'\n')) [
        | inl newline ↦
            subst
              (λ d.
                is_prefix pattern (d ∷ text) ≡ false
                → drop pos bytes ≡ d ∷ text
                → Onward pos ((counted d (g + 0) + (long_range - 0)) % long_range) front (d ∷ text)
                    text)
              (sym ((==_iff c b'\n').0 newline)) (Onward-newline pos g front text) not_here here
        | inr other ↦
            let ne : c ≢ b'\n' = ground arith in
            Onward-step pos g front c 0 c text ne ne not_here room tracks
      ]
    where
      not_here : is_prefix pattern (c ∷ text) ≡ false
      not_here = ap (λ p. is_prefix p (c ∷ text)) e ∙ is_prefix_mismatch [] q c r text differ
  Onward-missed pos g front (x ∷ m) q c r text e differ (x_ne, in_line) here room tracks =
      elim (Bool-cases (c == b'\n')) [
        | inl newline ↦
            subst
              (λ d.
                is_prefix pattern (x ∷ m ++ d ∷ text) ≡ false
                → Onward pos
                    ((counted d (g + length (x ∷ m)) + (long_range - length (x ∷ m))) % long_range)
                    front (x ∷ m ++ d ∷ text) (m ++ d ∷ text))
              (sym ((==_iff c b'\n').0 newline))
              (Onward-back pos g front x m text (x_ne, in_line)
                (omega (arith, ap length e, length-append (x ∷ m) (q ∷ r))) (omega arith))
              not_here
        | inr other ↦
            let ne : c ≢ b'\n' = ground arith in
            Onward-step pos g front c (length (x ∷ m)) x (m ++ c ∷ text) x_ne ne not_here room
              tracks
      ]
    where
      not_here : is_prefix pattern (x ∷ m ++ c ∷ text) ≡ false
      not_here =
          ap (λ p. is_prefix p (x ∷ m ++ c ∷ text)) e ∙ is_prefix_mismatch (x ∷ m) q c r text differ
