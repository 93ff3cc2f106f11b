-- ===== src/Grep/Lines.antt =====
-- What it means that lines contain a pattern, and how the selection of such lines can be computed
-- from within a line.
use ti.Base.{
  ℕ, ◌≤◌, ◌<◌, ◌≡◌, ◌≢◌, refl, sym, ap, ◌∙◌, Bool, true, false, ◌&&◌, ◌||◌, List, [], ◌∷◌, ◌++◌,
  append_assoc, append-nil, arith, Bytes, length, drop, ◌==◌, if◌then◌else◌, drop_all,
}
use ti.Grep.{rest_of_line}

abbrev pub onto_first : ℕ → List Bytes → List Bytes
onto_first c [] = (c ∷ []) ∷ []
onto_first c (line ∷ lines) = (c ∷ line) ∷ lines

-- The lines of a text, each with its newline; the last may have none.
unfoldable pub lines : Bytes → List Bytes
lines [] = []
lines (c ∷ text) =
    let others = lines text in if c == b'\n' then (c ∷ []) ∷ others else onto_first c others

unfoldable pub is_prefix : Bytes → Bytes → Bool
is_prefix [] text = true
is_prefix (p ∷ pattern) [] = false
is_prefix (p ∷ pattern) (c ∷ text) = c == p && is_prefix pattern text

unfoldable pub contains : Bytes → Bytes → Bool
unfolding is_prefix
contains pattern [] = is_prefix pattern []
contains pattern (c ∷ text) = is_prefix pattern (c ∷ text) || contains pattern text

unfoldable pub selected : Bytes → List Bytes → Bytes
unfolding contains
selected pattern [] = []
selected pattern (line ∷ others) =
    (if contains pattern line then line else []) ++ selected pattern others

-- The lines of the text that contain the pattern.
unfoldable pub matching : Bytes → Bytes → Bytes
unfolding lines selected
matching pattern text = selected pattern (lines text)

-- The first line of a text, and what follows.
abbrev pub line : Bytes → Bytes
line text = (rest_of_line text).0

abbrev pub rest : Bytes → Bytes
rest text = drop (length (line text)) text

-- The bytes are `char`s that are not negative, and no newlines.
abbrev pub IsClean : Bytes → Type 0
IsClean [] = Unit
IsClean (c ∷ text) = (c < 128) × (c ≢ b'\n') × IsClean text

lines-cons : (c : ℕ) (text : Bytes) → lines (c ∷ text) ≡ line (c ∷ text) ∷ lines (rest (c ∷ text))
unfolding lines rest_of_line
lines-cons c [] = ground arith
lines-cons c (d ∷ text) = ground (arith, lines-cons d text)

-- What is still to be printed in the middle of a line, which began with `front`, if the pattern is
-- only sought from here on.
unfoldable pub remaining : Bytes → Bytes → Bytes → Bytes
remaining pattern front text =
    (if contains pattern (line text) then front ++ line text else [])
    ++ matching pattern (rest text)

pub remaining_start :
    (pattern text : Bytes) → 1 ≤ length pattern → remaining pattern [] text ≡ matching pattern text
unfolding remaining matching selected contains is_prefix lines rest_of_line
remaining_start [] [] h = absurd (omega arith)
remaining_start (p ∷ pattern) [] h = refl
remaining_start pattern (c ∷ text) h = ap (selected pattern) (sym (lines-cons c text))

-- No newline among the bytes.
abbrev pub InLine : Bytes → Type 0
InLine [] = Unit
InLine (c ∷ text) = (c ≢ b'\n') × InLine text

pub IsClean-InLine : (text : Bytes) → IsClean text → InLine text
IsClean-InLine [] h = tt
IsClean-InLine (c ∷ text) (_, ne, h) = (ne, IsClean-InLine text h)

pub InLine-append : (a b : Bytes) → InLine a → InLine b → InLine (a ++ b)
InLine-append [] b h k = k
InLine-append (c ∷ a) b (ne, h) k = (ne, InLine-append a b h k)

pub line_step : (c : ℕ) (text : Bytes) → c ≢ b'\n' → line (c ∷ text) ≡ c ∷ line text
unfolding rest_of_line
line_step c text ne = ground arith

rest_step : (c : ℕ) (text : Bytes) → c ≢ b'\n' → rest (c ∷ text) ≡ rest text
rest_step c text ne = ap (λ l. drop (length l) (c ∷ text)) (line_step c text ne)

pub line-append : (front text : Bytes) → InLine front → line (front ++ text) ≡ front ++ line text
line-append [] text h = refl
line-append (c ∷ front) text (ne, h) =
    line_step c (front ++ text) ne ∙ ap (◌∷◌ c) (line-append front text h)

pub rest-append : (front text : Bytes) → InLine front → rest (front ++ text) ≡ rest text
rest-append [] text h = refl
rest-append (c ∷ front) text (ne, h) = rest_step c (front ++ text) ne ∙ rest-append front text h

pub line_whole : (text : Bytes) → InLine text → line text ≡ text
unfolding rest_of_line
line_whole text h = ap line (sym (append-nil text)) ∙ line-append text [] h ∙ append-nil text

is_prefix-line :
    (pattern text : Bytes)
    → IsClean pattern
    → is_prefix pattern (line text) ≡ is_prefix pattern text
unfolding is_prefix rest_of_line
is_prefix-line [] text h = refl
is_prefix-line (p ∷ pattern) [] h = refl
is_prefix-line (p ∷ pattern) (c ∷ text) (_, ne, h) = ground (arith, is_prefix-line pattern text h)

pub is_prefix-append : (pattern text : Bytes) → is_prefix pattern (pattern ++ text) ≡ true
unfolding is_prefix
is_prefix-append [] text = refl
is_prefix-append (p ∷ pattern) text = ground (arith, is_prefix-append pattern text)

pub is_prefix_mismatch :
    (m : Bytes) (q c : ℕ) (pattern text : Bytes)
    → (c == q) ≡ false
    → is_prefix (m ++ q ∷ pattern) (m ++ c ∷ text) ≡ false
unfolding is_prefix
is_prefix_mismatch [] q c pattern text h = rw h
is_prefix_mismatch (x ∷ m) q c pattern text h =
    ground (arith, is_prefix_mismatch m q c pattern text h)

is_prefix_short :
    (pattern text : Bytes) → length text < length pattern → is_prefix pattern text ≡ false
unfolding is_prefix
is_prefix_short [] text h = absurd (omega arith)
is_prefix_short (p ∷ pattern) [] h = refl
is_prefix_short (p ∷ pattern) (c ∷ text) h = ground (arith, is_prefix_short pattern text)

pub contains_short :
    (pattern text : Bytes) → length text < length pattern → contains pattern text ≡ false
unfolding contains
contains_short pattern [] h = is_prefix_short pattern [] h
contains_short pattern (c ∷ text) h =
    ground (arith, is_prefix_short pattern (c ∷ text), contains_short pattern text)

contains_prefix :
    (pattern text : Bytes) → is_prefix pattern text ≡ true → contains pattern text ≡ true
unfolding contains
contains_prefix pattern [] h = h
contains_prefix pattern (c ∷ text) h = rw h

module _ (pattern : Bytes) (some_pattern : 1 ≤ length pattern) (clean : IsClean pattern) where
  pub contains-line :
      (text : Bytes) → is_prefix pattern text ≡ true → contains pattern (line text) ≡ true
  contains-line text h = contains_prefix pattern (line text) (is_prefix-line pattern text clean ∙ h)

  -- A byte where the pattern does not start is passed over.
  pub remaining_step :
      (front text : Bytes) (c : ℕ)
      → c ≢ b'\n'
      → is_prefix pattern (c ∷ text) ≡ false
      → (contains pattern (line (c ∷ text)) ≡ contains pattern (line text))
        × (remaining pattern front (c ∷ text) ≡ remaining pattern (front ++ c ∷ []) text)
  unfolding remaining contains
  remaining_step front text c ne h = (
    same,
    ap (λ b. (if b then front ++ line (c ∷ text) else []) ++ matching pattern (rest (c ∷ text)))
          same
        ∙ ap
            (λ l.
              (if contains pattern (line text) then l else [])
              ++ matching pattern (rest (c ∷ text)))
            (ap (λ l. front ++ l) (line_step c text ne)
              ∙ sym (append_assoc front (c ∷ []) (line text)))
        ∙ ap
            (λ r.
              (if contains pattern (line text) then (front ++ c ∷ []) ++ line text else [])
              ++ matching pattern r)
            (rest_step c text ne),
  )
    where
      not_here : is_prefix pattern (c ∷ line text) ≡ false
      not_here =
          ap (is_prefix pattern) (sym (line_step c text ne))
          ∙ is_prefix-line pattern (c ∷ text) clean
          ∙ h

      same : contains pattern (line (c ∷ text)) ≡ contains pattern (line text)
      same = ap (contains pattern) (line_step c text ne) ∙ rw not_here

  pub remaining_newline :
      (front text : Bytes)
      → is_prefix pattern (b'\n' ∷ text) ≡ false
      → remaining pattern front (b'\n' ∷ text) ≡ matching pattern text
  unfolding remaining rest_of_line contains
  remaining_newline front text h =
      rw (is_prefix-line pattern (b'\n' ∷ text) clean ∙ h, is_prefix_short pattern [] some_pattern)

  pub remaining_found :
      (front text : Bytes)
      → is_prefix pattern text ≡ true
      → remaining pattern front text ≡ (front ++ line text) ++ matching pattern (rest text)
  unfolding remaining
  remaining_found front text h = rw (contains-line text h)

  pub remaining_without :
      (front text : Bytes)
      → contains pattern (line text) ≡ false
      → remaining pattern front text ≡ matching pattern (rest text)
  unfolding remaining
  remaining_without front text h = rw h

  -- The text ends before the pattern does.
  pub remaining_end :
      (front text : Bytes)
      → InLine text
      → length text < length pattern
      → remaining pattern front text ≡ []
  unfolding matching lines selected
  remaining_end front text in_line short =
      remaining_without front text
        (ap (contains pattern) (line_whole text in_line) ∙ contains_short pattern text short)
      ∙ ap (matching pattern) (
          ap (λ l. drop (length l) text) (line_whole text in_line)
          ∙ drop_all (length text) text (omega arith))
