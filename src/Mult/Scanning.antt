-- ===== src/Mult/Scanning.antt =====
-- `sscanf` for "%d" and "%d * %d", on a string without its final 0.
use ti.Base.{
  ℕ, ◌+◌, ◌-◌, ◌*◌, Bool, ◌&&◌, ◌||◌, [], ◌∷◌, Option, none, some, Bytes, leb, ◌==◌, if◌then◌else◌,
}
use ti.Mult.Int.{ℤ, pos, negate}

abbrev pub is_space : ℕ → Bool
is_space c = c == b' ' || leb 9 c && leb c 13

abbrev pub is_digit : ℕ → Bool
is_digit c = leb b'0' c && leb c b'9'

unfoldable pub skip_space : Bytes → Bytes
skip_space [] = []
skip_space (c ∷ text) = if is_space c then skip_space text else c ∷ text

unfoldable pub scan_digits : ℕ → Bytes → ℕ × Bytes
scan_digits n [] = (n, [])
scan_digits n (c ∷ text) =
    if is_digit c then scan_digits (n * 10 + (c - b'0')) text else (n, c ∷ text)

-- At least one digit.
unfoldable pub scan_number : Bytes → Option (ℕ × Bytes)
unfolding scan_digits
scan_number [] = none
scan_number (c ∷ text) = if is_digit c then some (scan_digits 0 (c ∷ text)) else none

abbrev pub negative : Option (ℕ × Bytes) → Option (ℤ × Bytes)
negative none = none
negative (some (n, rest)) = some (negate n, rest)

abbrev pub positive : Option (ℕ × Bytes) → Option (ℤ × Bytes)
positive none = none
positive (some (n, rest)) = some (pos n, rest)

abbrev pub scan_signed : Bytes → Option (ℤ × Bytes)
scan_signed [] = none
scan_signed (c ∷ text) =
    if c == b'-'
    then negative (scan_number text)
    else if c == b'+'
    then positive (scan_number text)
    else positive (scan_number (c ∷ text))

-- A conversion "%d": the number, and what is left.
unfoldable pub scan_int : Bytes → Option (ℤ × Bytes)
unfolding skip_space scan_number
scan_int text = scan_signed (skip_space text)

abbrev pub scan_second : ℤ → Option (ℤ × Bytes) → Option (ℤ × ℤ)
scan_second fac1 none = none
scan_second fac1 (some (fac2, rest)) = some (fac1, fac2)

-- A blank in the format stands for any white space, or none.
unfoldable pub scan_star : ℤ → Bytes → Option (ℤ × ℤ)
unfolding scan_int skip_space
scan_star fac1 [] = none
scan_star fac1 (c ∷ text) =
    if c == b'*' then scan_second fac1 (scan_int (skip_space text)) else none

abbrev pub scan_first : Option (ℤ × Bytes) → Option (ℤ × ℤ)
scan_first none = none
scan_first (some (fac1, text)) = scan_star fac1 (skip_space text)

-- Both numbers, if `sscanf` gives 2.
unfoldable pub scan_product : Bytes → Option (ℤ × ℤ)
unfolding scan_int scan_star
scan_product text = scan_first (scan_int text)
