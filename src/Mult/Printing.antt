-- ===== src/Mult/Printing.antt =====
-- Numbers as texts, and what `sscanf` makes of them.
use ti.Base.{
  ℕ, zero, suc, ◌+◌, ◌*◌, ◌/◌, ◌%◌, ◌^◌, ◌≤◌, ◌<◌, ◌≡◌, refl, sym, ap, subst, ◌∙◌, true, false, [],
  ◌∷◌, ◌++◌, append_assoc, some, arith, Bytes, codes, ltb, ltb→lt, length, ◌==◌, ◌⊎◌, Bool-cases,
  inl, inr,
}
use ti.Base.Text.{length-digits, digits, Lacks, Lacks-append}
use ti.Mult.Int.{ℤ, pos, negsuc, negate, in_int}
use ti.Mult.Scanning.{
  is_space, is_digit, skip_space, scan_digits, scan_number, negative, positive, scan_int,
  scan_second, scan_star, scan_first, scan_product,
}

-- The least number with one digit more than the fuel.
abbrev pub ten_to : ℕ → ℕ
ten_to zero = 1
ten_to (suc k) = 10 * ten_to k

-- A text that does not go on with a digit.
abbrev pub NoDigit : Bytes → Type 0
NoDigit [] = Unit
NoDigit (c ∷ text) = is_digit c ≡ false

abbrev pub decimal : ℤ → Bytes
decimal (pos n) = digits 10 n
decimal (negsuc n) = b'-' ∷ digits 10 (n + 1)

scan_digit :
    (n d : ℕ) (text : Bytes)
    → d < 10
    → scan_digits n ((d + b'0') ∷ text) ≡ scan_digits (n * 10 + d) text
unfolding scan_digits
scan_digit n d text h = ground arith

-- One digit, or more.
digits-cases :
    (fuel n : ℕ)
    → ((n < 10) × (digits (suc fuel) n ≡ (n + b'0') ∷ []))
      ⊎ (digits (suc fuel) n ≡ digits fuel (n / 10) ++ (n % 10 + b'0') ∷ [])
digits-cases fuel n = elim (Bool-cases (ltb n 10)) [
  | inl e ↦ inl (ltb→lt n 10 e, (rw e))
  | inr e ↦ inr (rw e)
]

scan_digits-digits :
    (fuel n : ℕ) (text : Bytes)
    → n < ten_to fuel
    → scan_digits 0 (digits fuel n ++ text) ≡ scan_digits n text
unfolding scan_digits
scan_digits-digits zero n text h = ap (λ m. scan_digits m text) (omega arith)
scan_digits-digits (suc fuel) n text h = elim (digits-cases fuel n) [
  | inl (small, e) ↦
      ap (λ t. scan_digits 0 (t ++ text)) e
      ∙ scan_digit 0 n text small
      ∙ ap (λ m. scan_digits m text) (omega arith)
  | inr e ↦
      ap (λ t. scan_digits 0 (t ++ text)) e
      ∙ ap (scan_digits 0) (append_assoc (digits fuel (n / 10)) ((n % 10 + b'0') ∷ []) text)
      ∙ scan_digits-digits fuel (n / 10) ((n % 10 + b'0') ∷ text) (omega (arith, h))
      ∙ scan_digit (n / 10) (n % 10) text (omega arith)
      ∙ ap (λ m. scan_digits m text) (omega arith)
]

scan_digits-NoDigit : (n : ℕ) (text : Bytes) → NoDigit text → scan_digits n text ≡ (n, text)
unfolding scan_digits
scan_digits-NoDigit n [] h = refl
scan_digits-NoDigit n (c ∷ text) h = rw h

-- The first byte of a printed number.
record StartsDigit (text : Bytes) : Type 0 where
  first : ℕ
  others : Bytes
  shape : text ≡ first ∷ others
  at_least : b'0' ≤ first
  at_most : first ≤ b'9'

digits-StartsDigit : (fuel n : ℕ) → StartsDigit (digits (suc fuel) n)
digits-StartsDigit zero n = elim (digits-cases zero n) [
  | inl (small, e) ↦ record {
    first = n + b'0';
    others = [];
    shape = e;
    at_least = omega arith;
    at_most = omega (arith, small);
  }
  | inr e ↦ record {
    first = n % 10 + b'0';
    others = [];
    shape = e;
    at_least = omega arith;
    at_most = omega arith;
  }
]
digits-StartsDigit (suc fuel) n = elim (digits-cases (suc fuel) n) [
  | inl (small, e) ↦ record {
    first = n + b'0';
    others = [];
    shape = e;
    at_least = omega arith;
    at_most = omega (arith, small);
  }
  | inr e ↦
      let front = digits-StartsDigit fuel (n / 10) in
      record {
        first = front.first;
        others = front.others ++ (n % 10 + b'0') ∷ [];
        shape = e ∙ ap (λ t. t ++ (n % 10 + b'0') ∷ []) front.shape;
        at_least = front.at_least;
        at_most = front.at_most;
      }
]

digit_first :
    (c : ℕ)
    → b'0' ≤ c
    → c ≤ b'9'
    → (is_digit c ≡ true) × (is_space c ≡ false) × ((c == b'-') ≡ false) × ((c == b'+') ≡ false)
digit_first c h k = (ground arith, ground arith, ground arith, ground arith)

-- A printed number is scanned, with what is behind it left.
scan_number-digits :
    (n : ℕ) (text : Bytes)
    → n < ten_to 10
    → NoDigit text
    → scan_number (digits 10 n ++ text) ≡ some (n, text)
unfolding scan_digits scan_number
scan_number-digits n text h k =
    let at = digits-StartsDigit 9 n in
    let (digit, _, _, _) = digit_first at.first at.at_least at.at_most in
    ap (λ t. scan_number (t ++ text)) at.shape
    ∙ (rw digit)
    ∙ ap (λ t. some (scan_digits 0 (t ++ text))) (sym at.shape)
    ∙ ap some (scan_digits-digits 10 n text h ∙ scan_digits-NoDigit n text k)

pub scan_int-decimal :
    (n : ℤ) (text : Bytes)
    → in_int n ≡ true
    → NoDigit text
    → scan_int (decimal n ++ text) ≡ some (n, text)
unfolding scan_int skip_space scan_number
scan_int-decimal (negsuc n) text h k =
    ap negative (scan_number-digits (n + 1) text (omega (arith, ltb→lt n (2 ^ 31) h)) k)
    ∙ ap (λ m. some (m, text)) (ap negate (let e : n + 1 ≡ suc n = omega arith in e))
scan_int-decimal (pos n) text h k =
    let at = digits-StartsDigit 9 n in
    let (digit, space, minus, plus) = digit_first at.first at.at_least at.at_most in
    ap (λ t. scan_int (t ++ text)) at.shape
    ∙ (rw (space, minus, plus))
    ∙ ap (λ t. positive (scan_number (t ++ text))) (sym at.shape)
    ∙ ap positive (scan_number-digits n text (omega (arith, ltb→lt n (2 ^ 31) h)) k)

skip_space-decimal : (n : ℤ) (text : Bytes) → skip_space (decimal n ++ text) ≡ decimal n ++ text
unfolding skip_space
skip_space-decimal (negsuc n) text = refl
skip_space-decimal (pos n) text =
    let at = digits-StartsDigit 9 n in
    let (_, space, _, _) = digit_first at.first at.at_least at.at_most in
    ap (λ t. skip_space (t ++ text)) at.shape ∙ (rw space) ∙ ap (λ t. t ++ text) (sym at.shape)

digits-Lacks : (c fuel n : ℕ) → c < b'0' → Lacks c (digits fuel n)
digits-Lacks c zero n h = tt
digits-Lacks c (suc fuel) n h = elim (digits-cases fuel n) [
  | inl (small, e) ↦ subst (Lacks c) (sym e) ((λ e. omega (arith, e, h)), tt)
  | inr e ↦ subst (Lacks c) (sym e) (
      Lacks-append c (digits fuel (n / 10)) ((n % 10 + b'0') ∷ []) (digits-Lacks c fuel (n / 10) h)
        ((λ e. omega (arith, e, h)), tt))
]

pub decimal-Lacks : (c : ℕ) (n : ℤ) → c < b'-' → Lacks c (decimal n)
decimal-Lacks c (pos n) h = digits-Lacks c 10 n (omega (arith, h))
decimal-Lacks c (negsuc n) h =
    ((λ e. omega (arith, e, h)), digits-Lacks c 10 (n + 1) (omega (arith, h)))

pub length-decimal : (n : ℤ) → length (decimal n) ≤ 11
length-decimal (pos n) = omega (arith, length-digits 10 n)
length-decimal (negsuc n) = omega (arith, length-digits 10 (n + 1))

-- A line with a product.
abbrev pub product_text : ℤ × ℤ → Bytes
product_text (m, n) = decimal m ++ (codes " * " ++ (decimal n ++ b'\n' ∷ []))

pub scan_product-product_text :
    (m n : ℤ) → in_int m ≡ true → in_int n ≡ true → scan_product (product_text (m, n)) ≡ some (m, n)
unfolding scan_product scan_star skip_space
scan_product-product_text m n h k =
    ap scan_first (scan_int-decimal m (codes " * " ++ (decimal n ++ b'\n' ∷ [])) h refl)
    ∙ ap (λ t. scan_second m (scan_int t)) (skip_space-decimal n (b'\n' ∷ []))
    ∙ ap (scan_second m) (scan_int-decimal n (b'\n' ∷ []) k refl)
