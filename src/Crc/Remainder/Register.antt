-- ===== src/Crc/Remainder/Register.antt =====
-- The division register as a linear machine over bits.
use Prim.Native.Nat.{bit_and, bit_or, bit_xor}
use ti.Base.{
  ℕ, zero, suc, ◌+◌, ◌*◌, ◌/◌, ◌%◌, ◌^◌, ◌<◌, ◌≡◌, refl, sym, ap, ap₂, ◌∙◌, List, [], ◌∷◌, ◌++◌,
  arith, ◌==◌, if◌then◌else◌, length,
}
use ti.Base.Bits.{
  bit_and_bit, bit_or_even, bit_xor-zero, zero-bit_xor, bit_xor_split, bit_xor-lt,
  bit_xor_swap_middle,
}
use ti.Crc.Remainder.{shift_in}
use ti.Crc.{poly}

abbrev pub IsBits : List ℕ → Type 0
IsBits [] = Unit
IsBits (b ∷ bits) = (b < 2) × IsBits bits

-- The register after a list of bits.
abbrev pub feed : ℕ → List ℕ → ℕ
feed div_reg [] = div_reg
feed div_reg (b ∷ bits) = feed (shift_in div_reg b) bits

high_bit : (r : ℕ) → r < 2 ^ 16 → bit_and r 0x8000 ≡ r / 2 ^ 15 * 2 ^ 15
high_bit r h =
    let e : r ≡ r / 2 ^ 15 * 2 ^ 15 + r % 2 ^ 15 = omega arith in
    ap (λ t. bit_and t 0x8000) e
    ∙ bit_and_bit 15 (r / 2 ^ 15) (r % 2 ^ 15) (omega arith)
    ∙ omega arith

shifted : (r b : ℕ) → b < 2 → bit_or (r * 2 % 2 ^ 16) b ≡ 2 * (r % 2 ^ 15) + b
shifted r b h =
    let e : r * 2 % 2 ^ 16 ≡ 2 * (r % 2 ^ 15) = omega arith in
    ap (λ t. bit_or t b) e ∙ bit_or_even (r % 2 ^ 15) b h

selected :
    (q s : ℕ) → q < 2 → (if q * 2 ^ 15 == 0x8000 then bit_xor s poly else s) ≡ bit_xor s (q * poly)
selected zero s h = sym (bit_xor-zero s)
selected (suc zero) s h = refl
selected (suc (suc q)) s h = absurd (omega arith)

-- One round as an equation: the lower bits move up, and the highest selects the polynomial.
pub shift_in_lem :
    (r b : ℕ)
    → r < 2 ^ 16
    → b < 2
    → shift_in r b ≡ bit_xor (2 * (r % 2 ^ 15) + b) (r / 2 ^ 15 * poly)
unfolding shift_in
shift_in_lem r b h i = rw (high_bit r h, shifted r b i) (selected (r / 2 ^ 15) _ (omega arith))

pub shift_in-lt : (r b : ℕ) → r < 2 ^ 16 → b < 2 → shift_in r b < 2 ^ 16
shift_in-lt r b h i = rw (shift_in_lem r b h i) (bit_xor-lt 16 _ _ (omega arith) (omega arith))

pub feed-lt : (r : ℕ) (bits : List ℕ) → r < 2 ^ 16 → IsBits bits → feed r bits < 2 ^ 16
feed-lt r [] h i = h
feed-lt r (b ∷ bits) h i = feed-lt (shift_in r b) bits (shift_in-lt r b h i.0) i.1

pub feed-append : (r : ℕ) (xs ys : List ℕ) → feed r (xs ++ ys) ≡ feed (feed r xs) ys
feed-append r [] ys = refl
feed-append r (x ∷ xs) ys = feed-append (shift_in r x) xs ys

-- The exclusive or of two registers, taken apart at the highest bit.
xor_parts :
    (r s : ℕ)
    → r < 2 ^ 16
    → s < 2 ^ 16
    → (bit_xor r s / 2 ^ 15 ≡ bit_xor (r / 2 ^ 15) (s / 2 ^ 15))
      × (bit_xor r s % 2 ^ 15 ≡ bit_xor (r % 2 ^ 15) (s % 2 ^ 15))
xor_parts r s h i =
    let parts =
      bit_xor_split 15 (r / 2 ^ 15) (s / 2 ^ 15) (r % 2 ^ 15) (s % 2 ^ 15) (omega arith)
        (omega arith) in
    let low = bit_xor-lt 15 (r % 2 ^ 15) (s % 2 ^ 15) (omega arith) (omega arith) in
    let e : r / 2 ^ 15 * 2 ^ 15 + r % 2 ^ 15 ≡ r = omega arith in
    let e' : s / 2 ^ 15 * 2 ^ 15 + s % 2 ^ 15 ≡ s = omega arith in
    let parts' = (sym (ap₂ bit_xor e e') ∙ parts) in
    (omega (arith, parts', low), omega (arith, parts', low))

xor_multiples : (p q : ℕ) → p < 2 → q < 2 → bit_xor p q * poly ≡ bit_xor (p * poly) (q * poly)
xor_multiples zero q h i = rw (zero-bit_xor q, zero-bit_xor (q * poly))
xor_multiples (suc zero) zero h i = refl
xor_multiples (suc zero) (suc zero) h i = refl
xor_multiples (suc zero) (suc (suc q)) h i = absurd (omega arith)
xor_multiples (suc (suc p)) q h i = absurd (omega arith)

pub xor_next :
    (l m b c : ℕ) → b < 2 → c < 2 → bit_xor (2 * l + b) (2 * m + c) ≡ 2 * bit_xor l m + bit_xor b c
xor_next l m b c h i =
    let d : (x y : ℕ) → 2 * x + y ≡ x * 2 ^ 1 + y = λ x y. omega arith in
    ap₂ bit_xor (d l b) (d m c) ∙ bit_xor_split 1 l m b c h i ∙ omega arith

-- The round is linear: over the exclusive or of registers of 16 bits and of bits, it gives that of
-- the results.
pub shift_in-bit_xor :
    (r s b c : ℕ)
    → r < 2 ^ 16
    → s < 2 ^ 16
    → b < 2
    → c < 2
    → shift_in (bit_xor r s) (bit_xor b c) ≡ bit_xor (shift_in r b) (shift_in s c)
shift_in-bit_xor r s b c h i j k =
    shift_in_lem (bit_xor r s) (bit_xor b c) (bit_xor-lt 16 r s h i) (bit_xor-lt 1 b c j k)
    ∙ rw
        (
          (xor_parts r s h i).0,
          (xor_parts r s h i).1,
          ← xor_next (r % 2 ^ 15) (s % 2 ^ 15) b c j k,
          xor_multiples (r / 2 ^ 15) (s / 2 ^ 15) (omega arith) (omega arith),
          shift_in_lem r b h j,
          shift_in_lem s c i k,
        )
        (bit_xor_swap_middle (2 * (r % 2 ^ 15) + b) (2 * (s % 2 ^ 15) + c) _ _)

-- Two messages of one length, combined bit by bit.
abbrev pub xor_bits : List ℕ → List ℕ → List ℕ
xor_bits [] cs = []
xor_bits (b ∷ bs) [] = []
xor_bits (b ∷ bs) (c ∷ cs) = bit_xor b c ∷ xor_bits bs cs

pub feed-xor_bits :
    (r s : ℕ) (bs cs : List ℕ)
    → r < 2 ^ 16
    → s < 2 ^ 16
    → IsBits bs
    → IsBits cs
    → length bs ≡ length cs
    → feed (bit_xor r s) (xor_bits bs cs) ≡ bit_xor (feed r bs) (feed s cs)
feed-xor_bits r s [] [] h i j k e = refl
feed-xor_bits r s [] (c ∷ cs) h i j k e = absurd (omega arith)
feed-xor_bits r s (b ∷ bs) [] h i j k e = absurd (omega arith)
feed-xor_bits r s (b ∷ bs) (c ∷ cs) h i j k e =
    ap (λ t. feed t (xor_bits bs cs)) (shift_in-bit_xor r s b c h i j.0 k.0)
    ∙ (feed-xor_bits (shift_in r b) (shift_in s c) bs cs (shift_in-lt r b h j.0)
        (shift_in-lt s c i k.0) j.1 k.1 (omega arith))
