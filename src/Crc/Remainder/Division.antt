-- ===== src/Crc/Remainder/Division.antt =====
-- The register holds the remainder of a division of polynomials over the field of two elements.
-- A polynomial is the number whose binary digits are its coefficients.
use Prim.Native.Nat.{bit_xor}
use ti.Base.{
  ℕ, zero, suc, ◌+◌, ◌*◌, ◌/◌, ◌%◌, ◌^◌, ◌<◌, ◌≡◌, refl, sym, ap, ap₂, ◌∙◌, List, [], ◌∷◌, arith,
}
use ti.Base.Bits.{
  bit_xor-zero, zero-bit_xor, bit_xor_comm, bit_xor_self, bit_xor_split, bit_xor-lt, bit_xor_assoc,
}
use ti.Crc.Remainder.Register.{IsBits, feed, shift_in_lem, shift_in-lt, xor_next}
use ti.Crc.Remainder.{shift_in}
use ti.Crc.{poly}

-- The polynomial of a message, from its highest coefficient on.
abbrev pub value : ℕ → List ℕ → ℕ
value acc [] = acc
value acc (b ∷ bits) = value (2 * acc + b) bits

-- The polynomial with its implicit first component.
abbrev pub generator : ℕ
generator = 2 ^ 16 + poly

-- The product of a polynomial, given by its coefficients, and the generator.
abbrev pub times_generator : ℕ → List ℕ → ℕ
times_generator acc [] = acc
times_generator acc (q ∷ qs) = times_generator (bit_xor (2 * acc) (q * generator)) qs

abbrev pub quotient : ℕ → List ℕ → List ℕ
quotient r [] = []
quotient r (b ∷ bits) = r / 2 ^ 15 ∷ quotient (shift_in r b) bits

undo_select :
    (q l b : ℕ)
    → q < 2
    → l < 2 ^ 15
    → b < 2
    → bit_xor (q * generator) (bit_xor (2 * l + b) (q * poly)) ≡ q * 2 ^ 16 + (2 * l + b)
undo_select zero l b h i j = zero-bit_xor _ ∙ bit_xor-zero _ ∙ omega arith
undo_select (suc zero) l b h i j =
    let x = 2 * l + b in
    ap (bit_xor (1 * generator))
      (let e : bit_xor x poly ≡ 0 * 2 ^ 16 + bit_xor x poly = omega arith in e)
    ∙ bit_xor_split 16 1 0 poly (bit_xor x poly) (omega arith)
        (bit_xor-lt 16 x poly (omega arith) (omega arith))
    ∙ ap (λ t. 65536 + t)
        (bit_xor_comm poly (bit_xor x poly)
          ∙ bit_xor_assoc x poly poly
          ∙ ap (bit_xor x) (bit_xor_self poly)
          ∙ bit_xor-zero x)
undo_select (suc (suc q)) l b h i j = absurd (omega arith)

-- One round keeps the dividend: what leaves the register goes into the quotient.
divide_round :
    (a r b : ℕ)
    → r < 2 ^ 16
    → b < 2
    → 2 * bit_xor a r + b ≡ bit_xor (bit_xor (2 * a) (r / 2 ^ 15 * generator)) (shift_in r b)
divide_round a r b h i =
    let q = r / 2 ^ 15 in
    let l = r % 2 ^ 15 in
    let halves : q * 2 ^ 16 + (2 * l + b) ≡ 2 * r + b = omega arith in
    omega (arith, ap (λ t. 2 * bit_xor a r + t) (sym (zero-bit_xor b)))
    ∙ sym (xor_next a r 0 b (omega arith) i)
    ∙ ap₂ bit_xor (let e : 2 * a + 0 ≡ 2 * a = omega arith in e)
        (sym (undo_select q l b (omega arith) (omega arith) i ∙ halves))
    ∙ sym (bit_xor_assoc (2 * a) (q * generator) (bit_xor (2 * l + b) (q * poly)))
    ∙ ap (bit_xor (bit_xor (2 * a) (q * generator))) (sym (shift_in_lem r b h i))

pub division :
    (a r : ℕ) (bits : List ℕ)
    → r < 2 ^ 16
    → IsBits bits
    → value (bit_xor a r) bits ≡ bit_xor (times_generator a (quotient r bits)) (feed r bits)
division a r [] h i = refl
division a r (b ∷ bits) h i =
    ap (λ t. value t bits) (divide_round a r b h i.0)
    ∙ division (bit_xor (2 * a) (r / 2 ^ 15 * generator)) (shift_in r b) bits
        (shift_in-lt r b h i.0) i.1
