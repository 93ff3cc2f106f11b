-- ===== src/Crc/Remainder/Detection.antt =====
-- What the remainder detects, and the checksum that makes it vanish.
use Prim.Native.Nat.{bit_xor}
use native.Mathlib.Nat.{pow-suc, pow-le-pow_right}
use ti.Base.{
  ℕ, zero, suc, ◌+◌, ◌*◌, ◌/◌, ◌%◌, ◌^◌, ◌≤◌, ◌<◌, ◌≡◌, ◌≢◌, refl, sym, ap, ap₂, ◌∙◌, List, [], ◌∷◌,
  ◌++◌, arith, length, replicate, length-append, length-replicate,
}
use ti.Base.Bits.{bit_xor-zero, zero-bit_xor, bit_xor_self, bit_xor_low}
use ti.Crc.Remainder.Register.{
  IsBits, feed, feed-lt, feed-append, xor_bits, feed-xor_bits, shift_in_lem, shift_in-lt,
}
use ti.Crc.Remainder.Division.{value}
use ti.Crc.Remainder.{shift_in}
use ti.Crc.{poly}

IsBits-replicate : (n : ℕ) → IsBits (replicate n 0)
IsBits-replicate zero = tt
IsBits-replicate (suc n) = (omega arith, IsBits-replicate n)

pub IsBits-append : (xs ys : List ℕ) → IsBits xs → IsBits ys → IsBits (xs ++ ys)
IsBits-append [] ys h i = i
IsBits-append (x ∷ xs) ys h i = (h.0, IsBits-append xs ys h.1 i)

feed-replicate : (n : ℕ) → feed 0 (replicate n 0) ≡ 0
unfolding shift_in
feed-replicate zero = refl
feed-replicate (suc n) = feed-replicate n

-- With room in the register for all of the bits, nothing is reduced.
shift_in_small : (r b : ℕ) → r < 2 ^ 15 → b < 2 → shift_in r b ≡ 2 * r + b
shift_in_small r b h i =
    let none_high : r / 2 ^ 15 * poly ≡ 0 = omega arith in
    shift_in_lem r b (omega arith) i
    ∙ ap (bit_xor (2 * (r % 2 ^ 15) + b)) none_high
    ∙ bit_xor-zero _
    ∙ omega arith

feed_small :
    (n r : ℕ) (bits : List ℕ)
    → r < 2 ^ n
    → n + length bits ≤ 16
    → IsBits bits
    → feed r bits ≡ value r bits
feed_small n r [] h i j = refl
feed_small n r (b ∷ bits) h i j =
    let room : 2 ^ n ≤ 2 ^ 15 = pow-le-pow_right (omega arith) {i = n} {j = 15} (omega arith) in
    let e = shift_in_small r b (omega arith) j.0 in
    ap (λ t. feed t bits) e
    ∙ feed_small (suc n) (2 * r + b) bits (omega (arith, pow-suc 2 n)) (omega arith) j.1

value-eq-zero :
    (m : ℕ) (bits : List ℕ) → value m bits ≡ 0 → (m ≡ 0) × (bits ≡ replicate (length bits) 0)
value-eq-zero m [] h = (h, refl)
value-eq-zero m (b ∷ bits) h =
    let (e, f) = value-eq-zero (2 * m + b) bits h in (omega arith, ap₂ ◌∷◌ (omega arith) f)

shift_in-ne-zero : (r : ℕ) → r < 2 ^ 16 → r ≢ 0 → shift_in r 0 ≢ 0
shift_in-ne-zero r h ne e =
    let p : bit_xor (2 * (r % 2 ^ 15) + 0) (r / 2 ^ 15 * poly) ≡ 0 =
      sym (shift_in_lem r 0 h (omega arith)) ∙ e in
    go (r / 2 ^ 15) (omega arith) refl p
  where
    go : (q : ℕ) → q < 2 → r / 2 ^ 15 ≡ q → bit_xor (2 * (r % 2 ^ 15) + 0) (q * poly) ≡ 0 → ⊥
    go zero i eq p = ne (omega (arith, p, bit_xor-zero (2 * (r % 2 ^ 15) + 0)))
    go (suc q) i eq p = absurd (omega (arith, bit_xor_low (2 * (r % 2 ^ 15) + 0) (suc q * poly)))

-- Zeros behind do not hide what is in the register.
feed_zeros-ne-zero : (r n : ℕ) → r < 2 ^ 16 → r ≢ 0 → feed r (replicate n 0) ≢ 0
feed_zeros-ne-zero r zero h ne = ne
feed_zeros-ne-zero r (suc n) h ne =
    feed_zeros-ne-zero (shift_in r 0) n (shift_in-lt r 0 h (omega arith)) (shift_in-ne-zero r h ne)

-- An error confined to a window of 16 bits.
abbrev pub burst : ℕ → List ℕ → ℕ → List ℕ
burst before window behind = replicate before 0 ++ (window ++ replicate behind 0)

burst-IsBits :
    (before : ℕ) (window : List ℕ) (behind : ℕ)
    → IsBits window
    → IsBits (burst before window behind)
burst-IsBits before window behind i =
    IsBits-append (replicate before 0) _ (IsBits-replicate before)
      (IsBits-append window _ i (IsBits-replicate behind))

length-burst :
    (before : ℕ) (window : List ℕ) (behind : ℕ)
    → length (burst before window behind) ≡ before + length window + behind
length-burst before window behind = omega (
  arith,
  length-append (replicate before 0) (window ++ replicate behind 0),
  length-append window (replicate behind 0),
  length-replicate before (let z : ℕ = 0 in z),
  length-replicate behind (let z : ℕ = 0 in z),
)

feed-burst-ne-zero :
    (before : ℕ) (window : List ℕ) (behind : ℕ)
    → IsBits window
    → length window ≤ 16
    → window ≢ replicate (length window) 0
    → feed 0 (burst before window behind) ≢ 0
feed-burst-ne-zero before window behind i short ne e =
    feed_zeros-ne-zero (feed 0 window) behind (feed-lt 0 window (omega arith) i) inside (
      sym (
        feed-append 0 (replicate before 0) _
        ∙ ap (λ t. feed t (window ++ replicate behind 0)) (feed-replicate before)
        ∙ feed-append 0 window _)
      ∙ e)
  where
    inside : feed 0 window ≢ 0
    inside z =
        ne
          (value-eq-zero 0 window (sym (feed_small 0 0 window (omega arith) (omega arith) i) ∙ z)).1

-- Of two messages that differ by a burst of at most 16 bits, not both have the remainder 0.
pub burst_detected :
    (bits window : List ℕ) (before behind : ℕ)
    → IsBits bits
    → IsBits window
    → length window ≤ 16
    → window ≢ replicate (length window) 0
    → length bits ≡ before + length window + behind
    → feed 0 bits ≡ 0
    → feed 0 (xor_bits bits (burst before window behind)) ≢ 0
burst_detected bits window before behind h i short ne same e zero_too =
    let error = burst before window behind in
    let linear =
      feed-xor_bits 0 0 bits error (omega arith) (omega arith) h
        (burst-IsBits before window behind i) (same ∙ sym (length-burst before window behind)) in
    feed-burst-ne-zero before window behind i short ne
      (sym (zero-bit_xor _) ∙ ap (λ t. bit_xor t (feed 0 error)) (sym e) ∙ sym linear ∙ zero_too)

xor_bits-zeros : (n : ℕ) (bits : List ℕ) → length bits ≡ n → xor_bits (replicate n 0) bits ≡ bits
xor_bits-zeros zero [] e = refl
xor_bits-zeros zero (b ∷ bits) e = absurd (omega arith)
xor_bits-zeros (suc n) [] e = absurd (omega arith)
xor_bits-zeros (suc n) (b ∷ bits) e = ap₂ ◌∷◌ (zero-bit_xor b) (xor_bits-zeros n bits (omega arith))

-- The message followed by its own remainder has the remainder 0.
pub checksum_cancels :
    (message sum : List ℕ)
    → IsBits message
    → IsBits sum
    → length sum ≡ 16
    → value 0 sum ≡ feed 0 (message ++ replicate 16 0)
    → feed 0 (message ++ sum) ≡ 0
checksum_cancels message sum h i len e =
    let r = feed 0 message in
    let fits = feed-lt 0 message (omega arith) h in
    let zeros = replicate 16 (let z : ℕ = 0 in z) in
    feed-append 0 message sum
    ∙ ap₂ feed (sym (bit_xor-zero r)) (sym (xor_bits-zeros 16 sum len))
    ∙ feed-xor_bits r 0 zeros sum fits (omega arith) (IsBits-replicate 16) i (sym len)
    ∙ ap₂ bit_xor (sym (feed-append 0 message zeros))
        (feed_small 0 0 sum (omega arith) (omega arith) i ∙ e)
    ∙ bit_xor_self (feed 0 (message ++ zeros))
