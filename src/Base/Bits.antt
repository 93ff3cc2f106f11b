-- ===== src/Base/Bits.antt =====
-- Laws of `&`, `|` and `^` at variables, from the digit recursion that the native operations
-- stand for.
use Prim.Native.Nat.{
  ℕ, zero, suc, ◌+◌, ◌-◌, ◌*◌, ◌/◌, ◌%◌, ◌^◌, ◌≤◌, ◌<◌, min, max, digits, differ, bit_and, bit_or,
  bit_xor, bit_and-bitwise, bit_or-bitwise, bit_xor-bitwise,
}
use mathlib.Core.Path.{◌≡◌, refl, ap, sym, ◌∙◌}
use native.Mathlib.Nat.{pow-suc}
use native.Mathlib.Omega.{arith}

module _ (z : ℕ → ℕ) (f : ℕ → ℕ → ℕ) where
  digits_enough : (n m a b : ℕ) → a ≤ n → a ≤ m → digits z f n a b ≡ digits z f m a b
  digits_enough zero zero a b p q = refl
  digits_enough zero (suc m) zero b p q = refl
  digits_enough (suc n) zero zero b p q = refl
  digits_enough (suc n) (suc m) zero b p q = refl
  digits_enough zero m (suc a) b p q = absurd (omega arith)
  digits_enough (suc n) zero (suc a) b p q = absurd (omega arith)
  digits_enough (suc n) (suc m) (suc a) b p q =
      ap (λ t. t * 2 + f (suc a % 2) (b % 2))
        (digits_enough n m (suc a / 2) (b / 2) (omega arith) (omega arith))

-- Each operation works digit by digit: here on the lowest digit, and on the rest.
pub bit_and_low : (a b : ℕ) → bit_and a b ≡ 2 * bit_and (a / 2) (b / 2) + min (a % 2) (b % 2)
bit_and_low zero b = rw (bit_and-bitwise 0 b, bit_and-bitwise 0 (b / 2)) (omega arith)
bit_and_low (suc a) b = omega (
  arith,
  bit_and-bitwise (suc a) b,
  bit_and-bitwise (suc a / 2) (b / 2),
  digits_enough (λ _. 0) min a (suc a / 2) (suc a / 2) (b / 2) (omega arith) (omega arith),
)

pub bit_or_low : (a b : ℕ) → bit_or a b ≡ 2 * bit_or (a / 2) (b / 2) + max (a % 2) (b % 2)
bit_or_low zero b = rw (bit_or-bitwise 0 b, bit_or-bitwise 0 (b / 2)) (omega arith)
bit_or_low (suc a) b = omega (
  arith,
  bit_or-bitwise (suc a) b,
  bit_or-bitwise (suc a / 2) (b / 2),
  digits_enough (λ y. y) max a (suc a / 2) (suc a / 2) (b / 2) (omega arith) (omega arith),
)

differ_lem : (x y : ℕ) → x < 2 → y < 2 → differ x y ≡ (x + y) % 2
differ_lem zero y p q = omega arith
differ_lem (suc zero) zero p q = refl
differ_lem (suc zero) (suc zero) p q = refl
differ_lem (suc zero) (suc (suc y)) p q = absurd (omega arith)
differ_lem (suc (suc x)) y p q = absurd (omega arith)

pub bit_xor_low : (a b : ℕ) → bit_xor a b ≡ 2 * bit_xor (a / 2) (b / 2) + (a + b) % 2
bit_xor_low zero b = rw (bit_xor-bitwise 0 b, bit_xor-bitwise 0 (b / 2)) (omega arith)
bit_xor_low (suc a) b = omega (
  arith,
  bit_xor-bitwise (suc a) b,
  bit_xor-bitwise (suc a / 2) (b / 2),
  digits_enough (λ y. y) differ a (suc a / 2) (suc a / 2) (b / 2) (omega arith) (omega arith),
  differ_lem (suc a % 2) (b % 2) (omega arith) (omega arith),
)

bit_xor-div : (a b : ℕ) → bit_xor a b / 2 ≡ bit_xor (a / 2) (b / 2)
bit_xor-div a b = omega (arith, bit_xor_low a b)

bit_xor-mod : (a b : ℕ) → bit_xor a b % 2 ≡ (a + b) % 2
bit_xor-mod a b = omega (arith, bit_xor_low a b)

pub zero-bit_xor : (b : ℕ) → bit_xor 0 b ≡ b
zero-bit_xor b = bit_xor-bitwise 0 b

-- The laws hold up to any bound on the numbers, hence for all of them.
bit_xor_comm_to : (n a b : ℕ) → a ≤ n → b ≤ n → bit_xor a b ≡ bit_xor b a
bit_xor_comm_to zero zero zero p q = refl
bit_xor_comm_to zero (suc a) b p q = absurd (omega arith)
bit_xor_comm_to zero zero (suc b) p q = absurd (omega arith)
bit_xor_comm_to (suc n) a b p q = omega (
  arith,
  bit_xor_low a b,
  bit_xor_low b a,
  bit_xor_comm_to n (a / 2) (b / 2) (omega arith) (omega arith),
)

pub bit_xor_comm : (a b : ℕ) → bit_xor a b ≡ bit_xor b a
bit_xor_comm a b = bit_xor_comm_to (a + b) a b (omega arith) (omega arith)

pub bit_xor-zero : (a : ℕ) → bit_xor a 0 ≡ a
bit_xor-zero a = bit_xor_comm a 0 ∙ zero-bit_xor a

bit_xor_assoc_to : (n a b c : ℕ) → a ≤ n → bit_xor (bit_xor a b) c ≡ bit_xor a (bit_xor b c)
bit_xor_assoc_to n zero b c p = rw (zero-bit_xor b, zero-bit_xor (bit_xor b c))
bit_xor_assoc_to zero (suc a) b c p = absurd (omega arith)
bit_xor_assoc_to (suc n) (suc a) b c p =
    rw
      (
        bit_xor_low (bit_xor (suc a) b) c,
        bit_xor_low (suc a) (bit_xor b c),
        bit_xor-div (suc a) b,
        bit_xor-div b c,
      )
      (omega (
        arith,
        bit_xor_assoc_to n (suc a / 2) (b / 2) (c / 2) (omega arith),
        bit_xor-mod (suc a) b,
        bit_xor-mod b c,
      ))

pub bit_xor_assoc : (a b c : ℕ) → bit_xor (bit_xor a b) c ≡ bit_xor a (bit_xor b c)
bit_xor_assoc a b c = bit_xor_assoc_to a a b c (omega arith)

bit_xor_self_to : (n a : ℕ) → a ≤ n → bit_xor a a ≡ 0
bit_xor_self_to n zero p = zero-bit_xor 0
bit_xor_self_to zero (suc a) p = absurd (omega arith)
bit_xor_self_to (suc n) (suc a) p =
    omega (arith, bit_xor_low (suc a) (suc a), bit_xor_self_to n (suc a / 2) (omega arith))

pub bit_xor_self : (a : ℕ) → bit_xor a a ≡ 0
bit_xor_self a = bit_xor_self_to a a (omega arith)

pub bit_xor_swap_middle :
    (a b c d : ℕ) → bit_xor (bit_xor a b) (bit_xor c d) ≡ bit_xor (bit_xor a c) (bit_xor b d)
bit_xor_swap_middle a b c d =
    bit_xor_assoc a b (bit_xor c d)
    ∙ ap (bit_xor a)
        (sym (bit_xor_assoc b c d) ∙ ap (λ t. bit_xor t d) (bit_xor_comm b c) ∙ bit_xor_assoc c b d)
    ∙ sym (bit_xor_assoc a c (bit_xor b d))

two_pow_suc : (q k r : ℕ) → q * 2 ^ suc k + r ≡ 2 * (q * 2 ^ k + r / 2) + r % 2
two_pow_suc q k r = omega (arith, ap (λ (t : ℕ). q * t) (pow-suc 2 k))

-- A high and a low part are combined apart.
pub bit_xor_split :
    (k p q r s : ℕ)
    → r < 2 ^ k
    → s < 2 ^ k
    → bit_xor (p * 2 ^ k + r) (q * 2 ^ k + s) ≡ bit_xor p q * 2 ^ k + bit_xor r s
bit_xor_split zero p q zero zero h i =
    rw
      (
        let e : p * 2 ^ 0 + 0 ≡ p = omega arith in e,
        let e : q * 2 ^ 0 + 0 ≡ q = omega arith in e,
        zero-bit_xor 0,
      )
      (omega arith)
bit_xor_split zero p q (suc r) s h i = absurd (omega arith)
bit_xor_split zero p q zero (suc s) h i = absurd (omega arith)
bit_xor_split (suc k) p q r s h i =
    rw (two_pow_suc p k r, two_pow_suc q k s, two_pow_suc (bit_xor p q) k (bit_xor r s))
      (rw
        (
          bit_xor_low (2 * (p * 2 ^ k + r / 2) + r % 2) (2 * (q * 2 ^ k + s / 2) + s % 2),
          halved p r,
          halved q s,
          bit_xor-div r s,
        )
        (omega (
          arith,
          bit_xor_split k p q (r / 2) (s / 2) (omega (arith, pow-suc 2 k))
              (omega (arith, pow-suc 2 k)),
          bit_xor-mod r s,
        )))
  where
    halved : (p r : ℕ) → (2 * (p * 2 ^ k + r / 2) + r % 2) / 2 ≡ p * 2 ^ k + r / 2
    halved p r = omega arith

pub bit_xor-lt : (k a b : ℕ) → a < 2 ^ k → b < 2 ^ k → bit_xor a b < 2 ^ k
bit_xor-lt zero zero zero h i = omega (arith, zero-bit_xor 0)
bit_xor-lt zero (suc a) b h i = absurd (omega arith)
bit_xor-lt zero zero (suc b) h i = absurd (omega arith)
bit_xor-lt (suc k) a b h i = omega (
  arith,
  pow-suc 2 k,
  bit_xor_low a b,
  bit_xor-lt k (a / 2) (b / 2) (omega (arith, pow-suc 2 k)) (omega (arith, pow-suc 2 k)),
)

-- `x | bit`, where the lowest digit of `x` is 0.
bit_or-zero_to : (n a : ℕ) → a ≤ n → bit_or a 0 ≡ a
bit_or-zero_to n zero p = bit_or-bitwise 0 0
bit_or-zero_to zero (suc a) p = absurd (omega arith)
bit_or-zero_to (suc n) (suc a) p =
    omega (arith, bit_or_low (suc a) 0, bit_or-zero_to n (suc a / 2) (omega arith))

pub bit_or_even : (x b : ℕ) → b < 2 → bit_or (2 * x) b ≡ 2 * x + b
bit_or_even x b h =
    rw
      (
        bit_or_low (2 * x) b,
        let e : 2 * x / 2 ≡ x = omega arith in e,
        let e : b / 2 ≡ 0 = omega arith in e,
        bit_or-zero_to x x (omega arith),
      )
      (omega arith)

bit_and-zero_to : (n a : ℕ) → a ≤ n → bit_and a 0 ≡ 0
bit_and-zero_to n zero p = bit_and-bitwise 0 0
bit_and-zero_to zero (suc a) p = absurd (omega arith)
bit_and-zero_to (suc n) (suc a) p =
    omega (arith, bit_and_low (suc a) 0, bit_and-zero_to n (suc a / 2) (omega arith))

pub bit_and-one : (a : ℕ) → bit_and a 1 ≡ a % 2
bit_and-one a = omega (arith, bit_and_low a 1, bit_and-zero_to (a / 2) (a / 2) (omega arith))

-- A mask of one bit, here the bit `k`.
pub bit_and_bit : (k q r : ℕ) → r < 2 ^ k → bit_and (q * 2 ^ k + r) (2 ^ k) ≡ q % 2 * 2 ^ k
bit_and_bit zero q zero h = omega (arith, bit_and-one (q * 1 + 0))
bit_and_bit zero q (suc r) h = absurd (omega arith)
bit_and_bit (suc k) q r h =
    rw (two_pow_suc q k r, bit_and_low (2 * (q * 2 ^ k + r / 2) + r % 2) (2 ^ suc k), halved, mask)
      (omega (
        arith,
        bit_and_bit k q (r / 2) (omega (arith, pow-suc 2 k)),
        pow-suc 2 k,
        ap (λ (t : ℕ). q % 2 * t) (pow-suc 2 k),
      ))
  where
    halved : (2 * (q * 2 ^ k + r / 2) + r % 2) / 2 ≡ q * 2 ^ k + r / 2
    halved = omega arith

    mask : 2 ^ suc k / 2 ≡ 2 ^ k
    mask = omega (arith, pow-suc 2 k)

-- A mask of `k` ones.
pub bit_and_ones : (k q r : ℕ) → r < 2 ^ k → bit_and (q * 2 ^ k + r) (2 ^ k - 1) ≡ r
bit_and_ones zero q zero h = bit_and-zero_to (q * 1 + 0) (q * 1 + 0) (omega arith)
bit_and_ones zero q (suc r) h = absurd (omega arith)
bit_and_ones (suc k) q r h =
    rw
      (
        two_pow_suc q k r,
        bit_and_low (2 * (q * 2 ^ k + r / 2) + r % 2) (2 ^ suc k - 1),
        halved,
        mask,
      )
      (omega (arith, bit_and_ones k q (r / 2) (omega (arith, pow-suc 2 k)), pow-suc 2 k))
  where
    halved : (2 * (q * 2 ^ k + r / 2) + r % 2) / 2 ≡ q * 2 ^ k + r / 2
    halved = omega arith

    mask : (2 ^ suc k - 1) / 2 ≡ 2 ^ k - 1
    mask = omega (arith, pow-suc 2 k)
