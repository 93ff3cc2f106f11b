-- ===== src/Crc/Calculate/Writing.antt =====
-- `fputc` at the end of a file, and over a byte of it.
use Prim.Native.Nat.{bit_and}
use ti.Base.Bits.{bit_and_ones}
use ti.Base.{
  Bool, ℕ, ◌+◌, ◌*◌, ◌%◌, ◌^◌, ◌≡◌, refl, sym, ap, ◌∙◌, false, [], ◌∷◌, ◌++◌, append_assoc, arith,
  ap₂, ◌/◌, ◌<◌, length-append, Bytes, length, take, drop, take-length_append, drop-length_append,
  drop-drop, take_all, drop_all,
}
use ti.Crc.Remainder.Delivered.{within, reading}
use ti.Crc.Calculate.{fputc}

pub overwrite :
    (front : Bytes) (x : ℕ) (behind : Bytes) (c : ℕ)
    → take (length front) (front ++ x ∷ behind) ++ c ∷ drop (length front + 1) (front ++ x ∷ behind)
      ≡ front ++ c ∷ behind
overwrite front x behind c =
    ap₂ (λ a b. a ++ c ∷ b) (take-length_append front (x ∷ behind))
      (sym (drop-drop (length front) 1 (front ++ x ∷ behind))
        ∙ ap (drop 1) (drop-length_append front (x ∷ behind)))

-- With the position behind `front`, the byte there is replaced.
pub fputc_over :
    (front : Bytes) (x : ℕ) (behind : Bytes) (pos byte c : ℕ)
    → pos ≡ length front
    → fputc false c (within (front ++ x ∷ behind) pos byte 7)
      ≡ within (front ++ (c % 2 ^ 8) ∷ behind) (pos + 1) byte 7
unfolding fputc
fputc_over front x behind pos byte c e =
    rw e (ap (λ t. within t (length front + 1) byte 7) (overwrite front x behind (c % 2 ^ 8)))

pub fputc_end :
    (fails : ℕ → Bool) (front : Bytes) (pos byte c : ℕ)
    → pos ≡ length front
    → fputc false c (reading fails front pos byte 7)
      ≡ reading fails (front ++ (c % 2 ^ 8) ∷ []) (pos + 1) byte 7
unfolding fputc
fputc_end fails front pos byte c e =
    rw (take_all pos front (omega arith), drop_all (pos + 1) front (omega arith))

pub zero_twice :
    (fails : ℕ → Bool) (contents : Bytes) (byte : ℕ)
    → fputc false 0 (fputc false 0 (reading fails contents (length contents) byte 7))
      ≡ reading fails (contents ++ 0 ∷ 0 ∷ []) (length contents + 2) byte 7
zero_twice fails contents byte =
    ap (fputc false 0) (fputc_end fails contents (length contents) byte 0 refl)
    ∙ fputc_end fails (contents ++ 0 ∷ []) (length contents + 1) byte 0
        (omega (arith, length-append contents (0 ∷ [])))
    ∙ ap₂ (λ t p. reading fails t p byte 7) (append_assoc contents (0 ∷ []) (0 ∷ [])) (omega arith)

-- The two bytes of the checksum go over the two zeros.
pub sum_over :
    (contents : Bytes) (x y pos byte r : ℕ)
    → r < 2 ^ 16
    → pos ≡ length contents
    → fputc false
        (bit_and r 0x00ff)
        (fputc false (r / 2 ^ 8) (within (contents ++ x ∷ y ∷ []) pos byte 7))
      ≡ within (contents ++ (r / 2 ^ 8) ∷ (r % 2 ^ 8) ∷ []) (pos + 2) byte 7
sum_over contents x y pos byte r h e =
    let hi : r / 2 ^ 8 % 2 ^ 8 ≡ r / 2 ^ 8 = omega arith in
    ap (fputc false (bit_and r 0x00ff)) (
      fputc_over contents x (y ∷ []) pos byte (r / 2 ^ 8) e
      ∙ ap (λ t. within t (pos + 1) byte 7)
          (ap (λ k. contents ++ k ∷ y ∷ []) hi
            ∙ sym (append_assoc contents (r / 2 ^ 8 ∷ []) (y ∷ []))))
    ∙ fputc_over (contents ++ (r / 2 ^ 8) ∷ []) y [] (pos + 1) byte (bit_and r 0x00ff)
        (omega (arith, length-append contents (r / 2 ^ 8 ∷ [])))
    ∙ ap₂ (λ t p. within t p byte 7)
        (append_assoc contents (r / 2 ^ 8 ∷ []) _ ∙ ap (λ k. contents ++ (r / 2 ^ 8) ∷ k ∷ []) low)
        (omega arith)
  where
    low : bit_and r 0x00ff % 2 ^ 8 ≡ r % 2 ^ 8
    low =
        let split : r / 2 ^ 8 * 2 ^ 8 + r % 2 ^ 8 ≡ r = omega arith in
        omega (
          arith,
          sym (ap (λ t. bit_and t 0x00ff) split)
              ∙ bit_and_ones 8 (r / 2 ^ 8) (r % 2 ^ 8) (omega arith),
        )
