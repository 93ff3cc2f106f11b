-- ===== src/Crc/Remainder/Specification.antt =====
-- `calc_crc_rem` against the division of polynomials.
use Prim.Native.Nat.{bit_xor}
use ti.Base.{ℕ, ◌*◌, ◌^◌, ◌≤◌, ◌<◌, ◌≡◌, ◌∙◌, refl, sym, ap, false, arith, Bytes, length}
use ti.Base.Bits.{zero-bit_xor}
use ti.Base.Process.{ok}
use ti.Crc.Remainder.Codeword.{remainder-lt}
use ti.Crc.Remainder.Division.{value, times_generator, quotient, division}
use ti.Crc.Remainder.Delivered.{within, bits_of, bits_of-IsBits}
use ti.Crc.Remainder.Reading.{remainder, calc_crc_rem_lem}
use ti.Crc.Remainder.{Stream, calc_crc_rem}
use ti.Crc.{int_max}

-- With a working seek, on a file of less than 2^28 bytes, and wherever its position is,
-- `calc_crc_rem` returns a number below 2^16. The polynomial of the file's bits, highest bit of
-- each byte first, is the product of some polynomial and the generator x^16 + x^15 + x^2 + 1, plus
-- that number's polynomial. The file is not changed.
pub calc_crc_rem-division :
    (contents : Bytes) (pos byte : ℕ)
    → length contents * 8 ≤ int_max
    → (rem : ℕ) × (s : Stream) × (calc_crc_rem false (length contents) (within contents pos byte 7)
        ≡ (ok rem, s))
      × (s.contents ≡ contents)
      × (rem < 2 ^ 16)
      × (value 0 (bits_of contents)
          ≡ bit_xor (times_generator 0 (quotient 0 (bits_of contents))) rem)
calc_crc_rem-division contents pos byte small =
    let (pos', byte', done) = calc_crc_rem_lem contents pos byte small in
    (
      remainder contents,
      within contents pos' byte' 7,
      done,
      refl,
      remainder-lt contents,
      ap (λ t. value t (bits_of contents)) (sym (zero-bit_xor 0))
          ∙ division 0 0 (bits_of contents) (omega arith) (bits_of-IsBits contents),
    )
