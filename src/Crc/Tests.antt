-- ===== src/Crc/Tests.antt =====
-- Runs of the checksum on concrete files, and the theorems at concrete inputs.
use Prim.Native.Nat.{bit_xor}
use ti.Base.{
  ◌==◌, ℕ, ◌^◌, ◌<◌, ◌≡◌, ◌≢◌, refl, true, false, List, [], ◌∷◌, ◌++◌, some, none, arith, Bytes,
  codes,
}
use ti.Base.Disk.{Disk}
use ti.Base.Outcome.{Outcome}
use ti.Base.Process.{ok, exits, ◌>>◌}
use ti.Crc.Calculate
use ti.Crc.Calculate.{calculate, crc_name}
use ti.Crc.Calculate.Safety.{IsKept, calculate-IsKept}
use ti.Crc.Calculate.Success.{no_faults as unfaulty_calc}
use ti.Crc.Remainder.Codeword.{checksum}
use ti.Crc.Remainder.Division.{value, times_generator, quotient}
use ti.Crc.Remainder.Delivered.{within, bits_of}
use ti.Crc.Remainder.Register.{shift_in-bit_xor}
use ti.Crc.Remainder.Specification.{calc_crc_rem-division}
use ti.Crc.Remainder.{Stream, calc_crc_rem, shift_in}
use ti.Crc.RoundTrip.{validate-calculate, validate-burst}
use ti.Crc.Validate
use ti.Crc.Validate.Safety.{IsRestored, validate-IsRestored}
use ti.Crc.Validate.Success.{no_faults as unfaulty_val}
use ti.Crc.Validate.{validate}
use ti.Crc.{wrong_checksum}

abbrev digits : Bytes
digits = codes "123456789"

-- Every name holds the same file.
abbrev full_disk : Bytes → Disk Bytes
full_disk contents _ = some contents

-- The published check value of this checksum.
checksum-digits : checksum digits ≡ 0xfee8
unfolding shift_in
checksum-digits = refl

-- One bit of the second byte is flipped.
abbrev corrupted : Bytes
corrupted = codes "1r3456789" ++ 0xfe ∷ 0xe8 ∷ []

validate-calculate_example :
    (after : Disk Bytes) × ((calculate unfaulty_calc (codes "a")
          >> validate unfaulty_val (crc_name (codes "a")))
        (full_disk digits)
      ≡ (ok tt, after))
    × (after (codes "a") ≡ some digits)
    × (after (crc_name (codes "a")) ≡ none)
    × ((other : Bytes)
        → codes "a" ≢ other
        → crc_name (codes "a") ≢ other
        → after other ≡ some digits)
validate-calculate_example =
    validate-calculate (full_disk digits) (codes "a") digits refl (omega arith)

one_bit : ◌≢◌ {A = List ℕ} (1 ∷ []) (0 ∷ [])
one_bit e = ground arith

validate-burst_example :
    validate unfaulty_val (codes "a.crc") (full_disk corrupted)
    ≡ (exits wrong_checksum, full_disk corrupted)
unfolding shift_in
validate-burst_example =
    validate-burst (full_disk corrupted) (codes "a.crc") digits corrupted 9 78 (1 ∷ []) refl
      (omega arith) (omega arith) (omega arith) one_bit refl refl

-- A call of `fgetc` fails, and the second `fwrite` of the copy stops short.
abbrev short_write : Validate.Faults
short_write = record unfaulty_val { fgetc = λ n. n == 2; writes = λ _. 3 }

validate-IsRestored_example :
    Outcome
      (λ after. after (codes "a.crc") ≡ some corrupted)
      (λ _ after. IsRestored short_write.fgetc (full_disk corrupted) (codes "a.crc") after)
      (validate short_write (codes "a.crc") (full_disk corrupted))
validate-IsRestored_example = validate-IsRestored short_write (full_disk corrupted) (codes "a.crc")

abbrev lost_sum : Calculate.Faults
lost_sum = record unfaulty_calc { ftell = true; fgetc = λ n. true; low_lost = true; close = true }

calculate-IsKept_example :
    IsKept (codes "a") digits (calculate lost_sum (codes "a") (full_disk digits)).1
calculate-IsKept_example =
    calculate-IsKept lost_sum (full_disk digits) (codes "a") digits refl refl refl

calc_crc_rem-division_example :
    (rem : ℕ) × (s : Stream) × (calc_crc_rem false 9 (within digits 4 0 7) ≡ (ok rem, s))
    × (s.contents ≡ digits)
    × (rem < 2 ^ 16)
    × (value 0 (bits_of digits) ≡ bit_xor (times_generator 0 (quotient 0 (bits_of digits))) rem)
calc_crc_rem-division_example = calc_crc_rem-division digits 4 0 (omega arith)

shift_in-bit_xor_example :
    shift_in (bit_xor 0x8001 0x1234) (bit_xor 1 1) ≡ bit_xor (shift_in 0x8001 1) (shift_in 0x1234 1)
shift_in-bit_xor_example =
    shift_in-bit_xor 0x8001 0x1234 1 1 (omega arith) (omega arith) (omega arith) (omega arith)
