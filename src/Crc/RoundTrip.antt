-- ===== src/Crc/RoundTrip.antt =====
-- `calculate` and `validate` together.
use Prim.Native.Nat.{◌-◌}
use ti.Base.{
  ℕ, ◌+◌, ◌*◌, ◌/◌, ◌%◌, ◌^◌, ◌≤◌, ◌≡◌, ◌≢◌, sym, ap, ◌∙◌, List, [], ◌∷◌, some, none, arith, Bytes,
  length, take, length-append, take-length_append, replicate,
}
use ti.Base.Process.{ok, exits, after, ◌>>◌}
use ti.Base.Disk.{Disk, update, update_self, update_ne}
use ti.Crc.Calculate.{calculate, crc_name}
use ti.Crc.Calculate.Success.{no_faults as unfaulty_calc}
use ti.Crc.Calculate.Success.{calculate_lem}
use ti.Crc.Remainder.Codeword.{checksum, with_checksum, remainder-with_checksum}
use ti.Crc.Remainder.Detection.{burst, burst_detected}
use ti.Crc.Remainder.Delivered.{bits_of, bits_of-IsBits}
use ti.Crc.Remainder.Register.{IsBits, feed, xor_bits}
use ti.Crc.Validate.Safety.{stem-ne}
use ti.Crc.Validate.Success.{no_faults as unfaulty_val}
use ti.Crc.Validate.Success.{validate_lem, validate-wrong_checksum}
use ti.Crc.Validate.{validate}
use ti.Crc.{int_max, wrong_checksum}

length-with_checksum : (original : Bytes) → length (with_checksum original) ≡ length original + 2
length-with_checksum original =
    length-append original (checksum original / 2 ^ 8 ∷ checksum original % 2 ^ 8 ∷ [])

take-with_checksum :
    (original : Bytes)
    → take (length (with_checksum original) - 2) (with_checksum original) ≡ original
take-with_checksum original =
    ap (λ k. take k (with_checksum original)) (omega (arith, length-with_checksum original))
    ∙ take-length_append original (checksum original / 2 ^ 8 ∷ checksum original % 2 ^ 8 ∷ [])

-- With no fault, `calculate` followed by `validate` of the file it made succeeds, for a file of
-- less than 2^28 - 2 bytes: the file has its contents again, the file NAME.crc is gone, and every
-- other file is as it was.
pub validate-calculate :
    (files : Disk Bytes) (filename original : Bytes)
    → files filename ≡ some original
    → (length original + 2) * 8 ≤ int_max
    → (after : Disk Bytes) × ((calculate unfaulty_calc filename
            >> validate unfaulty_val (crc_name filename))
          files
        ≡ (ok tt, after))
      × (after filename ≡ some original)
      × (after (crc_name filename) ≡ none)
      × ((other : Bytes) → filename ≢ other → crc_name filename ≢ other → after other ≡ files other)
validate-calculate files filename original here small = (
  after',
  ap (after _) (calculate_lem files filename original here small)
      ∙ validate_lem sealed w filename (update_self unsealed name (some w)) free
          (omega (arith, length-with_checksum original))
          (omega (arith, length-with_checksum original)) (remainder-with_checksum original),
  update_ne filled name filename none apart
      ∙ update_self created filename _
      ∙ ap some (take-with_checksum original),
  update_self filled name none,
  λ other ne ne'.
      update_ne filled name other none ne'
      ∙ update_ne created filename other _ ne
      ∙ update_ne sealed filename other _ ne
      ∙ update_ne unsealed name other _ ne'
      ∙ update_ne (update files filename none) name other _ ne'
      ∙ update_ne files filename other none ne,
)
  where
    name : Bytes
    name = crc_name filename

    w : Bytes
    w = with_checksum original

    unsealed : Disk Bytes
    unsealed = update (update files filename none) name (some original)

    sealed : Disk Bytes
    sealed = update unsealed name (some w)

    created : Disk Bytes
    created = update sealed filename (some [])

    filled : Disk Bytes
    filled = update created filename (some (take (length w - 2) w))

    after' : Disk Bytes
    after' = update filled name none

    apart : name ≢ filename
    apart e = stem-ne filename (sym e)

    free : sealed filename ≡ none
    free =
        update_ne unsealed name filename _ apart
        ∙ update_ne (update files filename none) name filename _ apart
        ∙ update_self files filename none

-- With no fault, a file of less than 2^28 bytes that differs from one with its checksum by a burst of
-- errors, confined to 16 successive bits, is refused by `validate`, with the disk unchanged.
pub validate-burst :
    (files : Disk Bytes) (name original corrupted : Bytes) (before behind : ℕ) (window : List ℕ)
    → files name ≡ some corrupted
    → length corrupted * 8 ≤ int_max
    → IsBits window
    → length window ≤ 16
    → window ≢ replicate (length window) 0
    → length (bits_of (with_checksum original)) ≡ before + length window + behind
    → bits_of corrupted ≡ xor_bits (bits_of (with_checksum original)) (burst before window behind)
    → validate unfaulty_val name files ≡ (exits wrong_checksum, files)
validate-burst files name original corrupted before behind window found small bits short ne same
      differs =
    validate-wrong_checksum files name corrupted found small λ z.
      burst_detected (bits_of (with_checksum original)) window before behind
        (bits_of-IsBits (with_checksum original)) bits short ne same
        (remainder-with_checksum original) (ap (feed 0) (sym differs) ∙ z)
