-- ===== src/Crc/Calculate/Success.antt =====
-- `calculate` with no fault.
use ti.Base.{
  ℕ, ◌+◌, ◌-◌, ◌*◌, ◌/◌, ◌%◌, ◌^◌, ◌≤◌, ◌<◌, ◌≡◌, refl, ◌∙◌, false, [], ◌∷◌, ◌++◌, some, none,
  arith, Bytes, length, length-append, subst, le→ltb_false, ltb, ◌==◌,
}
use ti.Base.Process.{ok}
use ti.Base.Disk.{Disk, update, update_self, on_file-some}
use ti.Crc.Remainder.{opened, calc_crc_rem}
use ti.Crc.Remainder.Delivered.{within, never}
use ti.Crc.Remainder.Reading.{calc_crc_rem_lem, remainder}
use ti.Crc.Remainder.Codeword.{with_checksum, remainder-lt}
use ti.Crc.Calculate.Writing.{zero_twice, sum_over}
use ti.Crc.Calculate.{Faults, append_checksum, write_sum, calculate, crc_name, keep_contents}
use ti.Crc.{int_max, err_io}

abbrev pub no_faults : Faults
no_faults = record {
  rename = false;
  reopen = false;
  seek_end = false;
  zero_lost = false;
  second_zero_lost = false;
  ftell = false;
  fgetc = never;
  seek_start = false;
  seek_back = false;
  high_lost = false;
  low_lost = false;
  close = false;
}

module _ (contents : Bytes) where
  abbrev zeros : Bytes
  zeros = contents ++ 0 ∷ 0 ∷ []

  length-zeros : length zeros ≡ length contents + 2
  length-zeros = length-append contents (0 ∷ 0 ∷ [])

  append_with :
      (pos byte r : ℕ)
      → calc_crc_rem false (length contents + 2) (within zeros (length contents + 2) 0 7)
        ≡ (ok r, within zeros pos byte 7)
      → r < 2 ^ 16
      → append_checksum no_faults (opened never contents)
        ≡ (ok tt, within (contents ++ (r / 2 ^ 8) ∷ (r % 2 ^ 8) ∷ []) (length contents + 2) byte 7)
  unfolding append_checksum write_sum
  append_with pos byte r done h =
      let not_empty : (length contents + 2 == 0) ≡ false = ground arith in
      let long_enough : ltb (length zeros) 2 ≡ false =
        le→ltb_false _ _ (omega (arith, length-zeros)) in
      let at_zeros : length zeros - 2 ≡ length contents = omega (arith, length-zeros) in
      rw (zero_twice never contents 0, not_empty, done)
        (rw (long_enough, at_zeros) (rw (sum_over contents 0 0 (length contents) byte r h refl)))

  -- Opened on `contents`, the stream ends on them with their checksum.
  pub append_checksum_lem :
      (length contents + 2) * 8 ≤ int_max
      → (byte : ℕ) × (append_checksum no_faults (opened never contents)
          ≡ (ok tt, within (with_checksum contents) (length contents + 2) byte 7))
  append_checksum_lem h =
      let (pos, byte, done) =
        calc_crc_rem_lem zeros (length contents + 2) 0 (omega (arith, length-zeros)) in
      (
        byte,
        append_with pos byte (remainder zeros)
            (subst
              (λ n.
                calc_crc_rem false n (within zeros (length contents + 2) 0 7)
                ≡ (ok (remainder zeros), within zeros pos byte 7))
              length-zeros done)
            (remainder-lt zeros),
      )

-- With no fault, `calculate` renames the file to NAME.crc and puts the checksum behind it.
pub calculate_lem :
    (files : Disk Bytes) (filename contents : Bytes)
    → files filename ≡ some contents
    → (length contents + 2) * 8 ≤ int_max
    → calculate no_faults filename files ≡ (
      ok tt,
      update
          (update (update files filename none) (crc_name filename) (some contents))
          (crc_name filename)
          (some (with_checksum contents)),
    )
unfolding calculate
calculate_lem files filename contents here fits =
    let renamed = update_self (update files filename none) (crc_name filename) (some contents) in
    let (byte, done) = append_checksum_lem contents fits in
    rw here (
      on_file-some (crc_name filename) err_io
        (λ contents. keep_contents (append_checksum no_faults (opened never contents)))
        (update (update files filename none) (crc_name filename) (some contents)) contents renamed
      ∙ rw done)
