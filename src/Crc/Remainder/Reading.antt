-- ===== src/Crc/Remainder/Reading.antt =====
-- `calc_crc_rem` on a file of a given size.
use ti.Base.{
  ℕ, zero, suc, ◌*◌, ◌≤◌, ◌≡◌, refl, sym, ap, ◌∙◌, arith, Bytes, length, ltb, le→ltb_false,
  ltb_false→le, false, true, Bool, Bool-cases, inl, inr, subst,
}
use ti.Base.Process.{ok, undefined, Result}
use ti.Base.Outcome.{Outcome}
use ti.Crc.{int_max}
use ti.Crc.Remainder.Register.{feed}
use ti.Crc.Remainder.{Stream, opened, calc_crc_rem, as_ok, shift_through, next_bit_from}
use ti.Crc.Remainder.Delivered.{
  bits_of, delivered, delivered-never, left_over, left_over-never, never, reading, shift_delivered,
  within,
}

-- With a working seek and a size below 2^28, `calc_crc_rem` returns the register after all bits of
-- what so many calls of `fgetc` deliver, wherever the stream stood, if its statics are at a byte's
-- boundary.
pub calc_crc_rem-delivered :
    (fails : ℕ → Bool) (filesize : ℕ) (contents : Bytes) (pos byte : ℕ)
    → filesize * 8 ≤ int_max
    → (pos' : ℕ) × (byte' : ℕ) × (calc_crc_rem false filesize (reading fails contents pos byte 7)
        ≡ (
          ok (feed 0 (bits_of (delivered fails filesize contents))),
          reading (left_over fails filesize) contents pos' byte' 7,
        ))
unfolding calc_crc_rem
calc_crc_rem-delivered fails filesize contents pos byte h =
    let (pos', byte', done) = shift_delivered filesize fails contents contents 0 byte 0 refl in
    (pos', byte', rw (le→ltb_false int_max _ h) (ap as_ok done))

-- With no failing call and a file below 2^28 bytes, it is the register after all bits of the file.
pub calc_crc_rem_lem :
    (contents : Bytes) (pos byte : ℕ)
    → length contents * 8 ≤ int_max
    → (pos' : ℕ) × (byte' : ℕ) × (calc_crc_rem false (length contents) (within contents pos byte 7)
        ≡ (ok (feed 0 (bits_of contents)), within contents pos' byte' 7))
calc_crc_rem_lem contents pos byte h =
    let (pos', byte', done) = calc_crc_rem-delivered never (length contents) contents pos byte h in
    (
      pos',
      byte',
      done
          ∙ ap
              (λ bytes. (
                ok (feed 0 (bits_of bytes)),
                reading (left_over never (length contents)) contents pos' byte' 7,
              ))
              (delivered-never contents)
          ∙ ap (λ fails. (ok (feed 0 (bits_of contents)), reading fails contents pos' byte' 7))
              (left_over-never (length contents)),
    )

-- The remainder of a file's contents.
abbrev pub remainder : Bytes → ℕ
remainder contents = feed 0 (bits_of contents)

shift_through-contents : (n r : ℕ) (s : Stream) → (shift_through n r s).1.contents ≡ s.contents
unfolding shift_through
shift_through-contents zero r s = refl
shift_through-contents (suc n) r s = shift_through-contents n _ (next_bit_from s).1 ∙ same
  where
    same : (next_bit_from s).1.contents ≡ s.contents
    same = unfold next_bit_from in ground arith

-- However it ends, `calc_crc_rem` leaves the file alone.
pub calc_crc_rem-contents :
    (fails : Bool) (n : ℕ) (s : Stream) → (calc_crc_rem fails n s).1.contents ≡ s.contents
unfolding calc_crc_rem
calc_crc_rem-contents true n s = refl
calc_crc_rem-contents false n s = elim (Bool-cases (ltb int_max (n * 8))) [
  | inl big ↦ rw big
  | inr small ↦ rw small (shift_through-contents (n * 8) 0 (record s { pos = 0 }))
]

calc_crc_rem_big :
    (n : ℕ) (s : Stream)
    → ltb int_max (n * 8) ≡ true
    → calc_crc_rem false n s ≡ (undefined, record s { pos = 0 })
unfolding calc_crc_rem
calc_crc_rem_big n s big = rw big

-- If `calc_crc_rem` returns, over the size of a file, it is with the remainder of what is delivered.
pub calc_crc_rem-Outcome :
    (seek_fails : Bool) (fails : ℕ → Bool) (contents : Bytes)
    → Outcome
        (λ _. Unit {0})
        (λ rem _. rem ≡ remainder (delivered fails (length contents) contents))
        (calc_crc_rem seek_fails (length contents) (opened fails contents))
calc_crc_rem-Outcome true fails contents = unfold calc_crc_rem in tt
calc_crc_rem-Outcome false fails contents = elim (Bool-cases (ltb int_max (length contents * 8))) [
  | inl big ↦
      subst Returns (sym (calc_crc_rem_big (length contents) (opened fails contents) big)) tt
  | inr small ↦
      let (pos, byte, done) =
        calc_crc_rem-delivered fails (length contents) contents 0 0 (ltb_false→le _ _ small) in
      subst Returns (sym done) refl
]
  where
    Returns : Result ℕ × Stream → Type 0
    Returns =
        Outcome (λ _. Unit {0})
          (λ rem _. rem ≡ remainder (delivered fails (length contents) contents))
