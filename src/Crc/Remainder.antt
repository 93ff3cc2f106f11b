-- ===== src/Crc/Remainder.antt =====
-- `calc_crc_rem` and `next_bit_from`. A stream is the contents of the open file, the position in
-- it, the two static variables of `next_bit_from`, which start at 0 and 7, and which of the next
-- calls of `fgetc` fail.
pub mod Register
pub mod Division
pub mod Detection
pub mod Delivered
pub mod Reading
pub mod Codeword
pub mod Specification
use Prim.Native.Nat.{bit_and, bit_or, bit_xor}
use ti.Base.{
  ℕ, zero, suc, Option, ◌+◌, ◌-◌, ◌*◌, ◌/◌, ◌%◌, ◌^◌, Bool, none, some, Bytes, ltb, ◌==◌,
  if◌then◌else◌, get_elem?,
}
use ti.Base.Process.{Process, Result, ok, crash, ◌>>◌, modify, check}
use ti.Crc.{poly, int_max, err_io}

-- An `int` as its bit pattern: `EOF` is -1.
abbrev pub eof : ℕ
eof = 2 ^ 32 - 1

pub record Stream : Type 0 where
  pub contents : Bytes
  pub pos : ℕ
  pub cur_byte : ℕ
  pub cur_offs : ℕ
  pub fgetc_fails : ℕ → Bool

abbrev pub opened : (ℕ → Bool) → Bytes → Stream
opened fgetc_fails contents = record {
  contents = contents;
  pos = 0;
  cur_byte = 0;
  cur_offs = 7;
  fgetc_fails = fgetc_fails;
}

-- What is left of a sequence behind its first element.
abbrev pub later : (ℕ → Bool) → ℕ → Bool
later fails n = fails (suc n)

-- What `fgetc` delivers where no call fails.
abbrev pub next_byte : Option ℕ → Stream → Stream
next_byte none s = record s { cur_byte = eof }
next_byte (some byte) s = record s { pos = s.pos + 1; cur_byte = byte }

-- `cur_byte = fgetc(file); cur_offs = 0;`: `fgetc` gives `EOF` at the end of the file, and also on
-- an error, which the code does not tell from a byte either.
unfoldable pub fresh_byte : Stream → Stream
fresh_byte s =
    let s' = record s { cur_offs = 0; fgetc_fails = later s.fgetc_fails } in
    if s.fgetc_fails 0
    then record s' { cur_byte = eof }
    else next_byte (get_elem? s.contents s.pos) s'

-- The first half of `next_bit_from`: let the statics point to the next bit.
unfoldable pub advance : Stream → Stream
unfolding fresh_byte
advance s = if s.cur_offs + 1 == 8 then fresh_byte s else record s { cur_offs = s.cur_offs + 1 }

unfoldable pub next_bit_from : Stream → ℕ × Stream
unfolding advance
next_bit_from s = let s' = advance s in (bit_and (s'.cur_byte / 2 ^ (7 - s'.cur_offs)) 1, s')

-- The body of the loop of `calc_crc_rem`, on the register and the bit from the file.
unfoldable pub shift_in : ℕ → ℕ → ℕ
shift_in div_reg bit =
    let highest_bit = bit_and div_reg 0x8000 in
    let shifted = bit_or (div_reg * 2 % 2 ^ 16) bit in
    if highest_bit == 0x8000 then bit_xor shifted poly else shifted

unfoldable pub shift_through : ℕ → ℕ → Stream → ℕ × Stream
shift_through zero div_reg s = (div_reg, s)
shift_through (suc rounds) div_reg s =
    let (bit, s') = next_bit_from s in shift_through rounds (shift_in div_reg bit) s'

abbrev pub as_ok : ℕ × Stream → Result ℕ × Stream
as_ok (rem, s) = (ok rem, s)

-- The loop counter is an `int`: past `INT_MAX` rounds its increment is undefined.
unfoldable pub calc_crc_rem : Bool → ℕ → Process Stream ℕ
calc_crc_rem seek_fails filesize = do
  check seek_fails err_io
  modify (λ s. record s { pos = 0 })
  if ltb int_max (filesize * 8) then crash else λ s. as_ok (shift_through (filesize * 8) 0 s)
