-- ===== src/Crc/Calculate.antt =====
-- `calculate`.
pub mod Writing
pub mod Success
pub mod Safety
use Prim.Native.Nat.{bit_and}
use ti.Base.{
  ℕ, ◌+◌, ◌-◌, ◌/◌, ◌%◌, ◌^◌, Bool, ◌||◌, ◌∷◌, ◌++◌, Option, none, some, Bytes, codes, ltb, ◌==◌,
  if◌then◌else◌, length, take, drop,
}
use ti.Base.Process.{Process, Result, ◌>>=◌, ◌>>◌, modify, gets, check}
use ti.Base.Disk.{Disk, update, on_file, is_missing}
use ti.Crc.Remainder.{Stream, opened, calc_crc_rem}
use ti.Crc.{err_file, err_io, checksum_byte_cnt}

-- Which calls of `calculate` fail; of `fgetc`, whether the n-th does. A lost `fputc` is not noticed by the code.
pub record Faults : Type 0 where
  pub rename : Bool
  pub reopen : Bool
  pub seek_end : Bool
  pub zero_lost : Bool
  pub second_zero_lost : Bool
  pub ftell : Bool
  pub fgetc : ℕ → Bool
  pub seek_start : Bool
  pub seek_back : Bool
  pub high_lost : Bool
  pub low_lost : Bool
  pub close : Bool

-- `fputc(c, file)`, on a file opened with "r+"
unfoldable pub fputc : Bool → ℕ → Stream → Stream
fputc lost c s = if lost then s else record s {
  contents = take s.pos s.contents ++ (c % 2 ^ 8) ∷ drop (s.pos + 1) s.contents;
  pos = s.pos + 1;
}

-- `calculate` from the second `fseek` on.
unfoldable pub write_sum : Faults → ℕ → Process Stream (Unit {0})
write_sum f crc_rem = do
  size ← gets (λ s. length s.contents)
  check (f.seek_back || ltb size checksum_byte_cnt) err_io
  modify (λ s. record s { pos = length s.contents - checksum_byte_cnt })
  modify (fputc f.high_lost (crc_rem / 2 ^ 8))
  modify (fputc f.low_lost (bit_and crc_rem 0x00ff))
  check f.close err_io

-- `ftell(file)`; none stands for -1.
abbrev pub ftell : Bool → Stream → Option ℕ
ftell fails s = if fails then none else some s.pos

-- The test of what `ftell` told, and the remainder. A size of -1 passes the test, and makes
-- `calc_crc_rem` do no round, as the size 0 does.
abbrev pub crc_of_told : Bool → Option ℕ → Process Stream ℕ
crc_of_told seek_fails none = calc_crc_rem seek_fails 0
crc_of_told seek_fails (some file_size) = do
  check (file_size == 0) err_io
  calc_crc_rem seek_fails file_size

-- `calculate` from the first `fseek` on.
unfoldable pub append_checksum : Faults → Process Stream (Unit {0})
append_checksum f = do
  check f.seek_end err_io
  modify (λ s. record s { pos = length s.contents })
  modify (fputc f.zero_lost 0)
  modify (fputc f.second_zero_lost 0)
  told ← gets (ftell f.ftell)
  crc_rem ← crc_of_told f.seek_start told
  write_sum f crc_rem

abbrev pub keep_contents {ℓ} : {A : Type ℓ} → Result A × Stream → Result A × Bytes
keep_contents (r, s) = (r, s.contents)

abbrev pub crc_name : Bytes → Bytes
crc_name filename = filename ++ codes ".crc"

unfoldable pub calculate : Faults → Bytes → Process (Disk Bytes) (Unit {0})
calculate f filename = do
  source ← gets (λ files. files filename)
  check (f.rename || is_missing source) err_file
  modify (λ files. update (update files filename none) (crc_name filename) source)
  check f.reopen err_io
  on_file (crc_name filename) err_io
      (λ contents. keep_contents (append_checksum f (opened f.fgetc contents)))
