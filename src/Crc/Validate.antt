-- ===== src/Crc/Validate.antt =====
-- `validate`. The input file is only read; the output file is created and written in blocks.
pub mod Copying
pub mod Safety
pub mod Success
use ti.Base.{
  ℕ, zero, suc, ◌+◌, ◌-◌, ◌*◌, ◌/◌, Bool, not, ◌++◌, [], Option, none, some, Bytes, codes, ltb,
  ◌==◌, if◌then◌else◌, str_eq, length, take, drop,
}
use ti.Base.Process.{Process, Result, exits, pure, exit, crash, ◌>>=◌, ◌>>◌, modify, gets, check}
use ti.Base.Disk.{Disk, update, on_file, is_missing}
use ti.Base.Text.{strrchr}
use ti.Crc.Remainder.{Stream, opened, calc_crc_rem}
use ti.Crc.{err_arg, err_file, err_io, wrong_checksum, bufsize, checksum_byte_cnt}

-- Which calls of `validate` fail, of `fgetc` whether the n-th does, and how many bytes the n-th `fread` and `fwrite` transfer at
-- most.
pub record Faults : Type 0 where
  pub stat : Bool
  pub open_in : Bool
  pub seek_start : Bool
  pub fgetc : ℕ → Bool
  pub create : Bool
  pub rewind : Bool
  pub reads : ℕ → ℕ
  pub writes : ℕ → ℕ
  pub close_in : Bool
  pub close_out : Bool
  pub unlink : Bool

-- `fread` and `fwrite` of `count` bytes, the n-th of each, onto the output file.
unfoldable pub copy_block : Faults → ℕ → ℕ → Bytes → Process Bytes (Unit {0})
copy_block f count n unread = do
  let buffer = take (f.reads n) (take count unread)
  check (not (length buffer == count)) err_io
  let written = take (f.writes n) buffer
  modify (λ out. out ++ written)
  check (not (length written == count)) err_io

-- The loop over the complete blocks, with the number of blocks left and of those done.
unfoldable pub copy_blocks : Faults → ℕ → ℕ → Bytes → Process Bytes (Unit {0})
copy_blocks f zero n unread = pure tt
copy_blocks f (suc left) n unread = do
  copy_block f bufsize n unread
  copy_blocks f left (n + 1) (drop bufsize unread)

-- For a file below two bytes the count of the last `fread` is negative, and equals no result.
unfoldable pub copy_contents : Faults → Bytes → Process Bytes (Unit {0})
copy_contents f contents =
    let filesize = length contents in
    if ltb filesize checksum_byte_cnt then exit err_io else (do
      let portions_cnt = (filesize - checksum_byte_cnt) / bufsize
      copy_blocks f portions_cnt 0 contents
      copy_block f (filesize - portions_cnt * bufsize - checksum_byte_cnt) portions_cnt
          (drop (portions_cnt * bufsize) contents))

-- The name without ".crc". With no dot in the name, `strcmp` reads through a null pointer.
unfoldable pub strip_crc_ext : {S : Type 0} → Option (Bytes × Bytes) → Process S Bytes
strip_crc_ext none = crash
strip_crc_ext (some (stem, crc_ext)) =
    if str_eq crc_ext (codes ".crc") then pure stem else exit err_arg

unfoldable pub original_name : {S : Type 0} → Bytes → Process S Bytes
original_name infilename = strip_crc_ext (strrchr infilename b'.')

-- `validate` from the first `fopen` of the original, `outfilename`, on.
unfoldable pub restore_as : Faults → Bytes → Bytes → Bytes → Process (Disk Bytes) (Unit {0})
restore_as f infilename contents outfilename = do
  existing ← gets (λ files. files outfilename)
  check (not (is_missing existing)) err_file
  check f.create err_io
  modify (λ files. update files outfilename (some []))
  check f.rewind err_io
  on_file outfilename err_io (copy_contents f contents)
  check f.close_in err_io
  check f.close_out err_io
  check f.unlink err_file
  modify (λ files. update files infilename none)

unfoldable pub restore : Faults → Bytes → Bytes → Process (Disk Bytes) (Unit {0})
restore f infilename contents = do
  outfilename ← original_name infilename
  restore_as f infilename contents outfilename

abbrev pub only_read : {S A : Type 0} → Result A × Stream → Process S A
only_read (r, _) s = (r, s)

unfoldable pub validate_contents : Faults → Bytes → Bytes → Process (Disk Bytes) (Unit {0})
validate_contents f infilename contents = do
  check f.stat err_file
  check f.open_in err_io
  crc_rem ← only_read (calc_crc_rem f.seek_start (length contents) (opened f.fgetc contents))
  if crc_rem == 0 then restore f infilename contents else exit wrong_checksum

unfoldable pub validate : Faults → Bytes → Process (Disk Bytes) (Unit {0})
validate f infilename files = elim (files infilename) [
  | none ↦ (exits err_file, files)
  | some contents ↦ validate_contents f infilename contents files
]
