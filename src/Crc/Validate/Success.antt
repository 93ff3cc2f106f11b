-- ===== src/Crc/Validate/Success.antt =====
-- `validate` with no fault.
use ti.Base.{
  ℕ, zero, suc, ◌+◌, ◌-◌, ◌*◌, ◌/◌, ◌≤◌, ◌≡◌, ◌≢◌, refl, sym, ap, ◌∙◌, true, false, [], ◌++◌, some,
  none, arith, Bytes, length, take, drop, ◌==◌, codes, ==_iff, take_all, length-take, length-drop,
  append-nil, le→ltb_false, str_eq_refl,
}
use ti.Base.Process.{ok, exits, after}
use ti.Base.Disk.{Disk, update, update_self, on_file-some, store}
use ti.Base.Text.{strrchr, strrchr-append}
use ti.Crc.Remainder.{Stream, opened, calc_crc_rem}
use ti.Crc.Remainder.Delivered.{never}
use ti.Crc.Remainder.Reading.{remainder, calc_crc_rem_lem}
use ti.Crc.Validate.Copying.{joined}
use ti.Crc.Validate.Safety.{validate-some}
use ti.Crc.Validate.{
  Faults, copy_block, copy_blocks, copy_contents, original_name, strip_crc_ext, restore, restore_as,
  validate_contents, validate,
}
use ti.Crc.{int_max, err_io, wrong_checksum, bufsize}

abbrev pub no_faults : Faults
no_faults = record {
  stat = false;
  open_in = false;
  seek_start = false;
  fgetc = never;
  create = false;
  rewind = false;
  reads = λ _. bufsize;
  writes = λ _. bufsize;
  close_in = false;
  close_out = false;
  unlink = false;
}

copy_block_lem :
    (count n : ℕ) (unread out : Bytes)
    → count ≤ bufsize
    → count ≤ length unread
    → copy_block no_faults count n unread out ≡ (ok tt, out ++ take count unread)
unfolding copy_block
copy_block_lem count n unread out fits enough =
    let size : length (take count unread) ≡ count = omega (arith, length-take count unread) in
    let all : take 4096 (take count unread) ≡ take count unread =
      take_all 4096 (take count unread) (omega (arith, size)) in
    let equal : (length (take count unread) == count) ≡ true = (==_iff _ count).1 size in
    rw (all, equal) (rw (all, equal))

copy_blocks_lem :
    (left n : ℕ) (unread out : Bytes)
    → left * bufsize ≤ length unread
    → copy_blocks no_faults left n unread out ≡ (ok tt, out ++ take (left * bufsize) unread)
unfolding copy_blocks
copy_blocks_lem zero n unread out enough = ap (λ t. (ok tt, t)) (sym (append-nil out))
copy_blocks_lem (suc left) n unread out enough =
    ap (after _) (copy_block_lem bufsize n unread out (omega arith) (omega arith))
    ∙ copy_blocks_lem left (n + 1) (drop bufsize unread) (out ++ take bufsize unread)
        (omega (arith, length-drop bufsize unread))
    ∙ ap (λ t. (ok tt, t))
        (joined bufsize (left * bufsize) (suc left * bufsize) unread out _ refl (omega arith))

pub copy_contents_lem :
    (contents : Bytes)
    → 2 ≤ length contents
    → copy_contents no_faults contents [] ≡ (ok tt, take (length contents - 2) contents)
unfolding copy_contents
copy_contents_lem contents enough =
    let size = length contents in
    let blocks = (size - 2) / bufsize in
    let left = size - blocks * bufsize - 2 in
    let unread = drop (blocks * bufsize) contents in
    let copied = take (blocks * bufsize) contents in
    rw (le→ltb_false size 2 enough) (
      ap (after _) (copy_blocks_lem blocks 0 contents [] (omega arith))
      ∙ copy_block_lem left blocks unread copied (omega arith)
          (omega (arith, length-drop (blocks * bufsize) contents))
      ∙ ap (λ t. (ok tt, t))
          (joined (blocks * bufsize) left (size - 2) contents [] copied refl (omega arith)))

original_name_lem :
    {S : Type 0} (stem : Bytes) (s : S) → original_name (stem ++ codes ".crc") s ≡ (ok stem, s)
unfolding original_name strip_crc_ext
original_name_lem stem s =
    rw (strrchr-append stem (codes "crc") 46 (unfold strrchr in refl))
      (rw (str_eq_refl (codes ".crc")))

read_whole :
    (contents : Bytes)
    → length contents * 8 ≤ int_max
    → (s : Stream) × (calc_crc_rem false (length contents) (opened never contents)
        ≡ (ok (remainder contents), s))
read_whole contents small = let (pos, byte, done) = calc_crc_rem_lem contents 0 0 small in (_, done)

module _ (files : Disk Bytes) (contents stem : Bytes) where
  abbrev restored : Disk Bytes
  restored =
      update
        (update (update files stem (some [])) stem (some (take (length contents - 2) contents)))
        (stem ++ codes ".crc") none

  restore_as_lem :
      2 ≤ length contents
      → files stem ≡ none
      → restore_as no_faults (stem ++ codes ".crc") contents stem files ≡ (ok tt, restored)
  unfolding restore_as
  restore_as_lem enough free =
      let created = update files stem (some []) in
      rw free (
        ap (after _) (
          on_file-some stem err_io (copy_contents no_faults contents) created []
            (update_self files stem (some []))
          ∙ ap (store created stem) (copy_contents_lem contents enough)))

  -- With no fault and a remainder of 0 the original is restored.
  pub validate_lem :
      files (stem ++ codes ".crc") ≡ some contents
      → files stem ≡ none
      → 2 ≤ length contents
      → length contents * 8 ≤ int_max
      → remainder contents ≡ 0
      → validate no_faults (stem ++ codes ".crc") files ≡ (ok tt, restored)
  unfolding validate_contents restore
  validate_lem found free enough small zero_rem =
      let (s, done) = read_whole contents small in
      validate-some no_faults files (stem ++ codes ".crc") contents found
      ∙ rw (done, zero_rem)
          (ap (after _) (original_name_lem stem files) ∙ restore_as_lem enough free)

-- With any other remainder the file is refused, and nothing is changed.
pub validate-wrong_checksum :
    (files : Disk Bytes) (name contents : Bytes)
    → files name ≡ some contents
    → length contents * 8 ≤ int_max
    → remainder contents ≢ 0
    → validate no_faults name files ≡ (exits wrong_checksum, files)
unfolding validate_contents
validate-wrong_checksum files name contents found small ne =
    let (s, done) = read_whole contents small in
    let nonzero : (remainder contents == 0) ≡ false = ground arith in
    validate-some no_faults files name contents found ∙ rw (done) (rw nonzero)
