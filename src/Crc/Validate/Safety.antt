-- ===== src/Crc/Validate/Safety.antt =====
-- What `validate` leaves on the disk, whichever calls fail.
use ti.Base.{
  Bool, ℕ, ◌-◌, ◌≤◌, ◌≡◌, ◌≢◌, refl, sym, ap, subst, ◌∙◌, not, false, [], ◌++◌, some, none, Option,
  arith, Bytes, length, take, ◌==◌, Bool-cases, inl, inr, codes, str_eq, str_eq_iff, length-append,
  ==_iff, Option-cases,
}
use ti.Base.Process.{ok, after, exits, undefined, Result}
use ti.Base.Disk.{Disk, update, update_self, update_ne, on_file, on_file-some, store, is_missing}
use ti.Base.Text.{strrchr, strrchr_lem}
use ti.Base.Outcome.{Outcome, Outcome-after, Outcome-check, Outcome-map}
use ti.Crc.Remainder.{Stream, opened, calc_crc_rem}
use ti.Crc.Remainder.Delivered.{delivered}
use ti.Crc.Remainder.Reading.{remainder, calc_crc_rem-Outcome}
use ti.Crc.Validate.Copying.{copy_contents-Adds}
use ti.Crc.Validate.{
  Faults, copy_contents, original_name, strip_crc_ext, restore, restore_as, validate_contents,
  validate, only_read,
}
use ti.Crc.{err_io, err_file}

-- The original of the file `name` stands on the disk `after`, complete, in place of `name`; the
-- remainder of what `fgetc` delivered of the file, where the n-th call may fail, was 0.
pub record IsRestored (fails : ℕ → Bool) (files : Disk Bytes) (name : Bytes) (after : Disk Bytes)
    : Type 0 where
  pub contents : Bytes
  pub stem : Bytes
  pub found : files name ≡ some contents
  pub remainder_zero : remainder (delivered fails (length contents) contents) ≡ 0
  pub name_is : name ≡ stem ++ codes ".crc"
  pub was_free : files stem ≡ none
  pub original : after stem ≡ some (take (length contents - 2) contents)
  pub removed : after name ≡ none

original_name-Outcome :
    (files : Disk Bytes) (name : Bytes) (P : Disk Bytes → Type 0)
    → P files
    → Outcome P
        (λ stem files'. (name ≡ stem ++ codes ".crc") × (files' ≡ files))
        (original_name name files)
unfolding original_name strip_crc_ext
original_name-Outcome files name P h = go (strrchr name 46) (λ stem ext e. strrchr_lem name 46 e)
  where
    go :
        (found : Option (Bytes × Bytes))
        → ((stem ext : Bytes) → found ≡ some (stem, ext) → name ≡ stem ++ ext)
        → Outcome P
            (λ stem files'. (name ≡ stem ++ codes ".crc") × (files' ≡ files))
            (strip_crc_ext found files)
    go none split = h
    go (some (stem, ext)) split = elim (Bool-cases (str_eq ext (codes ".crc"))) [
      | inl same ↦
          rw same (
            split stem ext refl ∙ ap (λ t. stem ++ t) ((str_eq_iff ext (codes ".crc")).0 same),
            refl,
          )
      | inr other ↦ rw other h
    ]

pub stem-ne : (stem : Bytes) → stem ≢ stem ++ codes ".crc"
stem-ne stem e =
    let f : length stem ≡ length (stem ++ codes ".crc") = ap length e in
    absurd (omega (arith, f, length-append stem (codes ".crc")))

module _ (f : Faults) (files : Disk Bytes) (name contents : Bytes) where
  -- Nothing has happened to the checksummed file.
  abbrev Kept : Disk Bytes → Type 0
  Kept files' = files' name ≡ some contents

  abbrev Copied : Bytes → Unit {0} → Disk Bytes → Type 0
  Copied stem _ files' = Kept files' × (files' stem ≡ some (take (length contents - 2) contents))

  store-Copied :
      (stem : Bytes) (m : Result (Unit {0}) × Bytes) (u : Disk Bytes)
      → stem ≢ name
      → Kept u
      → Outcome
          (λ _. Unit {0})
          (λ _ out. (2 ≤ length contents) × (out ≡ take (length contents - 2) contents))
          m
      → Outcome Kept (Copied stem) (store u stem m)
  store-Copied stem (ok _, out) u ne kept h =
      (update_ne u stem name (some out) ne ∙ kept, update_self u stem (some out) ∙ ap some h.1)
  store-Copied stem (exits status, out) u ne kept h = update_ne u stem name (some out) ne ∙ kept
  store-Copied stem (undefined, out) u ne kept h = update_ne u stem name (some out) ne ∙ kept

  -- The file is created and filled.
  on_file-Copied :
      (stem : Bytes) (u : Disk Bytes)
      → stem ≢ name
      → Kept u
      → u stem ≡ some []
      → Outcome Kept (Copied stem) (on_file stem err_io (copy_contents f contents) u)
  on_file-Copied stem u ne kept empty =
      subst (Outcome Kept (Copied stem))
        (sym (on_file-some stem err_io (copy_contents f contents) u [] empty))
        (store-Copied stem (copy_contents f contents []) u ne kept
          (copy_contents-Adds f contents []))

  abbrev sum : ℕ
  sum = remainder (delivered f.fgetc (length contents) contents)

  -- From the creation of the original on.
  Ends : Unit {0} → Disk Bytes → Type 0
  Ends _ after = IsRestored f.fgetc files name after

  restore_stem :
      (stem : Bytes)
      → files name ≡ some contents
      → sum ≡ 0
      → name ≡ stem ++ codes ".crc"
      → Outcome Kept Ends (restore_as f name contents stem files)
  unfolding restore_as Ends
  restore_stem stem found zero_rem name_is =
      Outcome-check Kept Ends (not (is_missing (files stem))) err_file _ files found λ free.
        Outcome-check Kept Ends f.create err_io _ files found λ _.
          Outcome-check Kept Ends f.rewind err_io _ created kept λ _.
            Outcome-after Kept (Copied stem) Ends _
              (on_file stem err_io (copy_contents f contents) created)
              (on_file-Copied stem created ne kept (update_self files stem (some [])))
              λ _ u copied. Outcome-check Kept Ends f.close_in err_io _ u copied.0 λ _.
                Outcome-check Kept Ends f.close_out err_io _ u copied.0 λ _.
                  Outcome-check Kept Ends f.unlink err_file _ u copied.0 λ _. record {
                    contents = contents;
                    stem = stem;
                    found = found;
                    remainder_zero = zero_rem;
                    name_is = name_is;
                    was_free = was_free free;
                    original = update_ne u name stem none (λ e. ne (sym e)) ∙ copied.1;
                    removed = update_self u name none;
                  }
    where
      created : Disk Bytes
      created = update files stem (some [])

      ne : stem ≢ name
      ne e = stem-ne stem (e ∙ name_is)

      kept : created name ≡ some contents
      kept = update_ne files stem name (some []) ne ∙ found

      was_free : not (is_missing (files stem)) ≡ false → files stem ≡ none
      was_free h = ground arith

  only_read-Outcome :
      (m : Result ℕ × Stream)
      → files name ≡ some contents
      → Outcome (λ _. Unit {0}) (λ rem _. rem ≡ sum) m
      → Outcome Kept (λ rem files'. (rem ≡ sum) × (files' ≡ files)) (only_read m files)
  only_read-Outcome (ok rem, s) found h = (h, refl)
  only_read-Outcome (exits status, s) found h = found
  only_read-Outcome (undefined, s) found h = found

  restore-Outcome :
      files name ≡ some contents → sum ≡ 0 → Outcome Kept Ends (restore f name contents files)
  unfolding restore
  restore-Outcome found zero_rem =
      Outcome-after Kept (λ stem files'. (name ≡ stem ++ codes ".crc") × (files' ≡ files)) Ends
        (restore_as f name contents) (original_name name files)
        (original_name-Outcome files name Kept found)
        λ stem files' named.
          subst (λ t. Outcome Kept Ends (restore_as f name contents stem t)) (sym named.1)
            (restore_stem stem found zero_rem named.0)

  validate_contents-Outcome :
      files name ≡ some contents → Outcome Kept Ends (validate_contents f name contents files)
  unfolding validate_contents
  validate_contents-Outcome found =
      let read = calc_crc_rem f.seek_start (length contents) (opened f.fgetc contents) in
      Outcome-check Kept Ends f.stat err_file _ files found λ _.
        Outcome-check Kept Ends f.open_in err_io _ files found λ _.
          Outcome-after Kept (λ rem files'. (rem ≡ sum) × (files' ≡ files)) Ends _
            (only_read read files)
            (only_read-Outcome read found (calc_crc_rem-Outcome f.seek_start f.fgetc contents))
            λ rem files' known. elim (Bool-cases (rem == 0)) [
              | inl zero_rem ↦ rw zero_rem (
                  subst (λ t. Outcome Kept Ends (restore f name contents t)) (sym known.1)
                    (restore-Outcome found (sym known.0 ∙ (==_iff rem 0).0 zero_rem)))
              | inr other ↦ rw other (ap (λ t. t name) known.1 ∙ found)
            ]

pub validate-none :
    (f : Faults) (files : Disk Bytes) (name : Bytes)
    → files name ≡ none
    → validate f name files ≡ (exits err_file, files)
unfolding validate
validate-none f files name missing = rw (missing, validate)

pub validate-some :
    (f : Faults) (files : Disk Bytes) (name contents : Bytes)
    → files name ≡ some contents
    → validate f name files ≡ validate_contents f name contents files
unfolding validate
validate-some f files name contents found = rw (found, validate)

-- Whichever calls fail, and however few bytes `fread` and `fwrite` transfer: if `validate` ends with
-- an error, or crashes, the file NAME is as it was. If it gets to its end, the remainder of what
-- `fgetc` delivered of the file was 0, where a failing call, and one at the end of the file,
-- counts as a byte 255; the original, which did not exist before, stands complete under NAME without
-- ".crc", and the file NAME is gone.
pub validate-IsRestored :
    (f : Faults) (files : Disk Bytes) (name : Bytes)
    → Outcome
        (λ after. after name ≡ files name)
        (λ _ after. IsRestored f.fgetc files name after)
        (validate f name files)
validate-IsRestored f files name = elim (Option-cases (files name)) [
  | inl missing ↦ subst Holds (sym (validate-none f files name missing)) refl
  | inr (contents, found) ↦ subst Holds (sym (validate-some f files name contents found)) (
      Outcome-map (validate_contents f name contents files)
        (validate_contents-Outcome f files name contents found) (λ after kept. kept ∙ sym found)
        (λ _ after ends. unfold Ends in ends))
]
  where
    Holds : Result (Unit {0}) × Disk Bytes → Type 0
    Holds =
        Outcome (λ after. after name ≡ files name) (λ _ after. IsRestored f.fgetc files name after)
