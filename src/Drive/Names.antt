-- ===== src/Drive/Names.antt =====
-- File names as a FAT directory entry holds them, 8 bytes and 3 of extension filled up with blanks,
-- and as they are printed.
pub mod Printing
use ti.Base.{
  ℕ, ◌+◌, ◌-◌, List, [], ◌∷◌, ◌++◌, Option, none, some, Bytes, ◌==◌, if◌then◌else◌, str_eq, Bool,
  length, get_elem?, drop, take, replicate,
}
use ti.Base.Process.{Process, pure, crash, ◌>>=◌, ◌>>◌}
use ti.Base.Text.{strchr}
use ti.Streams.{c_string}

abbrev pub blank : ℕ
blank = 0x20

-- What `strncpy(out, in, n)` writes: the string, cut to n bytes or filled up with 0.
unfoldable pub strncpy : ℕ → Bytes → Bytes
unfolding c_string
strncpy n in_name = let s = c_string (take n in_name) in s ++ replicate (n - length s) 0

-- The buffer with other bytes from a position on.
abbrev pub overwrite : ℕ → Bytes → Bytes → Bytes
overwrite n bytes buffer = take n buffer ++ bytes ++ drop (n + length bytes) buffer

-- The string in front of the first blank, if there is one.
abbrev pub before : Option (Bytes × Bytes) → Option Bytes
before none = none
before (some (front, back)) = some front

abbrev pub or_else {ℓ} : {A : Type ℓ} → Option A → A → A
or_else none x = x
or_else (some y) x = y

-- The end of `sprint_filename`: cut at the first blank.
unfoldable pub remove_whitespace : Bytes → Bytes
unfolding strchr c_string
remove_whitespace out_name = or_else (before (strchr (c_string out_name) blank)) (c_string out_name)

-- The dot and the extension, at the first blank. With none, `first_end` is the null pointer.
unfoldable pub place_extension : {S : Type 0} → Bytes → Bytes → Option Bytes → Process S Bytes
unfolding strncpy
place_extension in_name out_name none = crash
place_extension in_name out_name (some first_part) =
    pure (overwrite (length first_part) (b'.' ∷ strncpy 3 (drop 8 in_name)) out_name)

-- The test of the extension's first byte, which is indeterminate if fewer were read.
abbrev pub opt_extension : {S : Type 0} → Bytes → Bytes → Option ℕ → Process S Bytes
opt_extension in_name out_name none = crash
opt_extension in_name out_name (some first_char) =
    if first_char == blank
    then pure out_name
    else place_extension in_name out_name (before (strchr (c_string out_name) blank))

-- `in_name` are the bytes that were read, which a 0 follows.
unfoldable pub sprint_filename : {S : Type 0} → Bytes → Process S Bytes
unfolding place_extension remove_whitespace
sprint_filename in_name = do
  let out_name = strncpy 8 in_name ++ replicate 4 0
  with_extension ← opt_extension in_name out_name (get_elem? (in_name ++ 0 ∷ []) 8)
  pure (remove_whitespace with_extension)

unfoldable pub name_equals : {S : Type 0} → Bytes → Bytes → Process S Bool
unfolding sprint_filename str_eq
name_equals fat_name normal_name = do
  normalised_fat_name ← sprint_filename fat_name
  pure (str_eq normalised_fat_name normal_name)
