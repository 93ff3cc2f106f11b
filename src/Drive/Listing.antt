-- ===== src/Drive/Listing.antt =====
-- The walk along a path, and the names of a directory.
use ti.Base.{
  ℕ, zero, suc, not, List, [], ◌∷◌, ◌++◌, Option, none, some, Bytes, ◌==◌, if◌then◌else◌, length,
  drop,
}
use ti.Base.Process.{Process, pure, exit, crash, ◌>>=◌, ◌>>◌, modify, check}
use ti.Base.Text.{strchr}
use ti.Drive.Directory.{
  FatDirInfo, Iterator, is_no_more_entries, is_directory, cluster_to_sec, new_dir_entry_iterator,
  next_dir_entry,
}
use ti.Drive.Names.{sprint_filename, name_equals}
use ti.Drive.{Image, Output, FatInfo, read_fat_info, input_err, not_found_err}

abbrev pub no_such_entry : ℕ
no_such_entry = 0

-- A round of the loop of `find_path_sec_num`, with the rest of the loop.
unfoldable pub find_round : FatInfo → Bytes → Process Output ℕ → FatDirInfo → Process Output ℕ
unfolding name_equals
find_round fs_info name rest entry =
    if is_no_more_entries entry
    then pure no_such_entry
    else if not (is_directory entry)
    then rest
    else (do
      equal ← name_equals entry.name name
      if equal then pure (cluster_to_sec fs_info entry.fst_clus_lo) else rest)

-- The number of rounds is bounded by the fuel: the chain of clusters may be a circle.
unfoldable pub find_loop : FatInfo → Bytes → ℕ → Iterator → Process Output ℕ
unfolding next_dir_entry find_round
find_loop fs_info name zero it = crash
find_loop fs_info name (suc fuel) it = do
  (entry, it') ← next_dir_entry fs_info (suc fuel) it
  find_round fs_info name (find_loop fs_info name fuel it') entry

unfoldable pub find_path_sec_num : FatInfo → ℕ → ℕ → Bytes → Process Output ℕ
unfolding new_dir_entry_iterator find_loop
find_path_sec_num fs_info fuel sec_num name = do
  it ← new_dir_entry_iterator fs_info sec_num
  find_loop fs_info name fuel it

-- A round of the loop of `ls`, with the rest of the loop.
unfoldable pub print_round : Process Output (Unit {0}) → FatDirInfo → Process Output (Unit {0})
unfolding sprint_filename
print_round rest entry = if is_no_more_entries entry then pure tt else (do
  pretty_name ← sprint_filename entry.name
  modify (λ printed. printed ++ pretty_name ∷ [])
  rest)

unfoldable pub print_loop : FatInfo → ℕ → Iterator → Process Output (Unit {0})
unfolding next_dir_entry print_round
print_loop fs_info zero it = crash
print_loop fs_info (suc fuel) it = do
  (entry, it') ← next_dir_entry fs_info (suc fuel) it
  print_round (print_loop fs_info fuel it') entry

-- `ls` of one path component, found by `strchr`, with the recursive call on the rest of the path.
-- With no delimiter left, the null pointer is written to.
abbrev pub descend :
    FatInfo
    → ℕ
    → ℕ
    → (ℕ → Bytes → Process Output (Unit {0}))
    → Option (Bytes × Bytes)
    → Process Output (Unit {0})
descend fs_info fuel sec_num next none = crash
descend fs_info fuel sec_num next (some (path, sub_path)) = do
  path_sec_num ← find_path_sec_num fs_info fuel sec_num path
  check (path_sec_num == no_such_entry) not_found_err
  next path_sec_num (drop 1 sub_path)

-- The first fuel is for the loops over entries, the second for the components of the path: each
-- takes a byte at least.
unfoldable pub ls_parts : FatInfo → ℕ → ℕ → ℕ → Bytes → Process Output (Unit {0})
unfolding print_loop find_path_sec_num
ls_parts fs_info fuel parts sec_num [] = do
  it ← new_dir_entry_iterator fs_info sec_num
  print_loop fs_info fuel it
ls_parts fs_info fuel zero sec_num (c ∷ path) = crash
ls_parts fs_info fuel (suc parts) sec_num (c ∷ path) =
    descend fs_info fuel sec_num (ls_parts fs_info fuel parts) (strchr (c ∷ path) b'/')

unfoldable pub ls : FatInfo → ℕ → ℕ → Bytes → Process Output (Unit {0})
unfolding ls_parts
ls fs_info fuel sec_num path = ls_parts fs_info fuel (length path) sec_num path

abbrev pub path_argument : List Bytes → Bytes
path_argument (path ∷ _) = path
path_argument [] = []

-- On the image, if it can be opened, and the arguments behind the program's name.
unfoldable pub main : ℕ → Option Image → List Bytes → Process Output (Unit {0})
unfolding ls read_fat_info
main fuel none arguments = exit input_err
main fuel (some fs_img) arguments = do
  fs_info ← read_fat_info fs_img
  ls fs_info fuel fs_info.first_root_dir_sec_num (path_argument arguments)
  exit 0
