-- ===== src/Drive/Directory.antt =====
-- The entries of a directory: an iterator over the fixed table of the root directory, or along the
-- chain of clusters of another.
use Prim.Native.Nat.{bit_and}
use ti.Base.{
  ℕ, zero, suc, ◌+◌, ◌-◌, ◌*◌, ◌/◌, ◌%◌, ◌^◌, Bool, true, false, not, ◌&&◌, [], Option, none, some,
  Bytes, ltb, ◌==◌, if◌then◌else◌, get_elem?, drop,
}
use ti.Base.Process.{Process, pure, exit, crash, ◌>>=◌, ◌>>◌, check}
use ti.Streams.{Input, fgets, char_to_int}
use ti.Drive.{Image, Output, FatInfo, read_8, read_16, input_err}

-- The name are the bytes read, which a 0 follows in the array.
pub record FatDirInfo : Type 0 where
  pub name : Bytes
  pub attr : ℕ
  pub fst_clus_lo : ℕ

-- `dir_entry_iterator_state`
pub record Iterator : Type 0 where
  pub is_root_dir : Bool
  pub max_entry_cnt : ℕ
  pub cluster_nr : ℕ
  pub cluster_offset : ℕ
  pub entry_nr : ℕ

-- The value -1 of a 16-bit number.
abbrev pub minus_one : ℕ
minus_one = 2 ^ 16 - 1

abbrev pub sec_to_offset : FatInfo → ℕ → ℕ
sec_to_offset fs_info sec_nr = (sec_nr * fs_info.byts_per_sec) % 2 ^ 32

unfoldable pub cluster_to_sec : FatInfo → ℕ → ℕ
cluster_to_sec fs_info cluster_nr =
    if cluster_nr == 0
    then fs_info.first_root_dir_sec_num
    else ((cluster_nr + (2 ^ 32 - 2)) * fs_info.sec_per_clus + fs_info.first_data_sector) % 2 ^ 32

-- A cluster of 0 sectors is divided by, except for the root directory.
unfoldable pub new_dir_entry_iterator : FatInfo → ℕ → Process Output Iterator
new_dir_entry_iterator fs_info sec_num =
    let cluster_offset = sec_to_offset fs_info sec_num in
    if sec_num == fs_info.first_root_dir_sec_num
    then pure (record {
      is_root_dir = true;
      max_entry_cnt = fs_info.root_ent_cnt;
      cluster_nr = minus_one;
      cluster_offset = cluster_offset;
      entry_nr = minus_one;
    })
    else if fs_info.sec_per_clus == 0
    then crash
    else pure (record {
      is_root_dir = false;
      max_entry_cnt = fs_info.dir_ents_per_cluster;
      cluster_nr =
          ((sec_num + (2 ^ 32 - fs_info.first_data_sector)) % 2 ^ 32 / fs_info.sec_per_clus + 2)
          % 2 ^ 16;
      cluster_offset = cluster_offset;
      entry_nr = minus_one;
    })

-- The name of `no_more_entries` is not set; no caller looks at it.
abbrev pub no_more_entries : FatDirInfo
no_more_entries = record { name = []; attr = 0; fst_clus_lo = 0 }

abbrev pub is_no_more_entries : FatDirInfo → Bool
is_no_more_entries dir_info = dir_info.attr == 0 && dir_info.fst_clus_lo == 0

abbrev pub is_directory : FatDirInfo → Bool
is_directory dir_info = not (bit_and dir_info.attr 0x10 == 0)

abbrev pub is_eoc : ℕ → Bool
is_eoc fat_entry = not (ltb fat_entry 0xfff8)

unfoldable pub get_next_cluster_nr : FatInfo → ℕ → Process Output ℕ
get_next_cluster_nr fs_info cluster_nr =
    let fat_offset = cluster_nr * 2 in
    let fat_sec_num = fs_info.rsvd_sec_cnt + fat_offset / fs_info.byts_per_sec in
    let fat_ent_offset = (fat_offset % fs_info.byts_per_sec) % 2 ^ 16 in
    read_16 fs_info.fs_img ((sec_to_offset fs_info fat_sec_num + fat_ent_offset) % 2 ^ 32)

abbrev pub read_name : Option (Bytes × Input) → Process Output Bytes
read_name none = exit input_err
read_name (some (name, rest)) = pure name

unfoldable pub read_dir_entry : Image → ℕ → Process Output FatDirInfo
unfolding fgets
read_dir_entry image offset = do
  check image.ftell input_err
  check image.fseek input_err
  name ← read_name (fgets 12 (record { bytes = drop offset image.contents; error = false }))
  check image.return input_err
  attr ← read_8 image (offset + 11)
  fst_clus_lo ← read_16 image (offset + 26)
  pure (record { name = name; attr = attr; fst_clus_lo = fst_clus_lo })

-- What is done at the end of a cluster, with the number of the next. The value tells whether the
-- directory has ended. The new offset is the number of a sector, as in the code.
abbrev pub step_to : FatInfo → Iterator → ℕ → Bool × Iterator
step_to fs_info it next_cluster_nr = if is_eoc next_cluster_nr then (true, it) else (
  false,
  record it {
    cluster_nr = next_cluster_nr;
    cluster_offset = cluster_to_sec fs_info next_cluster_nr;
    entry_nr = minus_one;
  },
)

-- The first part of `next_dir_entry`: `++(dit_state->entry_nr)`, and what follows at the end of a
-- directory or a cluster.
unfoldable pub increment : FatInfo → Iterator → Process Output (Bool × Iterator)
unfolding get_next_cluster_nr cluster_to_sec
increment fs_info before =
    let it = record before { entry_nr = (before.entry_nr + 1) % 2 ^ 16 } in
    if not (it.entry_nr == it.max_entry_cnt)
    then pure (false, it)
    else if it.is_root_dir
    then pure (true, it)
    else (do
      next_cluster_nr ← get_next_cluster_nr fs_info it.cluster_nr
      pure (step_to fs_info it next_cluster_nr))

abbrev pub Entries : Type 0
Entries = Process Output (FatDirInfo × Iterator)

-- The end of `next_dir_entry`, on the first character of the name, with the recursive call. A byte
-- 0xe5 is no `char` 0xe5.
abbrev pub choose : (Iterator → Entries) → FatDirInfo → Iterator → Option ℕ → Entries
choose next cur_entry it none = crash
choose next cur_entry it (some first) =
    if first == 0
    then pure (no_more_entries, record it { entry_nr = (it.entry_nr + minus_one) % 2 ^ 16 })
    else if char_to_int first == 0xe5
    then next it
    else pure (cur_entry, it)

-- `next_dir_entry` behind its first part, with the recursive call.
unfoldable pub examine : FatInfo → (Iterator → Entries) → Iterator → Entries
unfolding read_dir_entry read_8
examine fs_info next it = do
  let offset = (it.cluster_offset + it.entry_nr * 32) % 2 ^ 32
  attr ← read_8 fs_info.fs_img (offset + 11)
  if not (bit_and attr 0x08 == 0) then next it else (do
    cur_entry ← read_dir_entry fs_info.fs_img offset
    choose next cur_entry it (get_elem? cur_entry.name 0))

abbrev pub end_or : (Iterator → Entries) → Bool × Iterator → Entries
end_or go_on (true, it) = pure (no_more_entries, it)
end_or go_on (false, it) = go_on it

-- The fuel bounds the number of entries that are skipped.
unfoldable pub next_dir_entry : FatInfo → ℕ → Iterator → Entries
unfolding increment examine
next_dir_entry fs_info zero it = crash
next_dir_entry fs_info (suc fuel) it = do
  step ← increment fs_info it
  end_or (examine fs_info (next_dir_entry fs_info fuel)) step
