-- ===== src/Drive.antt =====
-- U07/drive-ls.c: the names of the files in a directory of a FAT16 file system are printed, from its
-- image. Here are the image and the numbers read from it; Names has the form of file names,
-- Directory the iterator over the entries of a directory, Listing the walk along a path. What is
-- printed is a list of lines. Unsigned integers of w bits are taken modulo 2^w.
pub mod Numbers
pub mod Names
pub mod Directory
pub mod Listing
mod Tests
use ti.Base.{
  ℕ, zero, suc, ◌+◌, ◌-◌, ◌*◌, ◌/◌, ◌%◌, ◌^◌, Bool, true, false, not, ◌&&◌, ◌||◌, List, [], ◌∷◌,
  ◌++◌, Option, none, some, Bytes, ltb, ◌==◌, if◌then◌else◌, length, get_elem?, drop, take,
}
use ti.Base.Process.{Process, Result, pure, exit, crash, ◌>>=◌, ◌>>◌, modify, gets, check}

abbrev pub input_err : ℕ
input_err = 2

abbrev pub not_found_err : ℕ
not_found_err = 3

-- The open image, and whether `ftell`, the `fseek` to an offset and that back to the old position
-- fail. The position is the same before and after each read.
pub record Image : Type 0 where
  pub contents : Bytes
  pub ftell : Bool
  pub fseek : Bool
  pub return : Bool

abbrev pub Output : Type 0
Output = List Bytes

abbrev pub fgetc : Option ℕ → Process Output ℕ
fgetc none = exit input_err
fgetc (some res) = pure (res % 2 ^ 8)

unfoldable pub read_8 : Image → ℕ → Process Output ℕ
read_8 image offset = do
  check image.ftell input_err
  check image.fseek input_err
  res ← fgetc (get_elem? image.contents offset)
  check image.return input_err
  pure res

unfoldable pub read_16 : Image → ℕ → Process Output ℕ
unfolding read_8
read_16 image offset = do
  lower_byte ← read_8 image offset
  upper_byte ← read_8 image (offset + 1)
  pure ((upper_byte * 2 ^ 8 + lower_byte) % 2 ^ 16)

unfoldable pub read_32 : Image → ℕ → Process Output ℕ
unfolding read_16
read_32 image offset = do
  lower_word ← read_16 image offset
  upper_word ← read_16 image (offset + 1)
  pure ((upper_word * 2 ^ 16 + lower_word) % 2 ^ 32)

pub record FatInfo : Type 0 where
  pub byts_per_sec : ℕ
  pub sec_per_clus : ℕ
  pub rsvd_sec_cnt : ℕ
  pub num_fats : ℕ
  pub root_ent_cnt : ℕ
  pub fat_size : ℕ
  pub first_root_dir_sec_num : ℕ
  pub first_data_sector : ℕ
  pub dir_ents_per_cluster : ℕ
  pub fs_img : Image

-- The size of one FAT, from `fatsz_16`.
abbrev pub read_fat_size : Image → ℕ → Process Output ℕ
read_fat_size fs_img fatsz_16 = if not (fatsz_16 == 0) then pure fatsz_16 else read_32 fs_img 32

-- The first part of `main`. A sector size of 0 is divided by.
unfoldable pub read_fat_info : Image → Process Output FatInfo
unfolding read_32
read_fat_info fs_img = do
  byts_per_sec ← read_16 fs_img 11
  sec_per_clus ← read_8 fs_img 13
  rsvd_sec_cnt ← read_16 fs_img 14
  num_fats ← read_8 fs_img 16
  root_ent_cnt ← read_16 fs_img 17
  fatsz_16 ← read_16 fs_img 22
  fat_size ← read_fat_size fs_img fatsz_16
  if byts_per_sec == 0 then crash else pure tt
  let root_dir_sectors = (root_ent_cnt * 32 + (byts_per_sec - 1)) / byts_per_sec
  let first_root_dir_sec_num = (rsvd_sec_cnt + num_fats * fat_size) % 2 ^ 32
  pure (record {
    byts_per_sec = byts_per_sec;
    sec_per_clus = sec_per_clus;
    rsvd_sec_cnt = rsvd_sec_cnt;
    num_fats = num_fats;
    root_ent_cnt = root_ent_cnt;
    fat_size = fat_size;
    first_root_dir_sec_num = first_root_dir_sec_num;
    first_data_sector = (first_root_dir_sec_num + root_dir_sectors) % 2 ^ 32;
    dir_ents_per_cluster = (byts_per_sec * sec_per_clus / 32) % 2 ^ 16;
    fs_img = fs_img;
  })
