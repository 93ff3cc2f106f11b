-- ===== src/Drive/Tests.antt =====
-- Names as they are printed, a listing, and the theorem at a concrete input.
use ti.Base.{ℕ, ◌<◌, ◌≡◌, ◌≢◌, refl, false, [], ◌∷◌, ◌++◌, some, arith, Bytes, codes, replicate}
use ti.Base.Process.{ok, exits, undefined}
use ti.Drive.Listing.{main}
use ti.Drive.Numbers.{read_32_lem}
use ti.Drive.{Image, read_32}
use ti.Drive.Names.{sprint_filename}
use ti.Drive.Names.Printing.{fat_name, sprint_filename_lem}

abbrev four_bytes : Image
four_bytes = record { contents = 1 ∷ 2 ∷ 3 ∷ 4 ∷ []; ftell = false; fseek = false; return = false }

read_32_lem_example : read_32 four_bytes 0 [] ≡ (ok 0x03020201, [])
read_32_lem_example =
    read_32_lem four_bytes 0 1 2 3 [] (record { ftell = refl; fseek = refl; return = refl })
      (refl, omega arith) (refl, omega arith) (refl, omega arith)

sprint-umbrella : sprint_filename (codes "UMBRELLATXT") tt ≡ (undefined, tt)
unfolding sprint_filename
sprint-umbrella = refl

sprint_filename_lem_example :
    sprint_filename (fat_name (codes "A") (codes "C")) tt ≡ (ok (codes "A.C"), tt)
sprint_filename_lem_example =
    sprint_filename_lem (codes "A") (codes "C") tt (omega arith) (omega arith)
      ((one b'A' 0 (omega arith), tt), (one b'A' 0x20 (omega arith), tt))
      ((one b'C' 0 (omega arith), tt), (one b'C' 0x20 (omega arith), tt))
  where
    one : (x c : ℕ) → c < x → x ≢ c
    one x c h = omega arith

-- One sector of 32 bytes for the boot sector, one entry in the root directory, behind no FAT.
abbrev boot : Bytes
boot = replicate 11 0 ++ 32 ∷ 0 ∷ 1 ∷ 1 ∷ 0 ∷ 0 ∷ 1 ∷ 0 ∷ replicate 3 0 ++ 1 ∷ replicate 9 0

abbrev image : Image
image = record {
  contents =
      boot ++ fat_name (codes "README") (codes "TXT") ++ 0x20 ∷ replicate 14 0 ++ 2 ∷ replicate 5 0;
  ftell = false;
  fseek = false;
  return = false;
}

list-root : main 5 (some image) [] [] ≡ (exits 0, codes "README.TXT" ∷ [])
unfolding main
list-root = refl
