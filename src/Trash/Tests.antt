-- ===== src/Trash/Tests.antt =====
-- Runs of the three modes, and the theorems at concrete inputs.
use ti.Base.{
  ℕ, zero, suc, ◌+◌, ◌≡◌, ◌≢◌, refl, false, [], ◌∷◌, some, none, arith, Bytes, codes, str_eq,
  length, min,
}
use ti.Base.Disk.{Disk, update}
use ti.Base.Process.{ok, exits, undefined, ◌>>◌}
use ti.Trash.{
  File, Environment, made, get_trashname, get_trashnamelen, trashname, move_to_trash,
  recover_from_trash, finally_delete, main,
}
use ti.Trash.Paths.{trashname_lem}
use ti.Trash.Safety.{
  IsMoved, KeepsAll, move_to_trash-IsMoved, recover_from_trash-IsMoved, finally_delete_lem,
}
use ti.Trash.RoundTrip.{Works, recover_from_trash-move_to_trash}

-- Reads bring two bytes at most, and no call fails.
abbrev healthy : Environment
healthy = record {
  home = some (codes "/h");
  mkdir = made;
  open_in = false;
  fstat = false;
  open_out = false;
  masked = λ mode. min mode 420;
  reads = λ n. some 1;
  writes = λ n. 4096;
  close_in = false;
  close_out = false;
  unlink = false;
}

-- The second round's `write` takes one byte only.
abbrev once_whole : ℕ → ℕ
once_whole zero = 4096
once_whole (suc n) = 1

abbrev full_disk : Environment
full_disk = record healthy { writes = once_whole }

abbrev note : File
note = record { contents = codes "hello"; mode = 511 }

abbrev name : Bytes
name = codes "note"

abbrev in_trash : Bytes
in_trash = codes "/h/.ti3_trash/note"

abbrev disk : Disk File
disk = update (λ _. none) name (some note)

abbrev full : Disk File
full = update disk in_trash (some note)

after_trash :
    (main healthy (codes "t" ∷ codes "-p" ∷ name ∷ []) disk).1 in_trash
    ≡ some (record { contents = codes "hello"; mode = 420 })
unfolding main get_trashname update str_eq
after_trash = refl

full_disk_keeps : (main full_disk (codes "t" ∷ codes "-p" ∷ name ∷ []) disk).0 ≡ exits 134
unfolding main get_trashname update str_eq
full_disk_keeps = refl

partial_file :
    (main full_disk (codes "t" ∷ codes "-p" ∷ name ∷ []) disk).1 in_trash
    ≡ some (record { contents = codes "hel"; mode = 420 })
unfolding main get_trashname update str_eq
partial_file = refl

not_replaced : (main healthy (codes "t" ∷ codes "-g" ∷ name ∷ []) full).0 ≡ exits 2
unfolding main get_trashname update str_eq
not_replaced = refl

empty_option : (main healthy (codes "t" ∷ [] ∷ name ∷ []) full).0 ≡ undefined
unfolding main
empty_option = refl

trashname_lem_example :
    (trashname healthy name disk ≡ (ok in_trash, disk))
    × (length in_trash + 1 ≡ get_trashnamelen healthy.home name)
trashname_lem_example = trashname_lem healthy (codes "/h") name disk refl

move_to_trash-IsMoved_example :
    IsMoved healthy disk name in_trash (move_to_trash healthy name disk).1
unfolding move_to_trash get_trashname update str_eq
move_to_trash-IsMoved_example = move_to_trash-IsMoved healthy disk (codes "/h") name refl

recover_from_trash-IsMoved_example : KeepsAll full (recover_from_trash healthy name full).1
unfolding recover_from_trash get_trashname update str_eq
recover_from_trash-IsMoved_example = recover_from_trash-IsMoved healthy full (codes "/h") name refl

finally_delete_lem_example : finally_delete healthy name full ≡ (ok tt, update full in_trash none)
unfolding update str_eq
finally_delete_lem_example = finally_delete_lem healthy full (codes "/h") name refl

healthy-Works : Works healthy
healthy-Works = record {
  mkdir = refl;
  open_in = refl;
  fstat = refl;
  open_out = refl;
  reads = λ n. (1, refl);
  writes = λ n. omega arith;
  close_in = refl;
  close_out = refl;
  unlink = refl;
}

recover_from_trash-move_to_trash_example :
    (after : Disk File) × ((move_to_trash healthy name >> recover_from_trash healthy name) disk
      ≡ (ok tt, after))
    × (after name ≡ some (record { contents = codes "hello"; mode = 420 }))
    × ((other : Bytes) → other ≢ name → after other ≡ disk other)
unfolding update str_eq
recover_from_trash-move_to_trash_example =
    recover_from_trash-move_to_trash healthy (codes "/h") name disk note healthy-Works refl refl
      refl
