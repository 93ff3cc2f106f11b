-- ===== src/Base/Disk.antt =====
-- The files of a disk, by name.
use mathlib.Core.Path.{◌≡◌}
use mathlib.Core.Logic.{◌≢◌, inl, inr}
use mathlib.Core.Bool.{Bool, true, false}
use Prim.Native.Nat.{ℕ}
use mathlib.Core.Option.{Option, none, some}
use ti.Base.Process.{Process, Result, exits}
use ti.Base.Tests.{Bytes, str_eq, str_eq_iff, str_eq_refl, if◌then◌else◌, Bool-cases}

abbrev pub Disk {ℓ} : Type ℓ → Type ℓ
Disk File = Bytes → Option File

module _ {ℓ} {File : Type ℓ} where
  unfoldable pub update : Disk File → Bytes → Option File → Disk File
  update files name file other = if str_eq name other then file else files other

  pub update_self :
      (files : Disk File) (name : Bytes) (file : Option File) → update files name file name ≡ file
  unfolding update
  update_self files name file = rw (str_eq_refl name)

  pub update_ne :
      (files : Disk File) (name other : Bytes) (file : Option File)
      → name ≢ other
      → update files name file other ≡ files other
  unfolding update
  update_ne files name other file ne = elim (Bool-cases (str_eq name other)) [
    | inl e ↦ absurd (ne ((str_eq_iff name other).0 e))
    | inr e ↦ rw e
  ]

abbrev pub is_missing {ℓ} : {File : Type ℓ} → Option File → Bool
is_missing none = true
is_missing (some _) = false

abbrev pub store : {A File : Type 0} → Disk File → Bytes → Result A × File → Result A × Disk File
store files name (r, contents) = (r, update files name (some contents))

-- A computation over one file. Whatever ends the process, what was written stands in the file:
-- `exit` flushes the streams.
abbrev pub on_file : {A File : Type 0} → Bytes → ℕ → Process File A → Process (Disk File) A
on_file name status body files = elim (files name) [
  | none ↦ (exits status, files)
  | some contents ↦ store files name (body contents)
]

pub on_file-some :
    {A File : Type 0} (name : Bytes) (status : ℕ) (body : Process File A) (files : Disk File)
    (file : File)
    → files name ≡ some file
    → on_file name status body files ≡ store files name (body file)
on_file-some name status body files file here = rw (here, on_file)
