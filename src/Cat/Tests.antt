-- ===== src/Cat/Tests.antt =====
-- Runs of cat, and its theorem at a concrete input.
use ti.Base.{
  ℕ, ◌<◌, ◌≡◌, ◌≢◌, refl, subst, Option, false, [], ◌∷◌, ◌++◌, some, none, arith, Bytes, codes,
}
use ti.Base.Disk.{Disk}
use ti.Base.Process.{exits}
use ti.Streams.{Input}
use ti.Cat.{Faults, main}
use ti.Cat.Printing.{IsText, AllReadable, main_lem}

abbrev fine : Faults
fine = record { fputs = λ _ _. false; fclose = λ _. false }

abbrev stream : Bytes → Input
stream bytes = record { bytes = bytes; error = false }

abbrev everywhere : Disk Input
everywhere _ = some (stream (codes "a\n"))

-- What stands behind a 0 in a line is lost.
lost_after_zero :
    main fine (stream (codes "ab" ++ 0 ∷ codes "cd\nef\n")) everywhere (codes "cat" ∷ []) []
    ≡ (exits 0, codes "abef\n")
unfolding main
lost_after_zero = refl

abbrev Readable : Option Input → Type 0
Readable none = Unit
Readable (some s) = (s.error ≡ false) × IsText s.bytes

everywhere-AllReadable : AllReadable everywhere
everywhere-AllReadable name s found =
    subst Readable found (refl, (nonzero b'a' (omega arith), (nonzero b'\n' (omega arith), tt)))
  where
    nonzero : (n : ℕ) → 0 < n → n ≢ 0
    nonzero n h = omega arith

main_lem_example :
    main fine (stream []) everywhere (codes "cat" ∷ codes "a" ∷ codes "b" ∷ []) []
    ≡ (exits 0, codes "a\na\n")
main_lem_example =
    main_lem fine (stream []) everywhere (codes "cat") (codes "a") (codes "b" ∷ []) []
      ((λ file_nr n. refl), (λ file_nr. refl)) everywhere-AllReadable
