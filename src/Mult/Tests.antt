-- ===== src/Mult/Tests.antt =====
-- Runs of mult-test, and its theorems at concrete inputs.
use ti.Base.{◌≡◌, refl, false, [], ◌∷◌, some, codes, Bytes}
use ti.Base.Process.{exits, undefined}
use ti.Streams.{Input}
use ti.Mult.Int.{pos, negsuc}
use ti.Mult.Verdict.{main-file_text}
use ti.Mult.Termination.{SumsUp, sum_up-SumsUp}
use ti.Mult.{nextline, sum_up, main}

abbrev correct : Bytes
correct = codes "14\n2 * 3\n -4 *-2\n"

main-correct :
    main 2 (some (record { bytes = correct; error = false })) [] ≡ (exits 0, codes "correct\n")
unfolding main
main-correct = refl

-- A blank line is not taken.
main-blank :
    main 2 (some (record { bytes = codes "6\n2 * 3\n\n"; error = false })) [] ≡ (exits 3, [])
unfolding main
main-blank = refl

main-overflow :
    main 2 (some (record { bytes = codes "0\n65536 * 65536\n"; error = false })) []
    ≡ (undefined, [])
unfolding main
main-overflow = refl

main-file_text_example :
    main 2 (some (record { bytes = codes "-6\n2 * -3\n0 * 12\n"; error = false })) []
    ≡ (exits 0, codes "correct\n")
main-file_text_example =
    main-file_text false (negsuc 5) ((pos 2, negsuc 2) ∷ (pos 0, pos 12) ∷ []) [] refl
      (refl, refl, refl, refl, (refl, refl, refl, refl, tt))

abbrev products : Input
products = record { bytes = codes "2 * 3\nno product\n"; error = false }

sum_up-SumsUp_example :
    SumsUp (pos 0) (nextline products) [] (sum_up 18 (pos 0) (nextline products) [])
sum_up-SumsUp_example = sum_up-SumsUp (pos 0) products []
