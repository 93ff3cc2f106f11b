-- ===== src/Wc/Tests.antt =====
-- A run of wc, and its theorem at a concrete input.
use ti.Base.{◌≡◌, refl, false, [], ◌∷◌, none, arith, codes}
use ti.Base.Process.{ok, exits}
use ti.Streams.{Input}
use ti.Wc.{is_whitespace, wc, main}
use ti.Wc.Counting.{wc_lem}

abbrev verse : Input
verse = record { bytes = codes " two  words\n\tand three\nmore"; error = false }

wc-verse :
    main verse (λ _. none) false (codes "wc" ∷ []) []
    ≡ (exits 0, record { newlines = 2; words = 5; bytes = 27 } ∷ [])
unfolding main
wc-verse = refl

wc-missing : main verse (λ _. none) false (codes "wc" ∷ codes "a" ∷ []) [] ≡ (exits 3, [])
unfolding main
wc-missing = refl

wc_lem_example : wc verse [] ≡ (ok tt, record { newlines = 2; words = 5; bytes = 27 } ∷ [])
unfolding is_whitespace
wc_lem_example = wc_lem verse [] (omega arith)
