-- ===== src/Grep/Tests.antt =====
-- Runs of pseudo-grep, and its theorem at a concrete input.
use ti.Base.{zero, suc, ◌≡◌, refl, true, false, [], ◌∷◌, some, none, arith, Bytes, codes}
use ti.Base.Disk.{Disk}
use ti.Base.Process.{ok, exits}
use ti.Streams.{Input}
use ti.Grep.{Faults, pseudo_grep, main}
use ti.Grep.Lines.{matching}
use ti.Grep.Selection.{pseudo_grep_lem}
use ti.Grep.Absent.{Absent, pseudo_grep-Absent}

abbrev fine : Faults
fine = record { fseek = false; fputc = false; fclose = false }

abbrev on_pipe : Faults
on_pipe = record fine { fseek = true }

abbrev stream : Bytes → Input
stream bytes = record { bytes = bytes; error = false }

abbrev poem : Bytes
poem = codes "a\nxaab\nab aab\naa\nb"

abbrev no_files : Disk Input
no_files _ = none

abbrev poem_everywhere : Disk Input
poem_everywhere _ = some (stream poem)

grep-poem :
    main fine (stream []) poem_everywhere (codes "g" ∷ codes "aab" ∷ codes "poem" ∷ []) []
    ≡ (exits 0, codes "xaab\nab aab\n")
unfolding main
grep-poem = refl

-- Reading the standard input works, but the status is that of a file that cannot be opened.
grep-stdin :
    main fine (stream poem) no_files (codes "g" ∷ codes "b" ∷ []) []
    ≡ (exits 3, codes "xaab\nab aab\nb")
unfolding main
grep-stdin = refl

-- A stream without seeks ends the search at the first match, behind the offset in the line.
grep-pipe :
    main on_pipe (stream poem) no_files (codes "g" ∷ codes "b" ∷ []) [] ≡ (exits 1, codes "4")
unfolding main
grep-pipe = refl

abbrev umlaut : Bytes
umlaut = 0xc3 ∷ 0xa4 ∷ []

umlaut-Absent : Absent 0xc3 umlaut
umlaut-Absent zero c h = ground arith
umlaut-Absent (suc zero) c h = ground arith
umlaut-Absent (suc (suc n)) c h = ground arith

pseudo_grep-Absent_example : pseudo_grep fine umlaut (stream umlaut) [] ≡ (ok tt, [])
pseudo_grep-Absent_example =
    pseudo_grep-Absent fine 0xc3 (0xa4 ∷ []) (stream umlaut) [] umlaut-Absent

pseudo_grep_lem_example :
    pseudo_grep fine (codes "aab") (stream poem) [] ≡ (ok tt, codes "xaab\nab aab\n")
unfolding matching
pseudo_grep_lem_example =
    pseudo_grep_lem false (codes "aab") poem [] (omega arith) (omega arith) (omega arith)
