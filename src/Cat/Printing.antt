-- ===== src/Cat/Printing.antt =====
-- What `cat` prints of files without a byte 0.
use ti.Base.{
  ℕ, zero, suc, ◌+◌, ◌<◌, ◌≡◌, ◌≢◌, refl, sym, ap, subst, ◌∙◌, Bool, true, false, List, [], ◌∷◌,
  ◌++◌, Option, none, some, append_assoc, append-nil, arith, Bytes, length, if◌then◌else◌,
  Option-cases, inl, inr,
}
use ti.Base.Disk.{Disk}
use ti.Base.Process.{Result, ok, exits, after as then_do, exit}
use ti.Streams.{arg_error}
use ti.Streams.{Input, c_string, gather, fgets}
use ti.Streams.Lines.{next_line}
use ti.Cat.{Faults, bufsize, print_line, cat_loop, cat, cat_file, cat_files, main}

abbrev pub IsText : Bytes → Type 0
IsText [] = Unit
IsText (c ∷ bytes) = (c ≢ 0) × IsText bytes

c_string_text : (bytes : Bytes) → IsText bytes → c_string bytes ≡ bytes
unfolding c_string
c_string_text [] text = refl
c_string_text (c ∷ bytes) text = ground (arith, c_string_text bytes)

IsText-append : (a b : Bytes) → IsText (a ++ b) → IsText a × IsText b
IsText-append [] b text = (tt, text)
IsText-append (c ∷ a) b text = let (p, q) = IsText-append a b text.1 in ((text.0, p), q)

at_end : fgets bufsize (record { bytes = []; error = false }) ≡ none
unfolding fgets gather
at_end = refl

cat_loop_lem :
    (fputs_fails : ℕ → Bool) (fuel n : ℕ) (bytes printed : Bytes)
    → ((n : ℕ) → fputs_fails n ≡ false)
    → IsText bytes
    → length bytes < fuel
    → cat_loop fputs_fails fuel n (record { bytes = bytes; error = false }) printed
      ≡ (ok tt, printed ++ bytes)
unfolding cat_loop
cat_loop_lem fputs_fails zero n bytes printed fine text enough = absurd (omega arith)
cat_loop_lem fputs_fails (suc fuel) n [] printed fine text enough =
    ap (λ t. print_line fputs_fails n false (cat_loop fputs_fails fuel (n + 1)) t printed) at_end
    ∙ ap (λ t. (ok tt, t)) (sym (append-nil printed))
cat_loop_lem fputs_fails (suc fuel) n (c ∷ bytes) printed fine text enough =
    let next = next_line bufsize c bytes (omega arith) in
    let (line_text, rest_text) =
      IsText-append next.line next.rest (subst IsText (sym next.complete) text) in
    ap (λ t. print_line fputs_fails n false (cat_loop fputs_fails fuel (n + 1)) t printed)
      next.delivered
    ∙ rw (fine n, c_string_text next.line line_text)
        (cat_loop_lem fputs_fails fuel (n + 1) next.rest (printed ++ next.line) fine rest_text
            (omega (arith, next.progress))
          ∙ ap (λ t. (ok tt, t))
              (append_assoc printed next.line next.rest ∙ ap (λ t. printed ++ t) next.complete))

cat_lem :
    (fputs_fails : ℕ → Bool) (stream : Input) (printed : Bytes)
    → ((n : ℕ) → fputs_fails n ≡ false)
    → (stream.error ≡ false) × IsText stream.bytes
    → cat fputs_fails stream printed ≡ (ok tt, printed ++ stream.bytes)
unfolding cat
cat_lem fputs_fails stream printed fine (no_error, text) =
    ap
      (λ e.
        cat_loop fputs_fails (suc (length stream.bytes)) 0
          (record { bytes = stream.bytes; error = e }) printed)
      no_error
    ∙ cat_loop_lem fputs_fails (suc (length stream.bytes)) 0 stream.bytes printed fine text
        (omega arith)

-- In front of the contents of further files, and whether all of these can be opened.
abbrev pub in_front : Option Input → Bytes × Bool → Bytes × Bool
in_front none (rest, all_there) = ([], false)
in_front (some stream) (rest, all_there) = (stream.bytes ++ rest, all_there)

-- The contents of the files up to the first that cannot be opened, and whether there is no such.
abbrev pub contents_of : Disk Input → List Bytes → Bytes × Bool
contents_of files [] = ([], true)
contents_of files (name ∷ names) = in_front (files name) (contents_of files names)

-- Every file is a text that can be read to its end.
abbrev pub AllReadable : Disk Input → Type 0
AllReadable files =
    (name : Bytes) (stream : Input)
    → files name ≡ some stream
    → (stream.error ≡ false) × IsText stream.bytes

-- No `fputs` and no `fclose` fails.
abbrev pub IsFine : Faults → Type 0
IsFine f =
    ((file_nr n : ℕ) → f.fputs file_nr n ≡ false) × ((file_nr : ℕ) → f.fclose file_nr ≡ false)

cat_file_lem :
    (f : Faults) (file_nr : ℕ) (stream : Input) (printed : Bytes)
    → IsFine f
    → (stream.error ≡ false) × IsText stream.bytes
    → cat_file f file_nr (some stream) printed ≡ (ok tt, printed ++ stream.bytes)
cat_file_lem f file_nr stream printed fine readable =
    ap (then_do _) (cat_lem (f.fputs file_nr) stream printed (fine.0 file_nr) readable)
    ∙ rw (fine.1 file_nr)

abbrev pub result : Bool → Result (Unit {0})
result true = ok tt
result false = exits arg_error

cat_files_lem :
    (f : Faults) (files : Disk Input) (file_nr : ℕ) (names : List Bytes) (printed : Bytes)
    → IsFine f
    → AllReadable files
    → cat_files f files file_nr names printed
      ≡ (result (contents_of files names).1, printed ++ (contents_of files names).0)
unfolding cat_files
cat_files_lem f files file_nr [] printed fine readable =
    ap (λ t. (ok tt, t)) (sym (append-nil printed))
cat_files_lem f files file_nr (name ∷ names) printed fine readable =
    elim (Option-cases (files name)) [
      | inl missing ↦ rw missing (ap (λ t. (exits arg_error, t)) (sym (append-nil printed)))
      | inr (stream, found) ↦ rw found (
          ap (then_do (λ _. cat_files f files (file_nr + 1) names))
            (cat_file_lem f file_nr stream printed fine (readable name stream found))
          ∙ cat_files_lem f files (file_nr + 1) names (printed ++ stream.bytes) fine readable
          ∙ ap (λ t. (result (contents_of files names).1, t))
              (append_assoc printed stream.bytes (contents_of files names).0))
    ]

finish :
    (all_there : Bool) (printed : Bytes)
    → then_do {B = Unit {0}} (λ _. exit 0) (result all_there, printed)
      ≡ (exits (if all_there then 0 else arg_error), printed)
finish true printed = refl
finish false printed = refl

-- On files without a byte 0 that can be read to their end, with no call failing but `fopen`: `cat` prints the contents of the
-- files in the order of the arguments up to the first file that cannot be opened. It ends with
-- ARG_ERROR if there is such a file, and else with 0.
pub main_lem :
    (f : Faults) (stdin : Input) (files : Disk Input) (prog name : Bytes) (names : List Bytes)
    (printed : Bytes)
    → IsFine f
    → AllReadable files
    → main f stdin files (prog ∷ name ∷ names) printed ≡ (
      exits (if (contents_of files (name ∷ names)).1 then 0 else arg_error),
      printed ++ (contents_of files (name ∷ names)).0,
    )
unfolding main
main_lem f stdin files prog name names printed fine readable =
    ap (then_do _) (cat_files_lem f files 1 (name ∷ names) printed fine readable)
    ∙ finish (contents_of files (name ∷ names)).1 _
