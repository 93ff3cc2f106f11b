-- ===== src/Cat.antt =====
-- U06/cat.c: files, or the standard input, are written to the standard output line by line, lines
-- in pieces of at most 4095 bytes.
pub mod Printing
mod Tests
use ti.Base.{
  ℕ, zero, suc, ◌+◌, Bool, List, [], ◌∷◌, ◌++◌, Option, none, some, Bytes, length, if◌then◌else◌,
}
use ti.Base.Process.{Process, pure, exit, crash, ◌>>=◌, ◌>>◌, modify, check}
use ti.Base.Disk.{Disk}
use ti.Streams.{Input, input_error, output_error, arg_error, c_string, fgets}

abbrev pub bufsize : ℕ
bufsize = 4096

-- A round of the loop of `cat`, with the n-th `fputs` and the rest of the loop, or the check behind
-- the loop. What a failing `fputs` has written is not modelled.
abbrev pub print_line :
    (ℕ → Bool)
    → ℕ
    → Bool
    → (Input → Process Bytes (Unit {0}))
    → Option (Bytes × Input)
    → Process Bytes (Unit {0})
print_line fputs_fails n error next none = check error input_error
print_line fputs_fails n error next (some (buffer, rest)) = do
  check (fputs_fails n) output_error
  modify (λ printed. printed ++ c_string buffer)
  next rest

-- Every round takes a byte at least.
unfoldable pub cat_loop : (ℕ → Bool) → ℕ → ℕ → Input → Process Bytes (Unit {0})
unfolding fgets c_string
cat_loop fputs_fails zero n stream = crash
cat_loop fputs_fails (suc fuel) n stream =
    print_line fputs_fails n stream.error (cat_loop fputs_fails fuel (n + 1)) (fgets bufsize stream)

unfoldable pub cat : (ℕ → Bool) → Input → Process Bytes (Unit {0})
unfolding cat_loop
cat fputs_fails stream = cat_loop fputs_fails (suc (length stream.bytes)) 0 stream

-- Which calls fail, for the file at each position among the arguments.
pub record Faults : Type 0 where
  pub fputs : ℕ → ℕ → Bool
  pub fclose : ℕ → Bool

-- The loop's body for one file, which is missing if it cannot be opened.
abbrev pub cat_file : Faults → ℕ → Option Input → Process Bytes (Unit {0})
cat_file f file_nr none = exit arg_error
cat_file f file_nr (some stream) = do
  cat (f.fputs file_nr) stream
  check (f.fclose file_nr) input_error

unfoldable pub cat_files : Faults → Disk Input → ℕ → List Bytes → Process Bytes (Unit {0})
unfolding cat
cat_files f files file_nr [] = pure tt
cat_files f files file_nr (name ∷ names) = do
  cat_file f file_nr (files name)
  cat_files f files (file_nr + 1) names

-- On the arguments with the program's name in front.
unfoldable pub main : Faults → Input → Disk Input → List Bytes → Process Bytes (Unit {0})
unfolding cat_files cat
main f stdin files (prog ∷ []) = do cat (f.fputs 0) stdin; exit 0
main f stdin files [] = exit 0
main f stdin files (prog ∷ names) = do cat_files f files 1 names; exit 0
