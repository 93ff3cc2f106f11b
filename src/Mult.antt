-- ===== src/Mult.antt =====
-- U01/mult-test.c: is the first line of a file the sum of the products in the other lines? Scanning
-- has `sscanf`, Int the integers. What C leaves undefined for an `int` that overflows ends the
-- process.
pub mod Int
pub mod Scanning
pub mod Printing
pub mod Termination
pub mod Verdict
mod Tests
use ti.Base.{
  ℕ, zero, suc, Bool, not, [], ◌∷◌, ◌++◌, Option, none, some, Bytes, codes, length, ◌==◌,
  if◌then◌else◌,
}
use ti.Base.Process.{Process, pure, exit, crash, ◌>>=◌, ◌>>◌, modify, check}
use ti.Streams.{Input, c_string, fgets}
use ti.Mult.Int.{ℤ, pos, ◌+ℤ◌, ◌*ℤ◌, ==ℤ, in_int}
use ti.Mult.Scanning.{scan_int, scan_product}

abbrev pub maxline : ℕ
maxline = 50

abbrev pub nextline : Input → Option (Bytes × Input)
nextline fp = fgets maxline fp

-- A value that an `int` can hold.
abbrev pub as_int : ℤ → Process Bytes ℤ
as_int n = if in_int n then pure n else crash

-- `sscanf(sum_string, "%d", &expected_sum) != 1`
abbrev pub expect : Option (ℤ × Bytes) → Process Bytes ℤ
expect none = exit 3
expect (some (n, rest)) = as_int n

-- A product is read and added to the sum.
abbrev pub add_product : ℤ → Option (ℤ × ℤ) → Process Bytes ℤ
add_product sum none = exit 3
add_product sum (some (m, n)) = do
  fac1 ← as_int m
  fac2 ← as_int n
  product ← as_int (fac1 *ℤ fac2)
  as_int (sum +ℤ product)

-- The loop over the lines, on fuel that is more than there are bytes.
unfoldable pub sum_up : ℕ → ℤ → Option (Bytes × Input) → Process Bytes ℤ
unfolding c_string fgets scan_product
sum_up fuel sum none = pure sum
sum_up zero sum (some (prod_line, fp)) = crash
sum_up (suc fuel) sum (some (prod_line, fp)) = do
  sum' ← add_product sum (scan_product (c_string prod_line))
  sum_up fuel sum' (nextline fp)

-- From the first line on.
unfoldable pub test_sum : Option (Bytes × Input) → Process Bytes (Unit {0})
unfolding sum_up c_string scan_int fgets
test_sum none = exit 3
test_sum (some (sum_string, fp)) = do
  expected_sum ← expect (scan_int (c_string sum_string))
  sum ← sum_up (suc (length fp.bytes)) (pos 0) (nextline fp)
  modify (λ printed.
      printed ++ (if ==ℤ sum expected_sum then codes "correct\n" else codes "incorrect\n"))

abbrev pub test_file : Option Input → Process Bytes (Unit {0})
test_file none = exit 2
test_file (some fp) = test_sum (nextline fp)

-- That the file cannot be closed only leads to a message.
unfoldable pub main : ℕ → Option Input → Process Bytes (Unit {0})
unfolding test_sum fgets
main argc fopen = do check (not (argc == 2)) 1; test_file fopen; exit 0
