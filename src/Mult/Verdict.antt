-- ===== src/Mult/Verdict.antt =====
-- The verdict on a file of the documented format.
use ti.Base.{
  ℕ, zero, suc, ◌≤◌, ◌<◌, ◌≡◌, refl, sym, ap, ◌∙◌, Bool, true, List, [], ◌∷◌, ◌++◌, append-nil,
  append_assoc, some, none, arith, Bytes, codes, length, length-append, if◌then◌else◌,
}
use ti.Base.Process.{Process, ok, exits, exit, after as then_do}
use ti.Base.Text.{Lacks, Lacks-append}
use ti.Streams.{c_string, fgets, gather}
use ti.Streams.Lines.{c_string_whole, fgets_line}
use ti.Mult.Int.{ℤ, pos, ◌+ℤ◌, ◌*ℤ◌, ==ℤ, in_int, +ℤ_assoc, +ℤ_zero, zero_+ℤ}
use ti.Mult.Scanning.{scan_int, scan_product}
use ti.Mult.Printing.{
  decimal, product_text, scan_int-decimal, scan_product-product_text, decimal-Lacks, length-decimal,
}
use ti.Mult.{maxline, nextline, as_int, expect, add_product, sum_up, test_sum, main}

abbrev pub lines_text : List (ℤ × ℤ) → Bytes
lines_text [] = []
lines_text (product ∷ products) = product_text product ++ lines_text products

-- The documented format: a number, then lines with products.
abbrev pub file_text : ℤ → List (ℤ × ℤ) → Bytes
file_text expected_sum products = decimal expected_sum ++ b'\n' ∷ lines_text products

abbrev pub sum_of : List (ℤ × ℤ) → ℤ
sum_of [] = pos 0
sum_of ((m, n) ∷ products) = m *ℤ n +ℤ sum_of products

-- An `int` holds all factors and products, and all sums of these from the first one on.
abbrev pub Holds : ℤ → List (ℤ × ℤ) → Type 0
Holds sum [] = Unit
Holds sum ((m, n) ∷ products) =
    (in_int m ≡ true)
    × (in_int n ≡ true)
    × (in_int (m *ℤ n) ≡ true)
    × (in_int (sum +ℤ m *ℤ n) ≡ true)
    × Holds (sum +ℤ m *ℤ n) products

-- A line with a product, without its newline.
abbrev bare_product : ℤ × ℤ → Bytes
bare_product (m, n) = decimal m ++ (codes " * " ++ decimal n)

bare_product_lem :
    (m n : ℤ) (text : Bytes) → bare_product (m, n) ++ b'\n' ∷ text ≡ product_text (m, n) ++ text
bare_product_lem m n text =
    append_assoc (decimal m) (codes " * " ++ decimal n) (b'\n' ∷ text)
    ∙ ap (λ t. decimal m ++ (codes " * " ++ t)) (sym (append_assoc (decimal n) (b'\n' ∷ []) text))
    ∙ sym (append_assoc (decimal m) (codes " * " ++ (decimal n ++ b'\n' ∷ [])) text)

bare_product-Lacks : (c : ℕ) (m n : ℤ) → c < b' ' → Lacks c (bare_product (m, n))
bare_product-Lacks c m n h =
    Lacks-append c (decimal m) (codes " * " ++ decimal n) (decimal-Lacks c m (omega (arith, h))) (
      (λ e. omega (arith, e, h)),
      (
        (λ e. omega (arith, e, h)),
        ((λ e. omega (arith, e, h)), decimal-Lacks c n (omega (arith, h))),
      ),
    )

length-bare_product : (m n : ℤ) → length (bare_product (m, n)) ≤ 25
length-bare_product m n = omega (
  arith,
  length-append (decimal m) (codes " * " ++ decimal n),
  length-decimal m,
  length-decimal n,
)

c_string-line : (line : Bytes) → Lacks 0 line → c_string (line ++ b'\n' ∷ []) ≡ line ++ b'\n' ∷ []
c_string-line line h =
    c_string_whole (line ++ b'\n' ∷ [])
      (Lacks-append 0 line (b'\n' ∷ []) h ((λ e. omega (arith, e)), tt))

scanned :
    (m n : ℤ)
    → in_int m ≡ true
    → in_int n ≡ true
    → scan_product (c_string (bare_product (m, n) ++ b'\n' ∷ [])) ≡ some (m, n)
scanned m n h k =
    ap scan_product (
      c_string-line (bare_product (m, n)) (bare_product-Lacks 0 m n (omega arith))
      ∙ bare_product_lem m n []
      ∙ append-nil (product_text (m, n)))
    ∙ scan_product-product_text m n h k

scanned_first :
    (n : ℤ) → in_int n ≡ true → scan_int (c_string (decimal n ++ b'\n' ∷ [])) ≡ some (n, b'\n' ∷ [])
scanned_first n h =
    ap scan_int (c_string-line (decimal n) (decimal-Lacks 0 n (omega arith)))
    ∙ scan_int-decimal n (b'\n' ∷ []) h refl

length-lines_text : (products : List (ℤ × ℤ)) → length products ≤ length (lines_text products)
length-lines_text [] = omega arith
length-lines_text ((m, n) ∷ products) = omega (
  arith,
  length-lines_text products,
  length-append (product_text (m, n)) (lines_text products),
  length-append (decimal m) (codes " * " ++ (decimal n ++ b'\n' ∷ [])),
)

module _ (error : Bool) where
  nextline_lem :
      (line rest : Bytes)
      → length line ≤ 25
      → Lacks b'\n' line
      → nextline (record { bytes = line ++ b'\n' ∷ rest; error = error })
        ≡ some (line ++ b'\n' ∷ [], record { bytes = rest; error = error })
  nextline_lem line rest h lacks = fgets_line maxline line rest error (omega (arith, h)) lacks

  at_end : nextline (record { bytes = []; error = error }) ≡ none
  unfolding fgets gather
  at_end = ground arith

  as_int_lem : (n : ℤ) (printed : Bytes) → in_int n ≡ true → as_int n printed ≡ (ok n, printed)
  as_int_lem n printed h = rw h

  add_product_lem :
      (sum m n : ℤ) (products : List (ℤ × ℤ)) (printed : Bytes)
      → Holds sum ((m, n) ∷ products)
      → add_product sum (some (m, n)) printed ≡ (ok (sum +ℤ m *ℤ n), printed)
  add_product_lem sum m n products printed (fac1, fac2, product, sums, _) =
      rw (fac1, fac2, product, sums)

  sum_up_lem :
      (fuel : ℕ) (sum : ℤ) (products : List (ℤ × ℤ)) (printed : Bytes)
      → length products ≤ fuel
      → Holds sum products
      → sum_up fuel sum (nextline (record { bytes = lines_text products; error = error })) printed
        ≡ (ok (sum +ℤ sum_of products), printed)
  unfolding sum_up
  sum_up_lem fuel sum [] printed h holds =
      ap (λ line. sum_up fuel sum line printed) at_end
      ∙ ap (λ s. (ok s, printed)) (sym (+ℤ_zero sum))
  sum_up_lem zero sum (product ∷ products) printed h holds = absurd (omega arith)
  sum_up_lem (suc fuel) sum ((m, n) ∷ products) printed h holds =
      ap (λ line. sum_up (suc fuel) sum line printed)
        (ap (λ t. nextline (record { bytes = t; error = error }))
            (sym (bare_product_lem m n (lines_text products)))
          ∙ nextline_lem (bare_product (m, n)) (lines_text products) (length-bare_product m n)
              (bare_product-Lacks b'\n' m n (omega arith)))
      ∙ ap
          (λ t.
            then_do
              (λ sum'.
                sum_up fuel sum' (nextline (record { bytes = lines_text products; error = error })))
              (add_product sum t printed))
          (scanned m n holds.0 holds.1)
      ∙ ap
          (then_do (λ sum'.
            sum_up fuel sum' (nextline (record { bytes = lines_text products; error = error }))))
          (add_product_lem sum m n products printed holds)
      ∙ sum_up_lem fuel (sum +ℤ m *ℤ n) products printed (omega (arith, h)) holds.4
      ∙ ap (λ s. (ok s, printed)) (+ℤ_assoc sum (m *ℤ n) (sum_of products))

-- On a file in the documented format, whose numbers, products and partial sums an `int` can hold,
-- the program ends with 0 and has printed "correct" if the first number is the sum of the products,
-- or else "incorrect"; also if the stream then gives an error in place of its end.
pub main-file_text :
    (error : Bool) (expected_sum : ℤ) (products : List (ℤ × ℤ)) (printed : Bytes)
    → in_int expected_sum ≡ true
    → Holds (pos 0) products
    → main 2 (some (record { bytes = file_text expected_sum products; error = error })) printed ≡ (
      exits 0,
      printed
          ++ (if ==ℤ (sum_of products) expected_sum
              then codes "correct\n"
              else codes "incorrect\n"),
    )
unfolding main test_sum
main-file_text error expected_sum products printed h holds =
    ap (λ line. then_do (λ _. exit 0) (test_sum line printed))
      (nextline_lem error (decimal expected_sum) (lines_text products)
        (omega (arith, length-decimal expected_sum))
        (decimal-Lacks b'\n' expected_sum (omega arith)))
    ∙ ap (λ t. then_do (λ _. exit 0) (then_do tested (expect t printed)))
        (scanned_first expected_sum h)
    ∙ ap (λ t. then_do (λ _. exit 0) (then_do tested t)) (as_int_lem error expected_sum printed h)
    ∙ ap (λ t. then_do (λ _. exit 0) (then_do (judged expected_sum) t))
        (sum_up_lem error (suc (length (lines_text products))) (pos 0) products printed
          (omega (arith, length-lines_text products)) holds)
    ∙ ap
        (λ sum. (
          exits 0,
          printed ++ (if ==ℤ sum expected_sum then codes "correct\n" else codes "incorrect\n"),
        ))
        (zero_+ℤ (sum_of products))
  where
    judged : ℤ → ℤ → Process Bytes (Unit {0})
    judged expected_sum sum printed = (
      ok tt,
      printed ++ (if ==ℤ sum expected_sum then codes "correct\n" else codes "incorrect\n"),
    )

    tested : ℤ → Process Bytes (Unit {0})
    tested expected_sum printed = then_do (judged expected_sum) (
        sum_up (suc (length (lines_text products))) (pos 0)
          (nextline (record { bytes = lines_text products; error = error })) printed)
