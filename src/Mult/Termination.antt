-- ===== src/Mult/Termination.antt =====
-- The loop over the lines without fuel.
use ti.Base.{ℕ, zero, suc, ◌≤◌, ◌<◌, ◌≡◌, refl, Option, none, some, arith, Bytes, length}
use ti.Base.Process.{Result, ok, exits, undefined, after}
use ti.Streams.{Input, c_string}
use ti.Streams.Lines.{fgets_shorter}
use ti.Mult.Int.{ℤ}
use ti.Mult.Scanning.{scan_product}
use ti.Mult.{maxline, nextline, add_product, sum_up}

-- The loop without fuel, from a sum, what `nextline` delivered, and what was printed: it ends at the
-- end of the file, or with the first line that cannot be added.
pub data SumsUp : ℤ → Option (Bytes × Input) → Bytes → Result ℤ × Bytes → Type 0 where
  no_line : (sum : ℤ) (printed : Bytes) → SumsUp sum none printed (ok sum, printed)
  added :
      (sum sum' : ℤ) (prod_line : Bytes) (fp : Input) (printed printed' : Bytes)
      (end : Result ℤ × Bytes)
      → add_product sum (scan_product (c_string prod_line)) printed ≡ (ok sum', printed')
      → SumsUp sum' (nextline fp) printed' end
      → SumsUp sum (some (prod_line, fp)) printed end
  illegal :
      (sum : ℤ) (prod_line : Bytes) (fp : Input) (status : ℕ) (printed printed' : Bytes)
      → add_product sum (scan_product (c_string prod_line)) printed ≡ (exits status, printed')
      → SumsUp sum (some (prod_line, fp)) printed (exits status, printed')
  overflow :
      (sum : ℤ) (prod_line : Bytes) (fp : Input) (printed printed' : Bytes)
      → add_product sum (scan_product (c_string prod_line)) printed ≡ (undefined, printed')
      → SumsUp sum (some (prod_line, fp)) printed (undefined, printed')

-- The calls of `nextline` that are left, at most.
abbrev calls_left : Option (Bytes × Input) → ℕ
calls_left none = 0
calls_left (some (line, fp)) = suc (length fp.bytes)

calls_left-nextline : (fp : Input) → calls_left (nextline fp) ≤ length fp.bytes
calls_left-nextline fp =
    go (nextline fp) (λ found e. fgets_shorter maxline fp found (omega arith) e)
  where
    go :
        (line : Option (Bytes × Input))
        → ((found : Bytes × Input) → line ≡ some found → length found.1.bytes < length fp.bytes)
        → calls_left line ≤ length fp.bytes
    go none h = omega arith
    go (some found) h = omega (arith, h found refl)

sum_up_enough :
    (fuel : ℕ) (sum : ℤ) (line : Option (Bytes × Input)) (printed : Bytes)
    → calls_left line ≤ fuel
    → SumsUp sum line printed (sum_up fuel sum line printed)
unfolding sum_up
sum_up_enough fuel sum none printed h = no_line sum printed
sum_up_enough zero sum (some (prod_line, fp)) printed h = absurd (omega arith)
sum_up_enough (suc fuel) sum (some (prod_line, fp)) printed h =
    go (add_product sum (scan_product (c_string prod_line)) printed) refl (λ sum' printed'.
      sum_up_enough fuel sum' (nextline fp) printed' (omega (arith, h, calls_left-nextline fp)))
  where
    go :
        (end : Result ℤ × Bytes)
        → add_product sum (scan_product (c_string prod_line)) printed ≡ end
        → ((sum' : ℤ) (printed' : Bytes)
            → SumsUp sum' (nextline fp) printed' (sum_up fuel sum' (nextline fp) printed'))
        → SumsUp sum
            (some (prod_line, fp))
            printed
            (after (λ sum'. sum_up fuel sum' (nextline fp)) end)
    go (ok sum', printed') e rest =
        added sum sum' prod_line fp printed printed' (sum_up fuel sum' (nextline fp) printed') e
          (rest sum' printed')
    go (exits status, printed') e rest = illegal sum prod_line fp status printed printed' e
    go (undefined, printed') e rest = overflow sum prod_line fp printed printed' e

-- On any file, however its lines look: the fuel that `test_sum` gives the loop is enough for it to
-- end as the loop without fuel ends, at the end of the file or with the first line that cannot be
-- added.
pub sum_up-SumsUp :
    (sum : ℤ) (fp : Input) (printed : Bytes)
    → SumsUp sum (nextline fp) printed (sum_up (suc (length fp.bytes)) sum (nextline fp) printed)
sum_up-SumsUp sum fp printed =
    sum_up_enough (suc (length fp.bytes)) sum (nextline fp) printed
      (omega (arith, calls_left-nextline fp))
