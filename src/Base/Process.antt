-- ===== src/Base/Process.antt =====
-- A process: a computation over a state of type `S` that goes on with a value, ends with a status
-- (`err`, `errx`, `exit`), or does what C leaves undefined.
use mathlib.Core.Bool.{Bool}
use Prim.Native.Nat.{ℕ}
use ti.Base.Tests.{if◌then◌else◌}

pub data Result {ℓ} (A : Type ℓ) : Type ℓ where
  ok : A → Result A
  exits : ℕ → Result A
  undefined : Result A

abbrev pub Process : Type 0 → Type 0 → Type 0
Process S A = S → Result A × S

abbrev pub pure : {S A : Type 0} → A → Process S A
pure a s = (ok a, s)

-- `err(status, ...)`, `errx(status, ...)` and `exit(status)`
abbrev pub exit : {S A : Type 0} → ℕ → Process S A
exit status s = (exits status, s)

abbrev pub crash : {S A : Type 0} → Process S A
crash s = (undefined, s)

abbrev pub after : {S A B : Type 0} → (A → Process S B) → Result A × S → Result B × S
after f (ok a, s) = f a s
after f (exits status, s) = (exits status, s)
after f (undefined, s) = (undefined, s)

infixl 5 ◌>>=◌ ◌>>◌
abbrev pub ◌>>=◌ : {S A B : Type 0} → Process S A → (A → Process S B) → Process S B
◌>>=◌ m f s = after f (m s)

abbrev pub ◌>>◌ : {S B : Type 0} → Process S (Unit {0}) → Process S B → Process S B
m >> k = m >>= λ _. k

abbrev pub modify : {S : Type 0} → (S → S) → Process S (Unit {0})
modify f s = (ok tt, f s)

abbrev pub gets : {S A : Type 0} → (S → A) → Process S A
gets f s = (ok (f s), s)

-- `if (failed) err(status, ...);`
abbrev pub check : {S : Type 0} → Bool → ℕ → Process S (Unit {0})
check failed status = if failed then exit status else pure tt
