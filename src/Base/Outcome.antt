-- ===== src/Base/Outcome.antt =====
-- What holds of the state and the value if a process goes on, and of the state if it ends early.
use Prim.Native.Nat.{ℕ}
use mathlib.Core.Path.{◌≡◌, refl}
use mathlib.Core.Bool.{Bool, true, false}
use ti.Base.Tests.{if◌then◌else◌}
use ti.Base.Process.{Process, Result, ok, exits, undefined, after, check}

abbrev pub Outcome {ℓ} : {S A : Type 0} → (S → Type ℓ) → (A → S → Type ℓ) → Result A × S → Type ℓ
Outcome P Q (ok a, s) = Q a s
Outcome P Q (exits status, s) = P s
Outcome P Q (undefined, s) = P s

pub Outcome-after {ℓ} :
    {S A B : Type 0} (P : S → Type ℓ) (R : A → S → Type ℓ) (Q : B → S → Type ℓ)
    (f : A → Process S B) (m : Result A × S)
    → Outcome P R m
    → ((a : A) (s : S) → R a s → Outcome P Q (f a s))
    → Outcome P Q (after f m)
Outcome-after P R Q f (ok a, s) h k = k a s h
Outcome-after P R Q f (exits status, s) h k = h
Outcome-after P R Q f (undefined, s) h k = h

-- A check that lets the process go on was passed, and changes nothing.
pub Outcome-check {ℓ} :
    {S B : Type 0} (P : S → Type ℓ) (Q : B → S → Type ℓ) (failed : Bool) (status : ℕ)
    (f : Unit {0} → Process S B) (s : S)
    → P s
    → (failed ≡ false → Outcome P Q (f tt s))
    → Outcome P Q (after f (check failed status s))
Outcome-check P Q true status f s h k = h
Outcome-check P Q false status f s h k = k refl

-- The same for the last step of a process.
pub Outcome-last_check {ℓ} :
    {S : Type 0} (P : S → Type ℓ) (Q : Unit {0} → S → Type ℓ) (failed : Bool) (status : ℕ) (s : S)
    → P s
    → (failed ≡ false → Q tt s)
    → Outcome P Q (check failed status s)
Outcome-last_check P Q true status s h k = h
Outcome-last_check P Q false status s h k = k refl

pub Outcome-map {ℓ κ} :
    {S A : Type 0} {P : S → Type ℓ} {P' : S → Type κ} {Q : A → S → Type ℓ} {Q' : A → S → Type κ}
    (m : Result A × S)
    → Outcome P Q m
    → ((s : S) → P s → P' s)
    → ((a : A) (s : S) → Q a s → Q' a s)
    → Outcome P' Q' m
Outcome-map (ok a, s) h p q = q a s h
Outcome-map (exits status, s) h p q = p s h
Outcome-map (undefined, s) h p q = p s h

-- What holds however the process ends, holds of its last state.
pub Outcome_state {ℓ} :
    {S A : Type 0} (P : S → Type ℓ) (m : Result A × S) → Outcome P (λ _. P) m → P m.1
Outcome_state P (ok a, s) h = h
Outcome_state P (exits status, s) h = h
Outcome_state P (undefined, s) h = h

-- Both branches of a test.
pub Outcome-if {ℓ} :
    {S A : Type 0} (P : S → Type ℓ) (Q : A → S → Type ℓ) (b : Bool) (m k : Process S A) (s : S)
    → (b ≡ true → Outcome P Q (m s))
    → (b ≡ false → Outcome P Q (k s))
    → Outcome P Q ((if b then m else k) s)
Outcome-if P Q true m k s p q = p refl
Outcome-if P Q false m k s p q = q refl
