-- ===== src/Base/Text.antt =====
-- What the programs use of <string.h>: a C string is the list of its bytes, without the final 0.
use Prim.Native.Nat.{ℕ, zero, suc, ◌+◌, ◌/◌, ◌%◌, ◌≤◌}
use mathlib.Core.Path.{◌≡◌, refl, sym, ap, subst, ◌∙◌}
use mathlib.Core.Logic.{◌≢◌}
use mathlib.Core.Bool.{false}
use mathlib.Core.Option.{Option, none, some}
use mathlib.Core.List.{[], ◌∷◌, ◌++◌}
use native.Mathlib.Omega.{arith}
use mathlib.Core.Logic.{inl, inr}
use ti.Base.Lists.{length, length-append}
use ti.Base.Tests.{Bytes, false-ne-true, Bool-cases, ==_iff, ltb, ◌==◌, if◌then◌else◌, ==_refl}

abbrev onto_front : ℕ → Option (Bytes × Bytes) → Option (Bytes × Bytes)
onto_front x none = none
onto_front x (some (a, b)) = some (x ∷ a, b)

-- `strchr(s, c)`: what stands before the first `c`, and the text from there on.
unfoldable pub strchr : Bytes → ℕ → Option (Bytes × Bytes)
strchr [] c = none
strchr (x ∷ s) c = if x == c then some ([], x ∷ s) else onto_front x (strchr s c)

abbrev or_here : ℕ → Bytes → ℕ → Option (Bytes × Bytes) → Option (Bytes × Bytes)
or_here x s c (some (a, b)) = some (x ∷ a, b)
or_here x s c none = if x == c then some ([], x ∷ s) else none

-- `strrchr(s, c)`: the same for the last `c`.
unfoldable pub strrchr : Bytes → ℕ → Option (Bytes × Bytes)
strrchr [] c = none
strrchr (x ∷ s) c = or_here x s c (strrchr s c)

-- With a `c` in the second of two texts, and none behind it, the first does not count.
pub strrchr-append :
    (s t : Bytes) (c : ℕ) → strrchr t c ≡ none → strrchr (s ++ c ∷ t) c ≡ some (s, c ∷ t)
unfolding strrchr
strrchr-append [] t c h = rw h (rw (==_refl c))
strrchr-append (x ∷ s) t c h = rw (strrchr-append s t c h)

-- The text is cut at the `c`, which stays in the second part.
pub strrchr_lem : (s : Bytes) (c : ℕ) {a b : Bytes} → strrchr s c ≡ some (a, b) → s ≡ a ++ b
unfolding strrchr
strrchr_lem [] c h = cc
strrchr_lem (x ∷ s) c {a} {b} h = go (strrchr s c) (λ p q e. strrchr_lem s c e) h
  where
    go :
        (found : Option (Bytes × Bytes))
        → ((p q : Bytes) → found ≡ some (p, q) → s ≡ p ++ q)
        → or_here x s c found ≡ some (a, b)
        → x ∷ s ≡ a ++ b
    go none ih e = ground arith
    go (some (p, q)) ih e = ground (arith, ih p q refl)

-- The byte does not occur.
abbrev pub Lacks : ℕ → Bytes → Type 0
Lacks c [] = Unit
Lacks c (x ∷ s) = (x ≢ c) × Lacks c s

-- A result of `strchr` in a text, for the same text with more in front.
abbrev pub past : Bytes → Option (Bytes × Bytes) → Option (Bytes × Bytes)
past s none = none
past s (some (a, b)) = some (s ++ a, b)

onto_front-past :
    (x : ℕ) (s : Bytes) (found : Option (Bytes × Bytes))
    → onto_front x (past s found) ≡ past (x ∷ s) found
onto_front-past x s none = refl
onto_front-past x s (some (a, b)) = refl

past_nothing : (found : Option (Bytes × Bytes)) → found ≡ past [] found
past_nothing none = refl
past_nothing (some (a, b)) = refl

differs : (x c : ℕ) → x ≢ c → (x == c) ≡ false
differs x c h = ground arith

pub strchr-append : (s t : Bytes) (c : ℕ) → Lacks c s → strchr (s ++ t) c ≡ past s (strchr t c)
unfolding strchr
strchr-append [] t c lacks = past_nothing (strchr t c)
strchr-append (x ∷ s) t c (ne, lacks) =
    rw (differs x c ne, strchr-append s t c lacks) (onto_front-past x s (strchr t c))

pub Lacks-append : (c : ℕ) (s t : Bytes) → Lacks c s → Lacks c t → Lacks c (s ++ t)
Lacks-append c [] t h k = k
Lacks-append c (x ∷ s) t (ne, h) k = (ne, Lacks-append c s t h k)

-- The decimal digits of a number of at most as many digits as the fuel.
abbrev pub digits : ℕ → ℕ → Bytes
digits zero n = []
digits (suc fuel) n =
    let front = digits fuel (n / 10) in
    if ltb n 10 then (n + b'0') ∷ [] else front ++ (n % 10 + b'0') ∷ []

pub length-digits : (fuel n : ℕ) → length (digits fuel n) ≤ fuel
length-digits zero n = omega arith
length-digits (suc fuel) n = ground (
  arith,
  length-digits fuel (n / 10),
  length-append (digits fuel (n / 10)) ((n % 10 + b'0') ∷ []),
)

not_in_front : (x : ℕ) (found : Option (Bytes × Bytes)) → onto_front x found ≡ none → found ≡ none
not_in_front x none h = refl
not_in_front x (some (a, b)) h = cc

pub strchr-Lacks : (s : Bytes) (c : ℕ) → strchr s c ≡ none → Lacks c s
unfolding strchr
strchr-Lacks [] c h = tt
strchr-Lacks (x ∷ s) c h = elim (Bool-cases (x == c)) [
  | inl same ↦ absurd (something (rw same at h))
  | inr other ↦ (
    (λ e. false-ne-true (sym other ∙ (==_iff x c).1 e)),
    strchr-Lacks s c (not_in_front x (strchr s c) (rw other at h)),
  )
]
  where
    something : {p : Bytes × Bytes} → some p ≡ none → ⊥
    something h = cc

-- What `strchr` finds is the first of its kind.
pub record FoundAt (s : Bytes) (c : ℕ) (front back : Bytes) : Type 0 where
  pub rest : Bytes
  pub back_is : back ≡ c ∷ rest
  pub whole : s ≡ front ++ c ∷ rest
  pub first : Lacks c front

pub strchr_lem :
    (s : Bytes) (c : ℕ) {front back : Bytes}
    → strchr s c ≡ some (front, back)
    → FoundAt s c front back
unfolding strchr
strchr_lem [] c h = cc
strchr_lem (x ∷ s) c {front} {back} h = elim (Bool-cases (x == c)) [
  | inl same ↦ here ((==_iff x c).0 same) (rw same at h)
  | inr other ↦ go other (strchr s c) (λ a b e. strchr_lem s c e) (rw other at h)
]
  where
    here :
        x ≡ c
        → ◌≡◌ {A = Option (Bytes × Bytes)} (some ([], x ∷ s)) (some (front, back))
        → FoundAt (x ∷ s) c front back
    here same e =
        let no_front : [] ≡ front = cc in
        record {
          rest = s;
          back_is = cc;
          whole = subst (λ f. x ∷ s ≡ f ++ c ∷ s) no_front (ap (λ y. y ∷ s) same);
          first = subst (Lacks c) no_front tt;
        }

    go :
        (x == c) ≡ false
        → (found : Option (Bytes × Bytes)) → ((a b : Bytes) → found ≡ some (a, b) → FoundAt s c a b)
        → onto_front x found ≡ some (front, back)
        → FoundAt (x ∷ s) c front back
    go other none ih e = cc
    go other (some (a, b)) ih e =
        let inner = ih a b refl in
        let front_is : x ∷ a ≡ front = cc in
        let back_is : b ≡ back = cc in
        record {
          rest = inner.rest;
          back_is = sym back_is ∙ inner.back_is;
          whole = ap (◌∷◌ x) inner.whole ∙ ap (λ f. f ++ c ∷ inner.rest) front_is;
          first =
              subst (Lacks c) front_is
                ((λ e. false-ne-true (sym other ∙ (==_iff x c).1 e)), inner.first);
        }
