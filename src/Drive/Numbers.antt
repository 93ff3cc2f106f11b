-- ===== src/Drive/Numbers.antt =====
-- The numbers of 16 and 32 bits that are read from the image.
use ti.Base.{ℕ, ◌+◌, ◌*◌, ◌^◌, ◌<◌, ◌≡◌, ap, subst, ◌∙◌, false, some, arith, get_elem?}
use ti.Base.Process.{ok, after as then_do}
use ti.Drive.{Image, Output, read_8, read_16, read_32}

-- No `ftell` and no `fseek` fails.
pub record Works (image : Image) : Type 0 where
  pub ftell : image.ftell ≡ false
  pub fseek : image.fseek ≡ false
  pub return : image.return ≡ false

-- The byte at an offset.
abbrev pub HoldsAt : Image → ℕ → ℕ → Type 0
HoldsAt image offset byte = (get_elem? image.contents offset ≡ some byte) × (byte < 2 ^ 8)

module _ (image : Image) (works : Works image) (printed : Output) where
  read_8_lem :
      (offset byte : ℕ)
      → HoldsAt image offset byte
      → read_8 image offset printed ≡ (ok byte, printed)
  unfolding read_8
  read_8_lem offset byte (here, small) =
      rw (works.ftell, works.fseek, here, works.return) (ap (λ n. (ok n, printed)) (omega arith))

  read_16_lem :
      (offset a b : ℕ)
      → HoldsAt image offset a
      → HoldsAt image (offset + 1) b
      → read_16 image offset printed ≡ (ok (b * 2 ^ 8 + a), printed)
  unfolding read_16
  read_16_lem offset a b here next =
      ap (then_do _) (read_8_lem offset a here)
      ∙ ap (then_do _) (read_8_lem (offset + 1) b next)
      ∙ ap (λ n. (ok n, printed)) (omega (arith, here.1, next.1))

-- Where three bytes a, b, c can be read at an offset, `read_32` gives a number of the bytes a, b, b,
-- c, the lowest first: the second is taken twice, and no fourth is read.
pub read_32_lem :
    (image : Image) (offset a b c : ℕ) (printed : Output)
    → Works image
    → HoldsAt image offset a
    → HoldsAt image (offset + 1) b
    → HoldsAt image (offset + 2) c
    → read_32 image offset printed ≡ (ok (a + b * 2 ^ 8 + b * 2 ^ 16 + c * 2 ^ 24), printed)
unfolding read_32
read_32_lem image offset a b c printed works first second third =
    ap (then_do _) (read_16_lem image works printed offset a b first second)
    ∙ ap (then_do _) (read_16_lem image works printed (offset + 1) b c second third')
    ∙ ap (λ n. (ok n, printed)) (omega (arith, first.1, second.1, third.1))
  where
    third' : HoldsAt image (offset + 1 + 1) c
    third' = subst (λ n. HoldsAt image n c) same third
      where
        same : offset + 2 ≡ offset + 1 + 1
        same = omega arith
