-- ===== src/Crc/Validate/Copying.antt =====
-- The copying loops: if they go on to the end, they have copied all but the checksum.
use ti.Base.{
  ℕ, zero, suc, ◌+◌, ◌-◌, ◌*◌, ◌/◌, ◌≤◌, ◌≡◌, refl, sym, ap, ◌∙◌, not, false, [], ◌∷◌, ◌++◌,
  append_assoc, append-nil, arith, Bytes, length, take, drop, ◌==◌, ltb, take-add, length-take,
  Bool-cases, inl, inr, ltb_false→le,
}
use ti.Base.Outcome.{Outcome, Outcome-after, Outcome-check, Outcome-last_check, Outcome-map}
use ti.Crc.Validate.{Faults, copy_block, copy_blocks, copy_contents}
use ti.Crc.{err_io, bufsize}

-- A part as long as the whole is the whole.
take_whole : (k : ℕ) (xs : Bytes) → length (take k xs) ≡ length xs → take k xs ≡ xs
take_whole zero [] h = refl
take_whole zero (x ∷ xs) h = absurd (omega arith)
take_whole (suc k) [] h = refl
take_whole (suc k) (x ∷ xs) h = ap (◌∷◌ x) (take_whole k xs (omega arith))

passed : (a b : ℕ) → not (a == b) ≡ false → a ≡ b
passed a b h = ground arith

abbrev Anything : Bytes → Type 0
Anything out = Unit

abbrev Adds : Bytes → Bytes → Unit {0} → Bytes → Type 0
Adds out added _ out' = out' ≡ out ++ added

pub joined :
    (m n k : ℕ) (unread out out' : Bytes)
    → out' ≡ out ++ take m unread
    → m + n ≡ k
    → out' ++ take n (drop m unread) ≡ out ++ take k unread
joined m n k unread out out' e sum =
    ap (λ t. t ++ take n (drop m unread)) e
    ∙ append_assoc out (take m unread) (take n (drop m unread))
    ∙ ap (λ t. out ++ t) (sym (take-add m n unread) ∙ ap (λ t. take t unread) sum)

module _ (f : Faults) where
  copy_block-Adds :
      (count n : ℕ) (unread out : Bytes)
      → Outcome Anything (Adds out (take count unread)) (copy_block f count n unread out)
  unfolding copy_block
  copy_block-Adds count n unread out =
      let whole = take count unread in
      let buffer = take (f.reads n) whole in
      let written = take (f.writes n) buffer in
      Outcome-check Anything (Adds out whole) (not (length buffer == count)) err_io _ out tt λ full.
        Outcome-last_check Anything (Adds out whole) (not (length written == count)) err_io
          (out ++ written) tt
          λ full'.
            ap (λ t. out ++ t)
              (take_whole (f.writes n) buffer (passed _ _ full' ∙ sym (passed _ _ full))
                ∙ take_whole (f.reads n) whole (
                    omega (
                      arith,
                      passed _ _ full,
                      length-take count unread,
                      length-take (f.reads n) whole,
                    )))

  copy_blocks-Adds :
      (left n : ℕ) (unread out : Bytes)
      → Outcome Anything (Adds out (take (left * bufsize) unread)) (copy_blocks f left n unread out)
  unfolding copy_blocks
  copy_blocks-Adds zero n unread out = sym (append-nil out)
  copy_blocks-Adds (suc left) n unread out =
      Outcome-after Anything (Adds out (take bufsize unread))
        (Adds out (take (suc left * bufsize) unread)) _ _ (copy_block-Adds bufsize n unread out)
        λ _ out' first.
          Outcome-map (copy_blocks f left (n + 1) (drop bufsize unread) out')
            (copy_blocks-Adds left (n + 1) (drop bufsize unread) out') (λ _ h. h)
            λ _ out'' rest.
              rest
              ∙ joined bufsize (left * bufsize) (suc left * bufsize) unread out out' first
                  (omega arith)

  -- The file is too short for a checksum, or all but the checksum is copied.
  pub copy_contents-Adds :
      (contents out : Bytes)
      → Outcome Anything
          (λ _ out'. (2 ≤ length contents) × (out' ≡ out ++ take (length contents - 2) contents))
          (copy_contents f contents out)
  unfolding copy_contents
  copy_contents-Adds contents out = elim (Bool-cases (ltb (length contents) 2)) [
    | inl short ↦ rw short tt
    | inr long ↦ rw long (
        let size = length contents in
        let blocks = (size - 2) / bufsize in
        let enough : 2 ≤ size = ltb_false→le size 2 long in
        Outcome-after Anything (Adds out (take (blocks * bufsize) contents)) _ _ _
          (copy_blocks-Adds blocks 0 contents out)
          λ _ out' first.
            Outcome-map
              (copy_block f (size - blocks * bufsize - 2) blocks (drop (blocks * bufsize) contents)
                out')
              (copy_block-Adds (size - blocks * bufsize - 2) blocks
                (drop (blocks * bufsize) contents) out')
              (λ _ h. h)
              λ _ out'' rest. (
                enough,
                rest
                    ∙ joined (blocks * bufsize) (size - blocks * bufsize - 2) (size - 2) contents
                        out out' first (omega arith),
              ))
  ]
