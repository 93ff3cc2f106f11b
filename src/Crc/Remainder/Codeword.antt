-- ===== src/Crc/Remainder/Codeword.antt =====
-- A file with its checksum: the two bytes of the remainder that it has with two zeros instead.
use ti.Base.{ℕ, ◌+◌, ◌*◌, ◌/◌, ◌%◌, ◌^◌, ◌<◌, ◌≡◌, refl, ap, ◌∙◌, [], ◌∷◌, ◌++◌, arith, Bytes}
use ti.Crc.Remainder.Register.{feed, feed-lt}
use ti.Crc.Remainder.Division.{value}
use ti.Crc.Remainder.Detection.{checksum_cancels}
use ti.Crc.Remainder.Delivered.{bits_of, bits_of-append, bits_of-IsBits}
use ti.Crc.Remainder.Reading.{remainder}

abbrev pub checksum : Bytes → ℕ
checksum data' = remainder (data' ++ 0 ∷ 0 ∷ [])

abbrev pub with_checksum : Bytes → Bytes
with_checksum data' = data' ++ (checksum data' / 2 ^ 8) ∷ (checksum data' % 2 ^ 8) ∷ []

pub remainder-lt : (contents : Bytes) → remainder contents < 2 ^ 16
remainder-lt contents = feed-lt 0 (bits_of contents) (omega arith) (bits_of-IsBits contents)

value_bytes : (hi lo : ℕ) → hi < 256 → lo < 256 → value 0 (bits_of (hi ∷ lo ∷ [])) ≡ hi * 256 + lo
value_bytes hi lo h i = omega arith

-- The remainder of a file with its checksum is 0.
pub remainder-with_checksum : (data' : Bytes) → remainder (with_checksum data') ≡ 0
remainder-with_checksum data' =
    let r = checksum data' in
    let hi = r / 2 ^ 8 in
    let lo = r % 2 ^ 8 in
    let small = remainder-lt (data' ++ 0 ∷ 0 ∷ []) in
    ap (feed 0) (bits_of-append data' (hi ∷ lo ∷ []))
    ∙ checksum_cancels (bits_of data') (bits_of (hi ∷ lo ∷ [])) (bits_of-IsBits data')
        (bits_of-IsBits (hi ∷ lo ∷ [])) refl
        (value_bytes hi lo (omega (arith, small)) (omega arith)
          ∙ (let e : hi * 256 + lo ≡ r = omega arith in e)
          ∙ ap (feed 0) (bits_of-append data' (0 ∷ 0 ∷ [])))
