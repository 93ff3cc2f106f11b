-- ===== src/Crc/Remainder/Delivered.antt =====
-- The bits that `next_bit_from` delivers: those of the file's bytes, highest first, and what failing
-- calls of `fgetc` put in their place.
use ti.Base.{
  ℕ, zero, suc, ◌+◌, ◌-◌, ◌*◌, ◌/◌, ◌%◌, ◌^◌, ◌<◌, ◌≡◌, refl, ap, ◌∙◌, List, [], ◌∷◌, ◌++◌, some,
  none, get_elem?-drop_nil, if◌then◌else◌, arith, Bytes, get_elem?, drop, length, false, true, Bool,
  Bool-cases, inl, inr, get_elem?-drop,
}
use native.Mathlib.Numerals.{add-one}
use ti.Base.Bits.{bit_and-one}
use ti.Crc.Remainder.Register.{IsBits, feed}
use ti.Crc.Remainder.{Stream, eof, later, fresh_byte, shift_through, next_bit_from, shift_in}

abbrev pub byte_bits : ℕ → List ℕ
byte_bits c =
    c / 128 % 2
    ∷ c / 64 % 2
    ∷ c / 32 % 2
    ∷ c / 16 % 2
    ∷ c / 8 % 2
    ∷ c / 4 % 2
    ∷ c / 2 % 2
    ∷ c / 1 % 2
    ∷ []

abbrev pub bits_of : Bytes → List ℕ
bits_of [] = []
bits_of (c ∷ bytes) = byte_bits c ++ bits_of bytes

abbrev pub reading : (ℕ → Bool) → Bytes → ℕ → ℕ → ℕ → Stream
reading fgetc_fails contents pos byte offs = record {
  contents = contents;
  pos = pos;
  cur_byte = byte;
  cur_offs = offs;
  fgetc_fails = fgetc_fails;
}

-- No call of `fgetc` fails.
abbrev pub never : ℕ → Bool
never n = false

abbrev pub within : Bytes → ℕ → ℕ → ℕ → Stream
within = reading never

-- What so many calls of `fgetc` deliver of the rest of a file, as the bytes that the register sees:
-- the bits of `EOF` are those of 255.
abbrev pub delivered : (ℕ → Bool) → ℕ → Bytes → Bytes
delivered fails zero rest = []
delivered fails (suc n) [] = 255 ∷ delivered (later fails) n []
delivered fails (suc n) (c ∷ rest) =
    if fails 0
    then 255 ∷ delivered (later fails) n (c ∷ rest)
    else c ∷ delivered (later fails) n rest

pub delivered-never : (bytes : Bytes) → delivered never (length bytes) bytes ≡ bytes
delivered-never [] = refl
delivered-never (c ∷ bytes) = ap (λ t. c ∷ t) (delivered-never bytes)

-- What is left of the failures behind so many calls.
abbrev pub left_over : (ℕ → Bool) → ℕ → ℕ → Bool
left_over fails zero = fails
left_over fails (suc n) = left_over (later fails) n

pub left_over-never : (n : ℕ) → left_over never n ≡ never
left_over-never zero = refl
left_over-never (suc n) = left_over-never n

module _ (contents : Bytes) where
  -- A call of `fgetc` from one stream to another.
  abbrev Fetches : (ℕ → Bool) → (pos byte c pos' : ℕ) → Type 0
  Fetches fails pos byte c pos' =
      fresh_byte (reading fails contents pos byte 7) ≡ reading (later fails) contents pos' c 0

  Fetches-byte :
      (fails : ℕ → Bool) (pos byte c : ℕ)
      → fails 0 ≡ false
      → get_elem? contents pos ≡ some c
      → Fetches fails pos byte c (pos + 1)
  unfolding fresh_byte
  Fetches-byte fails pos byte c h k = simp (h, k)

  Fetches-end :
      (fails : ℕ → Bool) (pos byte : ℕ)
      → get_elem? contents pos ≡ none
      → Fetches fails pos byte eof pos
  unfolding fresh_byte
  Fetches-end fails pos byte h = elim (Bool-cases (fails 0)) [
    | inl failed ↦ simp failed
    | inr worked ↦ simp (worked, h)
  ]

  Fetches-error :
      (fails : ℕ → Bool) (pos byte : ℕ) → fails 0 ≡ true → Fetches fails pos byte eof pos
  unfolding fresh_byte
  Fetches-error fails pos byte h = simp h

  first_bit :
      (fails : ℕ → Bool) (pos byte c pos' : ℕ)
      → Fetches fails pos byte c pos'
      → next_bit_from (reading fails contents pos byte 7)
        ≡ (c / 128 % 2, reading (later fails) contents pos' c 0)
  unfolding next_bit_from
  first_bit fails pos byte c pos' h = rw (h, bit_and-one (c / 128))

  later_bit :
      (fails : ℕ → Bool) (pos c offs : ℕ)
      → offs < 7
      → next_bit_from (reading fails contents pos c offs)
        ≡ (c / 2 ^ (7 - (offs + 1)) % 2, reading fails contents pos c (offs + 1))
  unfolding next_bit_from
  later_bit fails pos c offs h = ground (arith, bit_and-one (c / 2 ^ (7 - (offs + 1))))

  shift_round :
      (n r b : ℕ) (s : Stream) {s' : Stream}
      → next_bit_from s ≡ (b, s')
      → shift_through (suc n) r s ≡ shift_through n (shift_in r b) s'
  unfolding shift_through
  shift_round n r b s e = rw e

  shift_byte :
      (fails : ℕ → Bool) (pos byte c pos' r n : ℕ)
      → Fetches fails pos byte c pos'
      → shift_through
          (suc (suc (suc (suc (suc (suc (suc (suc n))))))))
          r
          (reading fails contents pos byte 7)
        ≡ shift_through n (feed r (byte_bits c)) (reading (later fails) contents pos' c 7)
  shift_byte fails pos byte c pos' r n h =
      let behind = later fails in
      shift_round _ r _ _ (first_bit fails pos byte c pos' h)
      ∙ shift_round _ _ _ _ (later_bit behind pos' c 0 (omega arith))
      ∙ shift_round _ _ _ _ (later_bit behind pos' c 1 (omega arith))
      ∙ shift_round _ _ _ _ (later_bit behind pos' c 2 (omega arith))
      ∙ shift_round _ _ _ _ (later_bit behind pos' c 3 (omega arith))
      ∙ shift_round _ _ _ _ (later_bit behind pos' c 4 (omega arith))
      ∙ shift_round _ _ _ _ (later_bit behind pos' c 5 (omega arith))
      ∙ shift_round _ _ _ _ (later_bit behind pos' c 6 (omega arith))

-- From a byte's boundary on: all bits that are delivered go through the register, and the stream
-- stays that of the same file.
abbrev pub Finishes : (ℕ → Bool) → Bytes → ℕ → ℕ × Stream → Type 0
Finishes fails contents rem result =
    (pos : ℕ) × (byte : ℕ) × (result ≡ (rem, reading fails contents pos byte 7))

shift_on :
    (n : ℕ) (fails left : ℕ → Bool) (contents : Bytes) (pos byte c pos' r rem : ℕ)
    → Fetches contents fails pos byte c pos'
    → Finishes left contents rem
        (shift_through (n * 8) (feed r (byte_bits c)) (reading (later fails) contents pos' c 7))
    → Finishes left contents rem (shift_through (suc n * 8) r (reading fails contents pos byte 7))
shift_on n fails left contents pos byte c pos' r rem fetches (end, last, done) =
    let rounds : suc n * 8 ≡ suc (suc (suc (suc (suc (suc (suc (suc (n * 8)))))))) = omega arith in
    (
      end,
      last,
      ap (λ k. shift_through k r (reading fails contents pos byte 7)) rounds
          ∙ shift_byte contents fails pos byte c pos' r (n * 8) fetches
          ∙ done,
    )

pub shift_delivered :
    (n : ℕ) (fails : ℕ → Bool) (contents rest : Bytes) (pos byte r : ℕ)
    → drop pos contents ≡ rest
    → Finishes
        (left_over fails n)
        contents
        (feed r (bits_of (delivered fails n rest)))
        (shift_through (n * 8) r (reading fails contents pos byte 7))
unfolding shift_through
shift_delivered zero fails contents rest pos byte r e = (pos, byte, refl)
shift_delivered (suc n) fails contents [] pos byte r e =
    shift_on n fails _ contents pos byte eof pos r _
      (Fetches-end contents fails pos byte (get_elem?-drop_nil pos contents e))
      (shift_delivered n (later fails) contents [] pos eof (feed r (byte_bits eof)) e)
shift_delivered (suc n) fails contents (c ∷ rest) pos byte r e =
    let (here, behind) = get_elem?-drop pos contents e in
    let next : drop (pos + 1) contents ≡ rest = (rw add-one behind) in
    go (fails 0) refl here
      (shift_delivered n (later fails) contents (c ∷ rest) pos eof (feed r (byte_bits eof)) e)
      (shift_delivered n (later fails) contents rest (pos + 1) c (feed r (byte_bits c)) next)
  where
    Ends : Bytes → ℕ × Stream → Type 0
    Ends bytes = Finishes (left_over (later fails) n) contents (feed r (bits_of bytes))

    go :
        (failed : Bool)
        → fails 0 ≡ failed
        → get_elem? contents pos ≡ some c
        → Ends (255 ∷ delivered (later fails) n (c ∷ rest)) (
            shift_through
              (n * 8)
              (feed r (byte_bits eof))
              (reading (later fails) contents pos eof 7))
        → Ends (c ∷ delivered (later fails) n rest) (
            shift_through
              (n * 8)
              (feed r (byte_bits c))
              (reading (later fails) contents (pos + 1) c 7))
        → Ends
            (if failed
              then 255 ∷ delivered (later fails) n (c ∷ rest)
              else c ∷ delivered (later fails) n rest)
            (shift_through (suc n * 8) r (reading fails contents pos byte 7))
    go true failed here again goes_on =
        shift_on n fails _ contents pos byte eof pos r _
          (Fetches-error contents fails pos byte failed) again
    go false worked here again goes_on =
        shift_on n fails _ contents pos byte c (pos + 1) r _
          (Fetches-byte contents fails pos byte c worked here) goes_on

digit : (n : ℕ) → n % 2 < 2
digit n = omega arith

pub bits_of-IsBits : (bytes : Bytes) → IsBits (bits_of bytes)
bits_of-IsBits [] = tt
bits_of-IsBits (c ∷ bytes) = (
  digit _,
  (digit _, (digit _, (digit _, (digit _, (digit _, (digit _, (digit _, bits_of-IsBits bytes))))))),
)

pub bits_of-append : (xs ys : Bytes) → bits_of (xs ++ ys) ≡ bits_of xs ++ bits_of ys
bits_of-append [] ys = refl
bits_of-append (x ∷ xs) ys = ap (λ t. byte_bits x ++ t) (bits_of-append xs ys)
