-- ===== src/Crc/Calculate/Safety.antt =====
-- What `calculate` leaves of the data, whichever calls fail.
use Prim.Native.Nat.{bit_and}
use ti.Base.{
  Option, ℕ, ◌+◌, ◌-◌, ◌/◌, ◌%◌, ◌^◌, ◌≡◌, refl, sym, ap, ap₂, append-nil, subst, ◌∙◌, ◌⊎◌, inl,
  inr, Bool, true, false, [], ◌∷◌, ◌++◌, some, none, arith, Bytes, length, ◌||◌, ◌==◌, ltb, take,
  drop, length-append, append_assoc,
}
use ti.Base.Process.{ok, exits, undefined, Result, after}
use ti.Base.Disk.{Disk, update, update_self, on_file-some, store}
use ti.Base.Outcome.{Outcome, Outcome-after, Outcome-check, Outcome-last_check, Outcome_state}
use ti.Crc.Remainder.{Stream, opened, calc_crc_rem}
use ti.Crc.Remainder.Delivered.{reading}
use ti.Crc.Remainder.Reading.{calc_crc_rem-contents}
use ti.Crc.Calculate.Writing.{zero_twice, overwrite}
use ti.Crc.Calculate.{
  Faults, ftell, crc_of_told, fputc, append_checksum, write_sum, calculate, crc_name, keep_contents,
}
use ti.Crc.{err_io, err_file}

-- The data stands in the file, with two bytes behind it.
record Holds (original : Bytes) (s : Stream) : Type 0 where
  pub high : ℕ
  pub low : ℕ
  pub contents_are : s.contents ≡ original ++ high ∷ low ∷ []

-- Either of those two bytes may be written over.
write-Holds :
    (original : Bytes) (c pos : ℕ) (s : Stream)
    → Holds original s
    → (pos ≡ length original) ⊎ (pos ≡ length original + 1)
    → (high : ℕ) × (low : ℕ) × (take pos s.contents ++ c ∷ drop (pos + 1) s.contents
        ≡ original ++ high ∷ low ∷ [])
write-Holds original c pos s h (inl here) =
    (c, h.low, rw (here, h.contents_are) (overwrite original h.high (h.low ∷ []) c))
write-Holds original c pos s h (inr here) = (
  h.high,
  c,
  ap₂ (λ p t. take p t ++ c ∷ drop (p + 1) t) (here ∙ sym size) (h.contents_are ∙ sym regroup)
      ∙ overwrite (original ++ h.high ∷ []) h.low [] c
      ∙ append_assoc original (h.high ∷ []) (c ∷ []),
)
  where
    size : length (original ++ h.high ∷ []) ≡ length original + 1
    size = length-append original (h.high ∷ [])

    regroup : (original ++ h.high ∷ []) ++ h.low ∷ [] ≡ original ++ h.high ∷ h.low ∷ []
    regroup = append_assoc original (h.high ∷ []) (h.low ∷ [])

fputc-Holds :
    (original : Bytes) (lost : Bool) (c : ℕ) (s : Stream)
    → Holds original s
    → (s.pos ≡ length original) ⊎ (s.pos ≡ length original + 1)
    → Holds original (fputc lost c s)
unfolding fputc
fputc-Holds original true c s h here = h
fputc-Holds original false c s h here =
    let (high, low, e) = write-Holds original (c % 2 ^ 8) s.pos s h here in
    record { high = high; low = low; contents_are = e }

fputc-pos :
    (lost : Bool) (c : ℕ) (s : Stream)
    → ((fputc lost c s).pos ≡ s.pos) ⊎ ((fputc lost c s).pos ≡ s.pos + 1)
unfolding fputc
fputc-pos true c s = inl refl
fputc-pos false c s = inr refl

module _ (f : Faults) (original : Bytes) (first : f.zero_lost ≡ false)
    (second : f.second_zero_lost ≡ false) where
  abbrev Starts : Stream → Type 0
  Starts s = (rest : Bytes) × (s.contents ≡ original ++ rest)

  Starts-Holds : {s : Stream} → Holds original s → Starts s
  Starts-Holds h = (h.high ∷ h.low ∷ [], h.contents_are)

  abbrev Anyway : Unit {0} → Stream → Type 0
  Anyway _ = Starts

  write_sum-Starts :
      (rem : ℕ) (s : Stream) → Holds original s → Outcome Starts Anyway (write_sum f rem s)
  unfolding write_sum
  write_sum-Starts rem s h =
      let size : length s.contents ≡ length original + 2 =
        ap length h.contents_are ∙ length-append original (h.high ∷ h.low ∷ []) in
      let back = record s { pos = length s.contents - 2 } in
      let at_data : length s.contents - 2 ≡ length original = omega (arith, size) in
      let held : Holds original back = record {
        high = h.high;
        low = h.low;
        contents_are = h.contents_are;
      } in
      let one = fputc f.high_lost (rem / 2 ^ 8) back in
      let held' = fputc-Holds original f.high_lost (rem / 2 ^ 8) back held (inl at_data) in
      let at' : (one.pos ≡ length original) ⊎ (one.pos ≡ length original + 1) =
        ground (arith, fputc-pos f.high_lost (rem / 2 ^ 8) back, at_data) in
      let two = fputc f.low_lost (bit_and rem 0x00ff) one in
      let held'' = fputc-Holds original f.low_lost (bit_and rem 0x00ff) one held' at' in
      Outcome-check Starts Anyway (f.seek_back || ltb (length s.contents) 2) err_io _ s
        (Starts-Holds h)
        λ _.
          Outcome-last_check Starts Anyway f.close err_io two (Starts-Holds held'')
            λ _. Starts-Holds held''

  Holds-Outcome :
      (m : Result ℕ × Stream) (s : Stream)
      → Holds original s
      → m.1.contents ≡ s.contents
      → Outcome Starts (λ _ s. Holds original s) m
  Holds-Outcome (ok rem, t) s h same = record {
    high = h.high;
    low = h.low;
    contents_are = same ∙ h.contents_are;
  }
  Holds-Outcome (exits status, t) s h same = (h.high ∷ h.low ∷ [], same ∙ h.contents_are)
  Holds-Outcome (undefined, t) s h same = (h.high ∷ h.low ∷ [], same ∙ h.contents_are)

  -- Whatever `ftell` told.
  crc_of_told-Holds :
      (told : Option ℕ) (s : Stream)
      → Holds original s
      → Outcome Starts (λ _ s. Holds original s) (crc_of_told f.seek_start told s)
  crc_of_told-Holds none s h =
      Holds-Outcome (calc_crc_rem f.seek_start 0 s) s h (calc_crc_rem-contents f.seek_start 0 s)
  crc_of_told-Holds (some file_size) s h =
      Outcome-check Starts (λ _ s. Holds original s) (file_size == 0) err_io _ s (Starts-Holds h)
        λ _.
          Holds-Outcome (calc_crc_rem f.seek_start file_size s) s h
            (calc_crc_rem-contents f.seek_start file_size s)

  append_checksum-Starts : Outcome Starts Anyway (append_checksum f (opened f.fgetc original))
  unfolding append_checksum write_sum
  append_checksum-Starts =
      let zeros = original ++ 0 ∷ 0 ∷ [] in
      let stream = reading f.fgetc zeros (length original + 2) 0 7 in
      let held : Holds original stream = record { high = 0; low = 0; contents_are = refl } in
      Outcome-check Starts Anyway f.seek_end err_io _ (opened f.fgetc original)
        ([], sym (append-nil original))
        λ _.
          rw (first, second, zero_twice f.fgetc original 0)
            (Outcome-after Starts (λ _ s. Holds original s) Anyway (write_sum f)
              (crc_of_told f.seek_start (ftell f.ftell stream) stream)
              (crc_of_told-Holds (ftell f.ftell stream) stream held) (write_sum-Starts))

-- The data stands under its own name, or at the start of the file NAME.crc.
abbrev pub IsKept : Bytes → Bytes → Disk Bytes → Type 0
IsKept filename original after =
    (after filename ≡ some original)
    ⊎ ((rest : Bytes) × (after (crc_name filename) ≡ some (original ++ rest)))

module _ (f : Faults) (files : Disk Bytes) (filename original : Bytes) where
  abbrev renamed : Disk Bytes
  renamed = update (update files filename none) (crc_name filename) (some original)

  abbrev Kept : Disk Bytes → Type 0
  Kept = IsKept filename original

  store-Kept :
      (m : Result (Unit {0}) × Stream)
      → Outcome
          (λ s. (rest : Bytes) × (s.contents ≡ original ++ rest))
          (λ _ s. (rest : Bytes) × (s.contents ≡ original ++ rest))
          m
      → Outcome Kept (λ _. Kept) (store renamed (crc_name filename) (keep_contents m))
  store-Kept (ok _, s) (rest, e) =
      inr (rest, update_self renamed (crc_name filename) (some s.contents) ∙ ap some e)
  store-Kept (exits status, s) (rest, e) =
      inr (rest, update_self renamed (crc_name filename) (some s.contents) ∙ ap some e)
  store-Kept (undefined, s) (rest, e) =
      inr (rest, update_self renamed (crc_name filename) (some s.contents) ∙ ap some e)

  calculate-Outcome :
      files filename ≡ some original
      → f.zero_lost ≡ false
      → f.second_zero_lost ≡ false
      → Outcome Kept (λ _. Kept) (calculate f filename files)
  unfolding calculate
  calculate-Outcome here first second =
      let body =
        λ (contents : Bytes). keep_contents (append_checksum f (opened f.fgetc contents)) in
      let there = update_self (update files filename none) (crc_name filename) (some original) in
      let moved : Kept renamed = inr ([], there ∙ ap some (sym (append-nil original))) in
      rw here (
        Outcome-check Kept (λ _. Kept) (f.rename || false) err_file _ files (inl here)
          λ _.
            Outcome-check Kept (λ _. Kept) f.reopen err_io _ renamed moved
              λ _.
                subst (Outcome Kept (λ _. Kept))
                  (sym (on_file-some (crc_name filename) err_io body renamed original there))
                  (store-Kept (append_checksum f (opened f.fgetc original))
                    (append_checksum-Starts f original first second)))

-- Whichever other calls fail: of a file that is there, as long as the two zeros are really written,
-- the data is not lost. It stands under its old name, or at the start of the file NAME.crc.
pub calculate-IsKept :
    (f : Faults) (files : Disk Bytes) (filename original : Bytes)
    → files filename ≡ some original
    → f.zero_lost ≡ false
    → f.second_zero_lost ≡ false
    → IsKept filename original (calculate f filename files).1
calculate-IsKept f files filename original here first second =
    Outcome_state (IsKept filename original) (calculate f filename files)
      (calculate-Outcome f files filename original here first second)
