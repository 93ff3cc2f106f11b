-- ===== src/Drive/Names/Printing.antt =====
-- `sprint_filename` on a name and an extension.
use ti.Base.{
  ℕ, zero, suc, ◌+◌, ◌-◌, ◌≤◌, ◌<◌, ◌≡◌, ◌≢◌, refl, sym, ap, subst, ◌∙◌, true, false, [], ◌∷◌, ◌++◌,
  append_assoc, append-nil, some, arith, Bytes, length, length-append, length-replicate, get_elem?,
  take, drop, replicate, take-length_append, drop-length_append, ◌==◌, if◌then◌else◌,
}
use ti.Base.Process.{Process, Result, ok, pure, crash, after as then_do, ◌>>=◌}
use ti.Base.Text.{strchr, Lacks, Lacks-append, past, strchr-append}
use ti.Streams.{c_string}
use ti.Streams.Lines.{c_string-append, c_string_whole}
use ti.Drive.Names.{
  blank, strncpy, overwrite, before, or_else, remove_whitespace, place_extension, opt_extension,
  sprint_filename,
}

-- Filled up with blanks.
abbrev pub filled : ℕ → Bytes → Bytes
filled n text = text ++ replicate (n - length text) blank

-- The bytes of a directory entry for a name and an extension.
abbrev pub fat_name : Bytes → Bytes → Bytes
fat_name stem ext = filled 8 stem ++ filled 3 ext

length-filled : (n : ℕ) (text : Bytes) → length text ≤ n → length (filled n text) ≡ n
length-filled n text h = omega (
  arith,
  length-append text (replicate (n - length text) blank),
  length-replicate (n - length text) blank,
)

no_zeros : (n : ℕ) → Lacks 0 (replicate n blank)
no_zeros zero = tt
no_zeros (suc n) = ((λ e. absurd (ground arith)), no_zeros n)

-- The rest of the buffer ends the name.
data Ends : Bytes → Type 0 where
  nothing : Ends []
  zero_next : (rest : Bytes) → Ends (0 ∷ rest)
  blank_next : (rest : Bytes) → Ends (blank ∷ rest)

remove_whitespace-append :
    (s rest : Bytes) → Lacks 0 s → Lacks blank s → Ends rest → remove_whitespace (s ++ rest) ≡ s
unfolding remove_whitespace strchr c_string
remove_whitespace-append s rest no_zero no_blank ends =
    ap (λ t. or_else (before (strchr t blank)) t) (c_string-append s rest no_zero)
    ∙ ap (λ f. or_else (before f) (s ++ c_string rest))
        (strchr-append s (c_string rest) blank no_blank)
    ∙ by_end rest ends
  where
    by_end :
        (rest : Bytes)
        → Ends rest
        → or_else (before (past s (strchr (c_string rest) blank))) (s ++ c_string rest) ≡ s
    by_end _ nothing = append-nil s
    by_end _ (zero_next rest) = append-nil s
    by_end _ (blank_next rest) = append-nil s

blanks-Ends : (a b m : ℕ) → Ends (drop m (replicate a blank ++ replicate b 0))
blanks-Ends zero zero zero = nothing
blanks-Ends zero zero (suc m) = nothing
blanks-Ends zero (suc b) zero = zero_next (replicate b 0)
blanks-Ends zero (suc b) (suc m) = blanks-Ends zero b m
blanks-Ends (suc a) b zero = blank_next (replicate a blank ++ replicate b 0)
blanks-Ends (suc a) b (suc m) = blanks-Ends a b m

drop-Ends :
    (text rest : Bytes) (n : ℕ)
    → length text ≤ n
    → ((m : ℕ) → Ends (drop m rest))
    → Ends (drop n (text ++ rest))
drop-Ends [] rest n h ends = ends n
drop-Ends (x ∷ text) rest zero h ends = absurd (omega arith)
drop-Ends (x ∷ text) rest (suc n) h ends = drop-Ends text rest n (omega arith) ends

blanks_front-Ends : (a : ℕ) (rest : Bytes) → Ends rest → Ends (replicate a blank ++ rest)
blanks_front-Ends zero rest ends = ends
blanks_front-Ends (suc a) rest ends = blank_next (replicate a blank ++ rest)

strncpy_lem : (n : ℕ) (s rest : Bytes) → length s ≡ n → Lacks 0 s → strncpy n (s ++ rest) ≡ s
unfolding strncpy
strncpy_lem n s rest h lacks =
    let taken : take n (s ++ rest) ≡ s =
      ap (λ k. take k (s ++ rest)) (sym h) ∙ take-length_append s rest in
    let none_left : n - length s ≡ 0 = omega arith in
    ap (λ t. t ++ replicate (n - length t) 0) (ap c_string taken ∙ c_string_whole s lacks)
    ∙ ap (λ k. s ++ replicate k 0) none_left
    ∙ append-nil s

element_behind :
    (n : ℕ) (s : Bytes) (x : ℕ) (rest : Bytes) → length s ≡ n → get_elem? (s ++ x ∷ rest) n ≡ some x
element_behind zero [] x rest h = refl
element_behind zero (y ∷ s) x rest h = absurd (omega arith)
element_behind (suc n) [] x rest h = absurd (omega arith)
element_behind (suc n) (y ∷ s) x rest h = element_behind n s x rest (omega arith)

module _ (stem : Bytes) (short : length stem ≤ 8) (no_zero : Lacks 0 stem)
    (no_blank : Lacks blank stem) where
  abbrev gap : Bytes
  gap = replicate (8 - length stem) blank

  abbrev zeros : Bytes
  zeros = replicate 4 0

  first_part-Lacks : Lacks 0 (filled 8 stem)
  first_part-Lacks = Lacks-append 0 stem gap no_zero (no_zeros (8 - length stem))

  -- The first `strncpy`.
  first_part : (ext : Bytes) → strncpy 8 (filled 8 stem ++ ext) ≡ filled 8 stem
  first_part ext = strncpy_lem 8 (filled 8 stem) ext (length-filled 8 stem short) first_part-Lacks

  first_of_ext : (x : ℕ) (ext : Bytes) → get_elem? ((filled 8 stem ++ x ∷ ext) ++ 0 ∷ []) 8 ≡ some x
  first_of_ext x ext =
      ap (λ t. get_elem? t 8) (append_assoc (filled 8 stem) (x ∷ ext) (0 ∷ []))
      ∙ element_behind 8 (filled 8 stem) x (ext ++ 0 ∷ []) (length-filled 8 stem short)

  first_end :
      before (strchr (c_string (filled 8 stem ++ zeros)) blank)
      ≡ before (past stem (strchr gap blank))
  unfolding c_string
  first_end =
      ap (λ t. before (strchr t blank))
        (c_string-append (filled 8 stem) zeros first_part-Lacks ∙ append-nil (filled 8 stem))
      ∙ ap before (strchr-append stem gap blank no_blank)

  blank_there : (k : ℕ) → 1 ≤ k → before (past stem (strchr (replicate k blank) blank)) ≡ some stem
  unfolding strchr
  blank_there zero h = absurd (omega arith)
  blank_there (suc k) h = ap some (append-nil stem)

  without_extension : remove_whitespace (filled 8 stem ++ zeros) ≡ stem
  without_extension =
      ap remove_whitespace (append_assoc stem gap zeros)
      ∙ remove_whitespace-append stem (gap ++ zeros) no_zero no_blank
          (blanks-Ends (8 - length stem) 4 0)

  module _ (ext : Bytes) (ext_short : length ext ≤ 3) (ext_no_zero : Lacks 0 ext)
      (ext_no_blank : Lacks blank ext) where
    abbrev ext_gap : Bytes
    ext_gap = replicate (3 - length ext) blank

    second_part : strncpy 3 (drop 8 (filled 8 stem ++ filled 3 ext)) ≡ filled 3 ext
    second_part =
        ap (strncpy 3) (
          ap (λ k. drop k (filled 8 stem ++ filled 3 ext)) (sym (length-filled 8 stem short))
          ∙ drop-length_append (filled 8 stem) (filled 3 ext)
          ∙ sym (append-nil (filled 3 ext)))
        ∙ strncpy_lem 3 (filled 3 ext) [] (length-filled 3 ext ext_short)
            (Lacks-append 0 ext ext_gap ext_no_zero (no_zeros (3 - length ext)))

    abbrev last_part : Bytes
    last_part = drop (length stem + length (b'.' ∷ filled 3 ext)) (filled 8 stem ++ zeros)

    last_part-Ends : Ends last_part
    last_part-Ends =
        let n = length stem + length (b'.' ∷ filled 3 ext) in
        subst (λ t. Ends (drop n t)) (sym (append_assoc stem gap zeros))
          (drop-Ends stem (gap ++ zeros) n (omega arith) (blanks-Ends (8 - length stem) 4))

    with_extension :
        remove_whitespace (overwrite (length stem) (b'.' ∷ filled 3 ext) (filled 8 stem ++ zeros))
        ≡ stem ++ b'.' ∷ ext
    with_extension =
        ap (λ t. remove_whitespace (t ++ (b'.' ∷ filled 3 ext) ++ last_part))
          (ap (take (length stem)) (append_assoc stem gap zeros)
            ∙ take-length_append stem (gap ++ zeros))
        ∙ ap remove_whitespace (
            append_assoc stem (b'.' ∷ filled 3 ext) last_part
            ∙ ap (λ t. stem ++ b'.' ∷ t) (append_assoc ext ext_gap last_part)
            ∙ sym (append_assoc stem (b'.' ∷ ext) (ext_gap ++ last_part)))
        ∙ remove_whitespace-append (stem ++ b'.' ∷ ext) (ext_gap ++ last_part)
            (Lacks-append 0 stem (b'.' ∷ ext) no_zero (dot 0 (omega arith), ext_no_zero))
            (Lacks-append blank stem (b'.' ∷ ext) no_blank (dot blank (omega arith), ext_no_blank))
            (blanks_front-Ends (3 - length ext) last_part last_part-Ends)
      where
        dot : (c : ℕ) → c < b'.' → b'.' ≢ c
        dot c h = omega arith

    abbrev cut : {S : Type 0} → Result Bytes × S → Result Bytes × S
    cut = then_do (λ o. pure (remove_whitespace o))

    -- The dot and the extension, with the number of blanks behind the name.
    by_gap :
        {S : Type 0} (s : S) (n : ℕ)
        → 8 - length stem ≡ n
        → cut (
            place_extension
              (fat_name stem ext)
              (filled 8 stem ++ zeros)
              (before (past stem (strchr (replicate n blank) blank)))
              s)
          ≡ (if length stem == 8 then crash else pure (stem ++ b'.' ∷ ext)) s
    unfolding place_extension strchr
    by_gap s zero h = rw all_bytes
      where
        all_bytes : (length stem == 8) ≡ true
        all_bytes = ground arith
    by_gap s (suc n) h =
        ap (λ f. cut (place_extension (fat_name stem ext) (filled 8 stem ++ zeros) f s))
          (blank_there (suc n) (omega arith))
        ∙ ap
            (λ t. (
              ok (remove_whitespace (overwrite (length stem) (b'.' ∷ t) (filled 8 stem ++ zeros))),
              s,
            ))
            second_part
        ∙ ap (λ t. (ok t, s)) with_extension
        ∙ rw room
      where
        room : (length stem == 8) ≡ false
        room = ground arith

    extended :
        {S : Type 0} (s : S)
        → cut (
            place_extension
              (fat_name stem ext)
              (filled 8 stem ++ zeros)
              (before (strchr (c_string (filled 8 stem ++ zeros)) blank))
              s)
          ≡ (if length stem == 8 then crash else pure (stem ++ b'.' ∷ ext)) s
    extended s =
        ap (λ f. cut (place_extension (fat_name stem ext) (filled 8 stem ++ zeros) f s)) first_end
        ∙ by_gap s (8 - length stem) refl

-- `sprint_filename` behind the first `strncpy`.
abbrev finish : {S : Type 0} → Bytes → Bytes → Bytes → Process S Bytes
finish stem ext out_name =
    opt_extension (fat_name stem ext) out_name (get_elem? (fat_name stem ext ++ 0 ∷ []) 8) >>= λ o.
    pure (remove_whitespace o)

-- For a name of at most 8 bytes and an extension of at most 3, without blanks and zeros in them: with
-- no extension `sprint_filename` gives the name, else the name, a dot and the extension; but where
-- the name has all 8 bytes and there is an extension, it writes to a null pointer.
pub sprint_filename_lem :
    {S : Type 0} (stem ext : Bytes) (s : S)
    → length stem ≤ 8
    → length ext ≤ 3
    → Lacks 0 stem × Lacks blank stem
    → Lacks 0 ext × Lacks blank ext
    → sprint_filename (fat_name stem ext) s
      ≡ (if length ext == 0
            then pure stem
            else if length stem == 8
            then crash
            else pure (stem ++ b'.' ∷ ext))
          s
unfolding sprint_filename
sprint_filename_lem stem [] s short ext_short (z, b) _ =
    let out_name = filled 8 stem ++ replicate 4 0 in
    ap (λ t. finish stem [] (t ++ replicate 4 0) s) (first_part stem short z b (filled 3 []))
    ∙ ap
        (λ c.
          then_do (λ o. pure (remove_whitespace o)) (opt_extension (fat_name stem []) out_name c s))
        (first_of_ext stem short z b blank (blank ∷ blank ∷ []))
    ∙ ap (λ t. (ok t, s)) (without_extension stem short z b)
sprint_filename_lem stem (x ∷ ext) s short ext_short (z, b) (ez, eb) =
    let out_name = filled 8 stem ++ replicate 4 0 in
    ap (λ t. finish stem (x ∷ ext) (t ++ replicate 4 0) s)
      (first_part stem short z b (filled 3 (x ∷ ext)))
    ∙ ap
        (λ c.
          then_do (λ o. pure (remove_whitespace o))
            (opt_extension (fat_name stem (x ∷ ext)) out_name c s))
        (first_of_ext stem short z b x _)
    ∙ ap
        (λ d. cut stem short z b (x ∷ ext) ext_short ez eb (
          (if d
              then pure out_name
              else place_extension (fat_name stem (x ∷ ext)) out_name
                  (before (strchr (c_string out_name) blank)))
            s))
        no_blank
    ∙ extended stem short z b (x ∷ ext) ext_short ez eb s
    ∙ ap
        (λ d.
          (if d
              then pure stem
              else if length stem == 8
              then crash
              else pure (stem ++ b'.' ∷ x ∷ ext))
            s)
        (sym not_empty)
  where
    no_blank : (x == blank) ≡ false
    no_blank = ground arith

    not_empty : (length (x ∷ ext) == 0) ≡ false
    not_empty = ground arith
