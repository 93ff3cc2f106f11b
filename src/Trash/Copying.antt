-- ===== src/Trash/Copying.antt =====
-- `filecopy`: what it copies, and what it never touches.
use ti.Base.{
  ℕ, zero, suc, ◌+◌, min, ◌≡◌, ◌≢◌, refl, sym, ap, subst, ◌∙◌, Bool, true, false, not, ◌||◌, [],
  ◌∷◌, ◌++◌, Option, none, some, append_assoc, append-nil, arith, Bytes, length, take, drop, ◌==◌,
  take-append-drop, Bool-cases, inl, inr,
}
use ti.Base.Disk.{Disk, update, update_self, update_ne, on_file, on_file-some, store, is_missing}
use ti.Base.Outcome.{Outcome, Outcome-after, Outcome-check, Outcome-map}
use ti.Base.Process.{Process, Result, ok, exits, undefined, after}
use ti.Trash.{
  Environment, File, append, buffsize, aborted, copy_loop, read_round, close_both, copy_to,
}

taken_whole : (k : ℕ) (xs : Bytes) → length (take k xs) ≡ length xs → take k xs ≡ xs
taken_whole zero [] h = refl
taken_whole zero (x ∷ xs) h = absurd (omega arith)
taken_whole (suc k) [] h = refl
taken_whole (suc k) (x ∷ xs) h = ap (◌∷◌ x) (taken_whole k xs (omega arith))

passed : (a b : ℕ) → not (a == b) ≡ false → a ≡ b
passed a b h = ground arith

-- The loop that ends without an error has written all that was unread.
abbrev Complete : Bytes → File → Bool → File → Type 0
Complete unread out complete out' = complete ≡ true → out' ≡ append unread out

abbrev Anyhow : File → Type 0
Anyhow _ = Unit

read_round-Outcome :
    (unread : Bytes) (answer : Option ℕ) (next : ℕ → Process File Bool) (out : File)
    → ((k : ℕ) → Outcome Anyhow (Complete unread out) (next k out))
    → Outcome Anyhow (Complete unread out) (read_round answer next out)
read_round-Outcome unread none next out h = λ e. cc
read_round-Outcome unread (some k) next out h = h k

copy_loop-Complete :
    (e : Environment) (fuel n : ℕ) (unread : Bytes) (out : File)
    → Outcome Anyhow (Complete unread out) (copy_loop e fuel n unread out)
unfolding copy_loop
copy_loop-Complete e zero n unread out = tt
copy_loop-Complete e (suc fuel) n [] out =
    read_round-Outcome [] (e.reads n) _ out
      λ k _. ap (λ t. record out { contents = t }) (sym (append-nil out.contents))
copy_loop-Complete e (suc fuel) n (byte ∷ rest) out =
    read_round-Outcome (byte ∷ rest) (e.reads n) _ out λ k.
      let unread : Bytes = byte ∷ rest in
      let n_read = min (suc k) buffsize in
      let buffer = take n_read unread in
      let written = take (e.writes n) buffer in
      let left = drop n_read unread in
      Outcome-check Anyhow (Complete unread out) (not (length written == length buffer)) aborted _
        (append written out) tt
        λ full.
          Outcome-map (copy_loop e fuel (n + 1) left (append written out))
            (copy_loop-Complete e fuel (n + 1) left (append written out)) (λ _ h. h)
            λ complete out' ih h.
              ih h
              ∙ ap (λ t. record out { contents = t })
                  (append_assoc out.contents written left
                    ∙ ap (λ t. out.contents ++ t)
                        (ap (λ t. t ++ left) (taken_whole (e.writes n) buffer (passed _ _ full))
                          ∙ take-append-drop n_read unread))

-- At most the file `outfile` is new; no file that was there is changed.
pub record Untouched (files : Disk File) (outfile : Bytes) (after : Disk File) : Type 0 where
  pub elsewhere : (other : Bytes) → outfile ≢ other → after other ≡ files other
  pub not_replaced : (file : File) → files outfile ≡ some file → after outfile ≡ some file

module _ (e : Environment) (files : Disk File) (outfile : Bytes) (input : File) where
  abbrev Kept : Disk File → Type 0
  Kept = Untouched files outfile

  -- What a result of `filecopy` tells.
  abbrev pub Copies : ℕ → Disk File → Type 0
  Copies result after =
      Kept after
      × (result ≡ 0
          → (files outfile ≡ none)
            × (after outfile
                ≡ some (record { contents = input.contents; mode = e.masked input.mode })))

  pub Untouched_self : Kept files
  Untouched_self = record { elsewhere = λ other ne. refl; not_replaced = λ file h. h }

  abbrev blank : File
  blank = record { contents = []; mode = e.masked input.mode }

  abbrev created : Disk File
  created = update files outfile (some blank)

  abbrev Copied : Bool → Disk File → Type 0
  Copied complete after =
      Kept after × (complete ≡ true → after outfile ≡ some (append input.contents blank))

  store-Kept :
      {A : Type 0} (m : Result A × File) → files outfile ≡ none → Kept (store created outfile m).1
  store-Kept (r, file) free = record {
    elsewhere = λ other ne.
        update_ne created outfile other (some file) ne
        ∙ update_ne files outfile other (some blank) ne;
    not_replaced = λ old h. absurd (none-ne-some old (sym free ∙ h));
  }
    where
      none-ne-some : (old : File) → ◌≡◌ {A = Option File} none (some old) → ⊥
      none-ne-some old h = cc

  store-Copied :
      (m : Result Bool × File)
      → files outfile ≡ none
      → Outcome Anyhow (Complete input.contents blank) m
      → Outcome Kept Copied (store created outfile m)
  store-Copied (ok complete, file) free h = (
    store-Kept (ok complete, file) free,
    λ full. update_self created outfile (some file) ∙ ap some (h full),
  )
  store-Copied (exits status, file) free h = store-Kept {A = Bool} (exits status, file) free
  store-Copied (undefined, file) free h = store-Kept {A = Bool} (undefined, file) free

  close_both-Copies :
      (complete : Bool) (after : Disk File)
      → files outfile ≡ none
      → Copied complete after
      → Outcome Kept Copies (close_both e complete after)
  close_both-Copies false after free h = (h.0, λ z. absurd (omega arith))
  close_both-Copies true after free h = elim (Bool-cases e.close_in) [
    | inl fails ↦ rw fails (h.0, λ z. absurd (omega arith))
    | inr closed ↦ rw closed (elim (Bool-cases e.close_out) [
      | inl fails ↦ rw fails (h.0, λ z. absurd (omega arith))
      | inr closed' ↦ rw closed' (h.0, λ z. (free, h.1 refl))
    ])
  ]

  pub copy_to-Copies : Outcome Kept Copies (copy_to e input outfile files)
  unfolding copy_to
  copy_to-Copies = elim (Bool-cases (e.open_out || not (is_missing (files outfile)))) [
    | inl fails ↦ rw fails (Untouched_self, λ z. absurd (omega arith))
    | inr works ↦ rw works (
        let free : files outfile ≡ none = ground arith in
        Outcome-after Kept Copied Copies (close_both e)
          (on_file outfile 2 (copy_loop e (suc (length input.contents)) 0 input.contents) created)
          (subst (Outcome Kept Copied)
            (sym (
              on_file-some outfile 2 (copy_loop e (suc (length input.contents)) 0 input.contents)
                created blank (update_self files outfile (some blank))))
            (store-Copied (copy_loop e (suc (length input.contents)) 0 input.contents blank) free
              (copy_loop-Complete e (suc (length input.contents)) 0 input.contents blank)))
          (λ complete after copied. close_both-Copies complete after free copied))
  ]
