-- ===== src/Trash/Safety.antt =====
-- What the three modes leave on the disk, whichever calls fail.
use ti.Base.{
  ℕ, ◌≡◌, ◌≢◌, refl, sym, ap, subst, ◌∙◌, Bool, true, false, not, ◌||◌, [], Option, none, some,
  arith, Bytes, ◌==◌, if◌then◌else◌, Bool-cases, inl, inr, Option-cases, str_eq, str_eq_iff,
}
use ti.Base.Disk.{Disk, update, update_self, update_ne, is_missing}
use ti.Base.Outcome.{Outcome, Outcome-after, Outcome-check, Outcome-map}
use ti.Base.Process.{Result, ok, exits, after as then_do, check, pure}
use ti.Trash.Copying.{Untouched, Copies, Untouched_self, copy_to-Copies}
use ti.Trash.Paths.{trash_path, trashname_lem}
use ti.Trash.{
  Environment, File, Mkdir, made, existing, failed, made_or_there, filecopy, copy_to, unlink, move,
  opt_mktrashdir, move_to_trash, recover_from_trash, finally_delete,
}

-- Every file that was there is there, with its contents and mode.
abbrev pub KeepsAll : Disk File → Disk File → Type 0
KeepsAll files after =
    (name : Bytes) (file : File) → files name ≡ some file → after name ≡ some file

-- The file `source` is now `target`, where none was, with the mode that the mask leaves.
pub record IsMoved (e : Environment) (files : Disk File) (source target : Bytes) (after : Disk File)
    : Type 0 where
  pub file : File
  pub found : files source ≡ some file
  pub was_free : files target ≡ none
  pub moved : after target ≡ some (record { contents = file.contents; mode = e.masked file.mode })
  pub removed : after source ≡ none
  pub elsewhere : (other : Bytes) → source ≢ other → target ≢ other → after other ≡ files other

Untouched-KeepsAll :
    (files : Disk File) (target : Bytes) (after : Disk File)
    → Untouched files target after
    → KeepsAll files after
Untouched-KeepsAll files target after u name file h = elim (Bool-cases (str_eq target name)) [
  | inl same ↦
      let e = (str_eq_iff target name).0 same in
      subst (λ t. after t ≡ some file) e
        (u.not_replaced file (subst (λ t. files t ≡ some file) (sym e) h))
  | inr other ↦ u.elsewhere name (λ e. differ (sym other ∙ (str_eq_iff target name).1 e)) ∙ h
]
  where
    differ : ◌≡◌ {A = Bool} false true → ⊥
    differ h = cc

module _ (e : Environment) (files : Disk File) (source target : Bytes) where
  abbrev Kept : Disk File → Type 0
  Kept = KeepsAll files

  KeepsAll_self : Kept files
  KeepsAll_self name file h = h

  abbrev pub Moves : Unit {0} → Disk File → Type 0
  Moves _ after = IsMoved e files source target after

  unlink-Moves :
      (input : File) (after : Disk File)
      → files source ≡ some input
      → Copies e files target input 0 after
      → Outcome Kept Moves (unlink e source after)
  unfolding unlink
  unlink-Moves input after found copied =
      let kept = Untouched-KeepsAll files target after copied.0 in
      let (free, there) = copied.1 refl in
      let apart : target ≢ source = λ same. differ (sym free ∙ ap files same ∙ found) in
      Outcome-check Kept Moves (e.unlink || is_missing (after source)) 3 _ after kept λ _. record {
        file = input;
        found = found;
        was_free = free;
        moved = update_ne after source target none (λ same. apart (sym same)) ∙ there;
        removed = update_self after source none;
        elsewhere =
            λ other ne ne'. update_ne after source other none ne ∙ copied.0.elsewhere other ne';
      }
    where
      differ : {x : File} → ◌≡◌ {A = Option File} none (some x) → ⊥
      differ h = cc

  -- After `filecopy`, with its result.
  finish_move :
      (result : ℕ) (input : File) (after : Disk File)
      → files source ≡ some input
      → Copies e files target input result after
      → Outcome Kept Moves (then_do (λ _. unlink e source) (check (not (result == 0)) 2 after))
  finish_move result input after found copied =
      Outcome-check Kept Moves (not (result == 0)) 2 (λ _. unlink e source) after
        (Untouched-KeepsAll files target after copied.0)
        λ passed.
          let zero_result : result ≡ 0 = ground arith in
          unlink-Moves input after found
            (subst (λ r. Copies e files target input r after) zero_result copied)

  pub filecopy_found :
      (input : File)
      → files source ≡ some input
      → filecopy e source target files
        ≡ (if e.open_in || e.fstat then pure 1 else copy_to e input target) files
  unfolding filecopy copy_to
  filecopy_found input found = rw (found, filecopy)

  abbrev CopiesInput : File → ℕ → Disk File → Type 0
  CopiesInput input result after = Copies e files target input result after

  filecopy-Copies :
      (input : File)
      → files source ≡ some input
      → Outcome Kept (CopiesInput input) (filecopy e source target files)
  filecopy-Copies input found =
      subst (Outcome Kept (CopiesInput input)) (sym (filecopy_found input found))
        (elim (Bool-cases (e.open_in || e.fstat)) [
          | inl fails ↦ rw fails (Untouched_self e files target input, λ z. absurd (omega arith))
          | inr works ↦ rw works (
              Outcome-map (copy_to e input target files) (copy_to-Copies e files target input)
                (Untouched-KeepsAll files target) (λ result after h. h))
        ])

  filecopy_missing : files source ≡ none → filecopy e source target files ≡ (ok 1, files)
  unfolding filecopy
  filecopy_missing missing = rw (missing, filecopy)

  missing_source : files source ≡ none → move e source target files ≡ (exits 2, files)
  unfolding move
  missing_source missing = ap (then_do _) (filecopy_missing missing)

  pub move-Moves : Outcome Kept Moves (move e source target files)
  move-Moves = elim (Option-cases (files source)) [
    | inl missing ↦ subst (Outcome Kept Moves) (sym (missing_source missing)) KeepsAll_self
    | inr (input, found) ↦
        unfold move in
        Outcome-after Kept (CopiesInput input) Moves _ (filecopy e source target files)
          (filecopy-Copies input found)
          (λ result after copied. finish_move result input after found copied)
  ]

module _ (e : Environment) (files : Disk File) (homedir filename : Bytes)
    (home : e.home ≡ some homedir) where
  abbrev pub in_trash : Bytes
  in_trash = trash_path homedir filename

  pub opened_trash :
      made_or_there e.mkdir files ≡ (ok tt, files)
      → move_to_trash e filename files ≡ move e filename in_trash files
  unfolding move_to_trash opt_mktrashdir
  opened_trash ready =
      ap (then_do _) (ap (then_do _) (trashname_lem e homedir [] files home).0 ∙ ready)
      ∙ ap (then_do _) (trashname_lem e homedir filename files home).0

  no_trash :
      made_or_there e.mkdir files ≡ (exits 5, files)
      → move_to_trash e filename files ≡ (exits 5, files)
  unfolding move_to_trash opt_mktrashdir
  no_trash unready =
      ap (then_do _) (ap (then_do _) (trashname_lem e homedir [] files home).0 ∙ unready)

  abbrev InTrash : Result (Unit {0}) × Disk File → Type 0
  InTrash = Outcome (KeepsAll files) (λ _ after. IsMoved e files filename in_trash after)

  move_to_trash-InTrash : (m : Mkdir) → e.mkdir ≡ m → InTrash (move_to_trash e filename files)
  move_to_trash-InTrash failed h =
      subst InTrash (sym (no_trash (ap (λ m. made_or_there m files) h)))
        (KeepsAll_self e files filename in_trash)
  move_to_trash-InTrash made h =
      subst InTrash (sym (opened_trash (ap (λ m. made_or_there m files) h)))
        (move-Moves e files filename in_trash)
  move_to_trash-InTrash existing h =
      subst InTrash (sym (opened_trash (ap (λ m. made_or_there m files) h)))
        (move-Moves e files filename in_trash)

  pub recovers : recover_from_trash e filename files ≡ move e in_trash filename files
  unfolding recover_from_trash
  recovers = ap (then_do _) (trashname_lem e homedir filename files home).0

-- With a home directory, and whichever calls fail: if `move_to_trash` does not get to its end, every
-- file that was there is there, unchanged. If it does, the file is gone from its old name and stands
-- complete in the trash, where no file of that name was, and every other file is as it was.
pub move_to_trash-IsMoved :
    (e : Environment) (files : Disk File) (homedir filename : Bytes)
    → e.home ≡ some homedir
    → Outcome
        (KeepsAll files)
        (λ _ after. IsMoved e files filename (trash_path homedir filename) after)
        (move_to_trash e filename files)
move_to_trash-IsMoved e files homedir filename home =
    move_to_trash-InTrash e files homedir filename home e.mkdir refl

-- With a home directory, and whichever calls fail: if `recover_from_trash` does not get to its end,
-- every file that was there is there, unchanged. If it does, the file is gone from the trash and
-- stands complete in the current directory, where no file of that name was, and every other file is
-- as it was.
pub recover_from_trash-IsMoved :
    (e : Environment) (files : Disk File) (homedir filename : Bytes)
    → e.home ≡ some homedir
    → Outcome
        (KeepsAll files)
        (λ _ after. IsMoved e files (trash_path homedir filename) filename after)
        (recover_from_trash e filename files)
recover_from_trash-IsMoved e files homedir filename home =
    subst
      (Outcome (KeepsAll files)
        (λ _ after. IsMoved e files (trash_path homedir filename) filename after))
      (sym (recovers e files homedir filename home))
      (move-Moves e files (trash_path homedir filename) filename)

-- With a home directory: `finally_delete` removes the file from the trash, if it is there and `unlink` works, and else
-- ends with status 3. No other file changes.
pub finally_delete_lem :
    (e : Environment) (files : Disk File) (homedir filename : Bytes)
    → e.home ≡ some homedir
    → finally_delete e filename files ≡ (
        if e.unlink || is_missing (files (trash_path homedir filename))
        then (exits 3, files)
        else (ok tt, update files (trash_path homedir filename) none))
unfolding finally_delete unlink
finally_delete_lem e files homedir filename home =
    ap (then_do _) (trashname_lem e homedir filename files home).0
    ∙ elim (Bool-cases (e.unlink || is_missing (files (trash_path homedir filename)))) [
      | inl fails ↦ rw fails
      | inr works ↦ rw works
    ]
