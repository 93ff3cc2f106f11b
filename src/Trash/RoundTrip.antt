-- ===== src/Trash/RoundTrip.antt =====
-- Moving to the trash and back, where every call works.
use ti.Base.{
  ℕ, zero, suc, ◌+◌, ◌≤◌, ◌<◌, min, ◌≡◌, ◌≢◌, sym, ap, subst, ◌∙◌, Bool, true, false, ◌||◌, [], ◌∷◌,
  ◌++◌, Option, none, some, append_assoc, append-nil, arith, Bytes, length, take, drop, length-take,
  length-drop, take-append-drop, take_all, Bool-cases, inl, inr, ==_refl, str_eq, str_eq_iff,
}
use ti.Base.Disk.{Disk, update, update_self, update_ne, on_file, on_file-some, store, is_missing}
use ti.Base.Process.{Process, ok, after as then_do, pure, ◌>>◌, modify, check}
use ti.Trash.Paths.{trash_path}
use ti.Base.Outcome.{Outcome}
use ti.Trash.Safety.{KeepsAll, IsMoved, move-Moves, filecopy_found, opened_trash, recovers}
use ti.Trash.{
  Environment, File, made_or_there, append, buffsize, read_round, copy_loop, close_both, copy_to,
  filecopy, unlink, move, move_to_trash, recover_from_trash,
}

-- No call fails. A `read` may deliver any number of bytes from 1 on; a `write` takes all it is given.
pub record Works (e : Environment) : Type 0 where
  pub mkdir : made_or_there {S = Disk File} e.mkdir ≡ pure tt
  pub open_in : e.open_in ≡ false
  pub fstat : e.fstat ≡ false
  pub open_out : e.open_out ≡ false
  pub reads : (n : ℕ) → (k : ℕ) × (e.reads n ≡ some k)
  pub writes : (n : ℕ) → buffsize ≤ e.writes n
  pub close_in : e.close_in ≡ false
  pub close_out : e.close_out ≡ false
  pub unlink : e.unlink ≡ false

module _ (e : Environment) (works : Works e) where
  reads_some :
      (n : ℕ) (next : ℕ → Process File Bool) (out : File)
      → (k : ℕ) × (read_round (e.reads n) next out ≡ next k out)
  reads_some n next out = let (k, h) = works.reads n in (k, rw h)

  -- More fuel than bytes is enough.
  copy_loop_lem :
      (fuel n : ℕ) (unread : Bytes) (out : File)
      → length unread < fuel
      → copy_loop e fuel n unread out ≡ (ok true, append unread out)
  unfolding copy_loop
  copy_loop_lem zero n unread out h = absurd (omega arith)
  copy_loop_lem (suc fuel) n [] out h =
      let (k, done) = reads_some n (λ _. pure true) out in
      done ∙ ap (λ t. (ok true, record out { contents = t })) (sym (append-nil out.contents))
  copy_loop_lem (suc fuel) n (byte ∷ rest) out h =
      let (k, reads) = works.reads n in
      let unread : Bytes = byte ∷ rest in
      let n_read = min (suc k) buffsize in
      let buffer = take n_read unread in
      let left = drop n_read unread in
      let whole : take (e.writes n) buffer ≡ buffer =
        take_all (e.writes n) buffer (omega (arith, works.writes n, length-take n_read unread)) in
      let shorter : length left < fuel = omega (arith, length-drop n_read unread) in
      rw reads (
        rw whole (
          rw (==_refl (length buffer)) (
            copy_loop_lem fuel (n + 1) left (append buffer out) shorter
            ∙ ap (λ t. (ok true, record out { contents = t }))
                (append_assoc out.contents buffer left
                  ∙ ap (λ t. out.contents ++ t) (take-append-drop n_read unread)))))

  module _ (files : Disk File) (source target : Bytes) (input : File)
      (found : files source ≡ some input) (free : files target ≡ none) where
    abbrev blank : File
    blank = record { contents = []; mode = e.masked input.mode }

    abbrev created : Disk File
    created = update files target (some blank)

    abbrev copied : Disk File
    copied = update created target (some (append input.contents blank))

    on_file-copy_loop :
        on_file target 2 (copy_loop e (suc (length input.contents)) 0 input.contents) created
        ≡ (ok true, copied)
    on_file-copy_loop =
        on_file-some target 2 (copy_loop e (suc (length input.contents)) 0 input.contents) created
          blank (update_self files target (some blank))
        ∙ ap (store created target)
            (copy_loop_lem (suc (length input.contents)) 0 input.contents blank (omega arith))

    close_both_lem : close_both e true copied ≡ (ok 0, copied)
    close_both_lem = rw (works.close_in, works.close_out)

    copy_to_lem : copy_to e input target files ≡ (ok 0, copied)
    unfolding copy_to
    copy_to_lem =
        rw (works.open_out, free) (ap (then_do (close_both e)) on_file-copy_loop ∙ close_both_lem)

    filecopy_lem : filecopy e source target files ≡ (ok 0, copied)
    unfolding copy_to
    filecopy_lem =
        filecopy_found e files source target input found
        ∙ rw (works.open_in, works.fstat) copy_to_lem

    apart : target ≢ source
    apart same = differ (sym free ∙ ap files same ∙ found)
      where
        differ : ◌≡◌ {A = Option File} none (some input) → ⊥
        differ h = cc

    still_there : copied source ≡ some input
    still_there =
        update_ne created target source (some (append input.contents blank)) apart
        ∙ update_ne files target source (some blank) apart
        ∙ found

    unlink_lem : unlink e source copied ≡ (ok tt, update copied source none)
    unfolding unlink
    unlink_lem =
        let works_too : (e.unlink || is_missing (copied source)) ≡ false =
          rw (works.unlink, still_there) in
        ap (λ b. then_do (λ _. modify (λ s. update s source none)) (check b 3 copied)) works_too

    move_lem : (after : Disk File) × (move e source target files ≡ (ok tt, after))
    unfolding move
    move_lem = (update copied source none, ap (then_do _) filecopy_lem ∙ unlink_lem)

  move-IsMoved :
      (files : Disk File) (source target : Bytes) (input : File)
      → files source ≡ some input
      → files target ≡ none
      → (after : Disk File) × (move e source target files ≡ (ok tt, after))
        × IsMoved e files source target after
  move-IsMoved files source target input found free =
      let (after, moves) = move_lem files source target input found free in
      (
        after,
        moves,
        subst (Outcome (KeepsAll files) (λ _ after. IsMoved e files source target after)) moves
            (move-Moves e files source target),
      )

same_file : (a b : File) → some a ≡ some b → a ≡ b
same_file a b h = cc

module _ (e : Environment) (files between after : Disk File) (source target : Bytes)
    (there : IsMoved e files source target between)
    (back : IsMoved e between target source after) where
  moved_back :
      (file : File)
      → files source ≡ some file
      → after source
        ≡ some (record { contents = file.contents; mode = e.masked (e.masked file.mode) })
  moved_back file found =
      let first = same_file _ _ (sym there.found ∙ found) in
      let second = same_file _ _ (sym back.found ∙ there.moved) in
      back.moved
      ∙ ap (λ f. some (record { contents = f.contents; mode = e.masked f.mode })) second
      ∙ ap (λ f. some (record { contents = f.contents; mode = e.masked (e.masked f.mode) })) first

  others_kept : (other : Bytes) → other ≢ source → after other ≡ files other
  others_kept other ne = elim (Bool-cases (str_eq target other)) [
    | inl same ↦
        let here = (str_eq_iff target other).0 same in
        subst (λ t. after t ≡ files t) here (back.removed ∙ sym there.was_free)
    | inr apart ↦
        let ne' : target ≢ other = λ h. differ (sym apart ∙ (str_eq_iff target other).1 h) in
        back.elsewhere other ne' (λ h. ne (sym h)) ∙ there.elsewhere other (λ h. ne (sym h)) ne'
  ]
    where
      differ : ◌≡◌ {A = Bool} false true → ⊥
      differ h = cc

-- With a home directory and every call working: a file that is moved to the trash, where no file of
-- its name is, and then recovered is back under its name, with its contents, and with its mode
-- masked twice, and every other name stands for what it stood for: the trash holds it no more.
pub recover_from_trash-move_to_trash :
    (e : Environment) (homedir filename : Bytes) (files : Disk File) (file : File)
    → Works e
    → e.home ≡ some homedir
    → files filename ≡ some file
    → files (trash_path homedir filename) ≡ none
    → (after : Disk File) × ((move_to_trash e filename >> recover_from_trash e filename) files
        ≡ (ok tt, after))
      × (after filename
          ≡ some (record { contents = file.contents; mode = e.masked (e.masked file.mode) }))
      × ((other : Bytes) → other ≢ filename → after other ≡ files other)
recover_from_trash-move_to_trash e homedir filename files file works home found free =
    let trashed = trash_path homedir filename in
    let (between, moves, there) = move-IsMoved e works files filename trashed file found free in
    let (after, recovered, back) =
      move-IsMoved e works between trashed filename _ there.moved there.removed in
    (
      after,
      ap (then_do (λ _. recover_from_trash e filename))
            (opened_trash e files homedir filename home (ap (λ m. m files) works.mkdir) ∙ moves)
          ∙ recovers e between homedir filename home
          ∙ recovered,
      moved_back e files between after filename trashed there back file found,
      others_kept e files between after filename trashed there back,
    )
