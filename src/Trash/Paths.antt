-- ===== src/Trash/Paths.antt =====
-- The buffers for path names are of the right size.
use ti.Base.{
  ℕ, ◌+◌, ◌≤◌, ◌≡◌, ap, ◌∙◌, some, ◌∷◌, ◌++◌, arith, Bytes, length, length-append, le→ltb_false,
}
use ti.Base.Process.{ok, after}
use ti.Trash.{
  Environment, filecat, filecatlen, get_trashname, get_trashnamelen, trashname, trashdirname,
}

-- HOME/.ti3_trash/NAME
abbrev pub trash_path : Bytes → Bytes → Bytes
trash_path homedir filename = (homedir ++ b'/' ∷ trashdirname) ++ b'/' ∷ filename

filecat_fits :
    {S : Type 0} (size : ℕ) (filename1 filename2 : Bytes) (s : S)
    → filecatlen filename1 filename2 ≤ size
    → filecat size filename1 filename2 s ≡ (ok (filename1 ++ b'/' ∷ filename2), s)
unfolding filecat
filecat_fits size filename1 filename2 s fits = rw (
    le→ltb_false size (length (filename1 ++ b'/' ∷ filename2) + 1)
      (omega (arith, length-append filename1 (b'/' ∷ filename2))))

-- With a home directory, the name of a file in the trash is HOME/.ti3_trash/NAME, and its final 0
-- is the last byte of the buffer.
pub trashname_lem :
    {S : Type 0} (e : Environment) (homedir filename : Bytes) (s : S)
    → e.home ≡ some homedir
    → (trashname e filename s ≡ (ok (trash_path homedir filename), s))
      × (length (trash_path homedir filename) + 1 ≡ get_trashnamelen e.home filename)
unfolding trashname get_trashname
trashname_lem e homedir filename s home =
    let dir = homedir ++ b'/' ∷ trashdirname in
    let dir_length = length-append homedir (b'/' ∷ trashdirname) in
    (
      rw home (
          ap (after _)
            (filecat_fits (filecatlen homedir trashdirname) homedir trashdirname s (omega arith))
          ∙ filecat_fits (get_trashnamelen (some homedir) filename) dir filename s
              (omega (arith, dir_length))),
      rw home (omega (arith, dir_length, length-append dir (b'/' ∷ filename))),
    )
