-- ===== src/Trash.antt =====
-- U02/trashcan.c: files are moved to a trash directory below the home directory, recovered from
-- it, or deleted there. The disk maps path names to files. What the system calls answer is decided
-- by an `Environment`. The trash directory itself is not kept on the disk: whether it could be made
-- is one of those answers.
pub mod Paths
pub mod Copying
pub mod Safety
pub mod RoundTrip
mod Tests
use ti.Base.{
  ℕ, zero, suc, ◌+◌, Bool, true, false, not, ◌||◌, List, [], ◌∷◌, ◌++◌, Option, none, some, Bytes,
  codes, ltb, ◌==◌, if◌then◌else◌, length, get_elem?, take, drop, min,
}
use ti.Base.Disk.{Disk, update, on_file, is_missing}
use ti.Base.Process.{Process, pure, exit, crash, ◌>>=◌, ◌>>◌, modify, gets, check}

abbrev pub buffsize : ℕ
buffsize = 4096

abbrev pub trashdirname : Bytes
trashdirname = codes ".ti3_trash"

-- How a process ends that `assert` aborts.
abbrev pub aborted : ℕ
aborted = 134

pub record File : Type 0 where
  pub contents : Bytes
  pub mode : ℕ

-- What `mkdir` answers: 0, -1 with EEXIST, -1 with another error.
pub data Mkdir : Type 0 where
  made existing failed : Mkdir

-- `reads n` is `none` if the n-th `read` fails, and `some k` if it delivers at most k + 1 bytes.
-- `writes n` is the most that the n-th `write` takes. `masked` is what the file mode creation mask
-- leaves of a mode.
pub record Environment : Type 0 where
  pub home : Option Bytes
  pub mkdir : Mkdir
  pub open_in : Bool
  pub fstat : Bool
  pub open_out : Bool
  pub masked : ℕ → ℕ
  pub reads : ℕ → Option ℕ
  pub writes : ℕ → ℕ
  pub close_in : Bool
  pub close_out : Bool
  pub unlink : Bool

-- Into a buffer of `size` bytes: a path that does not fit with its final 0 is written behind it.
unfoldable pub filecat : {S : Type 0} → ℕ → Bytes → Bytes → Process S Bytes
filecat size filename1 filename2 =
    let joined = filename1 ++ b'/' ∷ filename2 in
    if ltb size (length joined + 1) then crash else pure joined

abbrev pub filecatlen : Bytes → Bytes → ℕ
filecatlen filename1 filename2 = length filename1 + length filename2 + 2

abbrev pub get_trashnamelen : Option Bytes → Bytes → ℕ
get_trashnamelen none filename = 1
get_trashnamelen (some homedir) filename =
    length homedir + length trashdirname + length filename + 3

-- Without a home directory the result is the null pointer, which no caller looks at: they go on
-- with a buffer that nothing was written to.
unfoldable pub get_trashname : {S : Type 0} → Option Bytes → ℕ → Bytes → Process S Bytes
unfolding filecat
get_trashname none size filename = crash
get_trashname (some homedir) size filename = do
  trashdir ← filecat (filecatlen homedir trashdirname) homedir trashdirname
  filecat size trashdir filename

-- The name of a file in the trash, as the operations obtain it.
unfoldable pub trashname : {S : Type 0} → Environment → Bytes → Process S Bytes
trashname e filename = get_trashname e.home (get_trashnamelen e.home filename) filename

abbrev pub made_or_there : {S : Type 0} → Mkdir → Process S (Unit {0})
made_or_there failed = exit 5
made_or_there _ = pure tt

unfoldable pub opt_mktrashdir : {S : Type 0} → Environment → Process S (Unit {0})
opt_mktrashdir e = do dirname ← trashname e []; made_or_there e.mkdir

abbrev pub append : Bytes → File → File
append bytes file = record file { contents = file.contents ++ bytes }

-- One `read` of the loop of `filecopy`, and what is done with its result if it did not fail.
abbrev pub read_round : Option ℕ → (ℕ → Process File Bool) → Process File Bool
read_round none next = pure false
read_round (some k) next = next k

-- The loop of `filecopy` over what is left of the input file, from the n-th round on; its value is
-- whether it ended without a read error. Each round but the last takes a byte at least.
unfoldable pub copy_loop : Environment → ℕ → ℕ → Bytes → Process File Bool
copy_loop e zero n unread = crash
copy_loop e (suc fuel) n [] = read_round (e.reads n) (λ _. pure true)
copy_loop e (suc fuel) n (byte ∷ unread) = read_round (e.reads n) λ k. do
  let n_read = min (suc k) buffsize
  let buffer = take n_read (byte ∷ unread)
  let written = take (e.writes n) buffer
  modify (append written)
  check (not (length written == length buffer)) aborted
  copy_loop e fuel (n + 1) (drop n_read (byte ∷ unread))

-- The end of `filecopy`, with the result of the loop: `return`s are values.
abbrev pub close_both : {S : Type 0} → Environment → Bool → Process S ℕ
close_both e false = pure 3
close_both e true = if e.close_in then pure 1 else if e.close_out then pure 2 else pure 0

-- `filecopy` from the second `open` on.
unfoldable pub copy_to : Environment → File → Bytes → Process (Disk File) ℕ
unfolding copy_loop
copy_to e input outfile = do
  before ← gets (λ files. files outfile)
  if e.open_out || not (is_missing before) then pure 2 else (do
    modify (λ files.
        update files outfile (some (record { contents = []; mode = e.masked input.mode })))
    complete ← on_file outfile 2 (copy_loop e (suc (length input.contents)) 0 input.contents)
    close_both e complete)

unfoldable pub filecopy : Environment → Bytes → Bytes → Process (Disk File) ℕ
unfolding copy_to
filecopy e infile outfile files = elim (files infile) [
  | none ↦ pure 1 files
  | some input ↦ (if e.open_in || e.fstat then pure 1 else copy_to e input outfile) files
]

unfoldable pub unlink : Environment → Bytes → Process (Disk File) (Unit {0})
unlink e name = do
  before ← gets (λ files. files name)
  check (e.unlink || is_missing before) 3
  modify (λ files. update files name none)

-- `filecopy` from one name to another, and `unlink` of the first: the common part of two modes.
unfoldable pub move : Environment → Bytes → Bytes → Process (Disk File) (Unit {0})
unfolding filecopy unlink
move e source target = do
  result ← filecopy e source target
  check (not (result == 0)) 2
  unlink e source

unfoldable pub move_to_trash : Environment → Bytes → Process (Disk File) (Unit {0})
unfolding opt_mktrashdir trashname move
move_to_trash e filename = do
  opt_mktrashdir e
  target ← trashname e filename
  move e filename target

unfoldable pub recover_from_trash : Environment → Bytes → Process (Disk File) (Unit {0})
unfolding trashname move
recover_from_trash e filename = do source ← trashname e filename; move e source filename

unfoldable pub finally_delete : Environment → Bytes → Process (Disk File) (Unit {0})
unfolding trashname unlink
finally_delete e filename = do target ← trashname e filename; unlink e target

-- `switch (argv[1][1])`: the option's second byte. An empty option has none.
abbrev pub dispatch : Environment → Option ℕ → Bytes → Process (Disk File) (Unit {0})
dispatch e none filename = crash
dispatch e (some c) filename =
    if c == b'p'
    then move_to_trash e filename
    else if c == b'g'
    then recover_from_trash e filename
    else if c == b'r'
    then finally_delete e filename
    else exit 1

-- The option with its final 0.
unfoldable pub main : Environment → List Bytes → Process (Disk File) (Unit {0})
unfolding move_to_trash recover_from_trash finally_delete
main e (prog ∷ option ∷ filename ∷ []) = do
  dispatch e (get_elem? (option ++ 0 ∷ []) 1) filename
  exit 0
main e _ = exit 1
