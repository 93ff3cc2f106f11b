-- ===== src/Streams/Lines.antt =====
-- Strings in a buffer, and lines that `fgets` delivers as a whole.
use ti.Base.{
  Option, ℕ, zero, suc, ◌+◌, ◌-◌, ◌≤◌, ◌<◌, ◌≡◌, refl, sym, ap, ◌∙◌, Bool, true, false, [], ◌∷◌,
  ◌++◌, append-nil, some, none, arith, Bytes, length, ◌==◌, if◌then◌else◌, ◌&&◌, ◌||◌,
  length-append, subst,
}
use ti.Base.Text.{Lacks}
use ti.Streams.{Input, c_string, Gathered, onto_line, gather, fgets}

pub c_string-append : (s t : Bytes) → Lacks 0 s → c_string (s ++ t) ≡ s ++ c_string t
unfolding c_string
c_string-append [] t h = refl
c_string-append (x ∷ s) t (ne, h) = rw (differs, c_string-append s t h)
  where
    differs : (x == 0) ≡ false
    differs = ground arith

pub c_string_whole : (s : Bytes) → Lacks 0 s → c_string s ≡ s
unfolding c_string
c_string_whole s h = ap c_string (sym (append-nil s)) ∙ c_string-append s [] h ∙ append-nil s

-- A line without its newline.
gather_line :
    (room : ℕ) (line rest : Bytes)
    → length line < room
    → Lacks b'\n' line
    → gather room (line ++ b'\n' ∷ rest)
      ≡ record { line = line ++ b'\n' ∷ []; rest = rest; at_end = false }
unfolding gather
gather_line zero line rest h lacks = absurd (omega arith)
gather_line (suc room) [] rest h lacks = refl
gather_line (suc room) (c ∷ line) rest h (ne, lacks) =
    rw differs (ap (onto_line c) (gather_line room line rest (omega (arith, h)) lacks))
  where
    differs : (c == b'\n') ≡ false
    differs = ground arith

pub fgets_line :
    (size : ℕ) (line rest : Bytes) (error : Bool)
    → length line + 1 < size
    → Lacks b'\n' line
    → fgets size (record { bytes = line ++ b'\n' ∷ rest; error = error })
      ≡ some (line ++ b'\n' ∷ [], record { bytes = rest; error = error })
unfolding fgets
fgets_line size line rest error h lacks =
    rw (gather_line (size - 1) line rest (omega (arith, h)) lacks)

-- Nothing is lost, and something is gathered if there are bytes and room.
pub gather_whole :
    (room : ℕ) (unread : Bytes) → (gather room unread).line ++ (gather room unread).rest ≡ unread
unfolding gather
gather_whole zero unread = refl
gather_whole (suc room) [] = refl
gather_whole (suc room) (c ∷ unread) = ground (arith, gather_whole room unread)

pub gather_some :
    (room : ℕ) (c : ℕ) (unread : Bytes) → 1 ≤ length (gather (suc room) (c ∷ unread)).line
unfolding gather
gather_some room c unread = ground (arith)

abbrev bytes_left : Option (Bytes × Input) → Bytes
bytes_left none = []
bytes_left (some (line, stream)) = stream.bytes

delivered_left :
    (end_seen : Bool) (line rest : Bytes) (error : Bool) (found : Bytes × Input)
    → (if end_seen then none else some (line, record { bytes = rest; error = error })) ≡ some found
    → found.1.bytes ≡ rest
delivered_left true line rest error found h = cc
delivered_left false line rest error found h = sym (ap bytes_left h)

abbrev from_gathered : Bool → Gathered → Option (Bytes × Input)
from_gathered error g =
    if g.at_end && (error || length g.line == 0)
    then none
    else some (g.line, record { bytes = g.rest; error = error })

gathered_shorter :
    (room : ℕ) (bytes : Bytes) (error : Bool) (found : Bytes × Input)
    → from_gathered error (gather (suc room) bytes) ≡ some found
    → length found.1.bytes < length bytes
unfolding gather
gathered_shorter room [] true found h = cc
gathered_shorter room [] false found h = cc
gathered_shorter room (c ∷ bytes) error found h =
    let g = gather (suc room) (c ∷ bytes) in
    let left =
      delivered_left (g.at_end && (error || length g.line == 0)) g.line g.rest error found h in
    omega (
      arith,
      ap length left,
      gather_some room c bytes,
      ap length (gather_whole (suc room) (c ∷ bytes)),
      length-append g.line g.rest,
    )

-- Whatever is delivered, fewer bytes are left.
pub fgets_shorter :
    (size : ℕ) (stream : Input) (found : Bytes × Input)
    → 2 ≤ size
    → fgets size stream ≡ some found
    → length found.1.bytes < length stream.bytes
unfolding fgets
fgets_shorter size stream found h e =
    gathered_shorter (size - 2) stream.bytes stream.error found
      (subst (λ n. from_gathered stream.error (gather n stream.bytes) ≡ some found) same e)
  where
    same : size - 1 ≡ suc (size - 2)
    same = omega (arith, h)

not_empty : (end_seen : Bool) (n : ℕ) → 1 ≤ n → (end_seen && (false || n == 0)) ≡ false
not_empty end_seen n h = ground arith

gather_fits : (room : ℕ) (unread : Bytes) → length (gather room unread).line ≤ room
unfolding gather
gather_fits zero unread = omega arith
gather_fits (suc room) [] = omega arith
gather_fits (suc room) (c ∷ unread) = ground (arith, gather_fits room unread)

-- A line that `fgets` delivered of a stream without errors.
pub record NextLine (size : ℕ) (bytes : Bytes) : Type 0 where
  pub line : Bytes
  pub rest : Bytes
  pub delivered :
      fgets size (record { bytes = bytes; error = false })
      ≡ some (line, record { bytes = rest; error = false })
  pub complete : line ++ rest ≡ bytes
  pub fits : length line < size
  pub progress : length rest < length bytes

pub next_line : (size c : ℕ) (bytes : Bytes) → 2 ≤ size → NextLine size (c ∷ bytes)
unfolding fgets
next_line size c bytes h =
    let g = gather (suc (size - 2)) (c ∷ bytes) in
    let all_there = gather_whole (suc (size - 2)) (c ∷ bytes) in
    let some_there = gather_some (size - 2) c bytes in
    record {
      line = g.line;
      rest = g.rest;
      delivered =
          ap (λ n. from_gathered false (gather n (c ∷ bytes))) same
          ∙ ap (λ b. if b then none else some (g.line, record { bytes = g.rest; error = false }))
              (not_empty g.at_end (length g.line) some_there);
      complete = all_there;
      fits = omega (arith, h, gather_fits (suc (size - 2)) (c ∷ bytes));
      progress = omega (arith, some_there, ap length all_there, length-append g.line g.rest);
    }
  where
    same : size - 1 ≡ suc (size - 2)
    same = omega (arith, h)
