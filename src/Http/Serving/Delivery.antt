-- ===== src/Http/Serving/Delivery.antt =====
-- The delivery of a file to a client that takes all that it is sent.
use ti.Base.{
  str_eq, ◌||◌, ==_refl, ℕ, zero, suc, ◌≤◌, ◌<◌, ◌≡◌, refl, sym, ap, subst, ◌∙◌, Bool, true, false,
  List, [], ◌∷◌, ◌++◌, append_assoc, append-nil, map, Option, none, some, arith, Bytes, codes, take,
  drop, take_all, take-append-drop, length, length-take, length-drop, min, if◌then◌else◌,
}
use ti.Base.Process.{Process, ok, pure, after, gets, ◌>>=◌}
use ti.Base.Text.{strrchr, Lacks}
use ti.Streams.{Input}
use ti.Http.Request.{default_uri}
use ti.Http.Request.Parsing.{get_line, parse-get_line}
use ti.Http.Response.{header_text, max_mime_len}
use ti.Http.Response.Bounds.{in_buffer-header_text, length-header_text}
use ti.Http.Serving.{
  mime_type, send_blocks, send_file, is_whole, send_header, guess_type, after_stat, answer_parsed,
  answer,
}
use ti.Http.{
  System, Trace, sent, closed, sent_count, accepted, st_size, opened, send, close, bufsize,
}

fits-if :
    (same : Bool) (text : Bytes) (others : Option Bytes) (mime : Bytes)
    → length text ≤ max_mime_len
    → (others ≡ some mime → length mime ≤ max_mime_len)
    → (if same then some text else others) ≡ some mime
    → length mime ≤ max_mime_len
fits-if true text others mime h k e =
    subst (λ m. length m ≤ max_mime_len) (some_injective text mime e) h
  where
    some_injective : (a b : Bytes) → some a ≡ some b → a ≡ b
    some_injective a b e = cc
fits-if false text others mime h k e = k e

mime_type_lem :
    (filename_ext mime : Bytes) → mime_type filename_ext ≡ some mime → length mime ≤ max_mime_len
unfolding mime_type
mime_type_lem filename_ext mime h =
    fits-if (str_eq filename_ext (codes "html") || str_eq filename_ext (codes "htm"))
      (codes "text/html") _ mime (omega arith)
      (fits-if (str_eq filename_ext (codes "jpeg") || str_eq filename_ext (codes "jpg"))
        (codes "image/jpeg") _ mime (omega arith)
        (fits-if (str_eq filename_ext (codes "gif")) (codes "image/gif") none mime (omega arith)
          (λ h. cc)))
      h

abbrev pub joined : List Bytes → Bytes
joined [] = []
joined (block ∷ blocks) = block ++ joined blocks

-- All of a buffer, or more, is taken.
pub record TakesAll (sys : System) : Type 0 where
  pub room : Trace → ℕ → ℕ
  pub send_lem : (trace : Trace) (fd : ℕ) → sys.send trace fd ≡ some (room trace fd)
  pub enough : (trace : Trace) (fd : ℕ) → bufsize ≤ room trace fd

module _ (sys : System) (takes : TakesAll sys) (client_fd : ℕ) where
  send-all :
      (message : Bytes) (trace : Trace)
      → length message ≤ bufsize
      → send sys client_fd message trace
        ≡ (ok (some (length message)), trace ++ sent client_fd message ∷ [])
  unfolding send
  send-all message trace h =
      ap (λ a. (ok (sent_count a message), trace ++ sent client_fd (accepted a message) ∷ []))
        (takes.send_lem trace client_fd)
      ∙ ap
          (λ m. (
            ok (some (min (takes.room trace client_fd) (length message))),
            trace ++ sent client_fd m ∷ [],
          ))
          (take_all (takes.room trace client_fd) message
            (omega (arith, h, takes.enough trace client_fd)))
      ∙ ap (λ n. (ok (some n), trace ++ sent client_fd message ∷ []))
          (let e : min (takes.room trace client_fd) (length message) ≡ length message =
              omega (arith, h, takes.enough trace client_fd) in
            e)

  -- The file is sent in blocks that make it up.
  send_blocks_lem :
      (fuel : ℕ) (unread : Bytes) (trace : Trace)
      → length unread < fuel
      → (blocks : List Bytes) × (joined blocks ≡ unread)
        × (send_blocks sys client_fd fuel unread trace
            ≡ (ok tt, trace ++ map (sent client_fd) blocks))
  unfolding send_blocks
  send_blocks_lem zero unread trace h = absurd (omega arith)
  send_blocks_lem (suc fuel) [] trace h = ([], refl, ap (λ t. (ok tt, t)) (sym (append-nil trace)))
  send_blocks_lem (suc fuel) (c ∷ unread) trace h =
      let text : Bytes = c ∷ unread in
      let block = take bufsize text in
      let (blocks, whole, run) =
        send_blocks_lem fuel (drop bufsize text) (trace ++ sent client_fd block ∷ [])
          (omega (arith, length-drop bufsize text)) in
      (
        block ∷ blocks,
        ap (◌++◌ block) whole ∙ take-append-drop bufsize text,
        ap (after (λ count. send_blocks sys client_fd fuel (drop bufsize text)))
              (send-all block trace (omega (arith, length-take bufsize text)))
            ∙ run
            ∙ ap (λ t. (ok tt, t))
                (append_assoc trace (sent client_fd block ∷ []) (map (sent client_fd) blocks)),
      )

  module _ (infile : Input) (no_error : infile.error ≡ false) where
    send_file_lem :
        (trace : Trace)
        → (blocks : List Bytes) × (joined blocks ≡ infile.bytes)
          × (send_file sys client_fd (opened infile) trace
              ≡ (ok tt, (trace ++ map (sent client_fd) blocks) ++ closed client_fd ∷ []))
    unfolding send_file close
    send_file_lem trace =
        let (blocks, whole, run) =
          send_blocks_lem (suc (length infile.bytes)) infile.bytes trace (omega arith) in
        (blocks, whole, ap (after _) run ∙ (rw no_error))

    send_header_lem :
        (uri mime : Bytes) (size : ℕ) (trace : Trace)
        → length mime ≤ max_mime_len
        → ((trace : Trace) → sys.fopen trace uri ≡ opened infile)
        → (blocks : List Bytes) × (joined blocks ≡ infile.bytes)
          × (send_header sys client_fd uri size (some mime) trace ≡ (
            ok tt,
            ((trace ++ sent client_fd (header_text mime size) ∷ []) ++ map (sent client_fd) blocks)
                ++ closed client_fd ∷ [],
          ))
    unfolding send_header
    send_header_lem uri mime size trace fits opens =
        let header = header_text mime size in
        let (blocks, whole, run) = send_file_lem (trace ++ sent client_fd header ∷ []) in
        (
          blocks,
          whole,
          ap (after (λ buffer. send sys client_fd header >>= then_file))
                (in_buffer-header_text mime size trace fits)
              ∙ ap (after then_file)
                  (send-all header trace (omega (arith, length-header_text mime size fits)))
              ∙ (rw (==_refl (length header), opens (trace ++ sent client_fd header ∷ [])))
              ∙ run,
        )
      where
        then_file : Option ℕ → Process Trace (Unit {0})
        then_file count =
            if is_whole count (header_text mime size)
            then (do infile ← gets (λ trace. sys.fopen trace uri); send_file sys client_fd infile)
            else pure tt

-- A GET request for a file that is there and has a known extension, from a client that takes all
-- that it is sent: it is sent the header with the file's size and MIME type, then in blocks all
-- bytes of the file, in order, and then the connection is closed.
pub answer-get_line :
    (sys : System) (client_fd : ℕ) (trace : Trace) (path tail behind stem dot mime : Bytes)
    (size : ℕ) (infile : Input)
    → TakesAll sys
    → Lacks b' ' path
    → Lacks b'\n' path
    → Lacks b'\n' tail
    → sys.stat trace (default_uri path) ≡ st_size size
    → strrchr (default_uri path) b'.' ≡ some (stem, dot)
    → mime_type (drop 1 dot) ≡ some mime
    → ((trace : Trace) → sys.fopen trace (default_uri path) ≡ opened infile)
    → infile.error ≡ false
    → (blocks : List Bytes) × (joined blocks ≡ infile.bytes)
      × (answer sys client_fd (get_line path tail ++ b'\n' ∷ behind) trace ≡ (
        ok tt,
        ((trace ++ sent client_fd (header_text mime size) ∷ []) ++ map (sent client_fd) blocks)
            ++ closed client_fd ∷ [],
      ))
unfolding answer answer_parsed after_stat guess_type
answer-get_line sys client_fd trace path tail behind stem dot mime size infile takes no_blank
      no_newline tail_line found extension known opens no_error =
    let (blocks, whole, run) =
      send_header_lem sys takes client_fd infile no_error (default_uri path) mime size trace
        (mime_type_lem (drop 1 dot) mime known) opens in
    (
      blocks,
      whole,
      ap (λ p. answer_parsed sys client_fd p trace)
            (parse-get_line path tail behind no_blank no_newline tail_line)
          ∙ (rw (found, extension, known))
          ∙ run,
    )
