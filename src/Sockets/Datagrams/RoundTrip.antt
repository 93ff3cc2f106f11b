-- ===== src/Sockets/Datagrams/RoundTrip.antt =====
-- From the input of the client to the output of the server.
use ti.Base.{
  ℕ, zero, suc, ◌≤◌, ◌<◌, ◌≡◌, sym, ap, subst, ◌∙◌, Bool, true, false, List, [], ◌∷◌, ◌++◌,
  append-nil, append_assoc, map, arith, Bytes, length, length-append, length-drop, lt→ltb, take,
  drop, take_all, ◌==◌,
}
use ti.Base.Process.{ok, exits, exit, after as then_do}
use ti.Base.Text.{Lacks}
use ti.Streams.{c_string, fgets, gather}
use ti.Streams.Lines.{c_string-append, next_line}
use ti.Sockets.{overwrite, is_string}
use ti.Sockets.Datagrams.{bufsize, send_lines, client, datagram, print_datagram, print_all, server}

Lacks_parts : (c : ℕ) (s t : Bytes) → Lacks c (s ++ t) → Lacks c s × Lacks c t
Lacks_parts c [] t h = (tt, h)
Lacks_parts c (x ∷ s) t (ne, h) = let (p, q) = Lacks_parts c s t h in ((ne, p), q)

length-overwrite :
    (bytes buffer : Bytes)
    → length bytes ≤ length buffer
    → length (overwrite bytes buffer) ≡ length buffer
length-overwrite bytes buffer h =
    omega (
      arith,
      h,
      length-append bytes (drop (length bytes) buffer),
      length-drop (length bytes) buffer,
    )

-- A buffer that starts with a line and its 0 is printed as this line.
pub c_string-line : (line behind : Bytes) → Lacks 0 line → c_string (line ++ 0 ∷ behind) ≡ line
unfolding c_string
c_string-line line behind h = c_string-append line (0 ∷ behind) h ∙ append-nil line

pub is_string-line : (line behind : Bytes) → Lacks 0 line → is_string (line ++ 0 ∷ behind) ≡ true
unfolding is_string
is_string-line line behind h =
    lt→ltb (length (c_string (line ++ 0 ∷ behind))) (length (line ++ 0 ∷ behind))
      (omega (arith, ap length (c_string-line line behind h), length-append line (0 ∷ behind)))

-- A datagram of the client: a line, its 0, and what stood in the buffer.
record IsSent (line datagram : Bytes) : Type 0 where
  behind : Bytes
  shape : datagram ≡ line ++ 0 ∷ behind
  full : length datagram ≡ bufsize

print_datagram-IsSent :
    (line received buffer printed : Bytes)
    → IsSent line received
    → Lacks 0 line
    → print_datagram buffer (take bufsize received) printed
      ≡ (ok (overwrite received buffer), printed ++ line)
unfolding print_datagram
print_datagram-IsSent line received buffer printed sent h =
    ap (λ r. print_datagram buffer r printed) (take_all bufsize received (omega (arith, sent.full)))
    ∙ (rw (nonempty, string))
    ∙ ap (λ text. (ok (overwrite received buffer), printed ++ text))
        (ap c_string shape ∙ c_string-line line _ h)
  where
    nonempty : (length received == 0) ≡ false
    nonempty = ground (arith, sent.full)

    shape : overwrite received buffer ≡ line ++ 0 ∷ (sent.behind ++ drop (length received) buffer)
    shape =
        ap (λ r. r ++ drop (length received) buffer) sent.shape
        ∙ append_assoc line (0 ∷ sent.behind) (drop (length received) buffer)

    string : is_string (overwrite received buffer) ≡ true
    string =
        ap is_string shape ∙ is_string-line line (sent.behind ++ drop (length received) buffer) h

-- Datagrams that the client sends for a text, and that the server prints as this text, whatever
-- stands in its buffer.
record Carried (sendto_fails : List Bytes → Bool) (fuel : ℕ) (client_buffer text : Bytes)
    (sent : List Bytes) : Type 0 where
  datagrams : List Bytes
  all_sent :
      send_lines sendto_fails fuel client_buffer false
        (fgets bufsize (record { bytes = text; error = false }))
        sent
      ≡ (ok tt, sent ++ datagrams)
  all_printed :
      (buffer printed : Bytes)
      → print_all buffer (map datagram datagrams) printed ≡ (ok tt, printed ++ text)

carry :
    (sendto_fails : List Bytes → Bool) (fuel : ℕ) (buffer text : Bytes) (sent : List Bytes)
    → ((datagrams : List Bytes) → sendto_fails datagrams ≡ false)
    → length buffer ≡ bufsize
    → Lacks 0 text
    → length text < fuel
    → Carried sendto_fails fuel buffer text sent
unfolding send_lines fgets gather print_all
carry sendto_fails zero buffer text sent fine full no_zero enough = absurd (omega arith)
carry sendto_fails (suc fuel) buffer [] sent fine full no_zero enough = record {
  datagrams = [];
  all_sent = ap (λ s. (ok tt, s)) (sym (append-nil sent));
  all_printed = λ buffer printed. ap (λ t. (ok tt, t)) (sym (append-nil printed));
}
carry sendto_fails (suc fuel) buffer (c ∷ text) sent fine full no_zero enough =
    let next = next_line bufsize c text (omega arith) in
    let buffer' = overwrite (next.line ++ 0 ∷ []) buffer in
    let (line_plain, rest_plain) =
      Lacks_parts 0 next.line next.rest (subst (Lacks 0) (sym next.complete) no_zero) in
    let full' : length buffer' ≡ bufsize =
      length-overwrite (next.line ++ 0 ∷ []) buffer
        (omega (arith, full, next.fits, length-append next.line (0 ∷ [])))
      ∙ full in
    let is_sent : IsSent next.line buffer' = record {
      behind = drop (length (next.line ++ 0 ∷ [])) buffer;
      shape = append_assoc next.line (0 ∷ []) (drop (length (next.line ++ 0 ∷ [])) buffer);
      full = full';
    } in
    let others =
      carry sendto_fails fuel buffer' next.rest (sent ++ buffer' ∷ []) fine full' rest_plain
        (omega (arith, enough, next.progress)) in
    record {
      datagrams = buffer' ∷ others.datagrams;
      all_sent =
          ap (λ found. send_lines sendto_fails (suc fuel) buffer false found sent) next.delivered
          ∙ (rw (fine sent))
          ∙ others.all_sent
          ∙ ap (λ s. (ok tt, s)) (append_assoc sent (buffer' ∷ []) others.datagrams);
      all_printed = λ buffer printed.
          ap (then_do (λ b. print_all b (map datagram others.datagrams)))
            (print_datagram-IsSent next.line buffer' buffer printed is_sent line_plain)
          ∙ others.all_printed (overwrite buffer' buffer) (printed ++ next.line)
          ∙ ap (λ t. (ok tt, t))
              (append_assoc printed next.line next.rest ∙ ap (λ t. printed ++ t) next.complete);
    }

-- A text without a byte 0 on the standard input of the client, and no call that fails: the client
-- ends with 0, and its datagrams, delivered in order, make the server print just this text,
-- whatever stood in the two buffers.
pub server-client :
    (sendto_fails : List Bytes → Bool) (client_buffer server_buffer text printed : Bytes)
    → ((datagrams : List Bytes) → sendto_fails datagrams ≡ false)
    → length client_buffer ≡ bufsize
    → Lacks 0 text
    → (datagrams : List Bytes) × (client sendto_fails false 2 client_buffer
          (record { bytes = text; error = false })
          []
        ≡ (exits 0, datagrams))
      × (server false false 2 server_buffer (map datagram datagrams) printed
          ≡ (ok tt, printed ++ text))
unfolding client server
server-client sendto_fails client_buffer server_buffer text printed fine full no_zero =
    let carried =
      carry sendto_fails (suc (length text)) client_buffer text [] fine full no_zero
        (omega arith) in
    (
      carried.datagrams,
      ap (then_do (λ _. exit 0)) carried.all_sent,
      carried.all_printed server_buffer printed,
    )
