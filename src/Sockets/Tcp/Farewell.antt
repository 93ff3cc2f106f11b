-- ===== src/Sockets/Tcp/Farewell.antt =====
-- How clients are sent away, and what they print.
use ti.Base.{
  ℕ, ◌<◌, ◌≡◌, refl, sym, ap, ◌∙◌, true, false, List, [], ◌∷◌, ◌++◌, append_assoc, append-nil, map,
  Bytes, codes, arith, length, length-append, take, take_all, drop, ◌==◌,
}
use ti.Base.Process.{ok, exits, after as then_do}
use ti.Base.Text.{Lacks}
use ti.Streams.{c_string}
use ti.Sockets.{overwrite, is_string}
use ti.Sockets.Datagrams.RoundTrip.{c_string-line, is_string-line}
use ti.Sockets.Tcp.{
  server_cancel, max_msg_len, Action, Trace, logged, sent, closed, Connection, Event, connection,
  log_entry, ditch, serve, Recv, got, print_message, listen_on, client,
}

-- No call for a connection fails.
abbrev pub Fine : List Connection → Type 0
Fine [] = Unit
Fine (c ∷ connections) = (c.send_fails ≡ false) × (c.close_fails ≡ false) × Fine connections

-- What is done for clients.
abbrev pub farewells : List Connection → Trace
farewells [] = []
farewells (c ∷ connections) =
    logged (log_entry c)
    ∷ sent c.client_sock_fd (server_cancel ++ 0 ∷ [])
    ∷ closed c.client_sock_fd
    ∷ farewells connections

one_by_one :
    (trace : Trace) (a b c : Action) (others : Trace)
    → (((trace ++ a ∷ []) ++ b ∷ []) ++ c ∷ []) ++ others ≡ trace ++ a ∷ b ∷ c ∷ others
one_by_one trace a b c others =
    append_assoc ((trace ++ a ∷ []) ++ b ∷ []) (c ∷ []) others
    ∙ append_assoc (trace ++ a ∷ []) (b ∷ []) (c ∷ others)
    ∙ append_assoc trace (a ∷ []) (b ∷ c ∷ others)

-- Connections without failing calls, and then anything: every client is logged, sent the message
-- and closed, one after the other in their order, and then the server goes on with the rest.
pub serve-farewells :
    (sock_fd : ℕ) (connections : List Connection) (events : List Event) (trace : Trace)
    → Fine connections
    → serve sock_fd (map connection connections ++ events) trace
      ≡ serve sock_fd events (trace ++ farewells connections)
unfolding serve ditch
serve-farewells sock_fd [] events trace fine = ap (serve sock_fd events) (sym (append-nil trace))
serve-farewells sock_fd (c ∷ connections) events trace (sends, closes, fine) =
    (rw (sends, closes))
    ∙ serve-farewells sock_fd connections events
        (((trace ++ logged (log_entry c) ∷ [])
            ++ sent c.client_sock_fd (server_cancel ++ 0 ∷ []) ∷ [])
          ++ closed c.client_sock_fd ∷ [])
        fine
    ∙ ap (serve sock_fd events) (
        one_by_one trace (logged (log_entry c)) (sent c.client_sock_fd (server_cancel ++ 0 ∷ []))
          (closed c.client_sock_fd) (farewells connections))

-- Messages that end with a 0.
abbrev pub in_pieces : List Bytes → List Recv
in_pieces [] = []
in_pieces (message ∷ messages) = got (message ++ 0 ∷ []) ∷ in_pieces messages

abbrev pub on_lines : List Bytes → Bytes
on_lines [] = []
on_lines (message ∷ messages) = message ++ (codes "\n" ++ on_lines messages)

-- Messages without a 0 in them that fit into the buffer.
abbrev pub Fit : List Bytes → Type 0
Fit [] = Unit
Fit (message ∷ messages) = (length message < max_msg_len) × Lacks 0 message × Fit messages

print_message_lem :
    (message buffer printed : Bytes)
    → length message < max_msg_len
    → Lacks 0 message
    → print_message buffer (take max_msg_len (message ++ 0 ∷ [])) printed
      ≡ (ok (overwrite (message ++ 0 ∷ []) buffer), printed ++ (message ++ codes "\n"))
unfolding print_message
print_message_lem message buffer printed h no_zero =
    ap (λ r. print_message buffer r printed)
      (take_all max_msg_len (message ++ 0 ∷ []) (omega (arith, h, length-append message (0 ∷ []))))
    ∙ (rw (nonempty, string))
    ∙ ap (λ text. (ok (overwrite (message ++ 0 ∷ []) buffer), printed ++ (text ++ codes "\n")))
        (ap c_string shape ∙ c_string-line message _ no_zero)
  where
    nonempty : (length (message ++ 0 ∷ []) == 0) ≡ false
    nonempty = ground (arith, length-append message (0 ∷ []))

    shape :
        overwrite (message ++ 0 ∷ []) buffer
        ≡ message ++ 0 ∷ drop (length (message ++ 0 ∷ [])) buffer
    shape = append_assoc message (0 ∷ []) (drop (length (message ++ 0 ∷ [])) buffer)

    string : is_string (overwrite (message ++ 0 ∷ []) buffer) ≡ true
    string =
        ap is_string shape
        ∙ is_string-line message (drop (length (message ++ 0 ∷ [])) buffer) no_zero

-- If each `recv` delivers just one message with its final 0, and then the server closes: the client
-- prints each on a line, and that the connection was closed, and ends with 0.
pub client-in_pieces :
    (messages : List Bytes) (buffer printed : Bytes)
    → Fit messages
    → client false true false 3 buffer (in_pieces messages ++ got [] ∷ []) printed
      ≡ (exits 0, printed ++ (on_lines messages ++ codes "Server closed connection.\n"))
unfolding client listen_on print_message
client-in_pieces [] buffer printed fit = refl
client-in_pieces (message ∷ messages) buffer printed (short, no_zero, fit) =
    ap (then_do (λ b. listen_on b (in_pieces messages ++ got [] ∷ [])))
      (print_message_lem message buffer printed short no_zero)
    ∙ client-in_pieces messages (overwrite (message ++ 0 ∷ []) buffer)
        (printed ++ (message ++ codes "\n")) fit
    ∙ ap (λ t. (exits 0, t))
        (append_assoc printed (message ++ codes "\n")
            (on_lines messages ++ codes "Server closed connection.\n")
          ∙ ap (λ t. printed ++ t)
              (append_assoc message (codes "\n")
                  (on_lines messages ++ codes "Server closed connection.\n")
                ∙ sym (
                    append_assoc message (codes "\n" ++ on_lines messages)
                      (codes "Server closed connection.\n"))))
