-- ===== src/Sockets/Tests.antt =====
-- Runs of the servers and clients, and the theorems at concrete inputs.
use ti.Base.{
  ℕ, ◌≡◌, refl, true, false, List, [], ◌∷◌, ◌++◌, map, some, arith, codes, Bytes, replicate,
  length-replicate,
}
use ti.Base.Process.{ok, exits}
use ti.Base.Text.{strchr, strchr-Lacks}
use ti.Sockets.Datagrams.{datagram, client as send_all, server as print_received}
use ti.Sockets.Datagrams.RoundTrip.{server-client}
use ti.Sockets.Tcp.Farewell.{farewells, serve-farewells, client-in_pieces}
use ti.Sockets.Tcp.{
  server_cancel, logged, sent, closed, Connection, connection, no_connection, interrupted, serve,
  SetUp, server, got, client,
}

abbrev first : Connection
first = record {
  client_sock_fd = 4;
  address = codes "::1";
  port = 4711;
  time = 1400000000;
  send_fails = false;
  close_fails = false;
}

abbrev second : Connection
second = record first { client_sock_fd = 5; send_fails = true }

serve-first : serve 3 (connection first ∷ connection second ∷ []) [] ≡ (
  exits 4,
  logged (codes "A: ::1\tP: 4711\tT: 1400000000\n")
      ∷ sent 4 (codes "Buggar off." ++ 0 ∷ [])
      ∷ closed 4
      ∷ logged (codes "A: ::1\tP: 4711\tT: 1400000000\n")
      ∷ [],
)
unfolding serve
serve-first = refl

abbrev quiet : SetUp
quiet = record {
  sigaction = false;
  fopen = false;
  socket = some 3;
  address = true;
  bind = false;
  listen = false;
}

-- With no connection the server ends, as if nothing were wrong.
serve-none : server quiet 4 (no_connection ∷ []) [] ≡ (exits 0, [])
unfolding server
serve-none = refl

serve-farewells_example :
    serve 3 (connection first ∷ connection first ∷ interrupted false true ∷ []) []
    ≡ serve 3 (interrupted false true ∷ []) (farewells (first ∷ first ∷ []))
serve-farewells_example =
    serve-farewells 3 (first ∷ first ∷ []) (interrupted false true ∷ []) []
      (refl, refl, (refl, refl, tt))

client-in_pieces_example :
    client false true false 3 [] (got (server_cancel ++ 0 ∷ []) ∷ got [] ∷ []) []
    ≡ (exits 0, codes "Buggar off.\nServer closed connection.\n")
unfolding strchr
client-in_pieces_example =
    client-in_pieces (server_cancel ∷ []) [] [] (omega arith, strchr-Lacks server_cancel 0 refl, tt)

server-client_example :
    (datagrams : List Bytes) × (send_all
        (λ sent. false)
        false
        2
        (replicate 1024 7)
        (record { bytes = codes "one\n\ntwo"; error = false })
        []
      ≡ (exits 0, datagrams))
    × (print_received false false 2 (codes "abc") (map datagram datagrams) []
        ≡ (ok tt, codes "one\n\ntwo"))
unfolding strchr
server-client_example =
    server-client (λ sent. false) (replicate 1024 7) (codes "abc") (codes "one\n\ntwo") []
      (λ datagrams. refl) (length-replicate {A = ℕ} 1024 7)
      (strchr-Lacks (codes "one\n\ntwo") 0 refl)
