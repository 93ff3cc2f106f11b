-- ===== src/Http/Tests.antt =====
-- Requests and rounds of the server, and the theorems at concrete inputs.
use ti.Base.{
  map, ap, ℕ, ◌+◌, ◌-◌, ◌≡◌, refl, true, false, List, [], ◌∷◌, ◌++◌, some, arith, Bytes, codes,
  length, replicate, str_eq, ◌==◌, if◌then◌else◌,
}
use ti.Base.Outcome.{Outcome}
use ti.Base.Text.{Lacks, strchr, strchr-Lacks, strrchr}
use ti.Base.Process.{ok, exits}
use ti.Http.Request.{refused, wanted, broken, parse}
use ti.Http.Response.{message, respond, in_buffer, header_len, header_text}
use ti.Http.Serving.{mime_type, answer}
use ti.Http.Response.Bounds.{respond_lem, in_buffer-header_text}
use ti.Http.Request.Parsing.{IsGet, parse-get_line, parse-wanted}
use ti.Http.Serving.Delivery.{TakesAll, joined, answer-get_line}
use ti.Http.Serving.Closing.{Grown, Ended, answer-Ended}
use ti.Http.Server.Counting.{remove_first, Documented, IsCounted}
use ti.Http.Server.Rounds.{main-IsCounted}
use ti.Http.Server.{Glib, Events, ready, interrupted, Server, SetUp, main}
use ti.Http.{System, Trace, got, sent, closed, st_size, no_entry, opened, status_501}

parse-index : parse (codes "GET / HTTP/1.0\r\nHost: a\n") ≡ wanted (codes "index.html")
unfolding parse
parse-index = refl

parse-post : parse (codes "POST /a HTTP/1.0\n") ≡ refused status_501
unfolding parse
parse-post = refl

parse-no_slash : parse (codes "GET\n") ≡ broken
unfolding parse
parse-no_slash = refl

parse-parent : parse (codes "GET /../secret.html HTTP/1.0\n") ≡ wanted (codes "../secret.html")
unfolding parse
parse-parent = refl

-- Every client wants the index; there is no file else.
abbrev calm : System
calm = record {
  read = λ trace fd. got (codes "GET /index.html HTTP/1.0\n");
  stale = λ trace. [];
  send = λ trace fd. some 2000;
  close_fails = λ trace fd. false;
  stat = λ trace uri. if str_eq uri (codes "index.html") then st_size 2 else no_entry;
  fopen = λ trace uri. opened (record { bytes = codes "Hi"; error = false });
}

answer-index :
    answer calm 4 (codes "GET / HTTP/1.0\n") []
    ≡ (ok tt, sent 4 (header_text (codes "text/html") 2) ∷ sent 4 (codes "Hi") ∷ closed 4 ∷ [])
unfolding answer str_eq
answer-index = refl

respond_lem_example :
    respond calm status_501 4 [] ≡ (ok tt, sent 4 (message status_501 ++ 0 ∷ []) ∷ closed 4 ∷ [])
respond_lem_example = respond_lem calm status_501 4 []

in_buffer-header_text_example :
    in_buffer (header_len + 1) (header_text (codes "image/jpeg") 70000) (let e : Trace = [] in e)
    ≡ (
      ok (
          header_text (codes "image/jpeg") 70000
          ++ replicate (header_len + 1 - length (header_text (codes "image/jpeg") 70000)) 0),
      [],
    )
in_buffer-header_text_example = in_buffer-header_text (codes "image/jpeg") 70000 [] (omega arith)

parse-get_line_example :
    parse (codes "GET /a/b.gif HTTP/1.0\r\nHost: a\n") ≡ wanted (codes "a/b.gif")
unfolding strchr
parse-get_line_example =
    parse-get_line (codes "a/b.gif") (codes "\r") (codes "Host: a\n")
      (strchr-Lacks (codes "a/b.gif") b' ' refl) (strchr-Lacks (codes "a/b.gif") b'\n' refl)
      (strchr-Lacks (codes "\r") b'\n' refl)

parse-wanted_example :
    (request_line behind : Bytes) × (codes "GET / HTTP/1.0\r\nHost: a\n"
      ≡ request_line ++ b'\n' ∷ behind)
    × Lacks b'\n' request_line
    × IsGet (request_line ++ b'\n' ∷ []) (codes "index.html")
parse-wanted_example =
    parse-wanted (codes "GET / HTTP/1.0\r\nHost: a\n") (codes "index.html") parse-index

abbrev calm-TakesAll : TakesAll calm
calm-TakesAll = record {
  room = λ trace fd. 2000;
  send_lem = λ trace fd. refl;
  enough = λ trace fd. omega arith;
}

answer-get_line_example :
    (blocks : List Bytes) × (joined blocks ≡ codes "Hi")
    × (answer calm 4 (codes "GET / HTTP/1.0\nHost: a\n") (closed 4 ∷ []) ≡ (
      ok tt,
      (closed 4 ∷ sent 4 (header_text (codes "text/html") 2) ∷ map (sent 4) blocks)
          ++ closed 4 ∷ [],
    ))
unfolding str_eq strrchr mime_type
answer-get_line_example =
    answer-get_line calm 4 (closed 4 ∷ []) [] [] (codes "Host: a\n") (codes "index") (codes ".html")
      (codes "text/html") 2 (record { bytes = codes "Hi"; error = false }) calm-TakesAll tt tt tt
      refl refl refl (λ trace. refl) refl

answer-Ended_example :
    Outcome
      (Grown 4 (closed 5 ∷ []))
      (λ _ t.
        Grown 4 (closed 5 ∷ []) t × Ended calm 4 (codes "GET /a.html HTTP/1.0\n") (closed 5 ∷ []) t)
      (answer calm 4 (codes "GET /a.html HTTP/1.0\n") (closed 5 ∷ []))
answer-Ended_example = answer-Ended calm 4 (codes "GET /a.html HTTP/1.0\n") (closed 5 ∷ [])

-- GLib, as it is documented.
abbrev without : List ℕ → ℕ → List ℕ
without [] x = []
without (y ∷ l) x = if y == x then l else y ∷ without l x

abbrev glib : Glib
glib = record { prepend = λ l x. x ∷ l; remove = without; link_stays = true }

without_lem : (l : List ℕ) (x : ℕ) → without l x ≡ remove_first x l
without_lem [] x = refl
without_lem (y ∷ l) x = ap (λ m. if y == x then l else y ∷ m) (without_lem l x)

abbrev glib-Documented : Documented glib
glib-Documented = record { prepend_lem = λ l x. refl; remove_lem = without_lem }

abbrev comes : Events
comes = record { system = calm; pselect = ready (λ fd. fd == 3); got_sigint = false; accept = 4 }

abbrev asks : Events
asks = record { system = calm; pselect = ready (λ fd. fd == 4); got_sigint = false; accept = 0 }

abbrev interrupt : Events
interrupt = record { system = calm; pselect = interrupted; got_sigint = true; accept = 0 }

-- A client comes, then it asks for the index, then the server is interrupted.
abbrev visit : List Events
visit = comes ∷ asks ∷ interrupt ∷ []

abbrev quiet : SetUp
quiet = record {
  sigprocmask = false;
  sigaction = false;
  socket = some 3;
  address = true;
  bind = false;
  listen = false;
}

abbrev nobody : Server
nobody = record { client_fds = []; client_cnt = 0; max_fd = 0; trace = [] }

main-visit : main glib quiet 3 visit nobody ≡ (
  exits 0,
  record {
    client_fds = [];
    client_cnt = 0;
    max_fd = 4;
    trace =
        sent 4 (header_text (codes "text/html") 2) ∷ sent 4 (codes "Hi") ∷ closed 4 ∷ closed 3 ∷ [];
  },
)
unfolding main str_eq
main-visit = refl

main-IsCounted_example : Outcome IsCounted (λ _. IsCounted) (main glib quiet 3 visit nobody)
main-IsCounted_example =
    main-IsCounted glib glib-Documented quiet 3 visit nobody (refl, omega arith)
