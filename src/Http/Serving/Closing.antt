-- ===== src/Http/Serving/Closing.antt =====
-- What a request does to the descriptors, whatever the client sends and the system answers.
use ti.Base.{
  ℕ, zero, suc, ◌+◌, ◌<◌, ◌≡◌, refl, sym, ap, subst, ◌∙◌, false, [], ◌∷◌, ◌++◌, append_assoc,
  append-nil, Option, none, some, arith, Bytes, take, drop, length, length-take, if◌then◌else◌, ltb,
}
use ti.Base.Process.{pure, crash}
use ti.Base.Outcome.{Outcome, Outcome-after, Outcome-if, Outcome-map}
use ti.Base.Text.{strrchr}
use ti.Http.Request.{Parsed, refused, wanted, broken, parse}
use ti.Http.Response.{respond, in_buffer, header_len, header_text, message}
use ti.Http.Response.Bounds.{respond_lem}
use ti.Http.Serving.{
  mime_type, send_blocks, send_file, is_whole, send_header, guess_type, after_stat, answer_parsed,
  answer,
}
use ti.Http.{
  System, Trace, Action, sent, closed, sent_count, accepted, Stat, st_size, no_entry, stat_error,
  Fopen, opened, disappeared, fopen_error, send, close, bufsize, status_500, status_400, status_404,
}

abbrev On : ℕ → Action → Type 0
On fd (sent other bytes) = other ≡ fd
On fd (closed other) = other ≡ fd

abbrev AllOn : ℕ → Trace → Type 0
AllOn fd [] = Unit
AllOn fd (action ∷ trace) = On fd action × AllOn fd trace

-- Behind `before`, only `fd` was sent to and closed.
pub record Grown (fd : ℕ) (before trace : Trace) : Type 0 where
  pub extra : Trace
  pub whole : trace ≡ before ++ extra
  pub only : AllOn fd extra

-- The request, made behind `before`, is for a file that is there, with a known extension; and `taken`
-- is what the client took of its header, which is not all of it.
pub record HeaderCut (sys : System) (fd : ℕ) (request_line : Bytes) (before : Trace) (taken : Bytes)
    : Type 0 where
  pub uri : Bytes
  pub size : ℕ
  pub stem : Bytes
  pub dot : Bytes
  pub mime : Bytes
  pub requested : parse request_line ≡ wanted uri
  pub there : sys.stat before uri ≡ st_size size
  pub extension : strrchr uri b'.' ≡ some (stem, dot)
  pub known : mime_type (drop 1 dot) ≡ some mime
  pub taken_is : taken ≡ accepted (sys.send before fd) (header_text mime size)
  pub not_whole : length taken < length (header_text mime size)

-- The last action was to close the descriptor; or the only action was to send the header of the
-- file, and not all of it was taken.
pub data Ended (sys : System) (fd : ℕ) (request_line : Bytes) (before trace : Trace) : Type 0 where
  closed_last :
      (front : Trace) → trace ≡ front ++ closed fd ∷ [] → Ended sys fd request_line before trace
  header_cut :
      (taken : Bytes)
      → trace ≡ before ++ sent fd taken ∷ []
      → HeaderCut sys fd request_line before taken
      → Ended sys fd request_line before trace

AllOn-append : (fd : ℕ) (s t : Trace) → AllOn fd s → AllOn fd t → AllOn fd (s ++ t)
AllOn-append fd [] t h k = k
AllOn-append fd (action ∷ s) t (on, h) k = (on, AllOn-append fd s t h k)

accepted-cut :
    (answer : Option ℕ) (text : Bytes)
    → 0 < length text
    → is_whole (sent_count answer text) text ≡ false
    → length (accepted answer text) < length text
accepted-cut none text h e = h
accepted-cut (some n) text h e = ground (arith, length-take n text)

module _ (sys : System) (fd : ℕ) (request_line : Bytes) (before : Trace) where
  Grown-refl : Grown fd before before
  Grown-refl = record { extra = []; whole = sym (append-nil before); only = tt }

  then-On :
      (trace : Trace) (action : Action)
      → Grown fd before trace
      → On fd action
      → Grown fd before (trace ++ action ∷ [])
  then-On trace action h on = record {
    extra = h.extra ++ action ∷ [];
    whole = ap (λ t. t ++ action ∷ []) h.whole ∙ append_assoc before h.extra (action ∷ []);
    only = AllOn-append fd h.extra (action ∷ []) h.only (on, tt);
  }

  -- The connection is done with.
  abbrev Done : Trace → Type 0
  Done trace = Grown fd before trace × Ended sys fd request_line before trace

  closed_lem : (trace : Trace) → Grown fd before trace → Done (trace ++ closed fd ∷ [])
  closed_lem trace h = (then-On trace (closed fd) h refl, closed_last trace refl)

  respond-Done :
      (status : Bytes) (trace : Trace)
      → Grown fd before trace
      → Outcome (Grown fd before) (λ _. Done) (respond sys status fd trace)
  respond-Done status trace h =
      subst (Outcome (Grown fd before) (λ _. Done)) (sym (respond_lem sys status fd trace)) (
        closed_lem (trace ++ sent fd (accepted (sys.send trace fd) (message status ++ 0 ∷ [])) ∷ [])
          (then-On trace (sent fd (accepted (sys.send trace fd) (message status ++ 0 ∷ []))) h
            refl))

  send_blocks-Grown :
      (fuel : ℕ) (unread : Bytes) (trace : Trace)
      → Grown fd before trace
      → Outcome (Grown fd before) (λ _. Grown fd before) (send_blocks sys fd fuel unread trace)
  unfolding send_blocks send
  send_blocks-Grown zero unread trace h = h
  send_blocks-Grown (suc fuel) [] trace h = h
  send_blocks-Grown (suc fuel) (c ∷ unread) trace h =
      let block = take bufsize (c ∷ unread) in
      send_blocks-Grown fuel (drop bufsize (c ∷ unread))
        (trace ++ sent fd (accepted (sys.send trace fd) block) ∷ [])
        (then-On trace (sent fd (accepted (sys.send trace fd) block)) h refl)

  send_file-Done :
      (file : Fopen) (trace : Trace)
      → Grown fd before trace
      → Outcome (Grown fd before) (λ _. Done) (send_file sys fd file trace)
  unfolding send_file close
  send_file-Done disappeared trace h = respond-Done status_404 trace h
  send_file-Done fopen_error trace h = respond-Done status_500 trace h
  send_file-Done (opened infile) trace h =
      Outcome-after (Grown fd before) (λ _. Grown fd before) (λ _. Done) _
        (send_blocks sys fd (suc (length infile.bytes)) infile.bytes trace)
        (send_blocks-Grown (suc (length infile.bytes)) infile.bytes trace h)
        (λ _ t k.
          Outcome-after (Grown fd before) (λ _. Grown fd before) (λ _. Done) _
            ((if infile.error then respond sys status_500 fd else pure tt) t)
            (Outcome-if (Grown fd before) (λ _. Grown fd before) infile.error
              (respond sys status_500 fd) (pure tt) t
              (λ _.
                Outcome-map {P = Grown fd before} {Q = λ _. Done} (respond sys status_500 fd t)
                  (respond-Done status_500 t k) (λ _ l. l) (λ _ _ l. l.0))
              (λ _. k))
            (λ _ u l. closed_lem u l))

  -- From the header on, which is the first that is sent.
  send_header-Done :
      (uri stem dot : Bytes) (size : ℕ) (mime : Option Bytes)
      → parse request_line ≡ wanted uri
      → sys.stat before uri ≡ st_size size
      → strrchr uri b'.' ≡ some (stem, dot)
      → mime_type (drop 1 dot) ≡ mime
      → Outcome (Grown fd before) (λ _. Done) (send_header sys fd uri size mime before)
  unfolding send_header in_buffer send
  send_header-Done uri stem dot size none requested there extension known =
      respond-Done status_400 before Grown-refl
  send_header-Done uri stem dot size (some mime) requested there extension known =
      let header = header_text mime size in
      let taken = accepted (sys.send before fd) header in
      let grown = then-On before (sent fd taken) Grown-refl refl in
      Outcome-after (Grown fd before) (λ _ t. t ≡ before) (λ _. Done) _
        (in_buffer (header_len + 1) header before)
        (Outcome-if (Grown fd before) (λ _ t. t ≡ before) (ltb (header_len + 1) (length header + 1))
          crash _ before (λ _. Grown-refl) (λ _. refl))
        (λ buffer t same.
          subst
            (λ t.
              Outcome (Grown fd before) (λ _. Done)
                ((if is_whole (sent_count (sys.send t fd) header) header
                    then (λ t. send_file sys fd (sys.fopen t uri) t)
                    else pure tt)
                  (t ++ sent fd (accepted (sys.send t fd) header) ∷ [])))
            (sym same)
            (Outcome-if (Grown fd before) (λ _. Done)
              (is_whole (sent_count (sys.send before fd) header) header) _ (pure tt)
              (before ++ sent fd taken ∷ [])
              (λ _.
                send_file-Done (sys.fopen (before ++ sent fd taken ∷ []) uri)
                  (before ++ sent fd taken ∷ []) grown)
              (λ cut. (
                grown,
                header_cut taken refl (record {
                  uri = uri;
                  size = size;
                  stem = stem;
                  dot = dot;
                  mime = mime;
                  requested = requested;
                  there = there;
                  extension = extension;
                  known = known;
                  taken_is = refl;
                  not_whole = accepted-cut (sys.send before fd) header (omega arith) cut;
                }),
              ))))

  after_stat-Done :
      (uri : Bytes) (info : Stat)
      → parse request_line ≡ wanted uri
      → sys.stat before uri ≡ info
      → Outcome (Grown fd before) (λ _. Done) (after_stat sys fd uri info before)
  unfolding after_stat guess_type
  after_stat-Done uri no_entry requested there = respond-Done status_404 before Grown-refl
  after_stat-Done uri stat_error requested there = respond-Done status_500 before Grown-refl
  after_stat-Done uri (st_size size) requested there = go (strrchr uri b'.') refl
    where
      go :
          (found : Option (Bytes × Bytes))
          → strrchr uri b'.' ≡ found
          → Outcome (Grown fd before) (λ _. Done) (guess_type sys fd uri size found before)
      go none extension = Grown-refl
      go (some (stem, dot)) extension =
          send_header-Done uri stem dot size (mime_type (drop 1 dot)) requested there extension refl

  answer_parsed-Done :
      (parsed : Parsed)
      → parse request_line ≡ parsed
      → Outcome (Grown fd before) (λ _. Done) (answer_parsed sys fd parsed before)
  unfolding answer_parsed
  answer_parsed-Done (refused status) requested = respond-Done status before Grown-refl
  answer_parsed-Done broken requested = Grown-refl
  answer_parsed-Done (wanted uri) requested =
      after_stat-Done uri (sys.stat before uri) requested refl

-- Whatever the client sends and the system answers: a request is sent to and closes no other
-- descriptor than its own, however the answer ends. If the process goes on, the last action was to
-- close the descriptor; or the only action was to send the header of the file that was requested,
-- with the file's size and MIME type, and not all of this header was taken.
pub answer-Ended :
    (sys : System) (fd : ℕ) (request_line : Bytes) (trace : Trace)
    → Outcome
        (Grown fd trace)
        (λ _ t. Grown fd trace t × Ended sys fd request_line trace t)
        (answer sys fd request_line trace)
unfolding answer
answer-Ended sys fd request_line trace =
    answer_parsed-Done sys fd request_line trace (parse request_line) refl
