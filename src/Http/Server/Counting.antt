-- ===== src/Http/Server/Counting.antt =====
-- The number of clients that is kept, and the list of their descriptors.
use ti.Base.{
  false-ne-true, ℕ, suc, ◌+◌, ◌-◌, ◌%◌, ◌≤◌, ◌<◌, ◌≡◌, sym, subst, Bool, true, false, List, [], ◌∷◌,
  arith, Bytes, ltb, length, ◌==◌, if◌then◌else◌, ◌&&◌, not,
}
use ti.Base.Process.{Process, Result, ok, exits, undefined, pure, crash, after}
use ti.Base.Outcome.{Outcome, Outcome-after, Outcome-if}
use ti.Http.Request.{received}
use ti.Http.Serving.{answer}
use ti.Http.{System, Trace, Read, got, at_eof, read_error, close, max_client_cnt}
use ti.Http.Server.{
  Glib, Events, Server, int_range, int_lt, keep_trace, on_trace, remove_client, attend_read, attend,
  attend_all, accept_client, close_all, shut_down,
}

abbrev pub remove_first : ℕ → List ℕ → List ℕ
remove_first x [] = []
remove_first x (y ∷ l) = if y == x then l else y ∷ remove_first x l

-- What GLib documents: an element is put in front; the first element with these data is removed.
pub record Documented (g : Glib) : Type 0 where
  pub prepend_lem : (l : List ℕ) (x : ℕ) → g.prepend l x ≡ x ∷ l
  pub remove_lem : (l : List ℕ) (x : ℕ) → g.remove l x ≡ remove_first x l

-- The number of clients is right, and there are no more than MAX_CLIENT_CNT.
abbrev pub IsCounted : Server → Type 0
IsCounted s = (s.client_cnt ≡ length s.client_fds) × (length s.client_fds ≤ max_client_cnt)

abbrev count : ℕ → List ℕ → ℕ
count x [] = 0
count x (y ∷ l) = (if y == x then 1 else 0) + count x l

-- The clients that the loop has still to visit are in the list, as often as there.
abbrev ToVisit : List ℕ → Server → Type 0
ToVisit nodes s = (x : ℕ) → count x nodes ≤ count x s.client_fds

abbrev Visiting : List ℕ → Server → Type 0
Visiting nodes s = IsCounted s × ToVisit nodes s

length-remove_first :
    (x : ℕ) (l : List ℕ) → 0 < count x l → length l ≡ suc (length (remove_first x l))
length-remove_first x [] h = absurd (omega arith)
length-remove_first x (y ∷ l) h = grind (arith, length-remove_first x l)

count-remove_first :
    (z x : ℕ) (l : List ℕ) → count z l ≤ (if x == z then 1 else 0) + count z (remove_first x l)
count-remove_first z x [] = omega arith
count-remove_first z x (y ∷ l) = ground (arith, count-remove_first z x l)

count_self : (x : ℕ) (l : List ℕ) → 0 < count x (x ∷ l)
count_self x l = ground arith

one_less : (n m : ℕ) → n ≤ max_client_cnt → n ≡ suc m → (n + (int_range - 1)) % int_range ≡ m
one_less n m h e = omega arith

one_more : (n : ℕ) → n ≤ max_client_cnt → (n + 1) % int_range ≡ suc n
one_more n h = omega arith

room_lem :
    (is_set : Bool) (n : ℕ)
    → n ≤ max_client_cnt
    → (is_set && int_lt n max_client_cnt) ≡ true
    → n < max_client_cnt
room_lem true n h k = ground arith
room_lem false n h k = absurd (false-ne-true k)

-- Work on the trace alone keeps what is said of the clients.
Outcome-on_trace :
    {A : Type 0} (P Q : Server → Type 0) (m : Process Trace A) (s : Server)
    → ((trace : Trace) → P (record s { trace = trace }))
    → ((trace : Trace) → Q (record s { trace = trace }))
    → Outcome P (λ _. Q) (on_trace m s)
Outcome-on_trace {A = A} P Q m s h k = go (m s.trace)
  where
    go : (r : Result A × Trace) → Outcome P (λ _. Q) (keep_trace s r)
    go (ok a, trace) = k trace
    go (exits status, trace) = h trace
    go (undefined, trace) = h trace

module _ (g : Glib) (documented : Documented g) (sys : System) where
  removed_lem :
      (client_fd : ℕ) (nodes : List ℕ) (s : Server)
      → Visiting (client_fd ∷ nodes) s
      → Visiting nodes (remove_client g client_fd s)
  removed_lem client_fd nodes s ((counted, bounded), to_visit) =
      subst
        (λ l.
          (((s.client_cnt + (int_range - 1)) % int_range ≡ length l) × (length l ≤ max_client_cnt))
          × ((x : ℕ) → count x nodes ≤ count x l))
        (sym (documented.remove_lem s.client_fds client_fd))
        (
          (
            one_less s.client_cnt (length (remove_first client_fd s.client_fds))
                (omega (arith, counted, bounded)) (omega (arith, counted, shorter)),
            omega (arith, bounded, shorter),
          ),
          λ x. omega (arith, to_visit x, count-remove_first x client_fd s.client_fds),
        )
    where
      shorter : length s.client_fds ≡ suc (length (remove_first client_fd s.client_fds))
      shorter =
          length-remove_first client_fd s.client_fds
            (omega (arith, to_visit client_fd, count_self client_fd nodes))

  skipped_lem :
      (client_fd : ℕ) (nodes : List ℕ) (s : Server)
      → Visiting (client_fd ∷ nodes) s
      → Visiting nodes s
  skipped_lem client_fd nodes s (counted, to_visit) = (counted, λ x. omega (arith, to_visit x))

  -- The client is taken out, and its request answered.
  answered_lem :
      (client_fd : ℕ) (nodes : List ℕ) (text : Bytes) (s : Server)
      → Visiting (client_fd ∷ nodes) s
      → Outcome IsCounted
          (λ _. Visiting nodes)
          (after
            (λ _. pure true)
            (on_trace (answer sys client_fd text) (remove_client g client_fd s)))
  answered_lem client_fd nodes text s h =
      Outcome-after IsCounted (λ _. Visiting nodes) (λ _. Visiting nodes) (λ _. pure true)
        (on_trace (answer sys client_fd text) (remove_client g client_fd s))
        (Outcome-on_trace IsCounted (Visiting nodes) (answer sys client_fd text)
          (remove_client g client_fd s) (λ trace. (removed_lem client_fd nodes s h).0)
          (λ trace. removed_lem client_fd nodes s h))
        (λ _ _ k. k)

  attend_read-Visiting :
      (client_fd : ℕ) (nodes : List ℕ) (data_read : Read) (s : Server)
      → Visiting (client_fd ∷ nodes) s
      → Outcome IsCounted (λ _. Visiting nodes) (attend_read g sys client_fd data_read s)
  unfolding attend_read
  attend_read-Visiting client_fd nodes at_eof s h = skipped_lem client_fd nodes s h
  attend_read-Visiting client_fd nodes (got bytes) s h =
      answered_lem client_fd nodes (received bytes (sys.stale s.trace)) s h
  attend_read-Visiting client_fd nodes read_error s h =
      Outcome-after IsCounted (λ _. Visiting (client_fd ∷ nodes)) (λ _. Visiting nodes) _
        (on_trace (close sys client_fd) s)
        (Outcome-on_trace IsCounted (Visiting (client_fd ∷ nodes)) (close sys client_fd) s
          (λ trace. h.0) (λ trace. h))
        (λ fails t k. answered_lem client_fd nodes (received [] (sys.stale s.trace)) t k)

  attend-Visiting :
      (is_set : ℕ → Bool) (client_fd : ℕ) (nodes : List ℕ) (s : Server)
      → Visiting (client_fd ∷ nodes) s
      → Outcome IsCounted (λ _. Visiting nodes) (attend g sys is_set client_fd s)
  unfolding attend
  attend-Visiting is_set client_fd nodes s h =
      Outcome-if IsCounted (λ _. Visiting nodes) (not (ltb client_fd 1024)) crash _ s (λ _. h.0)
        (λ _.
          Outcome-if IsCounted (λ _. Visiting nodes) (not (is_set client_fd)) (pure false) _ s
            (λ _. skipped_lem client_fd nodes s h)
            (λ _. attend_read-Visiting client_fd nodes (sys.read s.trace client_fd) s h))

  pub attend_all-IsCounted :
      (is_set : ℕ → Bool) (nodes : List ℕ) (s : Server)
      → Visiting nodes s
      → Outcome IsCounted (λ _. IsCounted) (attend_all g sys is_set nodes s)
  unfolding attend_all
  attend_all-IsCounted is_set [] s h = h.0
  attend_all-IsCounted is_set (client_fd ∷ nodes) s h =
      Outcome-after IsCounted (λ _. Visiting nodes) (λ _. IsCounted) _
        (attend g sys is_set client_fd s) (attend-Visiting is_set client_fd nodes s h)
        (λ removed t k.
          Outcome-after IsCounted (λ _. Visiting nodes) (λ _. IsCounted) _
            ((if removed && not g.link_stays then crash else pure tt) t)
            (Outcome-if IsCounted (λ _. Visiting nodes) (removed && not g.link_stays) crash
              (pure tt) t (λ _. k.0) (λ _. k))
            (λ _ u l. attend_all-IsCounted is_set nodes u l))

  pub accept_client-IsCounted :
      (events : Events) (sock_fd : ℕ) (is_set : ℕ → Bool) (s : Server)
      → IsCounted s
      → Outcome IsCounted (λ _. IsCounted) (accept_client g events sock_fd is_set s)
  unfolding accept_client
  accept_client-IsCounted events sock_fd is_set s (counted, bounded) =
      Outcome-if IsCounted (λ _. IsCounted) (is_set sock_fd && int_lt s.client_cnt max_client_cnt) _
        (pure tt) s
        (λ room.
          subst (λ l. ((s.client_cnt + 1) % int_range ≡ length l) × (length l ≤ max_client_cnt))
            (sym (documented.prepend_lem s.client_fds events.accept))
            (
              omega (
                arith,
                counted,
                bounded,
                room_lem (is_set sock_fd) s.client_cnt (omega (arith, counted, bounded)) room,
              ),
              omega (
                arith,
                counted,
                room_lem (is_set sock_fd) s.client_cnt (omega (arith, counted, bounded)) room,
              ),
            ))
        (λ _. (counted, bounded))

  pub shut_down-IsCounted :
      (sock_fd : ℕ) (s : Server)
      → IsCounted s
      → Outcome IsCounted (λ _. IsCounted) (shut_down sys sock_fd s)
  unfolding shut_down close
  shut_down-IsCounted sock_fd s h =
      Outcome-after IsCounted (λ _. IsCounted) (λ _. IsCounted) _
        (on_trace (close_all sys s.client_fds) s)
        (Outcome-on_trace IsCounted IsCounted (close_all sys s.client_fds) s (λ trace. h)
          (λ trace. h))
        (λ clients_closed t k. k)
