-- ===== src/Route/Interleaving/Order.antt =====
-- The order of what is printed.
use ti.Base.{
  none, some, ℕ, suc, ◌+◌, ◌-◌, ◌≡◌, refl, sym, ap, subst, ◌∙◌, Bool, true, false, List, [], ◌∷◌,
  ◌++◌, append_assoc, append-nil, map, Bytes, arith, length, take, drop, drop-length_append, str_eq,
  str_eq_iff, Bool-cases, inl, inr, if◌then◌else◌,
}
use ti.Base.Process.{Result, ok, exits, undefined, after as then_do}
use ti.Route.{
  bufsize, data_text, err_socket, err_send, err_recv, Printed, Probe, System, packet, print_sender,
  listen_for, child, send_probe,
}
use ti.Route.Hops.{IsPacket, sender, left_status, print_sender_lem, listen_step}
use ti.Route.Interleaving.{
  State, begin, answers, Step, probe, take_answer, end_with_answer, end_with_error,
  end_with_nothing, end_at_once, Reachable, at_start, onward, route, AllPackets, at_destination,
  recv_error, nothing_received, no_socket, Follows,
}

-- A packet that was sent stands behind the others.
send_probe-ok :
    (sys : System) (ttl : ℕ) (before probes : List Probe)
    → send_probe sys ttl before ≡ (ok tt, probes)
    → probes ≡ before ++ record { ttl = ttl; data_sent = data_text } ∷ []
unfolding send_probe
send_probe-ok sys ttl before probes h = elim (Bool-cases (sys.got_sigchld ttl)) [
  | inl got ↦ elim (Bool-cases sys.close_fails) [
    | inl fails ↦ absurd (not_ok err_socket before (rw (got, fails) at h))
    | inr closes ↦ absurd (not_ok 0 before (rw (got, closes) at h))
  ]
  | inr waiting ↦ elim (Bool-cases (sys.setsockopt_fails ttl)) [
    | inl fails ↦ absurd (not_ok err_socket before (rw (waiting, fails) at h))
    | inr set ↦ elim (Bool-cases (sys.sendto_fails ttl)) [
      | inl fails ↦ absurd (not_ok err_send before (rw (waiting, set, fails) at h))
      | inr goes ↦ sym (ap (λ end. end.1) (rw (waiting, set, goes) at h))
    ]
  ]
]
  where
    not_ok :
        (status : ℕ) (sent : List Probe)
        → ◌≡◌ {A = Result (Unit {0}) × List Probe} (exits status, sent) (ok tt, probes)
        → ⊥
    not_ok status sent e = cc

map-append : (f : Bytes → Bytes) (s t : List Bytes) → map f (s ++ t) ≡ map f s ++ map f t
map-append f [] t = refl
map-append f (x ∷ s) t = ap (◌∷◌ (f x)) (map-append f s t)

AllPackets-append : (s t : List Bytes) → AllPackets s → AllPackets t → AllPackets (s ++ t)
AllPackets-append [] t h k = k
AllPackets-append (x ∷ s) t (p, h) k = (p, AllPackets-append s t h k)

cancel : (before sent others : List Probe) → before ++ sent ≡ before ++ others → sent ≡ others
cancel before sent others e =
    sym (drop-length_append before sent)
    ∙ ap (drop (length before)) e
    ∙ drop-length_append before others

abbrev status_of : {A : Type 0} → Result A × Printed → ℕ
status_of (ok a, printed) = 0
status_of (exits status, printed) = status
status_of (undefined, printed) = 0

abbrev End : Type 0
End = Result (Unit {0}) × Printed

module _ (final_address : Bytes) (close_fails : Bool) where
  -- What a call that ends leads to.
  end_of :
      (status status' : ℕ) (printed printed' : Printed)
      → ◌≡◌ {A = End} (exits status, printed) (exits status', printed')
      → (status' ≡ status) × (printed' ≡ printed)
  end_of status status' printed printed' e = (sym (ap status_of e), sym (ap (λ end. end.1) e))

  -- The child ends with an answer only if it comes from the destination.
  listen_for-ends :
      (buffer bytes : Bytes) (printed printed' : Printed) (status : ℕ)
      → IsPacket bytes
      → listen_for final_address close_fails buffer (packet bytes ∷ []) printed
        ≡ (exits status, printed')
      → (sender bytes ≡ final_address)
        × (status ≡ left_status close_fails)
        × (printed' ≡ printed ++ sender bytes ∷ [])
  unfolding listen_for
  listen_for-ends buffer bytes printed printed' status whole e =
      go (str_eq (sender bytes) final_address) refl
        (sym (listen_step final_address close_fails buffer bytes [] printed whole) ∙ e)
    where
      go :
          (arrived : Bool)
          → str_eq (sender bytes) final_address ≡ arrived
          → ◌≡◌ {A = End}
              (then_do
                (λ b. listen_for final_address close_fails b [])
                (
                  (if arrived
                      then exits (left_status close_fails)
                      else ok (bytes ++ drop (length bytes) buffer)),
                  printed ++ sender bytes ∷ [],
                ))
              (exits status, printed')
          → (sender bytes ≡ final_address)
            × (status ≡ left_status close_fails)
            × (printed' ≡ printed ++ sender bytes ∷ [])
      go true same e =
          let (status_is, printed_is) =
            end_of (left_status close_fails) status (printed ++ sender bytes ∷ []) printed' e in
          ((str_eq_iff (sender bytes) final_address).0 same, status_is, printed_is)
      go false other e = absurd (goes_on e)
        where
          goes_on : ◌≡◌ {A = End} (ok tt, printed ++ sender bytes ∷ []) (exits status, printed') → ⊥
          goes_on e = cc

  print_sender-printed :
      (buffer bytes : Bytes) (printed printed' : Printed) (r : Result Bytes)
      → IsPacket bytes
      → print_sender final_address close_fails buffer (take bufsize bytes) printed ≡ (r, printed')
      → printed' ≡ printed ++ sender bytes ∷ []
  print_sender-printed buffer bytes printed printed' r whole e = sym (
      ap (λ end. end.1)
        (sym (print_sender_lem final_address close_fails buffer bytes printed whole) ∙ e))

module _ (final_address : Bytes) (close_fails : Bool) (hop : ℕ → List Bytes)
    (whole : (ttl : ℕ) → AllPackets (hop ttl)) where
  abbrev Good : State → Type 0
  Good = Follows final_address close_fails hop

  -- An answer that was on its way is printed.
  moved_lem :
      (s : State) (bytes : Bytes) (others : List Bytes) (printed : Printed)
      → Good s
      → s.on_way ≡ bytes ∷ others
      → printed ≡ s.printed ++ sender bytes ∷ []
      → printed ++ map sender others ≡ map sender (route hop (s.ttl - 1))
  moved_lem s bytes others printed h next e =
      ap (λ t. t ++ map sender others) e
      ∙ append_assoc s.printed (sender bytes ∷ []) (map sender others)
      ∙ ap (λ t. s.printed ++ map sender t) (sym next)
      ∙ h.in_order

  -- The answers to a packet with the next TTL prolong the route.
  prolonged_lem :
      (s : State)
      → Good s
      → s.printed ++ map sender (s.on_way ++ hop s.ttl) ≡ map sender (route hop (s.ttl + 1 - 1))
  prolonged_lem s h =
      ap (λ t. s.printed ++ t) (map-append sender s.on_way (hop s.ttl))
      ∙ sym (append_assoc s.printed (map sender s.on_way) (map sender (hop s.ttl)))
      ∙ ap (λ t. t ++ map sender (hop s.ttl)) h.in_order
      ∙ sym (map-append sender (route hop (s.ttl - 1)) (hop s.ttl))
      ∙ ap (λ n. map sender (route hop (s.ttl - 1) ++ hop n))
          (let e : s.ttl ≡ suc (s.ttl - 1) = omega (arith, h.started) in e)
      ∙ ap (λ n. map sender (route hop n))
          (let e : suc (s.ttl - 1) ≡ s.ttl + 1 - 1 = omega (arith, h.started) in e)

  sent_one :
      (s : State) (sys : System) (sent : List Probe)
      → send_probe sys s.ttl s.probes ≡ (ok tt, s.probes ++ sent)
      → answers hop sent ≡ hop s.ttl
  sent_one s sys sent e =
      ap (answers hop)
        (cancel s.probes sent _ (send_probe-ok sys s.ttl s.probes (s.probes ++ sent) e))
      ∙ append-nil (hop s.ttl)

  not_gone : {A : Type 0} (s : State) (status : ℕ) → s.gone ≡ none → s.gone ≡ some status → A
  not_gone s status here gone = absurd (clash (sym here ∙ gone))
    where
      clash : none ≡ some status → ⊥
      clash e = cc

  same_status : (status status' : ℕ) → some status ≡ some status' → status' ≡ status
  same_status status status' e = cc

  Step-Follows : (s t : State) → Good s → Step final_address close_fails hop s t → Good t
  unfolding listen_for child
  Step-Follows _ _ h (probe s sys sent bound e) = record {
    started = omega arith;
    in_order =
        ap (λ a. s.printed ++ map sender (s.on_way ++ a)) (sent_one s sys sent e)
        ∙ prolonged_lem s h;
    packets =
        AllPackets-append s.on_way (answers hop sent) h.packets
          (subst AllPackets (sym (sent_one s sys sent e)) (whole s.ttl));
    ended = h.ended;
  }
  Step-Follows _ _ h (take_answer s bytes others buffer printed here next took) =
      let (sound, rest) = subst AllPackets next h.packets in
      record {
        started = h.started;
        in_order = moved_lem s bytes others printed h next (
            print_sender-printed final_address close_fails s.buffer bytes s.printed printed
              (ok buffer) sound took);
        packets = rest;
        ended = λ status gone. not_gone s status here gone;
      }
  Step-Follows _ _ h (end_with_answer s bytes others status printed here next took) =
      let (sound, rest) = subst AllPackets next h.packets in
      let (arrived, status_is, shown) =
        listen_for-ends final_address close_fails s.buffer bytes s.printed printed status sound
          took in
      record {
        started = h.started;
        in_order = moved_lem s bytes others printed h next shown;
        packets = rest;
        ended = λ status' gone.
            at_destination s.printed (shown ∙ ap (λ a. s.printed ++ a ∷ []) arrived)
              (same_status status status' gone ∙ status_is);
      }
  Step-Follows _ _ h (end_with_error s status printed here took) =
      let (status_is, shown) =
        end_of final_address close_fails err_recv status s.printed printed took in
      record {
        started = h.started;
        in_order = ap (λ t. t ++ map sender s.on_way) shown ∙ h.in_order;
        packets = h.packets;
        ended = λ status' gone.
            recv_error s.received refl (same_status status status' gone ∙ status_is);
      }
  Step-Follows _ _ h (end_with_nothing s status printed here took) =
      let (status_is, shown) = end_of final_address close_fails 0 status s.printed printed took in
      record {
        started = h.started;
        in_order = ap (λ t. t ++ map sender s.on_way) shown ∙ h.in_order;
        packets = h.packets;
        ended = λ status' gone.
            nothing_received s.received refl (same_status status status' gone ∙ status_is);
      }
  Step-Follows _ _ h (end_at_once s status printed here first took) =
      let (status_is, shown) =
        end_of final_address close_fails err_socket status s.printed printed took in
      record {
        started = h.started;
        in_order = ap (λ t. t ++ map sender s.on_way) shown ∙ h.in_order;
        packets = h.packets;
        ended = λ status' gone. no_socket first (same_status status status' gone ∙ status_is);
      }

  -- The answers are whole packets, and the network keeps their order. However the steps of the two
  -- processes are interleaved: what the child has printed, and then the senders of the answers that
  -- are on their way, are the senders of the answers to the TTLs from 1 up to the one before the
  -- parent's next, in this order. If the child has ended, it printed the destination last, with 0,
  -- or ERR_SOCKET if its socket cannot be closed; or `recvfrom` failed, with ERR_RECV, or gave no
  -- bytes, with 0; or it had no socket, with ERR_SOCKET.
  pub Reachable-Follows :
      (s : State)
      → Reachable final_address close_fails hop s
      → Follows final_address close_fails hop s
  Reachable-Follows _ (at_start buffer) = record {
    started = omega arith;
    in_order = refl;
    packets = tt;
    ended = λ status gone. not_gone (begin buffer) status refl gone;
  }
  Reachable-Follows _ (onward s t before step) = Step-Follows s t (Reachable-Follows s before) step
