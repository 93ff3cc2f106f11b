-- ===== src/Route/Probing.antt =====
-- The packets that the parent sends.
use ti.Base.{
  ℕ, zero, suc, ◌+◌, ◌<◌, ◌≡◌, refl, sym, ap, subst, ◌∙◌, true, false, List, [], ◌∷◌, ◌++◌,
  append_assoc, append-nil, arith, if◌then◌else◌, Bool-cases, inl, inr,
}
use ti.Base.Process.{Result, ok, exits, exit, after as then_do}
use ti.Route.{
  max_ttl, data_text, err_socket, err_send, err_signal, err_arg, Probe, System, send_probe,
  send_probes, parent,
}

-- Packets with so many TTLs, from the given one on.
abbrev pub ascending : (count ttl : ℕ) → List Probe
ascending zero ttl = []
ascending (suc count) ttl = record { ttl = ttl; data_sent = data_text } ∷ ascending count (ttl + 1)

abbrev End : Type 0
End = Result (Unit {0}) × List Probe

abbrev with_sent : Result (Unit {0}) → List Probe → End
with_sent r sent = (r, sent)

-- The calls for a packet with this TTL do not fail, and the child is not known to be gone.
abbrev pub Goes : System → ℕ → Type 0
Goes sys ttl =
    (sys.got_sigchld ttl ≡ false)
    × (sys.setsockopt_fails ttl ≡ false)
    × (sys.sendto_fails ttl ≡ false)

-- So it is for so many packets from a TTL on.
abbrev pub Passed : System → (count ttl : ℕ) → Type 0
Passed sys count ttl = (k : ℕ) → k < count → Goes sys (ttl + k)

-- A call for the packet with this TTL fails, the first that does; and the status that belongs to it.
pub data FailsAt (sys : System) (ttl status : ℕ) : Type 0 where
  ttl_not_set :
      sys.got_sigchld ttl ≡ false
      → sys.setsockopt_fails ttl ≡ true
      → status ≡ err_socket
      → FailsAt sys ttl status
  not_sent :
      sys.got_sigchld ttl ≡ false
      → sys.setsockopt_fails ttl ≡ false
      → sys.sendto_fails ttl ≡ true
      → status ≡ err_send
      → FailsAt sys ttl status

-- The ends of the loop: all packets were sent; the child was gone behind so many packets; a call
-- failed.
data Run (sys : System) (rounds ttl : ℕ) (before : List Probe) (end : End) : Type 0 where
  all_sent :
      Passed sys rounds ttl
      → end ≡ (ok tt, before ++ ascending rounds ttl)
      → Run sys rounds ttl before end
  arrived :
      (count : ℕ)
      → count < rounds
      → Passed sys count ttl
      → sys.got_sigchld (ttl + count) ≡ true
      → end ≡ (exits (if sys.close_fails then err_socket else 0), before ++ ascending count ttl)
      → Run sys rounds ttl before end
  failed :
      (count status : ℕ)
      → count < rounds
      → Passed sys count ttl
      → FailsAt sys (ttl + count) status
      → end ≡ (exits status, before ++ ascending count ttl)
      → Run sys rounds ttl before end

module _ (sys : System) where
  at_once :
      (r : Result (Unit {0})) (before : List Probe)
      → with_sent r before ≡ with_sent r (before ++ [])
  at_once r before = ap (with_sent r) (sym (append-nil before))

  no_packet : (ttl : ℕ) → Passed sys 0 ttl
  no_packet ttl k h = absurd (omega arith)

  Passed-Goes :
      (count ttl : ℕ) → Goes sys ttl → Passed sys count (ttl + 1) → Passed sys (suc count) ttl
  Passed-Goes count ttl goes passed zero h = subst (Goes sys) (omega arith) goes
  Passed-Goes count ttl goes passed (suc k) h =
      subst (Goes sys) (omega arith) (passed k (omega arith))

  one_more :
      (r : Result (Unit {0})) (before : List Probe) (count ttl : ℕ)
      → with_sent r (
          (before ++ record { ttl = ttl; data_sent = data_text } ∷ []) ++ ascending count (ttl + 1))
        ≡ with_sent r (before ++ ascending (suc count) ttl)
  one_more r before count ttl = ap (with_sent r) (
      append_assoc before (record { ttl = ttl; data_sent = data_text } ∷ [])
        (ascending count (ttl + 1)))

  behind_one :
      (rounds ttl : ℕ) (before : List Probe) (end end' : End)
      → Goes sys ttl
      → end' ≡ end
      → Run sys rounds (ttl + 1) (before ++ record { ttl = ttl; data_sent = data_text } ∷ []) end
      → Run sys (suc rounds) ttl before end'
  behind_one rounds ttl before end end' goes same (all_sent passed e) =
      all_sent (Passed-Goes rounds ttl goes passed) (same ∙ e ∙ one_more (ok tt) before rounds ttl)
  behind_one rounds ttl before end end' goes same (arrived count h passed got e) =
      arrived (suc count) (omega (arith, h)) (Passed-Goes count ttl goes passed)
        (subst (λ t. sys.got_sigchld t ≡ true) (omega arith) got)
        (same ∙ e ∙ one_more (exits (if sys.close_fails then err_socket else 0)) before count ttl)
  behind_one rounds ttl before end end' goes same (failed count status h passed fails e) =
      failed (suc count) status (omega (arith, h)) (Passed-Goes count ttl goes passed)
        (subst (λ t. FailsAt sys t status) (omega arith) fails)
        (same ∙ e ∙ one_more (exits status) before count ttl)

  -- The first call for a packet fails.
  fails_now :
      (rounds ttl status : ℕ) (before : List Probe) (end : End)
      → FailsAt sys ttl status
      → end ≡ (exits status, before)
      → Run sys (suc rounds) ttl before end
  fails_now rounds ttl status before end fails e =
      failed 0 status (omega arith) (no_packet ttl)
        (subst (λ t. FailsAt sys t status) (omega arith) fails) (e ∙ at_once (exits status) before)

  send_probes-Run :
      (rounds ttl : ℕ) (before : List Probe)
      → Run sys rounds ttl before (send_probes sys rounds ttl before)
  unfolding send_probes send_probe
  send_probes-Run zero ttl before = all_sent (no_packet ttl) (at_once (ok tt) before)
  send_probes-Run (suc rounds) ttl before = elim (Bool-cases (sys.got_sigchld ttl)) [
    | inl got ↦
        arrived 0 (omega arith) (no_packet ttl)
          (subst (λ t. sys.got_sigchld t ≡ true) (omega arith) got)
          (elim (Bool-cases sys.close_fails) [
            | inl fails ↦ rw (got, fails) (at_once (exits err_socket) before)
            | inr closes ↦ rw (got, closes) (at_once (exits 0) before)
          ])
    | inr waiting ↦ elim (Bool-cases (sys.setsockopt_fails ttl)) [
      | inl fails ↦
          fails_now rounds ttl err_socket before _ (ttl_not_set waiting fails refl)
            (rw (waiting, fails))
      | inr set ↦ elim (Bool-cases (sys.sendto_fails ttl)) [
        | inl fails ↦
            fails_now rounds ttl err_send before _ (not_sent waiting set fails refl)
              (rw (waiting, set, fails))
        | inr goes ↦
            behind_one rounds ttl before _ _ (waiting, set, goes) (rw (waiting, set, goes))
              (send_probes-Run rounds (ttl + 1)
                (before ++ record { ttl = ttl; data_sent = data_text } ∷ []))
      ]
    ]
  ]

-- No call of the set-up fails, and the argument is an address.
abbrev pub Ready : System → Type 0
Ready sys = (sys.sigaction_fails ≡ false) × (sys.socket_fails ≡ false) × (sys.is_address ≡ true)

-- What fails first in the set-up, and the status that belongs to it.
pub data NotReady (sys : System) (status : ℕ) : Type 0 where
  no_handler : sys.sigaction_fails ≡ true → status ≡ err_signal → NotReady sys status
  no_socket :
      sys.sigaction_fails ≡ false
      → sys.socket_fails ≡ true
      → status ≡ err_socket
      → NotReady sys status
  no_address :
      sys.sigaction_fails ≡ false
      → sys.socket_fails ≡ false
      → sys.is_address ≡ false
      → status ≡ err_arg
      → NotReady sys status

-- The ends of the parent, each with what leads to it.
pub data Climb (sys : System) (end : End) : Type 0 where
  not_ready : (status : ℕ) → NotReady sys status → end ≡ (exits status, []) → Climb sys end
  all_sent : Ready sys → Passed sys max_ttl 1 → end ≡ (exits 0, ascending max_ttl 1) → Climb sys end
  arrived :
      (count : ℕ)
      → Ready sys
      → count < max_ttl
      → Passed sys count 1
      → sys.got_sigchld (1 + count) ≡ true
      → end ≡ (exits (if sys.close_fails then err_socket else 0), ascending count 1)
      → Climb sys end
  failed :
      (count status : ℕ)
      → Ready sys
      → count < max_ttl
      → Passed sys count 1
      → FailsAt sys (1 + count) status
      → end ≡ (exits status, ascending count 1)
      → Climb sys end

-- Whatever the system answers, the parent has sent packets with the TTLs from 1 to some number, one
-- for each, in this order. If a call of the set-up fails, or the argument is no address, the number
-- is 0 and it ends with the status of that. Otherwise no call failed for these packets and the child
-- was not gone, and: the number is 30 and it ends with 0; or the child is gone before the next
-- packet, and it ends with 0, or ERR_SOCKET if the socket cannot be closed; or the TTL of the next
-- packet cannot be set, and it ends with ERR_SOCKET; or that packet cannot be sent, and it ends with
-- ERR_SEND.
pub parent-Climb : (sys : System) → Climb sys (parent sys [])
unfolding parent
parent-Climb sys = elim (Bool-cases sys.sigaction_fails) [
  | inl fails ↦ not_ready err_signal (no_handler fails refl) (rw fails)
  | inr handled ↦ elim (Bool-cases sys.socket_fails) [
    | inl fails ↦ not_ready err_socket (no_socket handled fails refl) (rw (handled, fails))
    | inr opened ↦ elim (Bool-cases sys.is_address) [
      | inr not_one ↦
          not_ready err_arg (no_address handled opened not_one refl) (rw (handled, opened, not_one))
      | inl address ↦
          go (send_probes sys max_ttl 1 []) _ (handled, opened, address)
            (rw (handled, opened, address)) (send_probes-Run sys max_ttl 1 [])
    ]
  ]
]
  where
    go :
        (end end' : End)
        → Ready sys
        → end' ≡ then_do (λ _. exit 0) end
        → Run sys max_ttl 1 [] end
        → Climb sys end'
    go end end' ready same (all_sent passed e) =
        all_sent ready passed (same ∙ ap (then_do (λ _. exit 0)) e)
    go end end' ready same (arrived count h passed got e) =
        arrived count ready h passed got (same ∙ ap (then_do (λ _. exit 0)) e)
    go end end' ready same (failed count status h passed fails e) =
        failed count status ready h passed fails (same ∙ ap (then_do (λ _. exit 0)) e)
