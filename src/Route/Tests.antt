-- ===== src/Route/Tests.antt =====
-- Runs of the two processes, and the theorems at concrete inputs.
use ti.Base.{
  none, some, ℕ, zero, suc, List, ◌≡◌, refl, true, false, [], ◌∷◌, ◌++◌, arith, codes, Bytes,
  replicate, str_eq, str_eq_iff, ltb, false-ne-true,
}
use ti.Base.Process.{exits}
use ti.Route.Hops.{sender, child-Underway}
use ti.Route.Interleaving.{
  State, begin, probe, take_answer, end_with_error, Reachable, at_start, onward, AllPackets,
  Follows,
}
use ti.Route.Interleaving.Order.{Reachable-Follows}
use ti.Route.Probing.{Climb, parent-Climb}
use ti.Route.{
  data_text, send_probe, listen_for, print_sender, inet_ntoa, packet, recv_failed, child, System,
  parent,
}

-- An IP header from an address, with nothing in it but that.
abbrev from : Bytes → Bytes
from address = replicate 12 0 ++ (address ++ replicate 12 0)

abbrev router : Bytes
router = from (10 ∷ 0 ∷ 0 ∷ 254 ∷ [])

abbrev destination : Bytes
destination = from (93 ∷ 184 ∷ 216 ∷ 34 ∷ [])

child-two :
    child
      (codes "93.184.216.34")
      false
      false
      []
      (packet router ∷ packet destination ∷ recv_failed ∷ [])
      []
    ≡ (exits 0, codes "10.0.0.254" ∷ codes "93.184.216.34" ∷ [])
unfolding child
child-two = refl

-- An address that is not written as `inet_ntoa` writes it is never reached.
child-short :
    child
      (codes "127.1")
      false
      false
      []
      (packet (from (127 ∷ 0 ∷ 0 ∷ 1 ∷ [])) ∷ recv_failed ∷ [])
      []
    ≡ (exits 2, codes "127.0.0.1" ∷ [])
unfolding child
child-short = refl

child-Underway_example :
    child
      (codes "93.184.216.34")
      false
      false
      []
      (packet router ∷ packet destination ∷ recv_failed ∷ [])
      []
    ≡ (exits 0, sender router ∷ codes "93.184.216.34" ∷ [])
unfolding inet_ntoa str_eq
child-Underway_example =
    child-Underway (codes "93.184.216.34") [] (router ∷ []) destination (recv_failed ∷ []) []
      (
        (omega arith, omega arith),
        (λ same. false-ne-true ((str_eq_iff (sender router) (codes "93.184.216.34")).1 same)),
        tt,
      )
      (omega arith, omega arith) refl

-- The child is gone before the fourth packet.
abbrev near : System
near = record {
  sigaction_fails = false;
  socket_fails = false;
  is_address = true;
  close_fails = false;
  got_sigchld = λ ttl. ltb 3 ttl;
  setsockopt_fails = λ ttl. false;
  sendto_fails = λ ttl. false;
}

parent-Climb_example : Climb near (parent near [])
parent-Climb_example = parent-Climb near

-- The first packet is answered by the router, the second is lost, the others reach the destination.
abbrev path : ℕ → List Bytes
path zero = []
path (suc zero) = router ∷ []
path (suc (suc zero)) = []
path (suc (suc (suc n))) = destination ∷ []

path-AllPackets : (ttl : ℕ) → AllPackets (path ttl)
path-AllPackets zero = tt
path-AllPackets (suc zero) = ((omega arith, omega arith), tt)
path-AllPackets (suc (suc zero)) = tt
path-AllPackets (suc (suc (suc n))) = ((omega arith, omega arith), tt)

abbrev asked : State
asked = record {
  ttl = 2;
  probes = record { ttl = 1; data_sent = data_text } ∷ [];
  on_way = router ∷ [];
  received = [];
  buffer = [];
  printed = [];
  gone = none;
}

abbrev answered : State
answered = record asked {
  on_way = [];
  received = packet router ∷ [];
  buffer = router;
  printed = codes "10.0.0.254" ∷ [];
}

-- Then `recvfrom` fails.
abbrev stopped : State
stopped = record answered { received = packet router ∷ recv_failed ∷ []; gone = some 2 }

stopped-Reachable : Reachable (codes "93.184.216.34") false path stopped
unfolding send_probe print_sender listen_for
stopped-Reachable =
    onward answered stopped
      (onward asked answered
        (onward (begin []) asked (at_start [])
          (probe (begin []) near asked.probes (omega arith) refl))
        (take_answer asked router [] router (codes "10.0.0.254" ∷ []) refl refl refl))
      (end_with_error answered 2 answered.printed refl refl)

Reachable-Follows_example : Follows (codes "93.184.216.34") false path stopped
Reachable-Follows_example =
    Reachable-Follows (codes "93.184.216.34") false path path-AllPackets stopped stopped-Reachable
