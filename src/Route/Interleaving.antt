-- ===== src/Route/Interleaving.antt =====
-- The two processes together, over a network that answers each packet by its TTL and keeps the
-- order of the answers.
pub mod Order
use ti.Base.{
  Option, none, some, ℕ, zero, suc, ◌+◌, ◌-◌, ◌≤◌, ◌≡◌, refl, sym, ap, subst, ◌∙◌, Bool, true,
  false, List, [], ◌∷◌, ◌++◌, append_assoc, append-nil, map, Bytes, arith, length, take, drop,
  drop-length_append, str_eq, str_eq_iff, Bool-cases, inl, inr, if◌then◌else◌,
}
use ti.Base.Process.{Result, ok, exits, undefined, after as then_do}
use ti.Route.{
  bufsize, max_ttl, data_text, err_socket, err_send, err_recv, Printed, Probe, System, Recv, packet,
  recv_failed, print_sender, listen_for, child, send_probe,
}
use ti.Route.Hops.{IsPacket, sender, left_status, print_sender_lem, listen_step}

-- `ttl` is the loop variable of the parent; `received` is what `recvfrom` gave the child so far; the
-- status of the child is there if it has ended.
pub record State : Type 0 where
  pub ttl : ℕ
  pub probes : List Probe
  pub on_way : List Bytes
  pub received : List Recv
  pub buffer : Bytes
  pub printed : Printed
  pub gone : Option ℕ

abbrev pub begin : Bytes → State
begin buffer = record {
  ttl = 1;
  probes = [];
  on_way = [];
  received = [];
  buffer = buffer;
  printed = [];
  gone = none;
}

-- What the network answers to packets, by the TTL that each of them has; nothing if one is lost.
abbrev pub answers : (ℕ → List Bytes) → List Probe → List Bytes
answers hop [] = []
answers hop (p ∷ probes) = hop p.ttl ++ answers hop probes

-- The parent goes through a round of its loop. The child takes the next answer, and goes on or ends;
-- or `recvfrom` fails, or gives no bytes; or there is no socket for it. The parent may notice late
-- that the child has ended.
pub data Step (final_address : Bytes) (close_fails : Bool) (hop : ℕ → List Bytes)
    : State → State → Type 0 where
  probe :
      (s : State) (sys : System) (sent : List Probe)
      → s.ttl ≤ max_ttl
      → send_probe sys s.ttl s.probes ≡ (ok tt, s.probes ++ sent)
      → Step final_address close_fails hop s (record s {
        ttl = s.ttl + 1;
        probes = s.probes ++ sent;
        on_way = s.on_way ++ answers hop sent;
      })
  take_answer :
      (s : State) (bytes : Bytes) (others : List Bytes) (buffer : Bytes) (printed : Printed)
      → s.gone ≡ none
      → s.on_way ≡ bytes ∷ others
      → print_sender final_address close_fails s.buffer (take bufsize bytes) s.printed
        ≡ (ok buffer, printed)
      → Step final_address close_fails hop s (record s {
        on_way = others;
        received = s.received ++ packet bytes ∷ [];
        buffer = buffer;
        printed = printed;
      })
  end_with_answer :
      (s : State) (bytes : Bytes) (others : List Bytes) (status : ℕ) (printed : Printed)
      → s.gone ≡ none
      → s.on_way ≡ bytes ∷ others
      → listen_for final_address close_fails s.buffer (packet bytes ∷ []) s.printed
        ≡ (exits status, printed)
      → Step final_address close_fails hop s (record s {
        on_way = others;
        received = s.received ++ packet bytes ∷ [];
        printed = printed;
        gone = some status;
      })
  end_with_error :
      (s : State) (status : ℕ) (printed : Printed)
      → s.gone ≡ none
      → listen_for final_address close_fails s.buffer (recv_failed ∷ []) s.printed
        ≡ (exits status, printed)
      → Step final_address close_fails hop s (record s {
        received = s.received ++ recv_failed ∷ [];
        printed = printed;
        gone = some status;
      })
  end_with_nothing :
      (s : State) (status : ℕ) (printed : Printed)
      → s.gone ≡ none
      → listen_for final_address close_fails s.buffer (packet [] ∷ []) s.printed
        ≡ (exits status, printed)
      → Step final_address close_fails hop s (record s {
        received = s.received ++ packet [] ∷ [];
        printed = printed;
        gone = some status;
      })
  end_at_once :
      (s : State) (status : ℕ) (printed : Printed)
      → s.gone ≡ none
      → s.received ≡ []
      → child final_address true close_fails s.buffer [] s.printed ≡ (exits status, printed)
      → Step final_address close_fails hop s (record s { printed = printed; gone = some status })

pub data Reachable (final_address : Bytes) (close_fails : Bool) (hop : ℕ → List Bytes)
    : State → Type 0 where
  at_start : (buffer : Bytes) → Reachable final_address close_fails hop (begin buffer)
  onward :
      (s t : State)
      → Reachable final_address close_fails hop s
      → Step final_address close_fails hop s t
      → Reachable final_address close_fails hop t

-- The answers to the packets with the TTLs from 1 up to some number.
abbrev pub route : (ℕ → List Bytes) → ℕ → List Bytes
route hop zero = []
route hop (suc n) = route hop n ++ hop (suc n)

abbrev pub AllPackets : List Bytes → Type 0
AllPackets [] = Unit
AllPackets (bytes ∷ packets) = IsPacket bytes × AllPackets packets

-- Why the child has ended, and the status of each reason.
pub data Ended (final_address : Bytes) (close_fails : Bool) (received : List Recv)
    (printed : Printed) (status : ℕ) : Type 0 where
  at_destination :
      (front : List Bytes)
      → printed ≡ front ++ final_address ∷ []
      → status ≡ left_status close_fails
      → Ended final_address close_fails received printed status
  recv_error :
      (front : List Recv)
      → received ≡ front ++ recv_failed ∷ []
      → status ≡ err_recv
      → Ended final_address close_fails received printed status
  nothing_received :
      (front : List Recv)
      → received ≡ front ++ packet [] ∷ []
      → status ≡ 0
      → Ended final_address close_fails received printed status
  no_socket :
      received ≡ [] → status ≡ err_socket → Ended final_address close_fails received printed status

-- What is printed, and what is on its way, is the route up to the TTL before the next; and if the
-- child has ended, there is a reason for it.
pub record Follows (final_address : Bytes) (close_fails : Bool) (hop : ℕ → List Bytes) (s : State)
    : Type 0 where
  pub started : 1 ≤ s.ttl
  pub in_order : s.printed ++ map sender s.on_way ≡ map sender (route hop (s.ttl - 1))
  pub packets : AllPackets s.on_way
  pub ended :
      (status : ℕ)
      → s.gone ≡ some status
      → Ended final_address close_fails s.received s.printed status
