-- ===== src/Route/Hops.antt =====
-- The addresses that the child prints.
use ti.Base.{
  ℕ, drop-append_front, take-append_front, length-drop, ◌≤◌, ◌≡◌, ◌≢◌, refl, ap, ◌∙◌, Bool, true,
  false, List, [], ◌∷◌, ◌++◌, append_assoc, map, Bytes, arith, str_eq, str_eq_iff, str_eq_refl,
  length, take, drop, take_all, ◌==◌, if◌then◌else◌,
}
use ti.Base.Process.{Result, ok, exits, exit, check, pure, ◌>>◌, after as then_do}
use ti.Route.{err_socket, bufsize, inet_ntoa, saddr, Recv, packet, print_sender, listen_for, child}

-- A whole IP header, and no more than the buffer holds.
abbrev pub IsPacket : Bytes → Type 0
IsPacket bytes = (16 ≤ length bytes) × (length bytes ≤ bufsize)

-- The sender of a packet, as a text.
abbrev pub sender : Bytes → Bytes
sender bytes = inet_ntoa (saddr bytes)

-- Packets that come from other addresses than the destination, as texts.
abbrev pub Underway : Bytes → List Bytes → Type 0
Underway final_address [] = Unit
Underway final_address (bytes ∷ packets) =
    IsPacket bytes × (sender bytes ≢ final_address) × Underway final_address packets

saddr-append : (bytes behind : Bytes) → 16 ≤ length bytes → saddr (bytes ++ behind) ≡ saddr bytes
saddr-append bytes behind h =
    ap (take 4) (drop-append_front 12 bytes behind (omega (arith, h)))
    ∙ take-append_front 4 (drop 12 bytes) behind (omega (arith, h, length-drop 12 bytes))

differ : (same : Bool) → (same ≡ true → ⊥) → same ≡ false
differ true h = absurd (h refl)
differ false h = refl

-- The status with which the child leaves at the destination.
abbrev pub left_status : Bool → ℕ
left_status close_fails = if close_fails then err_socket else 0

-- Whether the sender is the destination.
abbrev pub outcome : Bytes → Bool → Bytes → Bytes → List Bytes → Result Bytes × List Bytes
outcome final_address close_fails ip_address buffer printed = (
  (if str_eq ip_address final_address then exits (left_status close_fails) else ok buffer),
  printed ++ ip_address ∷ [],
)

settled :
    (arrived close_fails : Bool) (buffer : Bytes) (printed : List Bytes)
    → (if arrived then (check close_fails err_socket >> exit 0) else pure buffer) printed
      ≡ ((if arrived then exits (left_status close_fails) else ok buffer), printed)
settled true true buffer printed = refl
settled true false buffer printed = refl
settled false close_fails buffer printed = refl

pub print_sender_lem :
    (final_address : Bytes) (close_fails : Bool) (buffer bytes : Bytes) (printed : List Bytes)
    → IsPacket bytes
    → print_sender final_address close_fails buffer (take bufsize bytes) printed
      ≡ outcome final_address close_fails
          (sender bytes)
          (bytes ++ drop (length bytes) buffer)
          printed
unfolding print_sender
print_sender_lem final_address close_fails buffer bytes printed (h, k) =
    ap (λ r. print_sender final_address close_fails buffer r printed) (take_all bufsize bytes k)
    ∙ settled (str_eq (sender (bytes ++ drop (length bytes) buffer)) final_address) close_fails
        (bytes ++ drop (length bytes) buffer)
        (printed ++ sender (bytes ++ drop (length bytes) buffer) ∷ [])
    ∙ ap
        (λ a.
          outcome final_address close_fails (inet_ntoa a) (bytes ++ drop (length bytes) buffer)
            printed)
        (saddr-append bytes (drop (length bytes) buffer) h)

pub listen_step :
    (final_address : Bytes) (close_fails : Bool) (buffer bytes : Bytes) (others : List Recv)
    (printed : List Bytes)
    → IsPacket bytes
    → listen_for final_address close_fails buffer (packet bytes ∷ others) printed
      ≡ then_do
          (λ b. listen_for final_address close_fails b others)
          (outcome final_address close_fails
            (sender bytes)
            (bytes ++ drop (length bytes) buffer)
            printed)
unfolding listen_for
listen_step final_address close_fails buffer bytes others printed whole =
    (rw nonempty)
    ∙ ap (then_do (λ b. listen_for final_address close_fails b others))
        (print_sender_lem final_address close_fails buffer bytes printed whole)
  where
    nonempty : (length bytes == 0) ≡ false
    nonempty = ground (arith, whole.0)

-- Packets from hops on the way, one from the destination, and then anything: the child prints the
-- senders in the order of the packets, the destination last, and ends with 0. What stood in the
-- buffer before does not matter.
pub child-Underway :
    (final_address buffer : Bytes) (packets : List Bytes) (last : Bytes) (others : List Recv)
    (printed : List Bytes)
    → Underway final_address packets
    → IsPacket last
    → sender last ≡ final_address
    → child final_address false false buffer (map packet packets ++ packet last ∷ others) printed
      ≡ (exits 0, printed ++ (map sender packets ++ final_address ∷ []))
unfolding child listen_for
child-Underway final_address buffer [] last others printed underway whole arrived =
    listen_step final_address false buffer last others printed whole
    ∙ ap
        (λ a.
          then_do (λ b. listen_for final_address false b others)
            (outcome final_address false a (last ++ drop (length last) buffer) printed))
        arrived
    ∙ (rw (str_eq_refl final_address))
child-Underway final_address buffer (bytes ∷ packets) last others printed
      (whole_packet, elsewhere, underway) whole arrived =
    listen_step final_address false buffer bytes (map packet packets ++ packet last ∷ others)
      printed whole_packet
    ∙ (rw differs)
    ∙ child-Underway final_address (bytes ++ drop (length bytes) buffer) packets last others
        (printed ++ sender bytes ∷ []) underway whole arrived
    ∙ ap (λ t. (exits 0, t))
        (append_assoc printed (sender bytes ∷ []) (map sender packets ++ final_address ∷ []))
  where
    differs : str_eq (sender bytes) final_address ≡ false
    differs =
        differ (str_eq (sender bytes) final_address)
          (λ same. elsewhere ((str_eq_iff (sender bytes) final_address).0 same))
