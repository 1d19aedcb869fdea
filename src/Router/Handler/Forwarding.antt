-- ===== src/Router/Handler/Forwarding.antt =====
-- PCom1/router.c: what becomes of a packet that is not for the router itself.
use pcom_assignments.Prelude.{
  ℕ, ◌+◌, ◌-◌, ◌≤◌, ◌<◌, ◌≡◌, refl, ◌∙◌, ap, ◌≢◌, ◌↔◌, arith, List, [], ◌∷◌, ◌++◌, length, get_or,
  none, some, ◌==◌, ltb, if◌then◌else◌, lt→ltb, le→not_ltb,
}
use native.Mathlib.Decide.{dec_lt}
use pcom_assignments.Prelude.Words.{u8, byte}
use pcom_assignments.Prelude.Run.{done, Returns, returns, Returns->>=}
use pcom_assignments.Prelude.Bytes.{
  Memory, IsMemory, slice, store, read16, read32, store_behind, store_inside, slice_ext,
}
use pcom_assignments.Router.ArpTable.{ArptableEntry, get_mac}
use pcom_assignments.Router.RouteTable.{RtableEntry, get_best_route}
use pcom_assignments.Router.Checksum.{ip_checksum, header, updated}
use pcom_assignments.Router.Checksum.Update.{updated-valid, calculate_checksum-suc}
use pcom_assignments.Router.Frames.{Sent, Packet, send_packet}
use pcom_assignments.Router.Frames.Valid.{IsIcmpFrame, send_icmp_error-IsIcmpFrame}
use pcom_assignments.Router.Handler.{Interfaces, Router, answer_error, route_packet, handle}
use pcom_assignments.Router.Handler.Guards.{IsEchoRequest, IsArpRequest, IsArpReply, handle-other}
use pcom_assignments.Router.Handler.Paths.{
  IsInterfaces, request, readdressed, forward_known, forward_unknown, checked_routed,
  checked_unreachable, packet_expired, packet_checked, packet_damaged,
}

-- A packet that the router neither answers nor learns from.
pub record IsPassing (ifs : Interfaces) (m : Packet) : Type 0 where
  pub no_echo : ¬ IsEchoRequest ifs m
  pub no_request : ¬ IsArpRequest ifs m
  pub no_reply : ¬ IsArpReply m

-- The handler sends one ICMP error of the given type back to where the packet came from.
abbrev pub Errors : Router → Packet → (type : ℕ) → Router × List Sent → Type 0
Errors r m type o =
    (s : Sent) × (o.0 ≡ r)
    × (o.1 ≡ s ∷ [])
    × IsIcmpFrame (read32 m.payload 26) (read32 m.payload 30) (slice m.payload 0 6)
        (slice m.payload 6 6) type 0 m.interface 0 0 s

pub answer_error-Errors :
    (r : Router) (m : Packet) (type : ℕ) → Returns (Errors r m type) (answer_error r m type)
unfolding answer_error
answer_error-Errors r m type =
    Returns->>= (send_icmp_error-IsIcmpFrame _ _ _ _ _ _ _) λ s v. returns (s, refl, refl, v)

-- The bytes of a forwarded packet: new hardware addresses, the TTL less one, the checksum field
-- plus one as the memory of the machine reads it, and all else as it came.
abbrev pub passed_byte : Memory → (dmac smac : List ℕ) → ℕ → ℕ
passed_byte m dmac smac a =
    if ltb a 6
    then get_or dmac a 0
    else if ltb a 12
    then get_or smac (a - 6) 0
    else if a == 22
    then m 22 - 1
    else if a == 24
    then byte 1 (read16 m 24 + 1)
    else if a == 25
    then byte 0x100 (read16 m 24 + 1)
    else m a

updated-byte :
    (m : Memory) (a : ℕ)
    → IsMemory m
    → 0 < m 22
    → updated m a ≡ (
        if a == 22
        then m 22 - 1
        else if a == 24
        then byte 1 (read16 m 24 + 1)
        else if a == 25
        then byte 0x100 (read16 m 24 + 1)
        else m a)
updated-byte m a h pos = ground (
  arith,
  calculate_checksum-suc (read16 m 24) (u8 (m 22 + 0xff)) (omega (arith, h 24, h 25))
      (omega (arith, h 22)),
  h 22,
  h 24,
  h 25,
)

addressed_byte :
    (m : Memory) (dmac smac : List ℕ) (a : ℕ)
    → length dmac ≡ 6
    → length smac ≡ 6
    → store (store m 6 smac) 0 dmac a
      ≡ (if ltb a 6 then get_or dmac a 0 else if ltb a 12 then get_or smac (a - 6) 0 else m a)
addressed_byte m dmac smac a ld ls =
    let outer = store m 6 smac in
    elim (dec_lt a 6) [
      | yes low ↦ rw (lt→ltb a 6 low) (
          ap (store outer 0 dmac) (omega arith)
          ∙ store_inside outer 0 dmac a (omega (arith, ld, low)))
      | no high ↦
          let behind = store_behind outer 0 dmac a (omega (arith, ld, high)) in
          elim (dec_lt a 12) [
            | yes mid ↦
                rw (behind, le→not_ltb 6 a (omega (arith, high)), lt→ltb a 12 mid)
                  (ap outer (omega (arith, high))
                    ∙ store_inside m 6 smac (a - 6) (omega (arith, ls, high, mid)))
            | no top ↦
                rw
                  (
                    behind,
                    le→not_ltb 6 a (omega (arith, high)),
                    le→not_ltb 12 a (omega (arith, top)),
                  )
                  (store_behind m 6 smac a (omega (arith, ls, top)))
          ]
    ]

-- New hardware addresses leave the IP header as it is.
addressed_header :
    (m : Memory) (dmac smac : List ℕ)
    → length dmac ≡ 6
    → length smac ≡ 6
    → header (store (store m 6 smac) 0 dmac) ≡ header m
addressed_header m dmac smac ld ls = slice_ext _ _ 14 20 λ a h.
    store_behind (store m 6 smac) 0 dmac a (omega (arith, ld, h))
    ∙ store_behind m 6 smac a (omega (arith, ls, h))

-- What a packet is when it leaves.
pub passed_byte_lem :
    (ifs : Interfaces) (route : RtableEntry) (m : Packet) (dmac : List ℕ)
    → IsInterfaces ifs
    → IsMemory m.payload
    → length dmac ≡ 6
    → 1 < m.payload 22
    → (a : ℕ)
    → store (readdressed ifs route m).payload 0 dmac a
      ≡ passed_byte m.payload dmac (ifs.mac route.interface) a
passed_byte_lem ifs route m dmac wide bytes six high a =
    addressed_byte (updated m.payload) dmac (ifs.mac route.interface) a six (wide route.interface)
    ∙ ap
        (λ n.
          if ltb a 6
          then get_or dmac a 0
          else if ltb a 12
          then get_or (ifs.mac route.interface) (a - 6) 0
          else n)
        (updated-byte m.payload a bytes (omega (arith, high)))

module _ (ifs : Interfaces) (r : Router) (m : Packet) (passing : IsPassing ifs m) where
  on_its_way : handle ifs r m ≡ route_packet ifs r m
  on_its_way = handle-other ifs r m passing.no_echo passing.no_request passing.no_reply

  -- A packet with a TTL of at most 1 is answered by a time exceeded error, whether or not its
  -- checksum is right.
  pub handle_expired : m.payload 22 ≤ 1 → Returns (Errors r m 11) (handle ifs r m)
  handle_expired low = rw (on_its_way, packet_expired ifs r m low) (answer_error-Errors r m 11)

  -- A packet with a greater TTL and a wrong header checksum is dropped.
  pub handle_damaged :
      (c : ℕ)
      → 1 < m.payload 22
      → ip_checksum 2 (header m.payload) ≡ done c
      → c ≢ 0
      → handle ifs r m ≡ done (r, [])
  handle_damaged c high at bad = on_its_way ∙ packet_damaged ifs r m c high at bad

  -- A good packet with no route is answered by a destination unreachable error.
  pub handle_unreachable :
      1 < m.payload 22
      → ip_checksum 2 (header m.payload) ≡ done 0
      → get_best_route r.rtable (read32 m.payload 30) ≡ done none
      → Returns (Errors r m 3) (handle ifs r m)
  handle_unreachable high valid at =
      rw (on_its_way, packet_checked ifs r m high valid, checked_unreachable ifs r m at)
        (answer_error-Errors r (record m { payload = updated m.payload }) 3)

  -- A good packet whose next hop has no known hardware address waits at the end of the queue, with
  -- its new TTL, checksum and source address, and an ARP request for the next hop is broadcast.
  pub handle_queues :
      (route : RtableEntry)
      → 1 < m.payload 22
      → ip_checksum 2 (header m.payload) ≡ done 0
      → get_best_route r.rtable (read32 m.payload 30) ≡ done (some route)
      → get_mac r.arptable route.next_hop ≡ done none
      → handle ifs r m
        ≡ done
            (record r { queue = r.queue ++ readdressed ifs route m ∷ [] }, request ifs route ∷ [])
  handle_queues route high valid at unknown =
      on_its_way
      ∙ packet_checked ifs r m high valid
      ∙ checked_routed ifs r m route at
      ∙ forward_unknown ifs r (readdressed ifs route m) route unknown

  -- A good packet whose next hop is known leaves by the interface of its route. Its frame is as
  -- long as the one received and differs in the hardware addresses, the TTL and the checksum only;
  -- a receiver finds the checksum right exactly if the field was not 0xffff before.
  pub handle_forwards :
      (route : RtableEntry) (e : ArptableEntry)
      → IsInterfaces ifs
      → IsMemory m.payload
      → length e.mac ≡ 6
      → 1 < m.payload 22
      → ip_checksum 2 (header m.payload) ≡ done 0
      → get_best_route r.rtable (read32 m.payload 30) ≡ done (some route)
      → get_mac r.arptable route.next_hop ≡ done (some e)
      → (p : Memory) × (handle ifs r m
          ≡ done (r, record { interface = route.interface; frame = slice p 0 m.len } ∷ []))
        × ((a : ℕ) → p a ≡ passed_byte m.payload e.mac (ifs.mac route.interface) a)
        × ((ip_checksum 2 (header p) ≡ done 0) ↔ (read16 m.payload 24 ≢ 0xffff))
  unfolding send_packet
  handle_forwards route e wide bytes six high valid at known = (
    store (readdressed ifs route m).payload 0 e.mac,
    on_its_way
        ∙ packet_checked ifs r m high valid
        ∙ checked_routed ifs r m route at
        ∙ forward_known ifs r (readdressed ifs route m) route e known,
    passed_byte_lem ifs route m e.mac wide bytes six high,
    rw
        (addressed_header (updated m.payload) e.mac (ifs.mac route.interface) six
          (wide route.interface))
        (updated-valid 2 m.payload (omega arith) bytes (omega (arith, high)) valid),
  )
