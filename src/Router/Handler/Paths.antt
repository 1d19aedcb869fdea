-- ===== src/Router/Handler/Paths.antt =====
-- PCom1/router.c: the branches on the way of a packet that the router passes on, one lemma each.
use pcom_assignments.Prelude.{
  ℕ, ◌+◌, arith, ◌≤◌, ◌<◌, ◌≡◌, refl, ◌≢◌, arith, List, [], ◌∷◌, ◌++◌, length, none, some,
  lt→not_leb, le→leb, ne→not_==,
}
use pcom_assignments.Prelude.Run.{done}
use pcom_assignments.Prelude.Bytes.{Memory, store, read32, bytes32, store_behind}
use pcom_assignments.Router.ArpTable.{ArptableEntry, get_mac}
use pcom_assignments.Router.RouteTable.{RtableEntry, get_best_route}
use pcom_assignments.Router.Checksum.{ip_checksum, header, updated}
use pcom_assignments.Router.Hwaddr.{hwaddr_aton}
use pcom_assignments.Router.Hwaddr.RoundTrip.{hwaddr_aton-hwaddr_text}
use pcom_assignments.Router.Frames.{Sent, Packet, send_packet}
use pcom_assignments.Router.Frames.Valid.{arp_frame, send_arp-arp_frame}
use pcom_assignments.Router.Handler.{
  Interfaces, Router, answer_error, forward, route_checked, route_packet, broadcast_text,
}

-- Every hardware address has six bytes.
abbrev pub IsInterfaces : Interfaces → Type 0
IsInterfaces ifs = (i : ℕ) → length (ifs.mac i) ≡ 6

abbrev pub broadcast : List ℕ
broadcast = 255 ∷ 255 ∷ 255 ∷ 255 ∷ 255 ∷ 255 ∷ []

pub broadcast_lem : hwaddr_aton broadcast_text ≡ some broadcast
broadcast_lem = hwaddr_aton-hwaddr_text broadcast refl (omega arith)

-- The ARP request for the next hop of a route.
abbrev pub request : Interfaces → RtableEntry → Sent
request ifs route = record {
  interface = route.interface;
  frame =
      arp_frame broadcast (ifs.mac route.interface) 1 (bytes32 (ifs.ip route.interface))
        (bytes32 route.next_hop);
}

module _ (ifs : Interfaces) (wide : IsInterfaces ifs) where
  -- Filling in the source hardware address leaves the destination address.
  pub same_daddr : (p : Memory) (i : ℕ) → read32 (store p 6 (ifs.mac i)) 30 ≡ read32 p 30
  same_daddr p i =
      rw
        (
          at 30 (omega (arith, wide i)),
          at 31 (omega (arith, wide i)),
          at 32 (omega (arith, wide i)),
          at 33 (omega (arith, wide i)),
        )
        refl
    where
      at : (a : ℕ) → 6 + length (ifs.mac i) ≤ a → store p 6 (ifs.mac i) a ≡ p a
      at a le = store_behind p 6 (ifs.mac i) a le

-- The payload of a packet that passes the router, but for the destination hardware address.
abbrev pub readdressed : Interfaces → RtableEntry → Packet → Packet
readdressed ifs route m = record m {
  payload = store (updated m.payload) 6 (ifs.mac route.interface);
}

module _ (ifs : Interfaces) (r : Router) where
  pub forward_known :
      (m : Packet) (route : RtableEntry) (e : ArptableEntry)
      → get_mac r.arptable route.next_hop ≡ done (some e)
      → forward ifs r m route
        ≡ done
            (r, send_packet route.interface (record m { payload = store m.payload 0 e.mac }) ∷ [])
  unfolding forward
  forward_known m route e at = rw at

  pub forward_unknown :
      (m : Packet) (route : RtableEntry)
      → get_mac r.arptable route.next_hop ≡ done none
      → forward ifs r m route
        ≡ done (record r { queue = r.queue ++ m ∷ [] }, request ifs route ∷ [])
  unfolding forward
  forward_unknown m route at =
      rw
        (
          at,
          broadcast_lem,
          send_arp-arp_frame route.next_hop (ifs.ip route.interface) (ifs.mac route.interface)
              broadcast route.interface 1 (omega arith),
        )
        refl

  pub checked_routed :
      (m : Packet) (route : RtableEntry)
      → get_best_route r.rtable (read32 m.payload 30) ≡ done (some route)
      → route_checked ifs r m ≡ forward ifs r (readdressed ifs route m) route
  unfolding route_checked
  checked_routed m route at = rw at

  pub checked_unreachable :
      (m : Packet)
      → get_best_route r.rtable (read32 m.payload 30) ≡ done none
      → route_checked ifs r m ≡ answer_error r (record m { payload = updated m.payload }) 3
  unfolding route_checked
  checked_unreachable m at = rw at

  pub packet_expired : (m : Packet) → m.payload 22 ≤ 1 → route_packet ifs r m ≡ answer_error r m 11
  unfolding route_packet
  packet_expired m le = rw (le→leb (m.payload 22) 1 le)

  pub packet_checked :
      (m : Packet)
      → 1 < m.payload 22
      → ip_checksum 2 (header m.payload) ≡ done 0
      → route_packet ifs r m ≡ route_checked ifs r m
  unfolding route_packet
  packet_checked m lt valid = rw (lt→not_leb 1 (m.payload 22) lt, valid)

  pub packet_damaged :
      (m : Packet) (c : ℕ)
      → 1 < m.payload 22
      → ip_checksum 2 (header m.payload) ≡ done c
      → c ≢ 0
      → route_packet ifs r m ≡ done (r, [])
  unfolding route_packet
  packet_damaged m c lt at bad = rw (lt→not_leb 1 (m.payload 22) lt, at, ne→not_== c 0 bad)
