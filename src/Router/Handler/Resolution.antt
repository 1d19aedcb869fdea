-- ===== src/Router/Handler/Resolution.antt =====
-- PCom1/router.c: a packet that waits for a hardware address, and the reply that tells it.
use pcom_assignments.Prelude.{ℕ, ◌<◌, ◌≡◌, refl, ◌∙◌, ap, List, [], ◌∷◌, ◌++◌, none, some, ==_iff}
use pcom_assignments.Prelude.Run.{done, Returns, returns, Returns-eq}
use pcom_assignments.Prelude.Bytes.{Memory, IsMemory, slice, store, read32}
use pcom_assignments.Router.GrowArray.Holds.{Holds}
use pcom_assignments.Router.ArpTable.{ArptableEntry}
use pcom_assignments.Router.ArpTable.Laws.{first_for, first_for-append, get_mac-first_for}
use pcom_assignments.Router.RouteTable.{RtableEntry, get_best_route}
use pcom_assignments.Router.Checksum.{ip_checksum, header, updated}
use pcom_assignments.Router.Frames.{Sent, Packet, send_packet}
use pcom_assignments.Router.Handler.{Interfaces, Router, main_loop}
use pcom_assignments.Router.Handler.Guards.{IsArpReply}
use pcom_assignments.Router.Handler.Learning.{told, reply_delivers}
use pcom_assignments.Router.Handler.Paths.{IsInterfaces, same_daddr, request, readdressed}
use pcom_assignments.Router.Handler.Forwarding.{
  IsPassing, passed_byte, passed_byte_lem, handle_queues,
}

-- An entry behind the table answers for its address, if no entry did.
found_behind :
    (ip : ℕ) (es : List ArptableEntry) (e : ArptableEntry)
    → first_for ip es ≡ none
    → e.ip ≡ ip
    → first_for ip (es ++ e ∷ []) ≡ some e
found_behind ip es e unknown same =
    first_for-append ip es e ∙ rw (unknown, (==_iff e.ip ip).1 same) refl

module _ (ifs : Interfaces) (wide : IsInterfaces ifs) (r : Router) (es : List ArptableEntry)
    (holds : Holds r.arptable es) (idle : r.queue ≡ []) where
  -- For interfaces with six-byte hardware addresses and a router with no packet waiting: a packet
  -- of bytes that passes the router, with a TTL above 1, a right header checksum and a route whose
  -- next hop is not in the ARP table, followed by an ARP reply of that next hop. The loop returns;
  -- it sends the ARP request and then, by the interface of the route, the packet, with the
  -- hardware address that the reply tells, that of the interface, the TTL less one and the new
  -- checksum; no packet waits, the routing table is the same, and the ARP table has the new entry.
  pub main_loop_resolves :
      (m a : Packet) (route : RtableEntry)
      → IsPassing ifs m
      → IsMemory m.payload
      → 1 < m.payload 22
      → ip_checksum 2 (header m.payload) ≡ done 0
      → get_best_route r.rtable (read32 m.payload 30) ≡ done (some route)
      → first_for route.next_hop es ≡ none
      → IsArpReply a
      → read32 a.payload 28 ≡ route.next_hop
      → Returns
          (λ (o : Router × List Sent).
            (p : Memory) × (o.1
              ≡ request ifs route
                ∷ record { interface = route.interface; frame = slice p 0 m.len }
                ∷ [])
            × ((b : ℕ)
                → p b ≡ passed_byte m.payload (slice a.payload 22 6) (ifs.mac route.interface) b)
            × (o.0.queue ≡ [])
            × (o.0.rtable ≡ r.rtable)
            × Holds o.0.arptable (es ++ told a ∷ []))
          (main_loop ifs r (m ∷ a ∷ []))
  unfolding main_loop send_packet
  main_loop_resolves m a route passing bytes high valid at unknown reply same =
      let waiting = readdressed ifs route m in
      let r' : Router = record r { queue = r.queue ++ waiting ∷ [] } in
      let (o, at_o, w) = Returns-eq (
        reply_delivers ifs r' a reply es holds waiting route
          (ap (get_best_route r.rtable) (same_daddr ifs wide (updated m.payload) route.interface)
            ∙ at)
          (told a) (ap (λ (q : List Packet). q ++ waiting ∷ []) idle)
          (found_behind route.next_hop es (told a) unknown same)) in
      rw
        (
          handle_queues ifs r m passing route high valid at
              (get_mac-first_for r.arptable es route.next_hop holds ∙ ap done unknown),
          at_o,
        )
        (returns (
          store waiting.payload 0 (told a).mac,
          ap (λ (out : List Sent). request ifs route ∷ out ++ []) w.0,
          passed_byte_lem ifs route m (told a).mac wide bytes refl high,
          w.1,
          w.2,
          w.3,
        ))
