-- ===== src/Router/Handler/Safety.antt =====
-- PCom1/router.c: the invariant of the router between two packets, and the faults it excludes.
use mathlib.Core.List.{append-nil}
use native.Mathlib.Decide.{dec_le, ℕ_discrete}
use pcom_assignments.Prelude.{
  ℕ, false, ◌≤◌, ◌≡◌, refl, ◌∙◌, ap, arith, List, [], ◌∷◌, ◌++◌, length, Option, none, some,
  Bool-cases, inl, inr, if◌then◌else◌,
}
use pcom_assignments.Prelude.Run.{
  Run, done, Returns, returns, Returns->>=, Returns-mono, Returns-eq,
}
use pcom_assignments.Prelude.Bytes.{IsMemory, read32}
use pcom_assignments.Router.GrowArray.Holds.{Holds}
use pcom_assignments.Router.ArpTable.{ArptableEntry, get_mac}
use pcom_assignments.Router.ArpTable.Laws.{first_for, get_mac-first_for}
use pcom_assignments.Router.RouteTable.{RtableEntry, Rtable, get_best_route}
use pcom_assignments.Router.Checksum.{header, updated}
use pcom_assignments.Router.Checksum.Sum.{ip_checksum-IsFolded}
use pcom_assignments.Router.Checksum.Update.{header-IsBytes}
use pcom_assignments.Router.Frames.{Sent, Packet}
use pcom_assignments.Router.Frames.Valid.{send_icmp-IsIcmpFrame}
use pcom_assignments.Router.Handler.{
  Interfaces, Router, is_echo_request, is_arp_request, is_arp_reply, answer_echo, answer_arp,
  answer_error, forward, route_checked, route_packet, handle,
}
use pcom_assignments.Router.Handler.Guards.{IsArpReply, IsArpReply-iff}
use pcom_assignments.Router.Handler.Learning.{told, reply_empty, reply_waits, reply_delivers}
use pcom_assignments.Router.Handler.Paths.{
  IsInterfaces, same_daddr, readdressed, forward_known, forward_unknown, checked_routed,
  checked_unreachable, packet_expired, packet_checked, packet_damaged,
}
use pcom_assignments.Router.Handler.Forwarding.{answer_error-Errors}

-- The routing table has a route for each queued packet.
abbrev pub Routed : Rtable → List Packet → Type 0
Routed t [] = Unit {0}
Routed t (p ∷ ps) =
    ((e : RtableEntry) × (get_best_route t (read32 p.payload 30) ≡ done (some e))) × Routed t ps

pub record IsRouter (r : Router) : Type 0 where
  pub entries : List ArptableEntry
  pub learned : Holds r.arptable entries
  pub looks_up : (dest : ℕ) → (o : Option RtableEntry) × (get_best_route r.rtable dest ≡ done o)
  pub queued : Routed r.rtable r.queue

Routed-append :
    (t : Rtable) (ps : List Packet) (p : Packet) (e : RtableEntry)
    → Routed t ps
    → get_best_route t (read32 p.payload 30) ≡ done (some e)
    → Routed t (ps ++ p ∷ [])
Routed-append t [] p e h at = ((e, at), tt)
Routed-append t (q ∷ ps) p e h at = (h.0, Routed-append t ps p e h.1 at)

-- The invariant holds again, with the same routing table and with `es` in the ARP table.
abbrev pub Safe : Rtable → List ArptableEntry → Run (Router × List Sent) → Type 0
Safe t es =
    Returns (λ (o : Router × List Sent). (w : IsRouter o.0) × (w.entries ≡ es) × (o.0.rtable ≡ t))

module _ (ifs : Interfaces) (wide : IsInterfaces ifs) (r : Router) (v : IsRouter r)
    (m : Packet) where
  answer_echo-Safe : Safe r.rtable v.entries (answer_echo r m)
  unfolding answer_echo
  answer_echo-Safe =
      Returns->>= (send_icmp-IsIcmpFrame _ _ _ _ _ _ _ _ _) λ s _. returns (v, refl, refl)

  answer_error-Safe : (m' : Packet) (type : ℕ) → Safe r.rtable v.entries (answer_error r m' type)
  answer_error-Safe m' type =
      Returns-mono (answer_error-Errors r m' type) λ o sent. rw sent.1 (v, refl, refl)

  answer_arp-Safe : Safe r.rtable v.entries (answer_arp ifs r m)
  unfolding answer_arp
  answer_arp-Safe = returns (v, refl, refl)

  forward-Safe :
      (m' : Packet) (route : RtableEntry)
      → get_best_route r.rtable (read32 m'.payload 30) ≡ done (some route)
      → Safe r.rtable v.entries (forward ifs r m' route)
  forward-Safe m' route at =
      by_entry (first_for route.next_hop v.entries)
        (get_mac-first_for r.arptable v.entries route.next_hop v.learned)
    where
      by_entry :
          (o : Option ArptableEntry)
          → get_mac r.arptable route.next_hop ≡ done o
          → Safe r.rtable v.entries (forward ifs r m' route)
      by_entry none unknown = rw (forward_unknown ifs r m' route unknown) (
          returns (
            record {
              entries = v.entries;
              learned = v.learned;
              looks_up = v.looks_up;
              queued = Routed-append r.rtable r.queue m' route v.queued at;
            },
            refl,
            refl,
          ))
      by_entry (some e) known = rw (forward_known ifs r m' route e known) (returns (v, refl, refl))

  route_checked-Safe : Safe r.rtable v.entries (route_checked ifs r m)
  route_checked-Safe = let (o, at) = v.looks_up (read32 m.payload 30) in by_route o at
    where
      by_route :
          (o : Option RtableEntry)
          → get_best_route r.rtable (read32 m.payload 30) ≡ done o
          → Safe r.rtable v.entries (route_checked ifs r m)
      by_route none at = rw (checked_unreachable ifs r m at) (answer_error-Safe _ 3)
      by_route (some route) at = rw (checked_routed ifs r m route at) (
          forward-Safe (readdressed ifs route m) route (
            ap (get_best_route r.rtable) (same_daddr ifs wide (updated m.payload) route.interface)
            ∙ at))

  route_packet-Safe : IsMemory m.payload → Safe r.rtable v.entries (route_packet ifs r m)
  route_packet-Safe bytes = elim (dec_le (m.payload 22) 1) [
    | yes low ↦ rw (packet_expired ifs r m low) (answer_error-Safe m 11)
    | no high ↦
        let (c, at, _) = Returns-eq (
          ip_checksum-IsFolded 2 (header m.payload) (omega arith)
            (header-IsBytes m.payload bytes 14 20) (omega arith)) in
        elim (ℕ_discrete c 0) [
          | yes zero_sum ↦
              rw (packet_checked ifs r m (omega (arith, high)) (at ∙ ap done zero_sum))
                route_checked-Safe
          | no bad ↦
              rw (packet_damaged ifs r m c (omega (arith, high)) at bad) (returns (v, refl, refl))
        ]
  ]

  -- What an ARP reply leaves behind.
  behind_reply :
      (q : List Packet)
      → Routed r.rtable q
      → (o : Router × List Sent) → o.0.queue ≡ q
      → o.0.rtable ≡ r.rtable
      → Holds o.0.arptable (v.entries ++ told m ∷ [])
      → (w : IsRouter o.0) × (w.entries ≡ v.entries ++ told m ∷ []) × (o.0.rtable ≡ r.rtable)
  behind_reply q routes o is_q same h = (
    record {
      entries = v.entries ++ told m ∷ [];
      learned = h;
      looks_up = rw same v.looks_up;
      queued = rw (is_q, same) routes;
    },
    refl,
    same,
  )

  learn_arp-Safe :
      IsArpReply m → length r.queue ≤ 1 → Safe r.rtable (v.entries ++ told m ∷ []) (handle ifs r m)
  learn_arp-Safe reply short = by_queue r.queue refl
    where
      by_queue :
          (q : List Packet)
          → r.queue ≡ q
          → Safe r.rtable (v.entries ++ told m ∷ []) (handle ifs r m)
      by_queue [] is_q =
          Returns-mono (reply_empty ifs r m reply v.entries v.learned is_q)
            λ o w. behind_reply [] tt o w.1 w.2 w.3
      by_queue (first ∷ second ∷ more) is_q = absurd (omega (arith, ap length is_q, short))
      by_queue (first ∷ []) is_q =
          let routes : Routed r.rtable (first ∷ []) = rw is_q at v.queued in
          let (route, at) = routes.0 in
          by_entry route at (first_for route.next_hop (v.entries ++ told m ∷ [])) refl
        where
          by_entry :
              (route : RtableEntry)
              → get_best_route r.rtable (read32 first.payload 30) ≡ done (some route)
              → (o : Option ArptableEntry) → first_for route.next_hop (v.entries ++ told m ∷ []) ≡ o
              → Safe r.rtable (v.entries ++ told m ∷ []) (handle ifs r m)
          by_entry route at none unknown =
              Returns-mono
                (reply_waits ifs r m reply v.entries v.learned first route at [] is_q unknown)
                λ o w. behind_reply (first ∷ []) ((route, at), tt) o w.1 w.2 w.3
          by_entry route at (some e) known =
              Returns-mono
                (reply_delivers ifs r m reply v.entries v.learned first route at e is_q known)
                λ o w. behind_reply [] tt o w.1 w.2 w.3

-- What a packet tells the ARP table.
abbrev pub told_in : Packet → List ArptableEntry
told_in m = if is_arp_reply m then told m ∷ [] else []

-- A packet that is no ARP reply tells nothing.
other-Safe :
    (ifs : Interfaces) (r : Router) (m : Packet)
    → IsInterfaces ifs
    → (v : IsRouter r) → IsMemory m.payload
    → is_arp_reply m ≡ false
    → Safe r.rtable v.entries (handle ifs r m)
unfolding handle
other-Safe ifs r m wide v bytes no_reply = elim (Bool-cases (is_echo_request ifs m)) [
  | inl echo ↦ rw echo (answer_echo-Safe ifs wide r v m)
  | inr no_echo ↦ elim (Bool-cases (is_arp_request ifs m)) [
    | inl asks ↦ rw (no_echo, asks) (answer_arp-Safe ifs wide r v m)
    | inr no_request ↦ rw (no_echo, no_request, no_reply) (route_packet-Safe ifs wide r v m bytes)
  ]
]

-- The handler returns, and the ARP table has the entry of the packet behind those that it had, if it
-- is an ARP reply.
pub handle-Safe :
    (ifs : Interfaces) (r : Router) (m : Packet)
    → IsInterfaces ifs
    → (v : IsRouter r) → IsMemory m.payload
    → (IsArpReply m → length r.queue ≤ 1)
    → Safe r.rtable (v.entries ++ told_in m) (handle ifs r m)
handle-Safe ifs r m wide v bytes short = elim (Bool-cases (is_arp_reply m)) [
  | inl tells ↦
      let reply = (IsArpReply-iff m).0 tells in
      rw tells (learn_arp-Safe ifs wide r v m reply (short reply))
  | inr no_reply ↦ rw (no_reply, append-nil v.entries) (other-Safe ifs r m wide v bytes no_reply)
]

-- No packet makes the handler fault or keeps it from returning, and the invariant holds again
-- behind it, as long as at most one packet waits when an ARP reply comes in.
pub handle-IsRouter :
    (ifs : Interfaces) (r : Router) (m : Packet)
    → IsInterfaces ifs
    → IsRouter r
    → IsMemory m.payload
    → (IsArpReply m → length r.queue ≤ 1)
    → Returns (λ (o : Router × List Sent). IsRouter o.0) (handle ifs r m)
handle-IsRouter ifs r m wide v bytes short =
    Returns-mono (handle-Safe ifs r m wide v bytes short) λ o w. w.0
