-- ===== src/Router/Handler/Learning.antt =====
-- PCom1/router.c: what an ARP reply does to the ARP table and to the packet queue.
use pcom_assignments.Prelude.{
  ℕ, suc, ◌+◌, arith, get_elem?, ◌≡◌, refl, ◌∙◌, ap, List, [], ◌∷◌, ◌++◌, none, some,
}
use pcom_assignments.Prelude.Run.{
  done, fault, use_after_free, Returns, returns, Returns->>=, Returns-eq, ◌>>=◌,
}
use pcom_assignments.Prelude.Bytes.{slice, store, read32}
use pcom_assignments.Router.GrowArray.Holds.{Holds}
use pcom_assignments.Router.ArpTable.{Arptable, ArptableEntry, get_mac}
use pcom_assignments.Router.ArpTable.Laws.{first_for, get_mac-first_for, get_mac-add_to_arptable}
use pcom_assignments.Router.RouteTable.{RtableEntry, get_best_route}
use pcom_assignments.Router.Frames.{Sent, Packet, send_packet}
use pcom_assignments.Router.Handler.{
  Interfaces, Router, Packets, load_all, pointers, drain, drain_loop, learn_arp, handle,
}
use pcom_assignments.Router.Handler.Guards.{IsArpReply, handle-arp_reply}

-- The entry that a reply adds: the sender's address and hardware address.
abbrev pub told : Packet → ArptableEntry
told m = record { ip = read32 m.payload 28; mac = slice m.payload 22 6 }

-- What the pointers of a queue lead to.
load_all-pointers :
    (h : Packets) (p : ℕ) (ms : List Packet)
    → ((i : ℕ) (m : Packet) → get_elem? ms i ≡ some m → h (p + i) ≡ some m)
    → load_all h (pointers p ms) ≡ done ms
load_all-pointers h p [] there = refl
load_all-pointers h p (m ∷ ms) there =
    let here : p ≡ p + 0 = omega arith in
    let next : (i : ℕ) → p + 1 + i ≡ p + suc i = λ i. omega arith in
    rw
      (
        ap h here ∙ there 0 m refl,
        load_all-pointers h (p + 1) ms λ i x at. ap h (next i) ∙ there (suc i) x at,
      )
      refl

-- The frame of a packet with its destination hardware address filled in.
abbrev pub delivered : RtableEntry → Packet → ArptableEntry → Sent
delivered route p e = send_packet route.interface (record p { payload = store p.payload 0 e.mac })

module _ (ifs : Interfaces) (r : Router) (m : Packet) (reply : IsArpReply m)
    (es : List ArptableEntry) (holds : Holds r.arptable es) where
  -- The table behind the reply holds one more entry, and what follows depends on the queue alone.
  learned :
      (P : Router × List Sent → Type 0)
      → ((t : Arptable)
          → Holds t (es ++ told m ∷ [])
          → Returns P (elim r.queue [
            | [] ↦ done (record r { arptable = t }, [])
            | first ∷ rest ↦ drain r.rtable t first rest >>= λ q.
                done (record r { arptable = t; queue = q.0 }, q.1)
          ]))
      → Returns P (handle ifs r m)
  unfolding learn_arp
  learned P next = rw (handle-arp_reply ifs r m reply) (
      Returns->>=
        (get_mac-add_to_arptable r.arptable es (read32 m.payload 28) (slice m.payload 22 6) 0 holds)
        λ t h. next t h.0)

  -- With nothing queued a reply only adds its entry.
  pub reply_empty :
      r.queue ≡ []
      → Returns
          (λ o.
            (o.1 ≡ [])
            × (o.0.queue ≡ [])
            × (o.0.rtable ≡ r.rtable)
            × Holds o.0.arptable (es ++ told m ∷ []))
          (handle ifs r m)
  reply_empty none_waits = learned _ λ t h. rw none_waits (returns (refl, none_waits, refl, h))

  module _ (first : Packet) (route : RtableEntry)
      (routed : get_best_route r.rtable (read32 first.payload 30) ≡ done (some route)) where
    found_in :
        (t : Arptable)
        → Holds t (es ++ told m ∷ [])
        → get_mac t route.next_hop ≡ done (first_for route.next_hop (es ++ told m ∷ []))
    found_in t h = get_mac-first_for t _ route.next_hop h

    drain_waits :
        (rest : List Packet) (t : Arptable)
        → get_mac t route.next_hop ≡ done none
        → drain r.rtable t first rest ≡ done (first ∷ rest, [])
    unfolding drain drain_loop
    drain_waits rest t unknown =
        let from_zero : (i : ℕ) → 0 + i ≡ i = λ i. omega arith in
        rw
          (
            routed,
            unknown,
            load_all-pointers (get_elem? (first ∷ rest)) 0 (first ∷ rest)
                λ i m at. ap (get_elem? (first ∷ rest)) (from_zero i) ∙ at,
          )
          refl

    drain_delivers :
        (e : ArptableEntry) (t : Arptable)
        → get_mac t route.next_hop ≡ done (some e)
        → drain r.rtable t first [] ≡ done ([], delivered route first e ∷ [])
    unfolding drain drain_loop
    drain_delivers e t known = rw (routed, known) refl

    drain_faults :
        (e : ArptableEntry) (second : Packet) (more : List Packet) (t : Arptable)
        → get_mac t route.next_hop ≡ done (some e)
        → drain r.rtable t first (second ∷ more) ≡ fault use_after_free
    unfolding drain drain_loop
    drain_faults e second more t known = rw (routed, known) refl

    -- If the next hop of the front packet is still unknown after the reply, nothing is sent and the
    -- queue stays as it was.
    pub reply_waits :
        (rest : List Packet)
        → r.queue ≡ first ∷ rest
        → first_for route.next_hop (es ++ told m ∷ []) ≡ none
        → Returns
            (λ o.
              (o.1 ≡ [])
              × (o.0.queue ≡ first ∷ rest)
              × (o.0.rtable ≡ r.rtable)
              × Holds o.0.arptable (es ++ told m ∷ []))
            (handle ifs r m)
    reply_waits rest waits unknown = learned _ λ t h.
        rw (waits, drain_waits rest t (found_in t h ∙ ap done unknown))
          (returns (refl, refl, refl, h))

    -- If the front packet is the only one and its next hop is known after the reply, it is sent by
    -- the interface of its route, with the hardware address that the table gives.
    pub reply_delivers :
        (e : ArptableEntry)
        → r.queue ≡ first ∷ []
        → first_for route.next_hop (es ++ told m ∷ []) ≡ some e
        → Returns
            (λ o.
              (o.1 ≡ delivered route first e ∷ [])
              × (o.0.queue ≡ [])
              × (o.0.rtable ≡ r.rtable)
              × Holds o.0.arptable (es ++ told m ∷ []))
            (handle ifs r m)
    reply_delivers e waits known = learned _ λ t h.
        rw (waits, drain_delivers e t (found_in t h ∙ ap done known))
          (returns (refl, refl, refl, h))

    -- With a second packet behind it, and a next hop of the front packet that is known after the reply,
    -- the handler reads freed memory, whatever the second packet is.
    pub reply_faults :
        (e : ArptableEntry) (second : Packet) (more : List Packet)
        → r.queue ≡ first ∷ second ∷ more
        → first_for route.next_hop (es ++ told m ∷ []) ≡ some e
        → handle ifs r m ≡ fault use_after_free
    unfolding learn_arp
    reply_faults e second more waits known =
        let (t, added, h) = Returns-eq (
          get_mac-add_to_arptable r.arptable es (read32 m.payload 28) (slice m.payload 22 6) 0
            holds) in
        rw (
          handle-arp_reply ifs r m reply,
          added,
          waits,
          drain_faults e second more t (found_in t h.0 ∙ ap done known),
        )
