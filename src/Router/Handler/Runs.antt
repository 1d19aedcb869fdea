-- ===== src/Router/Handler/Runs.antt =====
-- PCom1/router.c: the loop of `main` over the packets that come in.
use mathlib.Core.List.{append-nil, append_assoc}
use pcom_assignments.Prelude.{ℕ, ◌≤◌, ◌≡◌, refl, sym, ◌∙◌, ap, ◌≢◌, List, [], ◌∷◌, ◌++◌, length}
use pcom_assignments.Prelude.Run.{done, Returns, returns, Returns->>=, Returns-mono, Returns-eq}
use pcom_assignments.Prelude.Bytes.{IsMemory}
use pcom_assignments.Router.ArpTable.{ArptableEntry, get_mac}
use pcom_assignments.Router.ArpTable.Laws.{first_for, get_mac-first_for, init_arptable-Holds}
use pcom_assignments.Router.RouteTable.{RtableEntry, Rtable, init_rtable, parse_rtable}
use pcom_assignments.Router.RouteTable.Sorting.{Compare, IsQsort}
use pcom_assignments.Router.RouteTable.Lookup.{HasClosePrefixes, get_best_route-LongestMatch}
use pcom_assignments.Router.Frames.{Sent, Packet}
use pcom_assignments.Router.Handler.{Interfaces, Router, handle, start, main_loop, main}
use pcom_assignments.Router.Handler.Guards.{IsArpReply}
use pcom_assignments.Router.Handler.Paths.{IsInterfaces}
use pcom_assignments.Router.Handler.Safety.{IsRouter, Safe, told_in, handle-Safe}

-- What the ARP replies among the packets tell, in their order.
abbrev pub told_by : List Packet → List ArptableEntry
told_by [] = []
told_by (m ∷ ms) = told_in m ++ told_by ms

abbrev pub AreMemories : List Packet → Type 0
AreMemories [] = Unit {0}
AreMemories (m ∷ ms) = IsMemory m.payload × AreMemories ms

start-Safe :
    {qsort : Compare → List RtableEntry → List RtableEntry} (is : IsQsort qsort)
    (lines : List RtableEntry)
    → HasClosePrefixes lines
    → lines ≢ []
    → Returns
        (λ t. (v : IsRouter (start t)) × (v.entries ≡ []))
        (parse_rtable qsort init_rtable lines)
start-Safe is lines close ne =
    Returns-mono (get_best_route-LongestMatch is lines close ne) λ t finds. (
      record {
        entries = [];
        learned = init_arptable-Holds;
        looks_up = λ dest. let (o, at, _) = Returns-eq (finds dest) in (o, at);
        queued = tt;
      },
      refl,
    )

-- For a `qsort` with its contract and a table file that is not empty and whose prefixes of one
-- length are less than 2 ^ 31 apart, the invariant holds when the loop begins.
pub start-IsRouter :
    {qsort : Compare → List RtableEntry → List RtableEntry} (is : IsQsort qsort)
    (lines : List RtableEntry)
    → HasClosePrefixes lines
    → lines ≢ []
    → Returns (λ t. IsRouter (start t)) (parse_rtable qsort init_rtable lines)
start-IsRouter is lines close ne = Returns-mono (start-Safe is lines close ne) λ t v. v.0

module _ (ifs : Interfaces) where
  -- At most one packet waits whenever an ARP reply comes in.
  abbrev pub AreOrdered : Router → List Packet → Type 0
  AreOrdered r [] = Unit {0}
  AreOrdered r (m ∷ ms) =
      (IsArpReply m → length r.queue ≤ 1)
      × ((o : Router × List Sent) → handle ifs r m ≡ done o → AreOrdered o.0 ms)

module _ (ifs : Interfaces) (wide : IsInterfaces ifs) where
  -- The loop keeps the invariant and the routing table, and the ARP table gets what the replies tell.
  pub main_loop-Safe :
      (r : Router) (ms : List Packet) (v : IsRouter r)
      → AreMemories ms
      → AreOrdered ifs r ms
      → Safe r.rtable (v.entries ++ told_by ms) (main_loop ifs r ms)
  unfolding main_loop
  main_loop-Safe r [] v bytes ordered = returns (v, sym (append-nil v.entries), refl)
  main_loop-Safe r (m ∷ ms) v bytes ordered =
      let (o, at, w) = Returns-eq (handle-Safe ifs r m wide v bytes.0 ordered.0) in
      rw at (
        Returns->>= (main_loop-Safe o.0 ms w.0 bytes.1 (ordered.1 o at)) λ u x. returns (
          x.0,
          x.1
              ∙ ap (λ (es : List ArptableEntry). es ++ told_by ms) w.1
              ∙ append_assoc v.entries (told_in m) (told_by ms),
          x.2 ∙ w.2,
        ))

  -- The whole program: with a `qsort` with its contract, a table file that is not empty and whose
  -- prefixes of one length are less than 2 ^ 31 apart, interfaces with six-byte hardware
  -- addresses, and packets of bytes of which an ARP reply comes in only while at most one waits,
  -- `main` returns when no packet is left to receive. The invariant holds, and the ARP table
  -- answers for every address with the first reply that told it, asked for or not.
  pub main-IsRouter :
      {qsort : Compare → List RtableEntry → List RtableEntry} (is : IsQsort qsort)
      (lines : List RtableEntry) (ms : List Packet)
      → HasClosePrefixes lines
      → lines ≢ []
      → AreMemories ms
      → ((t : Rtable) → parse_rtable qsort init_rtable lines ≡ done t → AreOrdered ifs (start t) ms)
      → Returns
          (λ (o : Router × List Sent).
            IsRouter o.0 × ((ip : ℕ) → get_mac o.0.arptable ip ≡ done (first_for ip (told_by ms))))
          (main ifs qsort lines ms)
  unfolding main
  main-IsRouter is lines ms close ne bytes ordered =
      let (t, at, v) = Returns-eq (start-Safe is lines close ne) in
      rw at (
        Returns-mono (main_loop-Safe (start t) ms v.0 bytes (ordered t at)) λ o w. (
          w.0,
          λ ip.
              get_mac-first_for o.0.arptable _ ip w.0.learned
              ∙ ap (λ (es : List ArptableEntry). done (first_for ip es))
                  (w.1 ∙ ap (λ (es : List ArptableEntry). es ++ told_by ms) v.1),
        ))
