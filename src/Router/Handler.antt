-- ===== src/Router/Handler.antt =====
-- PCom1/router.c: the loop body of `main`, which handles one received packet.
pub mod Guards
pub mod Learning
pub mod Paths
pub mod Safety
pub mod Answers
pub mod Forwarding
pub mod Runs
pub mod Resolution
use Prim.Native.Char.{code}
use Prim.Native.String.{String}
use pcom_assignments.Prelude.{
  ℕ, ◌+◌, List, [], ◌∷◌, ◌++◌, Bool, false, ◌&&◌, Option, none, some, ◌==◌, leb, if◌then◌else◌,
  get_elem?,
}
use pcom_assignments.Prelude.Words.{swap16}
use pcom_assignments.Prelude.Run.{
  Run, done, fault, null_pointer, uninitialised, use_after_free, assertion, ◌>>=◌, require,
}
use pcom_assignments.Prelude.Bytes.{Memory, slice, store, read16, read32}
use pcom_assignments.Prelude.Int.{ℤ}
use pcom_assignments.Router.ArpTable.{
  ArptableEntry, Arptable, init_arptable, add_to_arptable, get_mac,
}
use pcom_assignments.Router.RouteTable.{
  RtableEntry, Rtable, get_best_route, init_rtable, parse_rtable,
}
use pcom_assignments.Router.Checksum.{ip_checksum, header, updated}
use pcom_assignments.Router.Hwaddr.{hwaddr_aton}
use pcom_assignments.Router.Frames.{
  Sent, Packet, send_packet, build_ethhdr, send_icmp, send_icmp_error, send_arp, parse_arp,
  parse_icmp,
}

-- The addresses that the kernel gives for the interfaces: what `inet_addr(get_interface_ip(i))`
-- and `get_interface_mac(i, mac)` return.
pub record Interfaces : Type 0 where
  pub ip : ℕ → ℕ
  pub mac : ℕ → List ℕ

-- The queue is the list of the packets in it, the front one first.
pub record Router : Type 0 where
  pub rtable : Rtable
  pub arptable : Arptable
  pub queue : List Packet

-- The state in which `main` begins to receive.
abbrev pub start : Rtable → Router
start t = record { rtable = t; arptable = init_arptable; queue = [] }

abbrev codes : String → List ℕ
codes String.[] = []
codes (String.◌∷◌ c s) = code c ∷ codes s

abbrev pub broadcast_text : List ℕ
broadcast_text = codes "ff:ff:ff:ff:ff:ff"

pub is_arp_reply : Packet → Bool
is_arp_reply m = elim (parse_arp m.payload) [
  | none ↦ false
  | some at ↦ read16 m.payload (at + 6) == swap16 2
]

pub answer_echo : Router → Packet → Run (Router × List Sent)
answer_echo r m = do
  let p = m.payload
  s ←
      send_icmp (read32 p 26) (read32 p 30) (slice p 0 6) (slice p 6 6) 0 0 m.interface
        (read16 p 38) (read16 p 40)
  done (r, s ∷ [])

-- The memory of the queued packets, each at its number in the queue; `none` has been freed.
abbrev pub Packets : Type 0
Packets = ℕ → Option Packet

abbrev pub load : Packets → (p : ℕ) → Run Packet
load h p = require use_after_free (h p)

abbrev pub write : Packets → (p : ℕ) → Option Packet → Packets
write h p m a = if a == p then m else h a

-- The pointers of the queue.
abbrev pub pointers : (p : ℕ) → List Packet → List ℕ
pointers p [] = []
pointers p (m ∷ ms) = p ∷ pointers (p + 1) ms

abbrev pub load_all : Packets → List ℕ → Run (List Packet)
load_all h [] = done []
load_all h (p ∷ q) = do m ← load h p; ms ← load_all h q; done (m ∷ ms)

-- `while (entry != NULL)`. `hdr` is the packet that `p_eth_hdr` and `p_ip_hdr` point into, which the
-- loop does not set again.
pub drain_loop :
    Rtable
    → Arptable
    → (hdr : ℕ) → RtableEntry
    → Option ArptableEntry
    → Packets
    → List ℕ
    → Run (List Packet × List Sent)
drain_loop rtable arptable hdr route none h q = do ms ← load_all h q; done (ms, [])
drain_loop rtable arptable hdr route (some e) h [] = fault assertion
drain_loop rtable arptable hdr route (some e) h (p ∷ q) = do
  m ← load h hdr
  let h₁ = write h hdr (some (record m { payload = store m.payload 0 e.mac }))
  out ← load h₁ p
  let h₂ = write h₁ p none
  elim q [
    | [] ↦ done ([], send_packet route.interface out ∷ [])
    | next ∷ more ↦ do
      hdrs ← load h₂ hdr
      best_route ← get_best_route rtable (read32 hdrs.payload 30)
      route' ← require null_pointer best_route
      entry ← get_mac arptable route'.next_hop
      (rest, sent) ← drain_loop rtable arptable hdr route' entry h₂ q
      done (rest, send_packet route.interface out ∷ sent)
  ]

pub drain : Rtable → Arptable → Packet → List Packet → Run (List Packet × List Sent)
drain rtable arptable first rest = do
  best_route ← get_best_route rtable (read32 first.payload 30)
  route ← require null_pointer best_route
  entry ← get_mac arptable route.next_hop
  drain_loop rtable arptable 0 route entry (get_elem? (first ∷ rest)) (pointers 0 (first ∷ rest))

pub learn_arp : Router → Packet → Run (Router × List Sent)
learn_arp r m = do
  let p = m.payload
  arptable ← add_to_arptable r.arptable (read32 p 28) (slice p 22 6)
  elim r.queue [
    | [] ↦ done (record r { arptable = arptable }, [])
    | first ∷ rest ↦ do
      (queue, out) ← drain r.rtable arptable first rest
      done (record r { arptable = arptable; queue = queue }, out)
  ]

pub answer_error : Router → Packet → (type : ℕ) → Run (Router × List Sent)
answer_error r m type = do
  let p = m.payload
  s ← send_icmp_error (read32 p 26) (read32 p 30) (slice p 0 6) (slice p 6 6) type 0 m.interface
  done (r, s ∷ [])

module _ (ifs : Interfaces) where
  -- An ICMP echo request to the address of the interface that it came in by.
  pub is_echo_request : Packet → Bool
  is_echo_request m = elim (parse_icmp m.payload) [
    | none ↦ false
    | some at ↦ m.payload at == 8 && read32 m.payload 30 == ifs.ip m.interface
  ]

  pub is_arp_request : Packet → Bool
  is_arp_request m = elim (parse_arp m.payload) [
    | none ↦ false
    | some at ↦
        read16 m.payload (at + 6) == swap16 1 && read32 m.payload (at + 24) == ifs.ip m.interface
  ]

  pub answer_arp : Router → Packet → Run (Router × List Sent)
  answer_arp r m =
      let p = m.payload in
      let eth_hdr = build_ethhdr (ifs.mac m.interface) (slice p 22 6) (swap16 0x0806) in
      done (r, send_arp (read32 p 28) (read32 p 38) eth_hdr m.interface (swap16 2) ∷ [])

  -- `m` has its final source address; the frame goes out, or waits for the address of the next hop.
  pub forward : Router → Packet → RtableEntry → Run (Router × List Sent)
  forward r m route = do
    entry ← get_mac r.arptable route.next_hop
    elim entry [
      | some e ↦
          done
            (r, send_packet route.interface (record m { payload = store m.payload 0 e.mac }) ∷ [])
      | none ↦ do
        dmac ← require uninitialised (hwaddr_aton broadcast_text)
        let eth_hdr = build_ethhdr (ifs.mac route.interface) dmac (swap16 0x0806)
        let request =
            send_arp route.next_hop (ifs.ip route.interface) eth_hdr route.interface (swap16 1)
        done (record r { queue = r.queue ++ m ∷ [] }, request ∷ [])
    ]

  -- The way of a packet whose header has passed the check.
  pub route_checked : Router → Packet → Run (Router × List Sent)
  route_checked r m = do
    let m' = record m { payload = updated m.payload }
    best_route ← get_best_route r.rtable (read32 m'.payload 30)
    elim best_route [
      | none ↦ answer_error r m' 3
      | some route ↦
          forward r (record m' { payload = store m'.payload 6 (ifs.mac route.interface) }) route
    ]

  -- The buffer of `m` stands at a multiple of 4, plus 4 for the length, so that the IP header
  -- behind the Ethernet header is at 2 modulo 4.
  pub route_packet : Router → Packet → Run (Router × List Sent)
  route_packet r m = if leb (m.payload 22) 1 then answer_error r m 11 else (do
    check ← ip_checksum 2 (header m.payload)
    if check == 0 then route_checked r m else done (r, []))

  pub handle : Router → Packet → Run (Router × List Sent)
  handle r m =
      if is_echo_request m
      then answer_echo r m
      else if is_arp_request m
      then answer_arp r m
      else if is_arp_reply m
      then learn_arp r m
      else route_packet r m

  -- `while (1)` over the packets that `get_packet` gives, until it fails.
  unfoldable pub main_loop : Router → List Packet → Run (Router × List Sent)
  main_loop r [] = done (r, [])
  main_loop r (m ∷ ms) = do
    (r', out) ← handle r m
    (r'', more) ← main_loop r' ms
    done (r'', out ++ more)

  -- `qsort` is the C library's, and the lines are those of the table file.
  pub main :
      (qsort : (RtableEntry → RtableEntry → ℤ) → List RtableEntry → List RtableEntry)
      → List RtableEntry
      → List Packet
      → Run (Router × List Sent)
  main qsort lines ms = do
    rtable ← parse_rtable qsort init_rtable lines
    main_loop (start rtable) ms
