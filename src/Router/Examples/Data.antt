-- ===== src/Router/Examples/Data.antt =====
-- PCom1/router.c: two interfaces, one route, and the packets of the examples.
use mathlib.Core.List.{Mem, mem-cons, not-mem-nil}
use mathlib.Core.Logic.Or
use native.Mathlib.Bridge.{le_prop}
use pcom_assignments.Prelude.{
  ◌^◌, ℕ, zero, suc, ◌≡◌, refl, ◌<◌, arith, List, [], ◌∷◌, ◌++◌, none, some, get_or, replicate,
}
use pcom_assignments.Prelude.Bytes.{Memory, IsBytes, IsMemory}
use pcom_assignments.Prelude.Run.{done}
use pcom_assignments.Router.GrowArray.{read}
use pcom_assignments.Router.ArpTable.{ArptableEntry, Arptable}
use pcom_assignments.Router.RouteTable.{
  RtableEntry, Bucket, Rtable, search_loop, search_bucket, best_route_below, get_best_route,
}
use pcom_assignments.Prelude.Words.{swap32}
use pcom_assignments.Router.Masks.{get_subnet_mask}
use pcom_assignments.Router.RouteTable.Lookup.{HasClosePrefixes}
use pcom_assignments.Router.Frames.{Packet}
use pcom_assignments.Router.Handler.{Interfaces, Router}

-- 192.168.0.0/24 by 192.168.0.1 on interface 1, and 10.0.0.0/8 on interface 0.
abbrev pub route : RtableEntry
route = record { prefix = 0xa8c0; next_hop = 0x0100_a8c0; mask = 0xff_ffff; interface = 1 }

abbrev pub inner : RtableEntry
inner = record { prefix = 0x0a; next_hop = 0x0200_000a; mask = 0xff; interface = 0 }

abbrev empty_bucket : Bucket
empty_bucket = record { entries = none ∷ []; size = 0; capacity = 1 }

abbrev full_bucket : Bucket
full_bucket = record { entries = some route ∷ none ∷ []; size = 1; capacity = 2 }

abbrev pub routes : Rtable
routes = replicate 24 empty_bucket ++ full_bucket ∷ replicate 8 empty_bucket

abbrev pub hop : ArptableEntry
hop = record { ip = 0x0100_a8c0; mac = 2 ∷ 0 ∷ 0 ∷ 0 ∷ 1 ∷ 1 ∷ [] }

abbrev pub neighbours : Arptable
neighbours = record { entries = some hop ∷ none ∷ []; size = 1; capacity = 2 }

-- Interface 0 is 10.0.0.1.
abbrev pub ifs : Interfaces
ifs = record {
  ip = λ i. elim i [ zero ↦ 0x0100_000a | suc n ↦ 0xfe00_a8c0 ];
  mac = λ i. 6 ∷ 0 ∷ 0 ∷ 0 ∷ 0 ∷ 1 ∷ [];
}

abbrev ethernet : List ℕ → List ℕ
ethernet type = 6 ∷ 0 ∷ 0 ∷ 0 ∷ 0 ∷ 1 ∷ 4 ∷ 0 ∷ 0 ∷ 0 ∷ 0 ∷ 9 ∷ type

-- A memory that begins with the given bytes.
abbrev pub loaded : List ℕ → Memory
loaded bytes a = get_or bytes a 0

pub loaded-IsMemory : (bytes : List ℕ) → IsBytes bytes → IsMemory (loaded bytes)
loaded-IsMemory [] h a = omega arith
loaded-IsMemory (b ∷ bytes) h zero = h.0
loaded-IsMemory (b ∷ bytes) h (suc a) = loaded-IsMemory bytes h.1 a

-- A packet of 10.0.0.2 for 192.168.0.7, with the given TTL and checksum field.
abbrev pub datagram_bytes : (ttl check_high check_low : ℕ) → List ℕ
datagram_bytes ttl check_high check_low = ethernet (
    8 ∷ 0 ∷ 0x45 ∷ 0 ∷ 0 ∷ 28 ∷ 0 ∷ 1 ∷ 0 ∷ 0 ∷ ttl ∷ 17 ∷ check_high ∷ check_low ∷ 10 ∷ 0 ∷ 0 ∷ 2
    ∷ 192 ∷ 168 ∷ 0 ∷ 7 ∷ [])

abbrev pub datagram : (ttl check_high check_low : ℕ) → Packet
datagram ttl check_high check_low = record {
  len = 42;
  payload = loaded (datagram_bytes ttl check_high check_low);
  interface = 0;
}

-- An echo request of 10.0.0.2 to 10.0.0.1.
abbrev pub echo_bytes : List ℕ
echo_bytes = ethernet (
    8 ∷ 0 ∷ 0x45 ∷ 0 ∷ 0 ∷ 28 ∷ 0 ∷ 1 ∷ 0 ∷ 0 ∷ 64 ∷ 1 ∷ 0x66 ∷ 0xde ∷ 10 ∷ 0 ∷ 0 ∷ 2 ∷ 10 ∷ 0 ∷ 0
    ∷ 1 ∷ 8 ∷ 0 ∷ 0xf7 ∷ 0xf8 ∷ 0 ∷ 5 ∷ 0 ∷ 2 ∷ [])

abbrev pub echo : Packet
echo = record { len = 42; payload = loaded echo_bytes; interface = 0 }

-- An ARP packet of 192.168.0.1 with the given operation and target address.
abbrev pub arp_packet_bytes : (op : ℕ) → List ℕ → List ℕ
arp_packet_bytes op target = ethernet (
    8 ∷ 6 ∷ 0 ∷ 1 ∷ 8 ∷ 0 ∷ 6 ∷ 4 ∷ 0 ∷ op ∷ 0 ∷ 0 ∷ 0 ∷ 0 ∷ 1 ∷ 1 ∷ 192 ∷ 168 ∷ 0 ∷ 1 ∷ 6 ∷ 0 ∷ 0
    ∷ 0 ∷ 0 ∷ 1 ∷ target)

abbrev pub arp_packet : (op : ℕ) → List ℕ → Packet
arp_packet op target = record {
  len = 42;
  payload = loaded (arp_packet_bytes op target);
  interface = 0;
}

abbrev pub reply : Packet
reply = arp_packet 2 (10 ∷ 0 ∷ 0 ∷ 1 ∷ [])

-- A router that knows the given neighbours and keeps the given packets.
abbrev pub router : Arptable → List Packet → Router
router arptable queue = record { rtable = routes; arptable = arptable; queue = queue }

pub route_known : get_best_route routes 0x0700_a8c0 ≡ done (some route)
unfolding get_best_route best_route_below search_bucket search_loop read get_subnet_mask swap32
route_known = refl

abbrev AreSmall : List RtableEntry → Type 0
AreSmall [] = Unit {0}
AreSmall (e ∷ es) = (e.prefix < 2 ^ 31) × AreSmall es

small_lem : (es : List RtableEntry) → AreSmall es → (x : RtableEntry) → Mem x es → x.prefix < 2 ^ 31
small_lem [] small x m = absurd (not-mem-nil m)
small_lem (e ∷ es) small x m =
    Or.elim le_prop (mem-cons.0 m) (λ same. rw same small.0) (small_lem es small.1 x)

abbrev pub lines : List RtableEntry
lines = inner ∷ route ∷ []

pub lines_close : HasClosePrefixes lines
lines_close x y mx my same =
    let bound = small_lem lines (omega arith) in
    (omega (arith, bound x mx), omega (arith, bound x mx, bound y my))
