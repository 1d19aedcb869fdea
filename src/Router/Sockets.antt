-- ===== src/Router/Sockets.antt =====
-- PCom1/skel.c: the receiving of a packet. What select and read give is an input.
pub mod Receiving
use pcom_assignments.Prelude.{
  ℕ, zero, suc, ◌+◌, List, [], ◌∷◌, Bool, Option, none, some, if◌then◌else◌, length, take,
}
use pcom_assignments.Prelude.Bytes.{store}
use pcom_assignments.Router.Frames.{Packet}

abbrev pub max_len : ℕ
max_len = 1600

abbrev pub num_interfaces : ℕ
num_interfaces = 3

-- The sockets that a `select` leaves in the set, by the numbers of their interfaces, and what a
-- read from each of them would give.
pub record Selected : Type 0 where
  pub is_set : ℕ → Bool
  pub arrived : ℕ → List ℕ

-- Behind the bytes that are read the payload is that of the packet before.
unfoldable pub socket_receive_message : List ℕ → Packet → Packet
socket_receive_message bytes m =
    let received = take max_len bytes in
    record m { len = length received; payload = store m.payload 0 received }

-- The loop over the interfaces from `i` on.
unfoldable pub receive_first : (left i : ℕ) → Selected → Packet → Option Packet
receive_first zero i s m = none
receive_first (suc left) i s m =
    let rest = receive_first left (i + 1) s m in
    if s.is_set i
    then some (record (socket_receive_message (s.arrived i) m) { interface = i })
    else rest

-- The loop around `select`, with what is to come behind the packet; `none` is that no `select`
-- returns any more.
unfoldable pub get_packet : List Selected → Packet → Option (Packet × List Selected)
get_packet [] m = none
get_packet (s ∷ selects) m = elim (receive_first num_interfaces 0 s m) [
  | none ↦ get_packet selects m
  | some p ↦ some (p, selects)
]
