-- ===== src/Router/Sockets/Receiving.antt =====
-- PCom1/skel.c: which packet is received, and its bytes.
use pcom_assignments.Prelude.{
  ℕ, zero, suc, ◌+◌, ◌<◌, ◌≡◌, refl, ap, arith, List, [], ◌∷◌, ◌++◌, true, false, none, some,
  ==_refl, ne→not_==, length, take,
}
use pcom_assignments.Prelude.Bytes.{Memory, IsBytes, IsMemory, slice, store, slice_ext}
use pcom_assignments.Router.Frames.{Packet, send_packet}
use pcom_assignments.Router.Sockets.{
  Selected, max_len, num_interfaces, socket_receive_message, receive_first, get_packet,
}

-- What is written is there.
slice-store : (m : Memory) (at : ℕ) (bs : List ℕ) → slice (store m at bs) at (length bs) ≡ bs
slice-store m at [] = refl
slice-store m at (b ∷ bs) =
    rw
      (
        ==_refl at,
        slice_ext (store m at (b ∷ bs)) (store m (at + 1) bs) (at + 1) (length bs)
            λ a h. rw (ne→not_== a at (omega (arith, h))) refl,
        slice-store m (at + 1) bs,
      )
      refl

take-IsBytes : (n : ℕ) (bs : List ℕ) → IsBytes bs → IsBytes (take n bs)
take-IsBytes zero bs h = tt
take-IsBytes (suc n) [] h = tt
take-IsBytes (suc n) (b ∷ bs) h = (h.0, take-IsBytes n bs h.1)

store-IsMemory :
    (m : Memory) (at : ℕ) (bs : List ℕ) → IsMemory m → IsBytes bs → IsMemory (store m at bs)
store-IsMemory m at [] v h a = v a
store-IsMemory m at (b ∷ bs) v h a = ground (arith, h.0, store-IsMemory m (at + 1) bs v h.1 a)

-- None of the interfaces from `i` on is ready.
abbrev pub IsIdle : Selected → Type 0
IsIdle s = (i : ℕ) → i < num_interfaces → s.is_set i ≡ false

abbrev pub AreIdle : List Selected → Type 0
AreIdle [] = Unit {0}
AreIdle (s ∷ selects) = IsIdle s × AreIdle selects

-- The packet that an interface gives.
abbrev pub received_from : Selected → (i : ℕ) → Packet → Packet
received_from s i m = record (socket_receive_message (s.arrived i) m) { interface = i }

receive_first-least :
    (s : Selected) (m : Packet) (i : ℕ)
    → i < num_interfaces
    → ((j : ℕ) → j < i → s.is_set j ≡ false)
    → s.is_set i ≡ true
    → receive_first num_interfaces 0 s m ≡ some (received_from s i m)
unfolding receive_first
receive_first-least s m zero lt off on = rw on refl
receive_first-least s m (suc zero) lt off on = rw (off 0 (omega arith), on) refl
receive_first-least s m (suc (suc zero)) lt off on =
    rw (off 0 (omega arith), off 1 (omega arith), on) refl
receive_first-least s m (suc (suc (suc i))) lt off on = absurd (omega (arith, lt))

receive_first_idle :
    (s : Selected) (m : Packet) → IsIdle s → receive_first num_interfaces 0 s m ≡ none
unfolding receive_first
receive_first_idle s m idle =
    rw (idle 0 (omega arith), idle 1 (omega arith), idle 2 (omega arith)) refl

get_packet_least :
    (idle : List Selected) (s : Selected) (selects : List Selected) (m : Packet) (i : ℕ)
    → AreIdle idle
    → i < num_interfaces
    → ((j : ℕ) → j < i → s.is_set j ≡ false)
    → s.is_set i ≡ true
    → get_packet (idle ++ s ∷ selects) m ≡ some (received_from s i m, selects)
unfolding get_packet
get_packet_least [] s selects m i are_idle lt off on =
    rw (get_packet, receive_first-least s m i lt off on) refl
get_packet_least (t ∷ idle) s selects m i are_idle lt off on =
    rw (get_packet, receive_first_idle t m are_idle.0)
      (get_packet_least idle s selects m i are_idle.1 lt off on)

-- After any number of selects in which no interface is ready, `get_packet` takes the packet of the
-- first ready interface, and leaves those of the others. Its payload is bytes, and sent on by any
-- interface as it is, its frame is what has arrived, or the first 1600 bytes of that.
pub get_packet-send_packet :
    (idle : List Selected) (s : Selected) (selects : List Selected) (m : Packet) (i : ℕ)
    → AreIdle idle
    → i < num_interfaces
    → ((j : ℕ) → j < i → s.is_set j ≡ false)
    → s.is_set i ≡ true
    → IsMemory m.payload
    → IsBytes (s.arrived i)
    → (p : Packet) × (get_packet (idle ++ s ∷ selects) m ≡ some (p, selects))
      × (p.interface ≡ i)
      × IsMemory p.payload
      × ((out : ℕ)
          → send_packet out p ≡ record { interface = out; frame = take max_len (s.arrived i) })
unfolding socket_receive_message send_packet
get_packet-send_packet idle s selects m i are_idle lt off on bytes arrived = (
  received_from s i m,
  get_packet_least idle s selects m i are_idle lt off on,
  refl,
  store-IsMemory m.payload 0 (take max_len (s.arrived i)) bytes
      (take-IsBytes max_len (s.arrived i) arrived),
  (λ out.
      ap (λ (frame : List ℕ). record { interface = out; frame = frame })
        (slice-store m.payload 0 (take max_len (s.arrived i)))),
)
