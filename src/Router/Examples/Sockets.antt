-- ===== src/Router/Examples/Sockets.antt =====
-- PCom1/skel.c: the theorem on receiving at concrete sockets.
use pcom_assignments.Prelude.{ℕ, zero, suc, ◌<◌, ◌≡◌, refl, arith, [], ◌∷◌, false, some, ltb}
use pcom_assignments.Prelude.Bytes.{IsMemory}
use pcom_assignments.Router.Frames.{Packet, send_packet}
use pcom_assignments.Router.Sockets.{Selected, get_packet}
use pcom_assignments.Router.Sockets.Receiving.{get_packet-send_packet}
use pcom_assignments.Router.Examples.Handling.{good, good-IsMemory}

-- No interface is ready, and then all but the first are.
abbrev none_ready : Selected
none_ready = record { is_set = λ i. false; arrived = λ i. [] }

abbrev two_ready : Selected
two_ready = record { is_set = λ i. ltb 0 i; arrived = λ i. 8 ∷ 6 ∷ [] }

first_off : (j : ℕ) → j < 1 → ltb 0 j ≡ false
first_off zero lt = refl
first_off (suc j) lt = absurd (omega (arith, lt))

get_packet-send_packet_example :
    (p : Packet) × (get_packet (none_ready ∷ two_ready ∷ []) good ≡ some (p, []))
    × (p.interface ≡ 1)
    × IsMemory p.payload
    × ((out : ℕ) → send_packet out p ≡ record { interface = out; frame = 8 ∷ 6 ∷ [] })
get_packet-send_packet_example =
    get_packet-send_packet (none_ready ∷ []) two_ready [] good 1 ((λ i lt. refl), tt) (omega arith)
      first_off refl good-IsMemory (omega arith)
