-- ===== src/Router/Handler/Guards.antt =====
-- PCom1/router.c: which packets the handler answers itself, by the fields of their headers.
use pcom_assignments.Prelude.{◌≡◌, refl, sym, ◌∙◌, ◌↔◌, arith, Bool, true, false}
use pcom_assignments.Prelude.Words.{swap16}
use pcom_assignments.Prelude.Bytes.{read16, read32}
use pcom_assignments.Router.Frames.{Packet, parse_arp, parse_icmp}
use pcom_assignments.Router.Handler.{
  Interfaces, Router, is_echo_request, is_arp_request, is_arp_reply, answer_echo, answer_arp,
  learn_arp, route_packet, handle,
}

pub record IsEchoRequest (ifs : Interfaces) (m : Packet) : Type 0 where
  pub is_ip : swap16 (read16 m.payload 12) ≡ 0x0800
  pub is_icmp : m.payload 23 ≡ 1
  pub is_echo : m.payload 34 ≡ 8
  pub for_us : read32 m.payload 30 ≡ ifs.ip m.interface

pub record IsArpRequest (ifs : Interfaces) (m : Packet) : Type 0 where
  pub is_arp : swap16 (read16 m.payload 12) ≡ 0x0806
  pub asks : read16 m.payload 20 ≡ swap16 1
  pub for_us : read32 m.payload 38 ≡ ifs.ip m.interface

pub record IsArpReply (m : Packet) : Type 0 where
  pub is_arp : swap16 (read16 m.payload 12) ≡ 0x0806
  pub tells : read16 m.payload 20 ≡ swap16 2

pub IsEchoRequest-iff :
    (ifs : Interfaces) (m : Packet) → (is_echo_request ifs m ≡ true) ↔ IsEchoRequest ifs m
unfolding is_echo_request parse_icmp
IsEchoRequest-iff ifs m = ((λ e. ground (arith, e)), (λ v. ground arith))

pub IsArpRequest-iff :
    (ifs : Interfaces) (m : Packet) → (is_arp_request ifs m ≡ true) ↔ IsArpRequest ifs m
unfolding is_arp_request parse_arp
IsArpRequest-iff ifs m = ((λ e. ground (arith, e)), (λ v. ground arith))

pub IsArpReply-iff : (m : Packet) → (is_arp_reply m ≡ true) ↔ IsArpReply m
unfolding is_arp_reply parse_arp
IsArpReply-iff m = ((λ e. ground (arith, e)), (λ v. ground arith))

not_true : (b : Bool) → ((b ≡ true) → ⊥) → b ≡ false
not_true true no_way = absurd (no_way refl)
not_true false no_way = refl

-- The three kinds of packets exclude one another, so the order of the tests does not matter.
module _ (ifs : Interfaces) (r : Router) (m : Packet) where
  pub handle-echo : IsEchoRequest ifs m → handle ifs r m ≡ answer_echo r m
  unfolding handle
  handle-echo v = rw ((IsEchoRequest-iff ifs m).1 v)

  pub handle-arp_request : IsArpRequest ifs m → handle ifs r m ≡ answer_arp ifs r m
  unfolding handle
  handle-arp_request v = rw (no_echo, (IsArpRequest-iff ifs m).1 v)
    where
      no_echo : is_echo_request ifs m ≡ false
      no_echo = not_true _ (λ e. omega (arith, v.is_arp, ((IsEchoRequest-iff ifs m).0 e).is_ip))

  pub handle-arp_reply : IsArpReply m → handle ifs r m ≡ learn_arp r m
  unfolding handle
  handle-arp_reply v = rw (no_echo, no_request, (IsArpReply-iff m).1 v)
    where
      no_echo : is_echo_request ifs m ≡ false
      no_echo = not_true _ (λ e. omega (arith, v.is_arp, ((IsEchoRequest-iff ifs m).0 e).is_ip))

      no_request : is_arp_request ifs m ≡ false
      no_request = not_true _ (λ e. two_ops (sym v.tells ∙ ((IsArpRequest-iff ifs m).0 e).asks))
        where
          two_ops : swap16 2 ≡ swap16 1 → ⊥
          two_ops e = unfold swap16 in omega arith

  -- Everything else takes the way of an IP packet, ARP packets for others included.
  pub handle-other :
      ¬ IsEchoRequest ifs m
      → ¬ IsArpRequest ifs m
      → ¬ IsArpReply m
      → handle ifs r m ≡ route_packet ifs r m
  unfolding handle
  handle-other not_echo not_request not_reply = rw (
    not_true _ (λ e. not_echo ((IsEchoRequest-iff ifs m).0 e)),
    not_true _ (λ e. not_request ((IsArpRequest-iff ifs m).0 e)),
    not_true _ (λ e. not_reply ((IsArpReply-iff m).0 e)),
  )
