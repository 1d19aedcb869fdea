-- ===== src/Router/Examples/Handling.antt =====
-- PCom1/router.c: the theorems on the packet handler at concrete packets.
use pcom_assignments.Prelude.{ℕ, ◌≤◌, ◌≡◌, ◌≢◌, ◌↔◌, refl, arith, List, [], ◌∷◌, some, length}
use pcom_assignments.Prelude.Words.{swap16, swap32}
use pcom_assignments.Prelude.Run.{done, fault, use_after_free, Returns, Returns-eq}
use pcom_assignments.Prelude.Bytes.{Memory, IsMemory, slice, read16}
use pcom_assignments.Router.GrowArray.{read}
use pcom_assignments.Router.ArpTable.{init_arptable, get_mac, get_mac_from}
use pcom_assignments.Router.ArpTable.Laws.{init_arptable-Holds}
use pcom_assignments.Router.RouteTable.{Rtable}
use pcom_assignments.Router.RouteTable.Insertion.{insertion_sort-IsQsort}
use pcom_assignments.Router.Checksum.{
  add_word, add_blocks, add_data, fold_carries, ip_checksum, header,
}
use pcom_assignments.Router.Frames.{Sent, Packet}
use pcom_assignments.Router.Frames.Valid.{IsIcmpFrame, arp_frame}
use pcom_assignments.Router.Handler.{Router, handle, start}
use pcom_assignments.Router.Handler.Guards.{IsEchoRequest, IsArpRequest, IsArpReply}
use pcom_assignments.Router.Handler.Answers.{handle_replies, handle_tells}
use pcom_assignments.Router.Handler.Learning.{told, reply_faults}
use pcom_assignments.Router.Handler.Forwarding.{
  IsPassing, Errors, passed_byte, handle_expired, handle_forwards,
}
use pcom_assignments.Router.Handler.Safety.{IsRouter, handle-IsRouter}
use pcom_assignments.Router.Handler.Runs.{start-IsRouter}
use pcom_assignments.Router.Examples.Data.{
  lines, lines_close, route, hop, neighbours, route_known, ifs, router, datagram, datagram_bytes,
  echo, arp_packet, arp_packet_bytes, reply, loaded-IsMemory,
}

pub datagram-IsPassing : (ttl h l : ℕ) → IsPassing ifs (datagram ttl h l)
unfolding swap16
datagram-IsPassing ttl h l = record {
  no_echo = λ v. omega (arith, v.is_icmp);
  no_request = λ v. omega (arith, v.is_arp);
  no_reply = λ v. omega (arith, v.is_arp);
}

abbrev pub good : Packet
good = datagram 64 0xb0 0x1f

pub good_valid : ip_checksum 2 (header good.payload) ≡ done 0
unfolding ip_checksum add_data add_blocks add_word fold_carries swap32 swap16
good_valid = refl

known : get_mac neighbours 0x0100_a8c0 ≡ done (some hop)
unfolding get_mac get_mac_from read
known = refl

pub good-IsMemory : IsMemory good.payload
good-IsMemory = loaded-IsMemory (datagram_bytes 64 0xb0 0x1f) (omega arith)

handle_forwards_example :
    (p : Memory) × (handle ifs (router neighbours []) good
      ≡ done (router neighbours [], record { interface = 1; frame = slice p 0 42 } ∷ []))
    × ((a : ℕ) → p a ≡ passed_byte good.payload hop.mac (ifs.mac 1) a)
    × ((ip_checksum 2 (header p) ≡ done 0) ↔ (read16 good.payload 24 ≢ 0xffff))
handle_forwards_example =
    handle_forwards ifs (router neighbours []) good (datagram-IsPassing 64 0xb0 0x1f) route hop
      (λ i. refl) good-IsMemory refl (omega arith) good_valid route_known known

handle_expired_example :
    Returns
      (Errors (router neighbours []) (datagram 1 0 0) 11)
      (handle ifs (router neighbours []) (datagram 1 0 0))
handle_expired_example =
    handle_expired ifs (router neighbours []) (datagram 1 0 0) (datagram-IsPassing 1 0 0)
      (omega arith)

echo-IsEchoRequest : IsEchoRequest ifs echo
unfolding swap16
echo-IsEchoRequest = record { is_ip = refl; is_icmp = refl; is_echo = refl; for_us = refl }

handle_replies_example :
    Returns
      (λ o.
        (s : Sent) × (o.0 ≡ router neighbours [])
        × (o.1 ≡ s ∷ [])
        × IsIcmpFrame 0x0200_000a 0x0100_000a
            (slice echo.payload 0 6)
            (slice echo.payload 6 6)
            0
            0
            0
            0x500
            0x200
            s)
      (handle ifs (router neighbours []) echo)
handle_replies_example = handle_replies ifs (router neighbours []) echo echo-IsEchoRequest

abbrev asking : Packet
asking = arp_packet 1 (10 ∷ 0 ∷ 0 ∷ 1 ∷ [])

asking-IsArpRequest : IsArpRequest ifs asking
unfolding swap16
asking-IsArpRequest = record { is_arp = refl; asks = refl; for_us = refl }

handle_tells_example :
    handle ifs (router neighbours []) asking
    ≡ done (
      router neighbours [],
      record {
        interface = 0;
        frame =
            arp_frame
              (0 ∷ 0 ∷ 0 ∷ 0 ∷ 1 ∷ 1 ∷ [])
              (ifs.mac 0)
              2
              (10 ∷ 0 ∷ 0 ∷ 1 ∷ [])
              (192 ∷ 168 ∷ 0 ∷ 1 ∷ []);
      }
          ∷ [],
    )
handle_tells_example =
    handle_tells ifs (router neighbours []) asking asking-IsArpRequest
      (loaded-IsMemory (arp_packet_bytes 1 (10 ∷ 0 ∷ 0 ∷ 1 ∷ [])) (omega arith))

pub reply-IsArpReply : IsArpReply reply
unfolding swap16
reply-IsArpReply = record { is_arp = refl; tells = refl }

reply_faults_example :
    handle ifs (router init_arptable (good ∷ good ∷ [])) reply ≡ fault use_after_free
reply_faults_example =
    reply_faults ifs (router init_arptable (good ∷ good ∷ [])) reply reply-IsArpReply []
      init_arptable-Holds good route route_known (told reply) good [] refl refl

good_short : IsArpReply good → length {A = Packet} [] ≤ 1
good_short v = omega arith

-- The router behind the parsing of a table file.
abbrev booted : (t : Rtable) × IsRouter (start t)
booted =
    let (t, _, is) =
      Returns-eq (start-IsRouter insertion_sort-IsQsort lines lines_close (λ e. cc)) in
    (t, is)

handle-IsRouter_example :
    Returns (λ (o : Router × List Sent). IsRouter o.0) (handle ifs (start booted.0) good)
handle-IsRouter_example =
    handle-IsRouter ifs (start booted.0) good (λ i. refl) booted.1 good-IsMemory good_short
