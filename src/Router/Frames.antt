-- ===== src/Router/Frames.antt =====
-- PCom1/skel.c: the frames that the router builds and sends. Header fields are words as they stand
-- in the memory of a little-endian machine; a header is the list of its bytes.
pub mod Valid
use pcom_assignments.Prelude.{ℕ, ◌+◌, List, [], ◌∷◌, ◌++◌, Option, none, some, ◌==◌, if◌then◌else◌}
use pcom_assignments.Prelude.Words.{u8, u16, swap16}
use pcom_assignments.Prelude.Run.{Run, done, ◌>>=◌}
use pcom_assignments.Prelude.Bytes.{Memory, slice, read16, bytes16, bytes32}
use pcom_assignments.Router.Checksum.{ip_checksum, icmp_checksum}

-- What `send_packet` writes: the first `len` bytes of a payload, to the socket of an interface.
pub record Sent : Type 0 where
  pub interface : ℕ
  pub frame : List ℕ

pub record Packet : Type 0 where
  pub len : ℕ
  pub payload : Memory
  pub interface : ℕ

unfoldable pub send_packet : ℕ → Packet → Sent
send_packet interface m = record { interface = interface; frame = slice m.payload 0 m.len }

pub record EtherHeader : Type 0 where
  pub ether_dhost : List ℕ
  pub ether_shost : List ℕ
  pub ether_type : ℕ

pub build_ethhdr : (sha dha : List ℕ) → ℕ → EtherHeader
build_ethhdr sha dha type = record { ether_dhost = dha; ether_shost = sha; ether_type = type }

pub ether_bytes : EtherHeader → List ℕ
ether_bytes h = h.ether_dhost ++ (h.ether_shost ++ bytes16 h.ether_type)

-- Version 4, five words of header, and the fields that both senders of ICMP packets set.
pub ip_bytes : (check saddr daddr : ℕ) → List ℕ
ip_bytes check saddr daddr =
    0x45 ∷ 0 ∷ bytes16 (swap16 28)
    ++ (bytes16 (swap16 1) ++ (0 ∷ 0 ∷ 64 ∷ 1 ∷ bytes16 check ++ (bytes32 saddr ++ bytes32 daddr)))

pub icmp_bytes : (type code checksum id seq : ℕ) → List ℕ
icmp_bytes type code checksum id seq =
    u8 type ∷ u8 code ∷ bytes16 checksum ++ (bytes16 (u16 id) ++ bytes16 (u16 seq))

-- The two headers stand at addresses that are multiples of 4.
pub send_icmp : (daddr saddr : ℕ) → (sha dha : List ℕ) → (type code interface id seq : ℕ) → Run Sent
send_icmp daddr saddr sha dha type code interface id seq = do
  let eth_hdr = build_ethhdr sha dha (swap16 0x0800)
  ip_check ← ip_checksum 0 (ip_bytes 0 saddr daddr)
  icmp_check ← icmp_checksum (icmp_bytes type code 0 id seq)
  done (record {
    interface = interface;
    frame =
        ether_bytes eth_hdr
        ++ (ip_bytes ip_check saddr daddr ++ icmp_bytes type code icmp_check id seq);
  })

-- The fields of an error message that no initialiser names are zero.
pub send_icmp_error : (daddr saddr : ℕ) → (sha dha : List ℕ) → (type code interface : ℕ) → Run Sent
send_icmp_error daddr saddr sha dha type code interface = do
  let eth_hdr = build_ethhdr sha dha (swap16 0x0800)
  ip_check ← ip_checksum 0 (ip_bytes 0 saddr daddr)
  icmp_check ← icmp_checksum (icmp_bytes type code 0 0 0)
  done (record {
    interface = interface;
    frame =
        ether_bytes eth_hdr
        ++ (ip_bytes ip_check saddr daddr ++ icmp_bytes type code icmp_check 0 0);
  })

pub arp_bytes : (op : ℕ) → (sha : List ℕ) → (spa : ℕ) → (tha : List ℕ) → (tpa : ℕ) → List ℕ
arp_bytes op sha spa tha tpa =
    bytes16 (swap16 1)
    ++ (bytes16 (swap16 2048)
        ++ (6 ∷ 4 ∷ bytes16 op ++ (sha ++ (bytes32 spa ++ (tha ++ bytes32 tpa)))))

pub send_arp : (daddr saddr : ℕ) → EtherHeader → (interface arp_op : ℕ) → Sent
send_arp daddr saddr eth_hdr interface arp_op = record {
  interface = interface;
  frame =
      ether_bytes eth_hdr ++ arp_bytes arp_op eth_hdr.ether_shost saddr eth_hdr.ether_dhost daddr;
}

-- The offset of the ARP header in the payload, or NULL.
unfoldable pub parse_arp : Memory → Option ℕ
parse_arp m = if swap16 (read16 m 12) == 0x0806 then some 14 else none

-- The offset of the ICMP header in the payload, or NULL.
unfoldable pub parse_icmp : Memory → Option ℕ
parse_icmp m = if swap16 (read16 m 12) == 0x0800 then if m 23 == 1 then some 34 else none else none
