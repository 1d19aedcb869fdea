-- ===== src/Router/Frames/Valid.antt =====
-- PCom1/skel.c: the headers that the senders build pass the receiver's checks.
use pcom_assignments.Prelude.{
  ℕ, ◌+◌, ◌-◌, ◌/◌, ◌%◌, ◌<◌, ◌≡◌, refl, ap, ◌∙◌, arith, List, [], ◌∷◌, ◌++◌, length,
}
use pcom_assignments.Prelude.Words.{u8, u16, le16, swap16, swap16_lt}
use pcom_assignments.Prelude.Run.{done, Returns, returns, Returns->>=}
use pcom_assignments.Prelude.Bytes.{IsBytes, bytes16, bytes32}
use pcom_assignments.Router.Checksum.{ip_checksum, icmp_checksum, icmp_sum}
use pcom_assignments.Router.Checksum.Sum.{word_sum, IsFolded, ip_checksum-IsFolded}
use pcom_assignments.Router.Checksum.Update.{checksum_zero_iff}
use pcom_assignments.Router.Frames.{
  Sent, build_ethhdr, ether_bytes, ip_bytes, icmp_bytes, arp_bytes, send_icmp, send_icmp_error,
  send_arp,
}

-- An ICMP frame between the given hosts, with the protocol's fields and two checksums that a
-- receiver finds right.
pub record IsIcmpFrame (daddr saddr : ℕ) (sha dha : List ℕ) (type code interface id seq : ℕ)
    (s : Sent) : Type 0 where
  pub via : s.interface ≡ interface
  pub ip_check : ℕ
  pub icmp_check : ℕ
  pub layout :
      s.frame
      ≡ ether_bytes (build_ethhdr sha dha (swap16 0x0800))
        ++ (ip_bytes ip_check saddr daddr ++ icmp_bytes type code icmp_check id seq)
  pub ip_valid : ip_checksum 0 (ip_bytes ip_check saddr daddr) ≡ done 0
  pub icmp_valid : icmp_checksum (icmp_bytes type code icmp_check id seq) ≡ done 0

ip_bytes-IsBytes : (check saddr daddr : ℕ) → IsBytes (ip_bytes check saddr daddr)
unfolding ip_bytes
ip_bytes-IsBytes check saddr daddr = omega arith

short : (saddr daddr : ℕ) → length (ip_bytes 0 saddr daddr) < 0x1000_0000
unfolding ip_bytes
short saddr daddr = omega arith

check_word :
    (saddr daddr r : ℕ)
    → word_sum (ip_bytes r saddr daddr) ≡ word_sum (ip_bytes 0 saddr daddr) + swap16 r
unfolding ip_bytes swap16
check_word saddr daddr r = omega arith

-- Filling in the checksum makes the sum of the words zero in one's complement.
ip_valid :
    (saddr daddr r : ℕ)
    → r < 0x1_0000
    → IsFolded (word_sum (ip_bytes 0 saddr daddr)) (0xffff - swap16 r)
    → ip_checksum 0 (ip_bytes r saddr daddr) ≡ done 0
ip_valid saddr daddr r small v =
    (checksum_zero_iff 0 (ip_bytes r saddr daddr) (omega arith) (ip_bytes-IsBytes r saddr daddr)
        short).1
      (omega (arith, check_word saddr daddr r, v.congruent, swap16_lt r))
  where
    short : length (ip_bytes r saddr daddr) < 0x1000_0000
    short = unfold ip_bytes in omega arith

abbrev complement16 : ℕ → ℕ
complement16 sum = u16 (
    0xffff_ffff_ffff_ffff
    - (sum / 0x1_0000 + sum % 0x1_0000 + (sum / 0x1_0000 + sum % 0x1_0000) / 0x1_0000))

complement16_cancel : (sum : ℕ) → sum < 0x10_0000 → complement16 (sum + complement16 sum) ≡ 0
complement16_cancel sum small = omega arith

-- The checksum is that of the sum of the four words of the header.
icmp_words :
    (type code check id seq : ℕ)
    → check < 0x1_0000
    → icmp_checksum (icmp_bytes type code check id seq)
      ≡ done (complement16 (le16 (u8 type) (u8 code) + u16 id + u16 seq + check))
unfolding icmp_checksum icmp_sum icmp_bytes
icmp_words type code check id seq small = ap (λ (n : ℕ). done (complement16 n)) (omega arith)

icmp_lem :
    (type code id seq : ℕ)
    → Returns
        (λ r. icmp_checksum (icmp_bytes type code r id seq) ≡ done 0)
        (icmp_checksum (icmp_bytes type code 0 id seq))
icmp_lem type code id seq = rw (icmp_words type code 0 id seq (omega arith)) (
    let sum = le16 (u8 type) (u8 code) + u16 id + u16 seq + 0 in
    returns (
      icmp_words type code (complement16 sum) id seq (omega arith)
      ∙ ap done (sums_cancel (le16 (u8 type) (u8 code) + u16 id + u16 seq) (omega arith))))
  where
    sums_cancel : (sum : ℕ) → sum < 0x10_0000 → complement16 (sum + complement16 (sum + 0)) ≡ 0
    sums_cancel sum small = omega arith

-- For all arguments `send_icmp` returns a frame with the addresses and fields that it is given,
-- whose IP header and ICMP header both carry the checksum that makes them valid.
pub send_icmp-IsIcmpFrame :
    (daddr saddr : ℕ) (sha dha : List ℕ) (type code interface id seq : ℕ)
    → Returns
        (IsIcmpFrame daddr saddr sha dha type code interface id seq)
        (send_icmp daddr saddr sha dha type code interface id seq)
unfolding send_icmp
send_icmp-IsIcmpFrame daddr saddr sha dha type code interface id seq =
    Returns->>=
      (ip_checksum-IsFolded 0 (ip_bytes 0 saddr daddr) (omega arith)
        (ip_bytes-IsBytes 0 saddr daddr) (short saddr daddr))
      λ ip_check v. Returns->>= (icmp_lem type code id seq) λ icmp_check w. returns (record {
        via = refl;
        ip_check = ip_check;
        icmp_check = icmp_check;
        layout = refl;
        ip_valid = ip_valid saddr daddr ip_check v.0 v.1;
        icmp_valid = w;
      })

-- For all arguments `send_icmp_error` returns a frame with the addresses, type and code that it is
-- given and zero for the identifier and the sequence number, whose two headers both carry the
-- checksum that makes them valid.
pub send_icmp_error-IsIcmpFrame :
    (daddr saddr : ℕ) (sha dha : List ℕ) (type code interface : ℕ)
    → Returns
        (IsIcmpFrame daddr saddr sha dha type code interface 0 0)
        (send_icmp_error daddr saddr sha dha type code interface)
unfolding send_icmp_error
send_icmp_error-IsIcmpFrame daddr saddr sha dha type code interface =
    Returns->>=
      (ip_checksum-IsFolded 0 (ip_bytes 0 saddr daddr) (omega arith)
        (ip_bytes-IsBytes 0 saddr daddr) (short saddr daddr))
      λ ip_check v. Returns->>= (icmp_lem type code 0 0) λ icmp_check w. returns (record {
        via = refl;
        ip_check = ip_check;
        icmp_check = icmp_check;
        layout = refl;
        ip_valid = ip_valid saddr daddr ip_check v.0 v.1;
        icmp_valid = w;
      })

-- An ARP frame, field by field: Ethernet header, the constants of IPv4 over Ethernet, the
-- operation, the sender and the target.
abbrev pub arp_frame : (dmac smac : List ℕ) (op : ℕ) (spa tpa : List ℕ) → List ℕ
arp_frame dmac smac op spa tpa =
    (dmac ++ (smac ++ 0x08 ∷ 0x06 ∷ []))
    ++ (0 ∷ 1 ∷ 0x08 ∷ 0 ∷ 6 ∷ 4 ∷ 0 ∷ op ∷ smac ++ (spa ++ (dmac ++ tpa)))

op_bytes : (op : ℕ) → op < 256 → bytes16 (swap16 op) ≡ 0 ∷ op ∷ []
unfolding swap16
op_bytes op small = ground arith

pub send_arp-arp_frame :
    (daddr saddr : ℕ) (sha dha : List ℕ) (interface op : ℕ)
    → op < 256
    → send_arp daddr saddr (build_ethhdr sha dha (swap16 0x0806)) interface (swap16 op) ≡ record {
      interface = interface;
      frame = arp_frame dha sha op (bytes32 saddr) (bytes32 daddr);
    }
unfolding send_arp build_ethhdr ether_bytes arp_bytes swap16
send_arp-arp_frame daddr saddr sha dha interface op small =
    ap
      (λ (w : List ℕ). record {
        interface = interface;
        frame =
            (dha ++ (sha ++ 0x08 ∷ 0x06 ∷ []))
            ++ (0 ∷ 1 ∷ 0x08 ∷ 0 ∷ 6 ∷ 4 ∷ w ++ (sha ++ (bytes32 saddr ++ (dha ++ bytes32 daddr))));
      })
      (op_bytes op small)
