-- ===== src/PubSub/Subscriber/Rebuild.antt =====
-- PCom2/subscriber.cpp: sizes and packets are read back from their bytes.
use pcom_assignments.Prelude.{
  ℕ, ◌+◌, ◌-◌, ◌≤◌, ◌<◌, ◌≡◌, refl, arith, List, ◌∷◌, ◌++◌, false, le→not_ltb, length, drop,
  length-append,
}
use pcom_assignments.Prelude.Words.{byte, le16, le32}
use pcom_assignments.Prelude.Bytes.{bytes16, bytes32}
use pcom_assignments.Prelude.Run.{done}
use pcom_assignments.Prelude.Texts.{fit}
use pcom_assignments.PubSub.Protocol.{
  SizePacket, pkt_msg, msg_len, packet_len, proto_msg, size_packet_bytes,
}
use pcom_assignments.PubSub.Subscriber.{
  Streams, size_packet_of, rebuild_packet, print_packet, on_packet,
}
use pcom_assignments.PubSub.Subscriber.Arrays.{
  take-append, drop-append, get_or-append, take_all, fit-append, take-fit,
}

-- Words are read back.
read32_lem :
    (n : ℕ)
    → n < 0x1_0000_0000
    → le32 (byte 1 n) (byte 0x100 n) (byte 0x1_0000 n) (byte 0x100_0000 n) ≡ n
read32_lem n h = omega arith

read16_lem : (n : ℕ) → n < 0x1_0000 → le16 (byte 1 n) (byte 0x100 n) ≡ n
read16_lem n h = omega arith

add_zero : (n : ℕ) → n + 0 ≡ n
add_zero n = omega arith

-- So are the sizes of a size packet.
pub size_packet_of-proto_msg :
    (sz : SizePacket)
    → sz.to_receive < 0x1_0000_0000
    → sz.topic_size < 0x1_0000_0000
    → sz.content_size < 0x1_0000_0000
    → size_packet_of (drop 1 (fit msg_len (proto_msg pkt_msg (size_packet_bytes sz)))) ≡ sz
size_packet_of-proto_msg sz h1 h2 h3 =
    rw (read32_lem sz.to_receive h1, read32_lem sz.topic_size h2, read32_lem sz.content_size h3)
      (rw (add_zero sz.to_receive, add_zero sz.topic_size, add_zero sz.content_size) refl)

-- And so is a packet whose parts fit their arrays.
rebuild_packet_lem :
    (to_receive ip port data_type : ℕ) (topic content : List ℕ)
    → ip < 0x1_0000_0000
    → port < 0x1_0000
    → length topic ≤ 50
    → length content ≤ 1500
    → rebuild_packet
        (record {
          to_receive = to_receive;
          topic_size = length topic;
          content_size = length content;
        })
        (fit packet_len (bytes32 ip ++ (bytes16 port ++ (topic ++ data_type ∷ content))))
      ≡ done (record {
        udp_client_ip = ip;
        udp_client_port = port;
        udp_msg = record {
          topic = fit 50 topic;
          data_type = data_type;
          content = fit 1500 content;
        };
      })
unfolding rebuild_packet
rebuild_packet_lem to_receive ip port data_type topic content hip hport ht hc =
    rw
      (
        le→not_ltb (length topic) 50 ht,
        le→not_ltb (length content) 1500 hc,
        fit-append 1553 topic data_type content (omega arith),
        read32_lem ip hip,
        read16_lem port hport,
      )
      (rw
        (
          take-append topic (data_type ∷ fit (1553 - length topic) content),
          get_or-append topic (fit (1553 - length topic) content) data_type 0,
          drop-append topic (fit (1553 - length topic) content) data_type,
          take-fit (1553 - length topic) content (omega arith),
        )
        refl)

module _ (io : Streams) where
  -- A packet from its bytes, whose parts are given by themselves.
  pub on_packet_lem :
      (ip port data_type : ℕ) (topic content : List ℕ)
      → ip < 0x1_0000_0000
      → port < 0x1_0000
      → length topic ≤ 50
      → length content ≤ 1500
      → on_packet io
          (record {
            to_receive = 4 + 2 + length topic + 1 + length content;
            topic_size = length topic;
            content_size = length content;
          })
          (bytes32 ip ++ (bytes16 port ++ (topic ++ data_type ∷ content)))
        ≡ done (
          false,
          print_packet io (record {
            udp_client_ip = ip;
            udp_client_port = port;
            udp_msg = record {
              topic = fit 50 topic;
              data_type = data_type;
              content = fit 1500 content;
            };
          }),
        )
  unfolding on_packet
  on_packet_lem ip port data_type topic content hip hport ht hc =
      let bytes : List ℕ = bytes32 ip ++ (bytes16 port ++ (topic ++ data_type ∷ content)) in
      let size : length bytes ≡ 4 + 2 + length topic + 1 + length content =
        omega (arith, length-append topic (data_type ∷ content)) in
      rw
        (
          take_all (4 + 2 + length topic + 1 + length content) bytes (omega (arith, size)),
          le→not_ltb (length bytes) 1560 (omega (arith, size)),
          rebuild_packet_lem (4 + 2 + length topic + 1 + length content) ip port data_type topic
              content hip hport ht hc,
        )
        refl
