-- ===== src/PubSub/Protocol.antt =====
-- PCom2/protocol.h: the messages between server and subscribers, and the layout of their bytes on a
-- little-endian machine with a `size_t` of 8 bytes.
use pcom_assignments.Prelude.{ℕ, List, [], ◌∷◌, ◌++◌, Bool, drop, get_or, not, ◌==◌, if◌then◌else◌}
use pcom_assignments.Prelude.Bytes.{bytes32}
use pcom_assignments.Prelude.Texts.{Text, fit, cstr}

abbrev pub topic_len : ℕ
topic_len = 50

abbrev pub content_len : ℕ
content_len = 1500

abbrev pub exit_msg : ℕ
exit_msg = 0

abbrev pub conf_msg : ℕ
conf_msg = 1

abbrev pub pkt_msg : ℕ
pkt_msg = 2

abbrev pub id_msg : ℕ
id_msg = 3

abbrev pub sub_msg : ℕ
sub_msg = 4

abbrev pub unsub_msg : ℕ
unsub_msg = 5

abbrev pub err_msg : ℕ
err_msg = 6

-- `topic` and `content` are the bytes of the two arrays.
pub record UdpPacket : Type 0 where
  pub topic : List ℕ
  pub data_type : ℕ
  pub content : List ℕ

-- The size of a `udp_packet`.
abbrev pub udppacket_len : ℕ
udppacket_len = 1551

pub record Packet : Type 0 where
  pub udp_client_ip : ℕ
  pub udp_client_port : ℕ
  pub udp_msg : UdpPacket

-- 4 and 2 bytes, the packet of the UDP client, and 3 of padding.
abbrev pub packet_len : ℕ
packet_len = 1560

pub record SubsPacket : Type 0 where
  pub topic : List ℕ
  pub sf : Bool

abbrev pub subspacket_len : ℕ
subspacket_len = 51

pub record SizePacket : Type 0 where
  pub to_receive : ℕ
  pub topic_size : ℕ
  pub content_size : ℕ

-- A message is a byte for its type and a payload.
abbrev pub msg_len : ℕ
msg_len = 52

-- The bytes of a message whose payload begins with the given bytes and is zero behind them.
abbrev pub proto_msg : (msg_type : ℕ) → List ℕ → List ℕ
proto_msg msg_type payload = msg_type ∷ fit subspacket_len payload

-- The string that begins at the topic of a packet in memory: the topic, and if that has no NUL
-- character, the data type and the content behind it.
abbrev pub topic_string : UdpPacket → Text
topic_string p = cstr (p.topic ++ p.data_type ∷ p.content)

abbrev pub content_string : UdpPacket → Text
content_string p = cstr p.content

-- A `size_t` below 2 ^ 32.
abbrev pub size_bytes : ℕ → List ℕ
size_bytes n = bytes32 n ++ (0 ∷ 0 ∷ 0 ∷ 0 ∷ [])

abbrev pub size_packet_bytes : SizePacket → List ℕ
size_packet_bytes sz =
    size_bytes sz.to_receive ++ (size_bytes sz.topic_size ++ size_bytes sz.content_size)

-- A `bool` is a byte 0 or 1.
abbrev pub subs_packet_bytes : SubsPacket → List ℕ
subs_packet_bytes subs = subs.topic ++ (if subs.sf then 1 else 0) ∷ []

-- The type of a received message, which stands in a zeroed buffer.
abbrev pub msg_type : List ℕ → ℕ
msg_type msg = get_or msg 0 0

-- The string at the payload's start, and in a `subs_packet` the byte behind the topic.
abbrev pub payload_string : List ℕ → Text
payload_string msg = cstr (drop 1 (fit msg_len msg))

abbrev pub payload_sf : List ℕ → Bool
payload_sf msg = not (get_or msg 51 0 == 0)
