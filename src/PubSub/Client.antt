-- ===== src/PubSub/Client.antt =====
-- PCom2/server.cpp: the class `Client`. A method gives back the object that it changed and what it
-- sends.
use pcom_assignments.Prelude.{
  ℕ, ◌+◌, List, [], ◌∷◌, ◌++◌, Bool, true, false, Option, none, some, ◌==◌, ltb, if◌then◌else◌,
  length, take,
}
use pcom_assignments.Prelude.Bytes.{bytes16, bytes32}
use pcom_assignments.Prelude.Run.{Run, done, fault, uninitialised, ◌>>=◌}
use pcom_assignments.Prelude.Texts.{Text, eq_text, insert_or_assign, erase}
use pcom_assignments.PubSub.Protocol.{
  UdpPacket, Packet, SizePacket, topic_len, content_len, pkt_msg, proto_msg, topic_string,
  content_string, size_packet_bytes,
}

-- What a `send` writes to a socket.
pub record Sent : Type 0 where
  pub fd : ℕ
  pub bytes : List ℕ

-- `sf_queue` has its front first.
pub record Client : Type 0 where
  pub id : Text
  pub connected : Bool
  pub fd : ℕ
  pub topics : Text → Option Bool
  pub sf_queue : List Packet

unfoldable pub new_client : (fd : ℕ) → Text → Client
new_client fd id = record {
  id = id;
  connected = true;
  fd = fd;
  topics = λ topic. none;
  sf_queue = [];
}

unfoldable pub disconnect : Client → Client
disconnect cl = record cl { connected = false }

unfoldable pub subscribe : Client → Text → Bool → Client
subscribe cl topic sf = record cl { topics = insert_or_assign eq_text topic sf cl.topics }

unfoldable pub unsubscribe : Client → Text → Client
unsubscribe cl topic = record cl { topics = erase eq_text topic cl.topics }

-- Whether a search has not come to the end.
abbrev pub is_found : Option Bool → Bool
is_found none = false
is_found (some sf) = true

unfoldable pub client_has_topic : Client → Text → Bool
client_has_topic cl topic = is_found (cl.topics topic)

-- `topics[topic]`, which makes an entry if there is none.
unfoldable pub topic_has_sf : Client → Text → Bool × Client
topic_has_sf cl topic = elim (cl.topics topic) [
  | some sf ↦ (sf, cl)
  | none ↦ (false, record cl { topics = insert_or_assign eq_text topic false cl.topics })
]

unfoldable pub store_packet : Client → Packet → Client
store_packet cl pkt = record cl { sf_queue = cl.sf_queue ++ pkt ∷ [] }

-- `strlen(s) < size ? strlen(s) + 1 : size`
abbrev pub string_size : (size : ℕ) → Text → ℕ
string_size size s = if ltb (length s) size then length s + 1 else size

-- The content size by the data type; other types leave the variable unset.
unfoldable pub content_size_of : UdpPacket → Option ℕ
content_size_of p =
    if p.data_type == 0
    then some 5
    else if p.data_type == 1
    then some 2
    else if p.data_type == 2
    then some 6
    else if p.data_type == 3
    then some (string_size content_len (content_string p))
    else none

-- The packet without padding, with its sizes.
unfoldable pub packet_bytes : Packet → (topic_size content_size : ℕ) → List ℕ
packet_bytes pkt topic_size content_size =
    bytes32 pkt.udp_client_ip
    ++ (bytes16 pkt.udp_client_port
        ++ (take topic_size pkt.udp_msg.topic
            ++ pkt.udp_msg.data_type ∷ take content_size pkt.udp_msg.content))

unfoldable pub sizes : Packet → Run SizePacket
sizes pkt =
    let topic_size = string_size topic_len (topic_string pkt.udp_msg) in
    elim (content_size_of pkt.udp_msg) [
      | none ↦ fault uninitialised
      | some content_size ↦ done (record {
        to_receive = 4 + 2 + topic_size + 1 + content_size;
        topic_size = topic_size;
        content_size = content_size;
      })
    ]

unfoldable pub send_packet : Client → Packet → Run (List Sent)
unfolding packet_bytes
send_packet cl pkt = do
  sz ← sizes pkt
  done (
      record { fd = cl.fd; bytes = proto_msg pkt_msg (size_packet_bytes sz) }
      ∷ record { fd = cl.fd; bytes = packet_bytes pkt sz.topic_size sz.content_size }
      ∷ [])

-- The loop that sends what is queued.
unfoldable pub send_queued : Client → List Packet → Run (List Sent)
send_queued cl [] = done []
send_queued cl (pkt ∷ queue) = do
  out ← send_packet cl pkt
  more ← send_queued cl queue
  done (out ++ more)

unfoldable pub reconnect : Client → (fd : ℕ) → Run (Client × List Sent)
reconnect cl fd = do
  let cl' = record cl { fd = fd; connected = true }
  out ← send_queued cl' cl'.sf_queue
  done (record cl' { sf_queue = [] }, out)
