-- ===== src/PubSub/Subscriber/Wire.antt =====
-- PCom2/subscriber.cpp: a packet that the server sends is shown as the server has it.
use pcom_assignments.Prelude.{
  ℕ, suc, ◌+◌, ◌≤◌, ◌<◌, ◌≡◌, refl, ap, ◌∙◌, arith, List, [], ◌∷◌, Bool, true, false, none, some,
  ◌==◌, if◌then◌else◌, length, take,
}
use pcom_assignments.Prelude.Run.{done, Returns, returns}
use pcom_assignments.Prelude.Texts.{Text, fit, length-fit, cstr}
use pcom_assignments.PubSub.Protocol.{
  UdpPacket, Packet, pkt_msg, proto_msg, size_packet_bytes, topic_string,
}
use pcom_assignments.PubSub.Server.Delivery.{size_message, packet_message, send_packet-messages}
use pcom_assignments.PubSub.Client.{
  Client, Sent, send_packet, packet_bytes, content_size_of, string_size,
}
use pcom_assignments.PubSub.Subscriber.{Streams, Printed, print_packet, on_packet, on_message}
use pcom_assignments.PubSub.Subscriber.Arrays.{length-take_le, cstr_le, cstr-append, cstr-take}
use pcom_assignments.PubSub.Subscriber.Contents.{print_content_lem}
use pcom_assignments.PubSub.Subscriber.Rebuild.{size_packet_of-proto_msg, on_packet_lem}

-- The fields of a packet have their widths, and its topic ends in its array.
pub record IsPacket (pkt : Packet) : Type 0 where
  pub ip : pkt.udp_client_ip < 0x1_0000_0000
  pub port : pkt.udp_client_port < 0x1_0000
  pub topic_length : length pkt.udp_msg.topic ≡ 50
  pub topic_ends : length (cstr pkt.udp_msg.topic) < 50
  pub content_length : length pkt.udp_msg.content ≡ 1500

string_size_le : (m : ℕ) (s : Text) → length s ≤ m → string_size m s ≤ m
string_size_le m s h = ground arith

content_size_le :
    (p : UdpPacket) (n : ℕ) → content_size_of p ≡ some n → length p.content ≡ 1500 → n ≤ 1500
unfolding content_size_of
content_size_le p n at size =
    by_type (p.data_type == 0) (p.data_type == 1) (p.data_type == 2) (p.data_type == 3) at
  where
    by_type :
        (is0 is1 is2 is3 : Bool)
        → (if is0
            then some 5
            else if is1
            then some 2
            else if is2
            then some 6
            else if is3
            then some (string_size 1500 (cstr p.content))
            else none)
          ≡ some n
        → n ≤ 1500
    by_type true is1 is2 is3 e = ground (arith, e)
    by_type false true is2 is3 e = ground (arith, e)
    by_type false false true is3 e = ground (arith, e)
    by_type false false false true e =
        let whole : string_size 1500 (cstr p.content) ≡ n = cc in
        omega (
          arith,
          whole,
          string_size_le 1500 (cstr p.content) (omega (arith, size, cstr_le p.content)),
        )
    by_type false false false false e = absurd cc

-- The string of a topic that ends in its array.
topic_string_lem :
    (topic : List ℕ) (data_type : ℕ) (content : List ℕ)
    → length topic ≡ 50
    → length (cstr topic) < 50
    → topic_string (record { topic = topic; data_type = data_type; content = content }) ≡ cstr topic
topic_string_lem topic data_type content size ends =
    cstr-append topic (data_type ∷ content) (omega (arith, size, ends))

-- It is still there in the topic that is sent.
sent_topic_lem :
    (topic : List ℕ) (data_type : ℕ) (content : List ℕ)
    → length topic ≡ 50
    → length (cstr topic) < 50
    → topic_string (record {
      topic = fit 50 (take (suc (length (cstr topic))) topic);
      data_type = data_type;
      content = content;
    })
      ≡ cstr topic
sent_topic_lem topic data_type content size ends =
    let e = cstr-take 50 topic (omega (arith, size, ends)) ends in
    topic_string_lem (fit 50 (take (suc (length (cstr topic))) topic)) data_type content
      (length-fit 50 (take (suc (length (cstr topic))) topic)) (rw e ends)
    ∙ e

module _ (io : Streams) (pkt : Packet) (n : ℕ) (v : IsPacket pkt)
    (at : content_size_of pkt.udp_msg ≡ some n) where
  sent_lem :
      (topic_size : ℕ)
      → topic_size ≤ 50
      → on_packet io
          (record {
            to_receive = 4 + 2 + topic_size + 1 + n;
            topic_size = topic_size;
            content_size = n;
          })
          (packet_bytes pkt topic_size n)
        ≡ done (
          false,
          print_packet io (record {
            udp_client_ip = pkt.udp_client_ip;
            udp_client_port = pkt.udp_client_port;
            udp_msg = record {
              topic = fit 50 (take topic_size pkt.udp_msg.topic);
              data_type = pkt.udp_msg.data_type;
              content = fit 1500 (take n pkt.udp_msg.content);
            };
          }),
        )
  unfolding packet_bytes
  sent_lem topic_size h =
      let T_length : length (take topic_size pkt.udp_msg.topic) ≡ topic_size =
        length-take_le topic_size pkt.udp_msg.topic (omega (arith, v.topic_length)) in
      let C_length : length (take n pkt.udp_msg.content) ≡ n =
        length-take_le n pkt.udp_msg.content
          (omega (arith, v.content_length, content_size_le pkt.udp_msg n at v.content_length)) in
      let e =
        on_packet_lem io pkt.udp_client_ip pkt.udp_client_port pkt.udp_msg.data_type
          (take topic_size pkt.udp_msg.topic) (take n pkt.udp_msg.content) v.ip v.port
          (omega (arith, T_length))
          (omega (arith, C_length, content_size_le pkt.udp_msg n at v.content_length)) in
      rw (T_length, C_length) at e

  -- What is shown of the packet that is sent.
  print_sent_lem :
      print_packet io (record {
        udp_client_ip = pkt.udp_client_ip;
        udp_client_port = pkt.udp_client_port;
        udp_msg = record {
          topic = fit 50 (take (suc (length (cstr pkt.udp_msg.topic))) pkt.udp_msg.topic);
          data_type = pkt.udp_msg.data_type;
          content = fit 1500 (take n pkt.udp_msg.content);
        };
      })
      ≡ print_packet io pkt
  unfolding print_packet
  print_sent_lem =
      rw
        (
          sent_topic_lem pkt.udp_msg.topic pkt.udp_msg.data_type
              (fit 1500 (take n pkt.udp_msg.content)) v.topic_length v.topic_ends,
          topic_string_lem pkt.udp_msg.topic pkt.udp_msg.data_type pkt.udp_msg.content
              v.topic_length v.topic_ends,
          print_content_lem io
              (fit 50 (take (suc (length (cstr pkt.udp_msg.topic))) pkt.udp_msg.topic))
              (fit 1500 (take n pkt.udp_msg.content)) pkt.udp_msg n at v.content_length refl,
        )
        refl

  shown_lem :
      (topic_size : ℕ)
      → topic_size ≡ suc (length (cstr pkt.udp_msg.topic))
      → on_message io
          (proto_msg pkt_msg (
            size_packet_bytes (record {
              to_receive = 4 + 2 + topic_size + 1 + n;
              topic_size = topic_size;
              content_size = n;
            })))
          (packet_bytes pkt topic_size n)
        ≡ done (false, print_packet io pkt)
  unfolding on_message
  shown_lem topic_size size =
      let le = content_size_le pkt.udp_msg n at v.content_length in
      rw
        (size_packet_of-proto_msg
          (record {
            to_receive = 4 + 2 + topic_size + 1 + n;
            topic_size = topic_size;
            content_size = n;
          })
          (omega (arith, size, v.topic_ends, le)) (omega (arith, size, v.topic_ends))
          (omega (arith, le)))
        (sent_lem topic_size (omega (arith, size, v.topic_ends))
          ∙ rw size (ap (λ (shown : List Printed). done (false, shown)) print_sent_lem))

  topic_size_lem : string_size 50 (topic_string pkt.udp_msg) ≡ suc (length (cstr pkt.udp_msg.topic))
  topic_size_lem =
      rw
        (topic_string_lem pkt.udp_msg.topic pkt.udp_msg.data_type pkt.udp_msg.content v.topic_length
          v.topic_ends)
        (ground (arith, v.topic_ends))

  -- The two messages of the packet are shown as the packet.
  pub on_message-messages :
      on_message io (size_message pkt n) (packet_message pkt n) ≡ done (false, print_packet io pkt)
  on_message-messages = shown_lem (string_size 50 (topic_string pkt.udp_msg)) topic_size_lem

  -- For a packet whose content has a size and whose fields have their widths, with a topic that ends
  -- in its array, `send_packet` returns two messages, and the subscriber that receives these shows
  -- the packet as it would show that of the server.
  pub on_message-send_packet :
      (cl : Client)
      → Returns
          (λ (o : List Sent).
            (m₁ : Sent) × (m₂ : Sent) × (o ≡ m₁ ∷ m₂ ∷ [])
            × (on_message io m₁.bytes m₂.bytes ≡ done (false, print_packet io pkt)))
          (send_packet cl pkt)
  on_message-send_packet cl =
      rw (send_packet-messages cl pkt n at) (returns (_, _, refl, on_message-messages))
