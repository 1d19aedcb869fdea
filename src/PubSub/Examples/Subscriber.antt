-- ===== src/PubSub/Examples/Subscriber.antt =====
-- PCom2/subscriber.cpp: the theorems on the subscriber at concrete messages.
use pcom_assignments.Prelude.{
  ℕ, ◌≡◌, refl, arith, none, List, [], ◌∷◌, ◌++◌, true, false, length, replicate,
}
use pcom_assignments.Prelude.Run.{done, Returns}
use pcom_assignments.Prelude.Texts.{Text, text, fit}
use pcom_assignments.PubSub.Protocol.{Packet, sub_msg, msg_type, payload_string, payload_sf}
use pcom_assignments.PubSub.Client.{Client, Sent, content_size_of, send_packet}
use pcom_assignments.PubSub.Subscriber.{
  Streams, Printed, print_packet, print_feedback, on_message, sub_unsub,
}
use pcom_assignments.PubSub.Subscriber.Wire.{IsPacket, on_message-send_packet}
use pcom_assignments.PubSub.Subscriber.Requests.{sub_unsub-payload}

-- Numbers in unary, as texts of their length.
abbrev pub streams : Streams
streams = record {
  Double = ℕ;
  double = λ n. n;
  divide = λ n d. n;
  float = λ n. n;
  fixed = λ precision n. text "real";
  decimal = λ n. text "number";
  inet_ntoa = λ n. text "address";
}

-- The string "hi" for the topic "t".
abbrev packet : Packet
packet = record {
  udp_client_ip = 1;
  udp_client_port = 2;
  udp_msg = record { topic = fit 50 (text "t"); data_type = 3; content = fit 1500 (text "hi") };
}

packet-IsPacket : IsPacket packet
packet-IsPacket = record {
  ip = omega arith;
  port = omega arith;
  topic_length = refl;
  topic_ends = omega arith;
  content_length = refl;
}

abbrev client : Client
client = record { id = text "a"; connected = true; fd = 5; topics = λ t. none; sf_queue = [] }

on_message-send_packet_example :
    Returns
      (λ (o : List Sent).
        (m₁ : Sent) × (m₂ : Sent) × (o ≡ m₁ ∷ m₂ ∷ [])
        × (on_message streams m₁.bytes m₂.bytes ≡ done (false, print_packet streams packet)))
      (send_packet client packet)
unfolding content_size_of
on_message-send_packet_example = on_message-send_packet streams packet 3 packet-IsPacket refl client

-- A topic of 50 characters with the SF on.
abbrev long_topic : Text
long_topic = replicate 50 97

sub_unsub-payload_example :
    Returns
      (λ (o : List ℕ × Printed).
        (length o.0 ≡ 52)
        × (msg_type o.0 ≡ sub_msg)
        × (payload_sf o.0 ≡ true)
        × (payload_string o.0 ≡ long_topic ++ 1 ∷ [])
        × (o.1 ≡ print_feedback sub_msg []))
      (sub_unsub long_topic true sub_msg [])
sub_unsub-payload_example = sub_unsub-payload long_topic true sub_msg [] (omega arith) (omega arith)
