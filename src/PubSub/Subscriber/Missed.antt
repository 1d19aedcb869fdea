-- ===== src/PubSub/Subscriber/Missed.antt =====
-- PCom2/server.cpp and subscriber.cpp: a subscriber that comes back is shown what it has missed.
use pcom_assignments.Prelude.{
  ℕ, ◌<◌, ◌≡◌, refl, arith, List, [], ◌∷◌, ◌++◌, map, Bool, true, false, Option, none, some, length,
  take, length-drop, get_elem?,
}
use pcom_assignments.Prelude.Run.{done, Returns, Returns-mono, ◌>>=◌}
use pcom_assignments.Prelude.Texts.{Text, fit, length-fit, cstr}
use pcom_assignments.PubSub.Protocol.{Packet, id_msg, msg_type, payload_string}
use pcom_assignments.PubSub.Client.{Client, Sent}
use pcom_assignments.PubSub.Server.{
  Server, Action, sends, Event, command, datagram, connection, readable, received_packet,
  on_connection, main_loop,
}
use pcom_assignments.PubSub.Server.Invariant.{AreSendable, IsServer}
use pcom_assignments.PubSub.Server.Safety.{queue_messages}
use pcom_assignments.PubSub.Server.Away.{stored, stored_of, missed, Has}
use pcom_assignments.PubSub.Server.Away.Loop.{AreAside, main_loop-on_connection}
use pcom_assignments.PubSub.Subscriber.{Streams, Printed, print_packet, receive_loop}
use pcom_assignments.PubSub.Subscriber.Arrays.{length-take_le}
use pcom_assignments.PubSub.Subscriber.Wire.{IsPacket, on_message-messages}

abbrev pub ArePackets : List Packet → Type 0
ArePackets [] = Unit {0}
ArePackets (p ∷ ps) = IsPacket p × ArePackets ps

ArePackets-append : (ps qs : List Packet) → ArePackets ps → ArePackets qs → ArePackets (ps ++ qs)
ArePackets-append [] qs hp hq = hq
ArePackets-append (p ∷ ps) qs hp hq = (hp.0, ArePackets-append ps qs hp.1 hq)

-- Address and port have their widths, and the topic of a datagram ends in its array.
abbrev pub IsClear : Event → Type 0
IsClear (datagram ip port bytes) =
    (ip < 0x1_0000_0000) × (port < 0x1_0000) × (length (cstr (take 50 (fit 1551 bytes))) < 50)
IsClear (command word) = Unit {0}
IsClear (connection newsockfd bytes) = Unit {0}
IsClear (readable i bytes) = Unit {0}

abbrev pub AreClear : List Event → Type 0
AreClear [] = Unit {0}
AreClear (e ∷ es) = IsClear e × AreClear es

received_packet-IsPacket :
    (ip port : ℕ) (bytes : List ℕ)
    → IsClear (datagram ip port bytes)
    → IsPacket (received_packet ip port bytes)
received_packet-IsPacket ip port bytes h = record {
  ip = h.0;
  port = h.1;
  topic_length = length-take_le 50 (fit 1551 bytes) (omega (arith, length-fit 1551 bytes));
  topic_ends = h.2;
  content_length = omega (arith, length-drop 51 (fit 1551 bytes), length-fit 1551 bytes);
}

stored-ArePackets :
    (entry : Option Bool) (pkt : Packet) → IsPacket pkt → ArePackets (stored entry pkt)
stored-ArePackets none pkt h = tt
stored-ArePackets (some true) pkt h = (h, tt)
stored-ArePackets (some false) pkt h = tt

missed-ArePackets :
    (topics : Text → Option Bool) (es : List Event) → AreClear es → ArePackets (missed topics es)
missed-ArePackets topics [] h = tt
missed-ArePackets topics (e ∷ es) h =
    ArePackets-append (stored_of topics e) (missed topics es) (one e h.0)
      (missed-ArePackets topics es h.1)
  where
    one : (e : Event) → IsClear e → ArePackets (stored_of topics e)
    one (datagram ip port bytes) clear =
        stored-ArePackets _ (received_packet ip port bytes)
          (received_packet-IsPacket ip port bytes clear)
    one (command word) clear = tt
    one (connection newsockfd bytes) clear = tt
    one (readable i bytes) clear = tt

module _ (io : Streams) where
  -- The packets as they are shown, one behind the other.
  abbrev pub print_packets : List Packet → List Printed
  print_packets [] = []
  print_packets (p ∷ ps) = print_packet io p ++ print_packets ps

  -- The messages of a queue are shown as its packets.
  receive_loop-queue_messages :
      (fd : ℕ) (queue : List Packet) (h : AreSendable queue)
      → ArePackets queue
      → receive_loop io (map (λ (m : Sent). m.bytes) (queue_messages fd queue h))
        ≡ done (false, print_packets queue)
  unfolding receive_loop
  receive_loop-queue_messages fd [] h v = refl
  receive_loop-queue_messages fd (p ∷ ps) h v =
      rw (on_message-messages io p h.0.0 v.0 h.0.1, receive_loop-queue_messages fd ps h.1 v.1) refl

-- All of them go to one descriptor.
abbrev pub AreFor : ℕ → List Sent → Type 0
AreFor fd [] = Unit {0}
AreFor fd (m ∷ ms) = (m.fd ≡ fd) × AreFor fd ms

queue_messages-fd :
    (fd : ℕ) (queue : List Packet) (h : AreSendable queue) → AreFor fd (queue_messages fd queue h)
queue_messages-fd fd [] h = tt
queue_messages-fd fd (p ∷ ps) h = (refl, (refl, queue_messages-fd fd ps h.1))

module _ (io : Streams) (udpsockfd tcpsockfd : ℕ) (s : Server) (v : IsServer s) (id : Text) (r : ℕ)
    (cl : Client) (has : Has id r cl s) (off : cl.connected ≡ false) where
  -- In tables that agree, a client that is away with a queue of clear packets, and then any events
  -- that are not of it, do not end the loop, and whose datagrams are clear and have one of the
  -- four data types. The client comes back on a new descriptor: server and connection return,
  -- everything that is then sent goes to that descriptor, and the subscriber that receives it
  -- shows the queue and then exactly the datagrams of the topics that it has with the SF on, each
  -- once and in their order; nothing is left in the queue.
  pub receive_loop-missed :
      ArePackets cl.sf_queue
      → (es : List Event) → AreAside udpsockfd tcpsockfd id r s es
      → AreClear es
      → (newsockfd : ℕ) (bytes : List ℕ) → msg_type bytes ≡ id_msg
      → payload_string bytes ≡ id
      → Returns
          (λ (o : Server × List Action).
            (msgs : List Sent) × (o.1 ≡ map sends msgs)
            × AreFor newsockfd msgs
            × (receive_loop io (map (λ (m : Sent). m.bytes) msgs)
                ≡ done (false, print_packets io (cl.sf_queue ++ missed cl.topics es)))
            × (get_elem? o.0.objects r
                ≡ some (record cl { fd = newsockfd; connected = true; sf_queue = [] })))
          (main_loop udpsockfd tcpsockfd s es >>= λ t. on_connection t.0 newsockfd bytes)
  receive_loop-missed queue es aside clear newsockfd bytes is_id is_client =
      Returns-mono
        (main_loop-on_connection udpsockfd tcpsockfd id r s cl es v has off aside newsockfd bytes
          is_id is_client)
        λ o w. (
          queue_messages newsockfd (cl.sf_queue ++ missed cl.topics es) w.0,
          w.1,
          queue_messages-fd newsockfd (cl.sf_queue ++ missed cl.topics es) w.0,
          receive_loop-queue_messages io newsockfd (cl.sf_queue ++ missed cl.topics es) w.0 (
              ArePackets-append cl.sf_queue (missed cl.topics es) queue
                (missed-ArePackets cl.topics es clear)),
          w.2,
        )
