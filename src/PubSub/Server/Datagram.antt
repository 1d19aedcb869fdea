-- ===== src/PubSub/Server/Datagram.antt =====
-- PCom2/server.cpp: a datagram and every client by itself, and the tables behind any event.
use mathlib.Core.Bool.{false≢true}
use mathlib.Core.Path.{subst}
use pcom_assignments.Prelude.{
  ℕ, ◌≡◌, refl, sym, ap, ◌∙◌, ◌⊎◌, inl, inr, arith, List, [], ◌∷◌, map, true, false, some,
  get_elem?, get_elem?_lt, lt_of_get_elem?, Bool-cases, Option-cases,
}
use pcom_assignments.Prelude.Run.{
  done, Returns, returns, Returns->>=, Returns-mono, Returns-done, ◌>>=◌,
}
use pcom_assignments.Prelude.Texts.{Text, text, starts_with}
use pcom_assignments.PubSub.Protocol.{Packet, topic_string}
use pcom_assignments.PubSub.Client.{Sent, Client, client_has_topic, store_packet}
use pcom_assignments.PubSub.Server.{
  Server, Action, sends, Event, command, datagram, connection, readable, member, deliver,
  received_packet, on_datagram, on_command, step, initial,
}
use pcom_assignments.PubSub.Server.Delivery.{
  Distinct, IsSendable, after_packet, frames_of, Delivered, deliver-Delivered, AreSubscribers,
}
use pcom_assignments.PubSub.Server.Invariant.{AreSendable, AreSendable-append, AreTables, IsServer}
use pcom_assignments.PubSub.Server.Safety.{IsHandled, Keeps, on_readable-Keeps, on_connection-Keeps}

after_packet-cases :
    (topic : Text) (pkt : Packet) (cl : Client)
    → (after_packet topic pkt cl ≡ cl) ⊎ (after_packet topic pkt cl ≡ store_packet cl pkt)
after_packet-cases topic pkt cl = elim (Option-cases (cl.topics topic)) [
  | inl none_there ↦ inl (simp (none_there, after_packet))
  | inr (sf, there) ↦ elim (Bool-cases cl.connected) [
    | inl on ↦ inl (simp (there, on, after_packet))
    | inr off ↦ elim (Bool-cases sf) [
      | inl stores ↦ inr (simp (there, off, stores, after_packet))
      | inr drops ↦ inl (simp (there, off, drops, after_packet))
    ]
  ]
]

-- A client without the topic is left as it is.
untouched :
    (topic : Text) (pkt : Packet) (cl : Client)
    → client_has_topic cl topic ≡ false
    → after_packet topic pkt cl ≡ cl
unfolding client_has_topic
untouched topic pkt cl lacks = elim (Option-cases (cl.topics topic)) [
  | inl none_there ↦ simp (none_there, after_packet)
  | inr (sf, there) ↦ let has : true ≡ false = rw there at lacks in absurd (false≢true (sym has))
]

-- What a packet leaves of a client keeps its id and its topics, and its queue can be sent.
record Follows (pkt : Packet) (cl cl' : Client) : Type 0 where
  same_id : cl'.id ≡ cl.id
  same_topics : (t : Text) → client_has_topic cl' t ≡ client_has_topic cl t
  queue : AreSendable cl.sf_queue → AreSendable cl'.sf_queue

after_packet-Follows :
    (topic : Text) (pkt : Packet) (h : IsSendable pkt) (cl : Client)
    → Follows pkt cl (after_packet topic pkt cl)
unfolding store_packet client_has_topic
after_packet-Follows topic pkt h cl = elim (after_packet-cases topic pkt cl) [
  | inl same ↦ rw same (record { same_id = refl; same_topics = λ t. refl; queue = λ q. q })
  | inr stored ↦ rw stored (record {
    same_id = refl;
    same_topics = λ t. refl;
    queue = λ q. AreSendable-append cl.sf_queue (pkt ∷ []) q (h, tt);
  })
]

module _ (s : Server) (v : IsServer s) where
  -- The subscribers of a topic have it.
  pub subscribers_lem : (topic : Text) → AreSubscribers topic (s.topic_to_clients topic) s.objects
  subscribers_lem topic r m =
      let (cl, at) = get_elem?_lt s.objects r (v.known topic r m) in
      (cl, at, sym (v.subscribed topic r cl at) ∙ m)

  module _ (topic : Text) (pkt : Packet) (h : IsSendable pkt) (o : List Client × List Sent)
      (d : Delivered topic pkt h.0 h.1 (s.topic_to_clients topic) s.objects o) where
    -- Every object by itself, whether it has the topic or not.
    each_lem :
        (r : ℕ) (cl : Client)
        → get_elem? s.objects r ≡ some cl
        → get_elem? o.0 r ≡ some (after_packet topic pkt cl)
    each_lem r cl at = elim (Bool-cases (member r (s.topic_to_clients topic))) [
      | inl m ↦ d.each r cl at ∙ rw m refl
      | inr out ↦
          d.each r cl at
          ∙ rw out (ap some (sym (untouched topic pkt cl (sym (v.subscribed topic r cl at) ∙ out))))
    ]

    -- An object behind the packet comes of one before it.
    came_from :
        (r : ℕ) (cl' : Client)
        → get_elem? o.0 r ≡ some cl'
        → (cl : Client) × (get_elem? s.objects r ≡ some cl) × (cl' ≡ after_packet topic pkt cl)
    came_from r cl' e =
        let (cl, at) = get_elem?_lt s.objects r (omega (arith, lt_of_get_elem? o.0 r e, d.count)) in
        let both : some cl' ≡ some (after_packet topic pkt cl) = sym e ∙ each_lem r cl at in
        (cl, at, (cc))

    after_tables : AreTables o.0 s.clients s.topic_to_clients
    after_tables = record {
      subscribed = λ t r cl' e.
          let (cl, at, is) = came_from r cl' e in
          rw is
            (v.subscribed t r cl at ∙ sym ((after_packet-Follows topic pkt h cl).same_topics t));
      known = λ t r m. omega (arith, v.known t r m, d.count);
      distinct = v.distinct;
      named = λ id r e.
          let (cl, at, is) = v.named id r e in
          (
            after_packet topic pkt cl,
            each_lem r cl at,
            (after_packet-Follows topic pkt h cl).same_id ∙ is,
          );
      sendable = λ r cl' e.
          let (cl, at, is) = came_from r cl' e in
          rw is ((after_packet-Follows topic pkt h cl).queue (v.sendable r cl at));
    }

  -- For tables that agree and a packet with one of the four data types, `on_datagram` returns and
  -- keeps the tables in agreement. Every client becomes what the packet makes of it by itself, and
  -- the packet is sent to each connected subscriber of its topic once: to distinct clients, which
  -- are those that have the topic.
  pub on_datagram-after_packet :
      (ip port : ℕ) (bytes : List ℕ) (h : IsSendable (received_packet ip port bytes))
      → Returns
          (λ (o : Server × List Action).
            let pkt = received_packet ip port bytes in
            let topic = topic_string pkt.udp_msg in
            IsServer o.0
            × ((r : ℕ) (cl : Client)
                → get_elem? s.objects r ≡ some cl
                → get_elem? o.0.objects r ≡ some (after_packet topic pkt cl))
            × (o.1 ≡ map sends (frames_of pkt h.0 (s.topic_to_clients topic) s.objects))
            × Distinct (s.topic_to_clients topic)
            × ((r : ℕ) (cl : Client)
                → get_elem? s.objects r ≡ some cl
                → member r (s.topic_to_clients topic) ≡ client_has_topic cl topic))
          (on_datagram s ip port bytes)
  unfolding on_datagram
  on_datagram-after_packet ip port bytes h = datagram_lem (received_packet ip port bytes) h
    where
      datagram_lem :
          (pkt : Packet) (h : IsSendable pkt)
          → Returns
              (λ (o : Server × List Action).
                let topic = topic_string pkt.udp_msg in
                IsServer o.0
                × ((r : ℕ) (cl : Client)
                    → get_elem? s.objects r ≡ some cl
                    → get_elem? o.0.objects r ≡ some (after_packet topic pkt cl))
                × (o.1 ≡ map sends (frames_of pkt h.0 (s.topic_to_clients topic) s.objects))
                × Distinct (s.topic_to_clients topic)
                × ((r : ℕ) (cl : Client)
                    → get_elem? s.objects r ≡ some cl
                    → member r (s.topic_to_clients topic) ≡ client_has_topic cl topic))
              (do
                (objects, out) ←
                    deliver
                      (topic_string pkt.udp_msg)
                      pkt
                      (s.topic_to_clients (topic_string pkt.udp_msg))
                      s.objects
                done (record s { objects = objects }, map sends out))
      datagram_lem pkt h =
          let topic = topic_string pkt.udp_msg in
          Returns->>=
            (deliver-Delivered topic pkt h.0 h.1 (s.topic_to_clients topic) s.objects
              (v.distinct topic) (subscribers_lem topic))
            λ o d. returns (
              after_tables topic pkt h o d,
              each_lem topic pkt h o d,
              ap (map sends) d.sent,
              v.distinct topic,
              v.subscribed topic,
            )

module _ (udpsockfd tcpsockfd : ℕ) where
  -- Tables that agree stay so at every event that the server handles: a command, a connection, a
  -- datagram with one of the four data types, or a descriptor of a client that has given its id.
  -- The server returns from each of them.
  pub step-IsServer :
      (s : Server) (e : Event) → IsServer s → IsHandled s e → Keeps (step udpsockfd tcpsockfd s e)
  unfolding step on_command
  step-IsServer s (command word) v h = elim (Bool-cases (starts_with (text "exit") word)) [
    | inl is_exit ↦ rw is_exit (returns v)
    | inr other ↦ rw other (returns v)
  ]
  step-IsServer s (datagram ip port bytes) v h =
      Returns-mono (on_datagram-after_packet s v ip port bytes h) λ o w. w.0
  step-IsServer s (connection newsockfd bytes) v h = on_connection-Keeps s v newsockfd bytes
  step-IsServer s (readable i bytes) v h = on_readable-Keeps s v i bytes h

  -- The states of the server: that before the loop, and what handled events make of them.
  pub data Reaches : Server → Type 0 where
    start : Reaches (initial udpsockfd tcpsockfd)
    next :
        {s t : Server} {out : List Action} (e : Event)
        → Reaches s
        → IsHandled s e
        → step udpsockfd tcpsockfd s e ≡ done (t, out)
        → Reaches t

  -- In every state that the server reaches by events that it handles the tables agree.
  pub Reaches-IsServer : {s : Server} → Reaches s → IsServer s
  unfolding initial
  Reaches-IsServer start = record {
    subscribed = λ t r cl e. absurd cc;
    known = λ t r m. absurd cc;
    distinct = λ t. tt;
    named = λ id r e. absurd cc;
    sendable = λ r cl e. absurd cc;
  }
  Reaches-IsServer (next {s} {t} {out} e reach h at) =
      Returns-done (subst Keeps at (step-IsServer s e (Reaches-IsServer reach) h))
