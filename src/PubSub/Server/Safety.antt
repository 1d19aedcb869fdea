-- ===== src/PubSub/Server/Safety.antt =====
-- PCom2/server.cpp: every event that the server can handle returns and keeps the tables.
use pcom_assignments.Prelude.{
  ℕ, ◌≡◌, refl, inl, inr, List, [], ◌∷◌, ◌++◌, true, some, ◌==◌, get_elem?, Bool-cases,
  Option-cases,
}
use pcom_assignments.Prelude.Run.{Run, done, Returns, returns}
use pcom_assignments.Prelude.Texts.{Text, insert_or_assign}
use pcom_assignments.PubSub.Protocol.{
  Packet, id_msg, sub_msg, unsub_msg, msg_type, payload_string, payload_sf,
}
use pcom_assignments.PubSub.Client.{
  Sent, Client, disconnect, client_has_topic, send_queued, reconnect,
}
use pcom_assignments.PubSub.Server.{
  Server, Action, Event, command, datagram, connection, readable, client_at, received_packet,
  on_known, on_connection, on_close, has_same, on_subscribe, on_unsubscribe, on_readable,
}
use pcom_assignments.PubSub.Server.Delivery.{IsSendable, messages, send_packet-messages}
use pcom_assignments.PubSub.Server.Invariant.{
  AreSendable, IsServer, AreTables-update, AreTables-subscribe, AreTables-unsubscribe,
  AreTables-new,
}

-- The descriptor is that of a client that has given its id.
abbrev pub IsIdentified : Server → ℕ → Type 0
IsIdentified s i = (id : Text) × (r : ℕ) × (s.fd_to_id i ≡ some id) × (s.clients id ≡ some r)

-- A datagram has one of the four data types, and a descriptor that becomes readable is that of a
-- client that has given its id.
abbrev pub IsHandled : Server → Event → Type 0
IsHandled s (command word) = Unit {0}
IsHandled s (datagram ip port bytes) = IsSendable (received_packet ip port bytes)
IsHandled s (connection newsockfd bytes) = Unit {0}
IsHandled s (readable i bytes) = IsIdentified s i

abbrev pub Keeps : Run (Server × List Action) → Type 0
Keeps = Returns (λ (o : Server × List Action). IsServer o.0)

-- The tables with the descriptor's entry written again.
abbrev pub touched : Server → ℕ → Text → Server
touched s i id = record s { fd_to_id = insert_or_assign ◌==◌ i id s.fd_to_id }

-- The client of an identified descriptor.
pub client_at_lem :
    (s : Server) (i : ℕ) (id : Text) (r : ℕ) (cl : Client)
    → s.fd_to_id i ≡ some id
    → s.clients id ≡ some r
    → get_elem? s.objects r ≡ some cl
    → client_at s i ≡ done (r, cl, touched s i id)
unfolding client_at
client_at_lem s i id r cl at_fd at_id at = rw (at_fd, at_id, at) refl

-- The messages of the queued packets, in their order.
abbrev pub queue_messages : (fd : ℕ) (queue : List Packet) → AreSendable queue → List Sent
queue_messages fd [] h = []
queue_messages fd (pkt ∷ queue) h = messages fd pkt h.0.0 ++ queue_messages fd queue h.1

send_queued_lem :
    (cl : Client) (queue : List Packet) (h : AreSendable queue)
    → send_queued cl queue ≡ done (queue_messages cl.fd queue h)
unfolding send_queued
send_queued_lem cl [] h = refl
send_queued_lem cl (pkt ∷ queue) h =
    rw (send_packet-messages cl pkt h.0.0 h.0.1, send_queued_lem cl queue h.1) refl

-- A client that reconnects.
abbrev pub reconnected : Client → (fd : ℕ) → Client
reconnected cl fd = record cl { fd = fd; connected = true; sf_queue = [] }

pub reconnect-messages :
    (cl : Client) (fd : ℕ) (h : AreSendable cl.sf_queue)
    → reconnect cl fd ≡ done (reconnected cl fd, queue_messages fd cl.sf_queue h)
unfolding reconnect
reconnect-messages cl fd h =
    rw (send_queued_lem (record cl { fd = fd; connected = true }) cl.sf_queue h) refl

module _ (s : Server) (v : IsServer s) where
  on_close-Keeps : (i : ℕ) → IsIdentified s i → Keeps (on_close s i)
  unfolding on_close
  on_close-Keeps i h =
      let (id, r, at_fd, at_id) = h in
      let (cl, at, _) = v.named id r at_id in
      rw (client_at_lem s i id r cl at_fd at_id at) (
        returns (
          AreTables-update s.objects s.clients s.topic_to_clients v r cl at (disconnect cl)
            (unfold disconnect in refl) (unfold disconnect in v.sendable r cl at)
            (λ t. unfold disconnect client_has_topic in refl)))

  on_subscribe-Keeps : (i : ℕ) (bytes : List ℕ) → IsIdentified s i → Keeps (on_subscribe s i bytes)
  unfolding on_subscribe
  on_subscribe-Keeps i bytes h =
      let (id, r, at_fd, at_id) = h in
      let (cl, at, _) = v.named id r at_id in
      rw (client_at_lem s i id r cl at_fd at_id at)
        (elim (Bool-cases (has_same cl (payload_string bytes) (payload_sf bytes))) [
          | inl same ↦ rw same (returns v)
          | inr other ↦ rw other (
              returns (
                AreTables-subscribe s.objects s.clients s.topic_to_clients v r cl
                  (payload_string bytes) (payload_sf bytes) at))
        ])

  on_unsubscribe-Keeps :
      (i : ℕ) (bytes : List ℕ) → IsIdentified s i → Keeps (on_unsubscribe s i bytes)
  unfolding on_unsubscribe
  on_unsubscribe-Keeps i bytes h =
      let (id, r, at_fd, at_id) = h in
      let (cl, at, _) = v.named id r at_id in
      rw (client_at_lem s i id r cl at_fd at_id at)
        (elim (Bool-cases (client_has_topic cl (payload_string bytes))) [
          | inl has ↦ rw has (
              returns (
                AreTables-unsubscribe s.objects s.clients s.topic_to_clients v r cl
                  (payload_string bytes) at))
          | inr lacks ↦ rw lacks (returns v)
        ])

  pub on_readable-Keeps :
      (i : ℕ) (bytes : List ℕ) → IsIdentified s i → Keeps (on_readable s i bytes)
  unfolding on_readable
  on_readable-Keeps i [] h = on_close-Keeps i h
  on_readable-Keeps i (b ∷ bytes) h = elim (Bool-cases (b == sub_msg)) [
    | inl is_sub ↦ rw is_sub (on_subscribe-Keeps i (b ∷ bytes) h)
    | inr no_sub ↦ elim (Bool-cases (b == unsub_msg)) [
      | inl is_unsub ↦ rw (no_sub, is_unsub) (on_unsubscribe-Keeps i (b ∷ bytes) h)
      | inr no_unsub ↦ rw (no_sub, no_unsub) (returns v)
    ]
  ]

  pub on_connection-Keeps :
      (newsockfd : ℕ) (bytes : List ℕ) → Keeps (on_connection s newsockfd bytes)
  unfolding on_connection on_known
  on_connection-Keeps newsockfd bytes = elim (Bool-cases (msg_type bytes == id_msg)) [
    | inr other ↦ rw other (returns v)
    | inl is_id ↦ elim (Option-cases (s.clients (payload_string bytes))) [
      | inl new ↦
          rw (is_id, new)
            (returns (
              AreTables-new s.objects s.clients s.topic_to_clients v newsockfd
                (payload_string bytes)))
      | inr (r, at_id) ↦
          let (cl, at, _) = v.named (payload_string bytes) r at_id in
          rw (is_id, at_id, at)
            (elim (Bool-cases cl.connected) [
              | inl on ↦ rw on (returns v)
              | inr off ↦ simp off (
                  rw (reconnect-messages cl newsockfd (v.sendable r cl at)) (
                    returns (
                      AreTables-update s.objects s.clients s.topic_to_clients v r cl at
                        (reconnected cl newsockfd) refl tt (λ t. unfold client_has_topic in refl))))
            ])
    ]
  ]
