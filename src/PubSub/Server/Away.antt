-- ===== src/PubSub/Server/Away.antt =====
-- PCom2/server.cpp: what is stored for a client while it is away.
pub mod Loop
use mathlib.Core.List.{append-nil, append_assoc}
use mathlib.Core.Bool.{false≢true}
use pcom_assignments.Prelude.{
  ℕ, ◌≡◌, refl, sym, ap, ◌∙◌, ◌≢◌, inl, inr, List, [], ◌∷◌, ◌++◌, map, Bool, true, false, Option,
  none, some, ◌==◌, ==_iff, if◌then◌else◌, get_elem?, set, get_elem?-set_ne, get_elem?-set_self,
  lt_of_get_elem?, get_elem?-append_left, Bool-cases, Option-cases,
}
use pcom_assignments.Prelude.Run.{
  done, Returns, returns, Returns->>=, Returns-mono, Returns-both, Returns-eq, Returns-Whenever,
  Whenever, whenever, Whenever->>=, ◌>>=◌,
}
use pcom_assignments.Prelude.Texts.{Text, text, ne→not_eq_text, starts_with}
use pcom_assignments.PubSub.Protocol.{
  Packet, id_msg, sub_msg, unsub_msg, msg_type, payload_string, payload_sf, topic_string,
}
use pcom_assignments.PubSub.Client.{
  Client, new_client, disconnect, subscribe, unsubscribe, client_has_topic, store_packet,
}
use pcom_assignments.PubSub.Server.{
  Server, Action, sends, Event, command, datagram, connection, readable, received_packet, deliver,
  on_datagram, on_known, on_connection, on_close, has_same, on_subscribe, on_unsubscribe,
  on_readable, on_command, step, main_loop,
}
use pcom_assignments.PubSub.Server.Delivery.{IsSendable, after_packet}
use pcom_assignments.PubSub.Server.Invariant.{AreSendable, IsServer}
use pcom_assignments.PubSub.Server.Safety.{
  IsHandled, client_at_lem, queue_messages, reconnected, reconnect-messages,
}
use pcom_assignments.PubSub.Server.Replies.{on_connection-reply}
use pcom_assignments.PubSub.Server.Datagram.{on_datagram-after_packet, step-IsServer}

-- An event that is not of the client with the id: a command that does not end the loop, a datagram
-- with one of the four data types, a connection without this id, or a descriptor of another client.
abbrev pub IsAside : Text → Server → Event → Type 0
IsAside id s (command word) = starts_with (text "exit") word ≡ false
IsAside id s (datagram ip port bytes) = IsSendable (received_packet ip port bytes)
IsAside id s (connection newsockfd bytes) = msg_type bytes ≡ id_msg → payload_string bytes ≢ id
IsAside id s (readable i bytes) =
    (other : Text) × (r : ℕ) × (s.fd_to_id i ≡ some other)
    × (s.clients other ≡ some r)
    × (other ≢ id)

IsAside-IsHandled : (id : Text) (s : Server) (e : Event) → IsAside id s e → IsHandled s e
IsAside-IsHandled id s (command word) h = tt
IsAside-IsHandled id s (datagram ip port bytes) h = h
IsAside-IsHandled id s (connection newsockfd bytes) h = tt
IsAside-IsHandled id s (readable i bytes) h = (h.0, h.1, h.2, h.3)

-- A packet is stored for a topic with the SF on.
abbrev pub stored : Option Bool → Packet → List Packet
stored (some true) pkt = pkt ∷ []
stored (some false) pkt = []
stored none pkt = []

abbrev pub stored_of : (topics : Text → Option Bool) → Event → List Packet
stored_of topics (datagram ip port bytes) =
    let pkt = received_packet ip port bytes in stored (topics (topic_string pkt.udp_msg)) pkt
stored_of topics (command word) = []
stored_of topics (connection newsockfd bytes) = []
stored_of topics (readable i bytes) = []

-- The packets of a client's topics with the SF on, in the order of the events.
abbrev pub missed : (topics : Text → Option Bool) → List Event → List Packet
missed topics [] = []
missed topics (e ∷ es) = stored_of topics e ++ missed topics es

-- The object of a client that is away, with packets behind its queue.
abbrev pub storing : Client → List Packet → Client
storing cl pkts = record cl { sf_queue = cl.sf_queue ++ pkts }

-- The entry of the topic and the connection decide.
after_packet_lem :
    (pkt : Packet) (cl : Client) (entry : Option Bool) (connected : Bool)
    → connected ≡ false
    → (elim entry as (λ _. Client) [
      | none ↦ cl
      | some sf ↦ if connected then cl else if sf then store_packet cl pkt else cl
    ])
      ≡ storing cl (stored entry pkt)
unfolding store_packet
after_packet_lem pkt cl none connected off =
    ap (λ (q : List Packet). record cl { sf_queue = q }) (sym (append-nil cl.sf_queue))
after_packet_lem pkt cl (some sf) true off = absurd (false≢true (sym off))
after_packet_lem pkt cl (some true) false off = refl
after_packet_lem pkt cl (some false) false off =
    ap (λ (q : List Packet). record cl { sf_queue = q }) (sym (append-nil cl.sf_queue))

after_packet-storing :
    (topic : Text) (pkt : Packet) (cl : Client)
    → cl.connected ≡ false
    → after_packet topic pkt cl ≡ storing cl (stored (cl.topics topic) pkt)
after_packet-storing topic pkt cl off = after_packet_lem pkt cl (cl.topics topic) cl.connected off

-- What stays of the tables: the loop goes on, the id leads to the object, and that is `cl`.
pub record Has (id : Text) (r : ℕ) (cl : Client) (s : Server) : Type 0 where
  pub goes_on : s.exit_status ≡ false
  pub at_id : s.clients id ≡ some r
  pub at : get_elem? s.objects r ≡ some cl

module _ (id : Text) (r : ℕ) (cl : Client) (s : Server) (v : IsServer s) (h : Has id r cl s) where
  -- Another id leads to another object.
  other_object : (other : Text) (q : ℕ) → other ≢ id → s.clients other ≡ some q → q ≢ r
  other_object other q apart at_q same =
      let (c, at_c, is) = v.named other q at_q in
      let (d, at_d, is') = v.named id r h.at_id in
      let both : some c ≡ some d = sym at_c ∙ ap (get_elem? s.objects) same ∙ at_d in
      let one : c ≡ d = cc in apart (sym is ∙ ap (λ (x : Client). x.id) one ∙ is')

  -- A write to another object.
  other_set : (q : ℕ) (c : Client) → q ≢ r → get_elem? (set s.objects q c) r ≡ some cl
  other_set q c apart = get_elem?-set_ne s.objects c apart ∙ h.at

  module _ (i : ℕ) (bytes : List ℕ) (other : Text) (q : ℕ) (at_fd : s.fd_to_id i ≡ some other)
      (at_q : s.clients other ≡ some q) (apart : other ≢ id) where
    on_close-Has : Returns (λ (o : Server × List Action). Has id r cl o.0) (on_close s i)
    unfolding on_close
    on_close-Has =
        let (c, at_c, _) = v.named other q at_q in
        rw (client_at_lem s i other q c at_fd at_q at_c) (
          returns (record {
            goes_on = h.goes_on;
            at_id = h.at_id;
            at = other_set q (disconnect c) (other_object other q apart at_q);
          }))

    on_subscribe-Has :
        Returns (λ (o : Server × List Action). Has id r cl o.0) (on_subscribe s i bytes)
    unfolding on_subscribe
    on_subscribe-Has =
        let (c, at_c, _) = v.named other q at_q in
        rw (client_at_lem s i other q c at_fd at_q at_c)
          (elim (Bool-cases (has_same c (payload_string bytes) (payload_sf bytes))) [
            | inl same ↦
                rw same (returns (record { goes_on = h.goes_on; at_id = h.at_id; at = h.at }))
            | inr new ↦ rw new (
                returns (record {
                  goes_on = h.goes_on;
                  at_id = h.at_id;
                  at =
                      other_set q (subscribe c (payload_string bytes) (payload_sf bytes))
                        (other_object other q apart at_q);
                }))
          ])

    on_unsubscribe-Has :
        Returns (λ (o : Server × List Action). Has id r cl o.0) (on_unsubscribe s i bytes)
    unfolding on_unsubscribe
    on_unsubscribe-Has =
        let (c, at_c, _) = v.named other q at_q in
        rw (client_at_lem s i other q c at_fd at_q at_c)
          (elim (Bool-cases (client_has_topic c (payload_string bytes))) [
            | inl has ↦ rw has (
                returns (record {
                  goes_on = h.goes_on;
                  at_id = h.at_id;
                  at =
                      other_set q (unsubscribe c (payload_string bytes))
                        (other_object other q apart at_q);
                }))
            | inr lacks ↦
                rw lacks (returns (record { goes_on = h.goes_on; at_id = h.at_id; at = h.at }))
          ])

  on_readable-Has :
      (i : ℕ) (bytes : List ℕ) (other : Text) (q : ℕ)
      → s.fd_to_id i ≡ some other
      → s.clients other ≡ some q
      → other ≢ id
      → Returns (λ (o : Server × List Action). Has id r cl o.0) (on_readable s i bytes)
  unfolding on_readable
  on_readable-Has i [] other q at_fd at_q apart = on_close-Has i [] other q at_fd at_q apart
  on_readable-Has i (b ∷ bytes) other q at_fd at_q apart = elim (Bool-cases (b == sub_msg)) [
    | inl is_sub ↦ rw is_sub (on_subscribe-Has i (b ∷ bytes) other q at_fd at_q apart)
    | inr no_sub ↦ elim (Bool-cases (b == unsub_msg)) [
      | inl is_unsub ↦
          rw (no_sub, is_unsub) (on_unsubscribe-Has i (b ∷ bytes) other q at_fd at_q apart)
      | inr no_unsub ↦
          rw (no_sub, no_unsub)
            (returns (record { goes_on = h.goes_on; at_id = h.at_id; at = h.at }))
    ]
  ]

  on_connection-Has :
      (newsockfd : ℕ) (bytes : List ℕ)
      → (msg_type bytes ≡ id_msg → payload_string bytes ≢ id)
      → Returns (λ (o : Server × List Action). Has id r cl o.0) (on_connection s newsockfd bytes)
  unfolding on_connection on_known
  on_connection-Has newsockfd bytes apart = elim (Bool-cases (msg_type bytes == id_msg)) [
    | inr no_id ↦ rw no_id (returns (record { goes_on = h.goes_on; at_id = h.at_id; at = h.at }))
    | inl is_id ↦
        let other = apart ((==_iff (msg_type bytes) id_msg).0 is_id) in
        elim (Option-cases (s.clients (payload_string bytes))) [
          | inl new ↦
              rw (is_id, new)
                (returns (record {
                  goes_on = h.goes_on;
                  at_id = rw (ne→not_eq_text (payload_string bytes) id other) h.at_id;
                  at =
                      get_elem?-append_left s.objects
                        (new_client newsockfd (payload_string bytes) ∷ []) r h.at;
                }))
          | inr (q, at_q) ↦
              let (c, at_c, _) = v.named (payload_string bytes) q at_q in
              rw (is_id, at_q, at_c)
                (elim (Bool-cases c.connected) [
                  | inl on ↦
                      rw on (returns (record { goes_on = h.goes_on; at_id = h.at_id; at = h.at }))
                  | inr off ↦ simp off (
                      rw (reconnect-messages c newsockfd (v.sendable q c at_c)) (
                        returns (record {
                          goes_on = h.goes_on;
                          at_id = h.at_id;
                          at =
                              other_set q (reconnected c newsockfd)
                                (other_object (payload_string bytes) q other at_q);
                        })))
                ])
        ]
  ]
