-- ===== src/PubSub/Server/Away/Loop.antt =====
-- PCom2/server.cpp: the loop of the server while a client is away.
use mathlib.Core.List.{append-nil, append_assoc}
use pcom_assignments.Prelude.{
  ℕ, ◌≡◌, refl, sym, ap, ◌∙◌, List, [], ◌∷◌, ◌++◌, map, true, false, Option, some, get_elem?,
  get_elem?-set_self, lt_of_get_elem?,
}
use pcom_assignments.Prelude.Run.{
  done, Returns, returns, Returns->>=, Returns-mono, Returns-both, Returns-eq, Returns-Whenever,
  Whenever, whenever, Whenever->>=, ◌>>=◌,
}
use pcom_assignments.Prelude.Texts.{Text}
use pcom_assignments.PubSub.Protocol.{Packet, id_msg, msg_type, payload_string, topic_string}
use pcom_assignments.PubSub.Client.{Client}
use pcom_assignments.PubSub.Server.{
  Server, Action, sends, Event, command, datagram, connection, readable, received_packet, deliver,
  on_datagram, on_connection, on_command, step, main_loop,
}
use pcom_assignments.PubSub.Server.Invariant.{AreSendable, IsServer}
use pcom_assignments.PubSub.Server.Safety.{queue_messages, reconnected}
use pcom_assignments.PubSub.Server.Replies.{on_connection-reply}
use pcom_assignments.PubSub.Server.Datagram.{on_datagram-after_packet, step-IsServer}
use pcom_assignments.PubSub.Server.Away.{
  IsAside, IsAside-IsHandled, stored_of, missed, storing, after_packet-storing, Has,
  on_readable-Has, on_connection-Has,
}

-- A datagram changes no table but the objects.
on_datagram_same :
    (s : Server) (ip port : ℕ) (bytes : List ℕ)
    → Whenever
        (λ (o : Server × List Action).
          (o.0.exit_status ≡ s.exit_status) × (o.0.clients ≡ s.clients))
        (on_datagram s ip port bytes)
unfolding on_datagram
on_datagram_same s ip port bytes =
    Whenever->>=
      (deliver (topic_string (received_packet ip port bytes).udp_msg)
        (received_packet ip port bytes)
        (s.topic_to_clients (topic_string (received_packet ip port bytes).udp_msg)) s.objects)
      λ o. whenever (refl, refl)

nothing_stored :
    {id : Text} {r : ℕ} {cl : Client} {s : Server} → Has id r cl s → Has id r (storing cl []) s
nothing_stored {id} {r} {cl} {s} h = record {
  goes_on = h.goes_on;
  at_id = h.at_id;
  at =
      h.at
      ∙ ap (λ (q : List Packet). some (record cl { sf_queue = q })) (sym (append-nil cl.sf_queue));
}

module _ (udpsockfd tcpsockfd : ℕ) (id : Text) (r : ℕ) where
  -- One event aside stores what the client misses by it.
  step-Has :
      (s : Server) (cl : Client) (e : Event)
      → IsServer s
      → Has id r cl s
      → cl.connected ≡ false
      → IsAside id s e
      → Returns
          (λ (o : Server × List Action). Has id r (storing cl (stored_of cl.topics e)) o.0)
          (step udpsockfd tcpsockfd s e)
  unfolding step on_command
  step-Has s cl (command word) v h off aside = rw aside (returns (nothing_stored h))
  step-Has s cl (connection newsockfd bytes) v h off aside =
      Returns-mono (on_connection-Has id r cl s v h newsockfd bytes aside) λ o w. nothing_stored w
  step-Has s cl (readable i bytes) v h off aside =
      Returns-mono (on_readable-Has id r cl s v h i bytes aside.0 aside.1 aside.2 aside.3 aside.4)
        λ o w. nothing_stored w
  step-Has s cl (datagram ip port bytes) v h off aside =
      Returns-mono
        (Returns-Whenever (on_datagram-after_packet s v ip port bytes aside)
          (on_datagram_same s ip port bytes))
        λ o w. record {
          goes_on = w.1.0 ∙ h.goes_on;
          at_id = ap (λ (m : Text → Option ℕ). m id) w.1.1 ∙ h.at_id;
          at =
              w.0.1 r cl h.at
              ∙ ap some (
                  after_packet-storing (topic_string (received_packet ip port bytes).udp_msg)
                    (received_packet ip port bytes) cl off);
        }

  -- Every event is aside in the state that it meets.
  abbrev pub AreAside : Server → List Event → Type 0
  AreAside s [] = Unit {0}
  AreAside s (e ∷ es) =
      IsAside id s e
      × ((o : Server × List Action) → step udpsockfd tcpsockfd s e ≡ done o → AreAside o.0 es)

  -- Stored one behind the other.
  Has-append :
      {s : Server} (cl : Client) (ps qs : List Packet)
      → Has id r (storing (storing cl ps) qs) s
      → Has id r (storing cl (ps ++ qs)) s
  Has-append {s} cl ps qs h = record {
    goes_on = h.goes_on;
    at_id = h.at_id;
    at =
        h.at
        ∙ ap (λ (q : List Packet). some (record cl { sf_queue = q }))
            (append_assoc cl.sf_queue ps qs);
  }

  -- In tables that agree, a client that is away, and any events that are not of it and do not end the
  -- loop: `main_loop` returns, the tables agree, and the object of the client has behind its queue
  -- exactly the packets of its topics with the SF on, in the order of the datagrams.
  pub main_loop-Has :
      (s : Server) (cl : Client) (es : List Event)
      → IsServer s
      → Has id r cl s
      → cl.connected ≡ false
      → AreAside s es
      → Returns
          (λ (o : Server × List Action).
            IsServer o.0 × Has id r (storing cl (missed cl.topics es)) o.0)
          (main_loop udpsockfd tcpsockfd s es)
  unfolding main_loop
  main_loop-Has s cl [] v h off aside = returns (v, nothing_stored h)
  main_loop-Has s cl (e ∷ es) v h off aside =
      let (o, at, w) = Returns-eq (
        Returns-both (step-IsServer udpsockfd tcpsockfd s e v (IsAside-IsHandled id s e aside.0))
          (step-Has s cl e v h off aside.0)) in
      simp h.goes_on (
        rw at (
          Returns->>=
            (main_loop-Has o.0 (storing cl (stored_of cl.topics e)) es w.0 w.1 off (aside.1 o at))
            λ u x. returns (x.0, Has-append cl (stored_of cl.topics e) (missed cl.topics es) x.1)))

  -- Then a connection with the id of the client: it sends what the client has missed, behind what was
  -- in its queue before, in this order and once, and the queue is empty.
  pub main_loop-on_connection :
      (s : Server) (cl : Client) (es : List Event)
      → IsServer s
      → Has id r cl s
      → cl.connected ≡ false
      → AreAside s es
      → (newsockfd : ℕ) (bytes : List ℕ) → msg_type bytes ≡ id_msg
      → payload_string bytes ≡ id
      → Returns
          (λ (o : Server × List Action).
            (h : AreSendable (cl.sf_queue ++ missed cl.topics es)) × (o.1
              ≡ map sends (queue_messages newsockfd (cl.sf_queue ++ missed cl.topics es) h))
            × (get_elem? o.0.objects r
                ≡ some (record cl { fd = newsockfd; connected = true; sf_queue = [] })))
          (main_loop udpsockfd tcpsockfd s es >>= λ t. on_connection t.0 newsockfd bytes)
  main_loop-on_connection s cl es v h off aside newsockfd bytes is_id is_client =
      Returns->>= (main_loop-Has s cl es v h off aside) λ t w.
        let back = storing cl (missed cl.topics es) in
        let q = w.0.sendable r back w.1.at in
        Returns-mono
          (on_connection-reply t.0 newsockfd bytes r back is_id
            (ap t.0.clients is_client ∙ w.1.at_id) w.1.at q)
          λ o x.
            let y = x.3 off in
            (
              q,
              y.3,
              ap (λ (objects : List Client). get_elem? objects r) y.0
                  ∙ get_elem?-set_self t.0.objects r (reconnected back newsockfd)
                      (lt_of_get_elem? t.0.objects r w.1.at),
            )
