-- ===== src/PubSub/Examples.antt =====
-- PCom2/server.cpp: the theorems on the server at a concrete run.
pub mod Subscriber
pub mod Missed
pub mod Strangers
pub mod Reuse
use pcom_assignments.Prelude.{
  ◌≤◌, ℕ, ◌≡◌, refl, ◌≢◌, arith, List, [], ◌∷◌, ◌++◌, map, Bool, true, false, Option, none, some,
  get_elem?, set,
}
use pcom_assignments.Prelude.Run.{Run, done, fault, Returns}
use pcom_assignments.Prelude.Texts.{Text, text, fit, eq_text, insert_or_assign}
use pcom_assignments.PubSub.Protocol.{
  id_msg, sub_msg, unsub_msg, conf_msg, err_msg, exit_msg, payload_string, payload_sf, topic_string,
}
use pcom_assignments.PubSub.Client.{
  Client, Sent, new_client, disconnect, subscribe, unsubscribe, client_has_topic, topic_has_sf,
  store_packet, content_size_of, packet_bytes, sizes, send_packet, send_queued, reconnect,
}
use pcom_assignments.PubSub.Server.{
  Server, Action, sends, closes, send_msg, member, Event, command, datagram, connection, readable,
  client_at, offer, deliver, received_packet, on_datagram, on_known, on_connection, on_close,
  has_same, on_subscribe, on_unsubscribe, on_readable, exit_loop, on_command, step, initial,
}
use pcom_assignments.PubSub.Server.Delivery.{IsSendable, Distinct, after_packet, frames_of}
use pcom_assignments.PubSub.Server.Replies.{
  Retopics, on_subscribe-reply, on_unsubscribe-reply, on_connection-reply,
}
use pcom_assignments.PubSub.Server.Exit.{on_command-farewells}
use pcom_assignments.PubSub.Subscriber.{Printed, out, sub_unsub}
use pcom_assignments.PubSub.Subscriber.Composition.{Answers, on_readable-sub_unsub}
use pcom_assignments.PubSub.Server.Invariant.{IsServer}
use pcom_assignments.PubSub.Server.Safety.{Keeps, touched}
use pcom_assignments.PubSub.Server.Datagram.{
  Reaches, start, next, on_datagram-after_packet, step-IsServer, Reaches-IsServer,
}

-- The UDP socket is 3 and the TCP socket 4.
abbrev after : Server → Event → Server
after s e = elim (step 3 4 s e) [ done o ↦ o.0 | fault f ↦ s ]

-- Client "a" connects on 5, subscribes with SF to "t" and leaves; "b" connects on 5 and subscribes
-- without.
abbrev a_connects : Event
a_connects = connection 5 (id_msg ∷ text "a")

abbrev a_subscribes : Event
a_subscribes = readable 5 (sub_msg ∷ fit 50 (text "t") ++ 1 ∷ [])

abbrev a_leaves : Event
a_leaves = readable 5 []

abbrev b_connects : Event
b_connects = connection 5 (id_msg ∷ text "b")

abbrev b_subscribes : Event
b_subscribes = readable 5 (sub_msg ∷ fit 50 (text "t") ++ 0 ∷ [])

abbrev s1 : Server
s1 = after (initial 3 4) a_connects

abbrev s2 : Server
s2 = after s1 a_subscribes

abbrev s3 : Server
s3 = after s2 a_leaves

abbrev s4 : Server
s4 = after s3 b_connects

abbrev s5 : Server
s5 = after s4 b_subscribes

reaches5 : Reaches 3 4 s5
unfolding initial step on_connection new_client on_readable on_subscribe client_at has_same
    client_has_topic subscribe on_close disconnect
reaches5 =
    next b_subscribes
      (next b_connects
        (next a_leaves
          (next a_subscribes (next a_connects start tt refl) (text "a", 0, refl, refl) refl)
          (text "a", 0, refl, refl) refl)
        tt refl)
      (text "b", 1, refl, refl) refl

Reaches-IsServer_example : IsServer s5
Reaches-IsServer_example = Reaches-IsServer 3 4 reaches5

step-IsServer_example : Keeps (step 3 4 s5 (readable 5 []))
unfolding initial step on_connection new_client on_readable on_subscribe client_at has_same
    client_has_topic subscribe on_close disconnect
step-IsServer_example =
    step-IsServer 3 4 s5 (readable 5 []) (Reaches-IsServer 3 4 reaches5) (text "b", 1, refl, refl)

-- A string "hi" for the topic "t".
abbrev hi : List ℕ
hi = fit 50 (text "t") ++ 3 ∷ text "hi"

hi-IsSendable : IsSendable (received_packet 1 2 hi)
unfolding content_size_of
hi-IsSendable = (3, refl)

on_datagram-after_packet_example :
    Returns
      (λ (o : Server × List Action).
        let pkt = received_packet 1 2 hi in
        let topic = topic_string pkt.udp_msg in
        IsServer o.0
        × ((r : ℕ) (cl : Client)
            → get_elem? s5.objects r ≡ some cl
            → get_elem? o.0.objects r ≡ some (after_packet topic pkt cl))
        × (o.1 ≡ map sends (frames_of pkt hi-IsSendable.0 (s5.topic_to_clients topic) s5.objects))
        × Distinct (s5.topic_to_clients topic)
        × ((r : ℕ) (cl : Client)
            → get_elem? s5.objects r ≡ some cl
            → member r (s5.topic_to_clients topic) ≡ client_has_topic cl topic))
      (on_datagram s5 1 2 hi)
on_datagram-after_packet_example =
    on_datagram-after_packet s5 (Reaches-IsServer 3 4 reaches5) 1 2 hi hi-IsSendable

abbrev a_away : Client
a_away = record {
  id = text "a";
  connected = false;
  fd = 5;
  topics = insert_or_assign eq_text (text "t") true (λ t. none);
  sf_queue = [];
}

abbrev pub b_here : Client
b_here = record {
  id = text "b";
  connected = true;
  fd = 5;
  topics = insert_or_assign eq_text (text "t") false (λ t. none);
  sf_queue = [];
}

abbrev subscribe_t : List ℕ
subscribe_t = sub_msg ∷ fit 50 (text "t") ++ 0 ∷ []

abbrev unsubscribe_t : List ℕ
unsubscribe_t = unsub_msg ∷ fit 50 (text "t") ++ 0 ∷ []

on_subscribe-reply_example :
    Returns
      (λ (o : Server × List Action).
        (b_here.topics (payload_string subscribe_t) ≡ some (payload_sf subscribe_t)
          → (o.0 ≡ touched s5 5 (text "b")) × (o.1 ≡ send_msg 5 err_msg ∷ []))
        × (b_here.topics (payload_string subscribe_t) ≢ some (payload_sf subscribe_t)
            → Retopics s5 o.0 1 b_here (payload_string subscribe_t) (some (payload_sf subscribe_t))
              × (o.1 ≡ send_msg 5 conf_msg ∷ [])))
      (on_subscribe s5 5 subscribe_t)
unfolding initial step on_connection new_client on_readable on_subscribe client_at has_same
    client_has_topic subscribe on_close disconnect
on_subscribe-reply_example = on_subscribe-reply s5 5 subscribe_t (text "b") 1 b_here refl refl refl

on_unsubscribe-reply_example :
    Returns
      (λ (o : Server × List Action).
        (b_here.topics (payload_string unsubscribe_t) ≡ none
          → (o.0 ≡ touched s5 5 (text "b")) × (o.1 ≡ send_msg 5 err_msg ∷ []))
        × (b_here.topics (payload_string unsubscribe_t) ≢ none
            → Retopics s5 o.0 1 b_here (payload_string unsubscribe_t) none
              × (o.1 ≡ send_msg 5 conf_msg ∷ [])))
      (on_unsubscribe s5 5 unsubscribe_t)
unfolding initial step on_connection new_client on_readable on_subscribe client_at has_same
    client_has_topic subscribe on_close disconnect
on_unsubscribe-reply_example =
    on_unsubscribe-reply s5 5 unsubscribe_t (text "b") 1 b_here refl refl refl

abbrev a_returns : List ℕ
a_returns = id_msg ∷ text "a"

on_connection-reply_example :
    Returns
      (λ (o : Server × List Action).
        (o.0.clients ≡ s5.clients)
        × (o.0.topic_to_clients ≡ s5.topic_to_clients)
        × (false ≡ true
            → (o.0.objects ≡ s5.objects)
              × (o.0.read_fds 6 ≡ false)
              × (o.1 ≡ send_msg 6 exit_msg ∷ closes 6 ∷ []))
        × (false ≡ false
            → (o.0.objects
                ≡ set s5.objects 0 (record a_away { fd = 6; connected = true; sf_queue = [] }))
              × (o.0.read_fds 6 ≡ true)
              × (o.0.fd_to_id 6 ≡ some (text "a"))
              × (o.1 ≡ [])))
      (on_connection s5 6 a_returns)
unfolding initial step on_connection new_client on_readable on_subscribe client_at has_same
    client_has_topic subscribe on_close disconnect
on_connection-reply_example = on_connection-reply s5 6 a_returns 0 a_away refl refl refl tt

on_readable-sub_unsub_example :
    Returns
      (λ (o : List ℕ × Printed).
        Returns
          (λ (t : Server × List Action).
            Retopics s5 t.0 1 b_here (text "u") (some true)
            × Answers 5 sub_msg t.1 (out (text "Subscribed to topic.\n")))
          (on_readable s5 5 o.0))
      (sub_unsub (text "u") true sub_msg [])
unfolding initial step on_connection new_client on_readable on_subscribe client_at has_same
    client_has_topic subscribe on_close disconnect
on_readable-sub_unsub_example =
    on_readable-sub_unsub s5 5 (text "b") 1 b_here refl refl refl (text "u") [] ((omega arith), tt)
      (omega arith) true (λ e. cc)

on_command-farewells_example :
    let o = on_command 3 4 s5 (text "exit") in
    (o.0.exit_status ≡ true)
    × (o.1 ≡ send_msg 5 exit_msg ∷ closes 5 ∷ [])
    × ((k : ℕ) → 3 ≤ k → k ≤ s5.fdmax → k ≢ 3 → k ≢ 4 → o.0.read_fds k ≡ false)
unfolding initial step on_connection new_client on_readable on_subscribe client_at has_same
    client_has_topic subscribe on_close disconnect
on_command-farewells_example = on_command-farewells 3 4 s5 (text "exit") refl
