-- ===== src/PubSub/Server/Replies.antt =====
-- PCom2/server.cpp: what the server answers to a subscriber, and what it does to its tables.
use pcom_assignments.Prelude.{
  ℕ, ◌≡◌, refl, sym, ap, ◌∙◌, ◌≢◌, ◌↔◌, inl, inr, arith, List, [], ◌∷◌, map, Bool, true, false,
  Option, none, some, ◌==◌, ==_refl, if◌then◌else◌, get_elem?, set, get_elem?-set_self,
  get_elem?-set_ne, lt_of_get_elem?, Bool-cases, Option-cases,
}
use mathlib.Core.Bool.{false≢true}
use pcom_assignments.Prelude.Run.{Returns, returns}
use pcom_assignments.Prelude.Texts.{Text, eq_text, eq_text_refl}
use pcom_assignments.PubSub.Protocol.{
  exit_msg, conf_msg, err_msg, id_msg, msg_type, payload_string, payload_sf,
}
use pcom_assignments.PubSub.Client.{
  Client, is_found, subscribe, unsubscribe, client_has_topic, topic_has_sf,
}
use pcom_assignments.PubSub.Server.{
  Server, Action, sends, closes, member, insert_ref, erase_ref, set_subscribers, send_msg, eq_bool,
  has_same, on_known, on_connection, on_subscribe, on_unsubscribe,
}
use pcom_assignments.PubSub.Server.Invariant.{AreSendable}
use pcom_assignments.PubSub.Server.Subscribers.{member-insert_ref, member-erase_ref}
use pcom_assignments.PubSub.Server.Safety.{
  touched, client_at_lem, queue_messages, reconnect-messages,
}

-- The client has the topic with this SF exactly if its table says so.
has_same_iff :
    (cl : Client) (topic : Text) (sf : Bool)
    → (has_same cl topic sf ≡ true) ↔ (cl.topics topic ≡ some sf)
unfolding has_same client_has_topic topic_has_sf
has_same_iff cl topic sf = elim (Option-cases (cl.topics topic)) [
  | inl lacks ↦
      simp (lacks, has_same, client_has_topic, topic_has_sf) ((λ e. absurd cc), (λ e. absurd cc))
  | inr (b, has) ↦ simp (has, has_same, client_has_topic, topic_has_sf) (same_lem b sf)
]
  where
    same_lem : (b c : Bool) → (eq_bool b c ≡ true) ↔ (some b ≡ some c)
    same_lem true true = ((λ e. refl), (λ e. refl))
    same_lem true false = ((λ e. absurd cc), (λ e. absurd cc))
    same_lem false true = ((λ e. absurd cc), (λ e. absurd cc))
    same_lem false false = ((λ e. refl), (λ e. refl))

-- The client at `r` gets the entry for the topic, and is in the set of the topic exactly if there
-- is an entry; other clients and the sets of other topics stay as they are.
pub record Retopics (s t : Server) (r : ℕ) (cl : Client) (topic : Text) (entry : Option Bool)
    : Type 0 where
  pub at :
      get_elem? t.objects r
      ≡ some (record cl { topics = λ u. if eq_text topic u then entry else cl.topics u })
  pub others : (q : ℕ) → q ≢ r → get_elem? t.objects q ≡ get_elem? s.objects q
  pub same_clients : t.clients ≡ s.clients
  pub others_topics :
      (u : Text) → eq_text topic u ≡ false → t.topic_to_clients u ≡ s.topic_to_clients u
  pub sets :
      (q : ℕ)
      → member q (t.topic_to_clients topic)
        ≡ (if q == r then is_found entry else member q (s.topic_to_clients topic))

retopics_lem :
    (s t : Server) (r : ℕ) (cl : Client) (topic : Text) (entry : Option Bool) (rs : List ℕ)
    → get_elem? s.objects r ≡ some cl
    → t.objects
      ≡ set s.objects r (record cl { topics = λ u. if eq_text topic u then entry else cl.topics u })
    → t.clients ≡ s.clients
    → t.topic_to_clients ≡ set_subscribers topic rs s.topic_to_clients
    → ((q : ℕ)
        → member q rs ≡ (if q == r then is_found entry else member q (s.topic_to_clients topic)))
    → Retopics s t r cl topic entry
retopics_lem s t r cl topic entry rs at objects clients tables sets = record {
  at = simp objects (
      get_elem?-set_self s.objects r
        (record cl { topics = λ u. if eq_text topic u then entry else cl.topics u })
        (lt_of_get_elem? s.objects r at));
  others = λ q ne. simp objects (
      get_elem?-set_ne s.objects
        (record cl { topics = λ u. if eq_text topic u then entry else cl.topics u })
        (λ e. ne (sym e)));
  same_clients = clients;
  others_topics = λ u other. ap (λ (m : Text → List ℕ). m u) tables ∙ rw other refl;
  sets =
      λ q. ap (λ (m : Text → List ℕ). member q (m topic)) tables ∙ rw (eq_text_refl topic) (sets q);
}

module _ (s : Server) (i : ℕ) (bytes : List ℕ) (id : Text) (r : ℕ) (cl : Client)
    (at_fd : s.fd_to_id i ≡ some id) (at_id : s.clients id ≡ some r)
    (at : get_elem? s.objects r ≡ some cl) where
  -- If the client has the topic with the same SF, `on_subscribe` answers ERR and leaves the tables;
  -- otherwise it answers CONF.
  pub on_subscribe-reply :
      Returns
        (λ (o : Server × List Action).
          (cl.topics (payload_string bytes) ≡ some (payload_sf bytes)
            → (o.0 ≡ touched s i id) × (o.1 ≡ send_msg i err_msg ∷ []))
          × (cl.topics (payload_string bytes) ≢ some (payload_sf bytes)
              → Retopics s o.0 r cl (payload_string bytes) (some (payload_sf bytes))
                × (o.1 ≡ send_msg i conf_msg ∷ [])))
        (on_subscribe s i bytes)
  unfolding on_subscribe
  on_subscribe-reply =
      rw (client_at_lem s i id r cl at_fd at_id at)
        (elim (Bool-cases (has_same cl (payload_string bytes) (payload_sf bytes))) [
          | inl same ↦ rw same (
              returns (
                (λ e. (refl, refl)),
                (λ ne.
                    absurd
                      (ne ((has_same_iff cl (payload_string bytes) (payload_sf bytes)).0 same))),
              ))
          | inr other ↦ rw other (
              returns (
                (λ e. absurd (
                    false≢true (
                      sym other
                      ∙ (has_same_iff cl (payload_string bytes) (payload_sf bytes)).1 e))),
                (λ ne. (
                  retopics_lem s
                      (record (touched s i id) {
                        objects =
                            set s.objects r
                              (subscribe cl (payload_string bytes) (payload_sf bytes));
                        topic_to_clients =
                            set_subscribers (payload_string bytes)
                              (insert_ref r (s.topic_to_clients (payload_string bytes)))
                              s.topic_to_clients;
                      })
                      r cl (payload_string bytes) (some (payload_sf bytes))
                      (insert_ref r (s.topic_to_clients (payload_string bytes))) at
                      (unfold subscribe in refl) refl refl
                      (λ q.
                        rw (member-insert_ref q r (s.topic_to_clients (payload_string bytes)))
                          (ground arith)),
                  refl,
                )),
              ))
        ])

  -- If the client lacks the topic, `on_unsubscribe` answers ERR and leaves the tables; otherwise it
  -- answers CONF.
  pub on_unsubscribe-reply :
      Returns
        (λ (o : Server × List Action).
          (cl.topics (payload_string bytes) ≡ none
            → (o.0 ≡ touched s i id) × (o.1 ≡ send_msg i err_msg ∷ []))
          × (cl.topics (payload_string bytes) ≢ none
              → Retopics s o.0 r cl (payload_string bytes) none × (o.1 ≡ send_msg i conf_msg ∷ [])))
        (on_unsubscribe s i bytes)
  unfolding on_unsubscribe client_has_topic
  on_unsubscribe-reply =
      rw (client_at_lem s i id r cl at_fd at_id at)
        (elim (Option-cases (cl.topics (payload_string bytes))) [
          | inl lacks ↦ rw (lacks) (returns ((λ e. (refl, refl)), (λ ne. absurd (ne refl))))
          | inr (sf, has) ↦ rw (has) (
              returns (
                (λ e. absurd cc),
                (λ ne. (
                  retopics_lem s
                      (record (touched s i id) {
                        objects = set s.objects r (unsubscribe cl (payload_string bytes));
                        topic_to_clients =
                            set_subscribers (payload_string bytes)
                              (erase_ref r (s.topic_to_clients (payload_string bytes)))
                              s.topic_to_clients;
                      })
                      r cl (payload_string bytes) none
                      (erase_ref r (s.topic_to_clients (payload_string bytes))) at
                      (unfold unsubscribe in refl) refl refl
                      (λ q.
                        rw (member-erase_ref q r (s.topic_to_clients (payload_string bytes)))
                          (ground arith)),
                  refl,
                )),
              ))
        ])

-- A connection with the id of a client: if that is connected, the new connection gets EXIT and is
-- closed, and clients and topics stay as they are; otherwise the client takes the new descriptor and
-- its queue is sent there in its order and becomes empty.
pub on_connection-reply :
    (s : Server) (newsockfd : ℕ) (bytes : List ℕ) (r : ℕ) (cl : Client)
    → msg_type bytes ≡ id_msg
    → s.clients (payload_string bytes) ≡ some r
    → get_elem? s.objects r ≡ some cl
    → (h : AreSendable cl.sf_queue)
    → Returns
        (λ (o : Server × List Action).
          (o.0.clients ≡ s.clients)
          × (o.0.topic_to_clients ≡ s.topic_to_clients)
          × (cl.connected ≡ true
              → (o.0.objects ≡ s.objects)
                × (o.0.read_fds newsockfd ≡ false)
                × (o.1 ≡ send_msg newsockfd exit_msg ∷ closes newsockfd ∷ []))
          × (cl.connected ≡ false
              → (o.0.objects
                  ≡ set s.objects r (record cl { fd = newsockfd; connected = true; sf_queue = [] }))
                × (o.0.read_fds newsockfd ≡ true)
                × (o.0.fd_to_id newsockfd ≡ some (payload_string bytes))
                × (o.1 ≡ map sends (queue_messages newsockfd cl.sf_queue h))))
        (on_connection s newsockfd bytes)
unfolding on_connection on_known
on_connection-reply s newsockfd bytes r cl is_id at_id at h = simp is_id (
    rw (at_id, at)
      (elim (Bool-cases cl.connected) [
        | inl on ↦ rw on (
            returns
              (refl, refl, (λ e. (refl, rw (==_refl newsockfd) refl, refl)), (λ e. absurd cc)))
        | inr off ↦ simp off (
            rw (reconnect-messages cl newsockfd h) (
              returns (
                refl,
                refl,
                (λ e. absurd cc),
                (λ e. (refl, rw (==_refl newsockfd) refl, rw (==_refl newsockfd) refl, refl)),
              )))
      ]))
