-- ===== src/PubSub/Subscriber/Composition.antt =====
-- PCom2/subscriber.cpp and server.cpp: the server acts on the request of a subscriber.
use pcom_assignments.Prelude.{
  ℕ, ◌<◌, ◌≡◌, refl, sym, ap, ◌∙◌, ◌≢◌, arith, List, [], ◌∷◌, ◌++◌, Bool, true, false, ◌&&◌, none,
  some, ◌==◌, if◌then◌else◌, length, get_elem?,
}
use mathlib.Core.Path.{subst}
use pcom_assignments.Prelude.Run.{Returns, Returns-mono}
use pcom_assignments.Prelude.Texts.{Text, text, IsString}
use pcom_assignments.PubSub.Protocol.{
  sub_msg, unsub_msg, conf_msg, proto_msg, msg_type, payload_string, payload_sf,
}
use pcom_assignments.PubSub.Client.{Client}
use pcom_assignments.PubSub.Server.{
  Server, Action, send_msg, on_readable, on_subscribe, on_unsubscribe,
}
use pcom_assignments.PubSub.Server.Replies.{Retopics, on_subscribe-reply, on_unsubscribe-reply}
use pcom_assignments.PubSub.Subscriber.{Printed, out, print_feedback, sub_unsub}
use pcom_assignments.PubSub.Subscriber.Requests.{sub_unsub-payload}

-- What the server answers a subscriber prints as `shown`.
abbrev pub Answers : (i type : ℕ) → List Action → Printed → Type 0
Answers i type actions shown =
    (answer : ℕ) × (actions ≡ send_msg i answer ∷ [])
    × (print_feedback type (proto_msg answer []) ≡ shown)

module _ {P : Server × List Action → Type 0} (s : Server) (i : ℕ) where
  -- A message is read by its type.
  read_as_subscribe :
      (message : List ℕ)
      → msg_type message ≡ sub_msg
      → Returns P (on_subscribe s i message)
      → Returns P (on_readable s i message)
  unfolding on_readable
  read_as_subscribe [] e h = absurd (omega (arith, e))
  read_as_subscribe (b ∷ message) e h = rw (subst (λ (c : ℕ). (c == sub_msg) ≡ true) (sym e) refl) h

  read_as_unsubscribe :
      (message : List ℕ)
      → msg_type message ≡ unsub_msg
      → Returns P (on_unsubscribe s i message)
      → Returns P (on_readable s i message)
  unfolding on_readable
  read_as_unsubscribe [] e h = absurd (omega (arith, e))
  read_as_unsubscribe (b ∷ message) e h =
      rw
        (
          subst (λ (c : ℕ). (c == sub_msg) ≡ false) (sym e) refl,
          subst (λ (c : ℕ). (c == unsub_msg) ≡ true) (sym e) refl,
        )
        h

module _ (s : Server) (i : ℕ) (id : Text) (r : ℕ) (cl : Client) (at_fd : s.fd_to_id i ≡ some id)
    (at_id : s.clients id ≡ some r) (at : get_elem? s.objects r ≡ some cl) (topic : Text)
    (feedback : List ℕ) (string : IsString topic) (size : length topic < 50) where
  -- A topic of less than 50 characters is received as it is.
  short_lem : (sf : Bool) → (if length topic == 50 && sf then topic ++ 1 ∷ [] else topic) ≡ topic
  short_lem sf = let short : (length topic == 50) ≡ false = ground (arith, size) in rw short refl

  subscribed_lem :
      (message : List ℕ) (sf : Bool)
      → payload_string message ≡ topic
      → payload_sf message ≡ sf
      → cl.topics topic ≢ some sf
      → Returns
          (λ (t : Server × List Action).
            Retopics s t.0 r cl topic (some sf)
            × Answers i sub_msg t.1 (out (text "Subscribed to topic.\n")))
          (on_subscribe s i message)
  unfolding print_feedback
  subscribed_lem message sf is_topic is_sf fresh =
      Returns-mono (on_subscribe-reply s i message id r cl at_fd at_id at) λ t w.
        let (tables, sent) = w.1 (λ e. fresh (ap cl.topics (sym is_topic) ∙ e ∙ ap some is_sf)) in
        (
          subst (λ (x : Text). Retopics s t.0 r cl x (some sf)) is_topic
              (subst (λ (b : Bool). Retopics s t.0 r cl (payload_string message) (some b)) is_sf
                tables),
          (conf_msg, sent, refl),
        )

  unsubscribed_lem :
      (message : List ℕ)
      → payload_string message ≡ topic
      → cl.topics topic ≢ none
      → Returns
          (λ (t : Server × List Action).
            Retopics s t.0 r cl topic none
            × Answers i unsub_msg t.1 (out (text "Unsubscribed from topic.\n")))
          (on_unsubscribe s i message)
  unfolding print_feedback
  unsubscribed_lem message is_topic has =
      Returns-mono (on_unsubscribe-reply s i message id r cl at_fd at_id at) λ t w.
        let (tables, sent) = w.1 (λ e. has (ap cl.topics (sym is_topic) ∙ e)) in
        (subst (λ (x : Text). Retopics s t.0 r cl x none) is_topic tables, (conf_msg, sent, refl))

  -- The descriptor of a client with an id, and a topic of less than 50 characters without a NUL
  -- character, which the client does not have with this SF: the server that reads the request to
  -- subscribe gives the client the topic with the SF, and its answer makes the subscriber print
  -- that it is subscribed.
  pub on_readable-sub_unsub :
      (sf : Bool)
      → cl.topics topic ≢ some sf
      → Returns
          (λ (o : List ℕ × Printed).
            Returns
              (λ (t : Server × List Action).
                Retopics s t.0 r cl topic (some sf)
                × Answers i sub_msg t.1 (out (text "Subscribed to topic.\n")))
              (on_readable s i o.0))
          (sub_unsub topic sf sub_msg feedback)
  on_readable-sub_unsub sf fresh =
      Returns-mono (sub_unsub-payload topic sf sub_msg feedback string (omega (arith, size)))
        λ o w. read_as_subscribe s i o.0 w.1 (subscribed_lem o.0 sf (w.3 ∙ short_lem sf) w.2 fresh)

  -- And a request to unsubscribe from a topic that the client has takes that from it.
  pub on_readable-unsubscribe :
      cl.topics topic ≢ none
      → Returns
          (λ (o : List ℕ × Printed).
            Returns
              (λ (t : Server × List Action).
                Retopics s t.0 r cl topic none
                × Answers i unsub_msg t.1 (out (text "Unsubscribed from topic.\n")))
              (on_readable s i o.0))
          (sub_unsub topic false unsub_msg feedback)
  on_readable-unsubscribe has =
      Returns-mono (sub_unsub-payload topic false unsub_msg feedback string (omega (arith, size)))
        λ o w. read_as_unsubscribe s i o.0 w.1 (unsubscribed_lem o.0 (w.3 ∙ short_lem false) has)
