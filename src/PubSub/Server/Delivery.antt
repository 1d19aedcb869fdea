-- ===== src/PubSub/Server/Delivery.antt =====
-- PCom2/server.cpp: what a datagram does to the clients, each by itself.
use native.Mathlib.Decide.{ℕ_discrete}
use mathlib.Core.Bool.{false≢true}
use pcom_assignments.Prelude.{
  ℕ, ◌+◌, ◌≡◌, refl, sym, ap, ◌∙◌, ◌≢◌, inl, inr, List, [], ◌∷◌, ◌++◌, Bool, true, false, Option,
  none, some, ==_refl, ne→not_==, if◌then◌else◌, length, get_elem?, set, length-set,
  get_elem?-set_self, get_elem?-set_ne, lt_of_get_elem?, Bool-cases,
}
use pcom_assignments.Prelude.Run.{done, Returns, returns, Returns->>=}
use pcom_assignments.Prelude.Texts.{Text}
use pcom_assignments.PubSub.Protocol.{
  Packet, pkt_msg, topic_len, proto_msg, size_packet_bytes, topic_string,
}
use pcom_assignments.PubSub.Client.{
  Sent, Client, client_has_topic, topic_has_sf, store_packet, content_size_of, string_size,
  packet_bytes, sizes, send_packet,
}
use pcom_assignments.PubSub.Server.{member, offer, deliver}

-- The data type is one of the four, so that the packet has a size.
abbrev pub IsSendable : Packet → Type 0
IsSendable pkt = (n : ℕ) × (content_size_of pkt.udp_msg ≡ some n)

-- The two messages that carry a packet whose content has `n` bytes: its sizes, and itself.
abbrev pub size_message : Packet → (n : ℕ) → List ℕ
size_message pkt n =
    let topic_size = string_size topic_len (topic_string pkt.udp_msg) in
    proto_msg pkt_msg (
      size_packet_bytes (record {
        to_receive = 4 + 2 + topic_size + 1 + n;
        topic_size = topic_size;
        content_size = n;
      }))

abbrev pub packet_message : Packet → (n : ℕ) → List ℕ
packet_message pkt n = packet_bytes pkt (string_size topic_len (topic_string pkt.udp_msg)) n

abbrev pub messages : (fd : ℕ) → Packet → (n : ℕ) → List Sent
messages fd pkt n =
    record { fd = fd; bytes = size_message pkt n }
    ∷ record { fd = fd; bytes = packet_message pkt n }
    ∷ []

sizes_lem :
    (pkt : Packet) (n : ℕ)
    → content_size_of pkt.udp_msg ≡ some n
    → sizes pkt
      ≡ done (record {
        to_receive = 4 + 2 + string_size topic_len (topic_string pkt.udp_msg) + 1 + n;
        topic_size = string_size topic_len (topic_string pkt.udp_msg);
        content_size = n;
      })
unfolding sizes
sizes_lem pkt n at = simp (at, sizes)

pub send_packet-messages :
    (cl : Client) (pkt : Packet) (n : ℕ)
    → content_size_of pkt.udp_msg ≡ some n
    → send_packet cl pkt ≡ done (messages cl.fd pkt n)
unfolding send_packet
send_packet-messages cl pkt n at = rw (sizes_lem pkt n at) refl

-- What a datagram leaves of a client: a disconnected one with SF on for the topic stores it.
abbrev pub after_packet : (topic : Text) → Packet → Client → Client
after_packet topic pkt cl = elim (cl.topics topic) [
  | none ↦ cl
  | some sf ↦ if cl.connected then cl else if sf then store_packet cl pkt else cl
]

-- What it sends to a subscriber: a connected one gets the packet.
abbrev pub frames : Packet → (n : ℕ) → Client → List Sent
frames pkt n cl = if cl.connected then messages cl.fd pkt n else []

abbrev pub frames_of : Packet → (n : ℕ) → List ℕ → List Client → List Sent
frames_of pkt n [] objects = []
frames_of pkt n (r ∷ rs) objects =
    (elim (get_elem? objects r) as (λ _. List Sent) [ none ↦ [] | some cl ↦ frames pkt n cl ])
    ++ frames_of pkt n rs objects

abbrev pub Distinct : List ℕ → Type 0
Distinct [] = Unit {0}
Distinct (r ∷ rs) = (member r rs ≡ false) × Distinct rs

-- Every reference of the list is to an object that has the topic.
abbrev pub AreSubscribers : (topic : Text) → List ℕ → List Client → Type 0
AreSubscribers topic rs objects =
    (r : ℕ)
    → member r rs ≡ true
    → (cl : Client) × (get_elem? objects r ≡ some cl) × (client_has_topic cl topic ≡ true)

no_topic : (topic : Text) (cl : Client) → cl.topics topic ≡ none → client_has_topic cl topic ≡ false
unfolding client_has_topic
no_topic topic cl e = simp (e, client_has_topic)

offer_lem :
    (topic : Text) (pkt : Packet) (n : ℕ) (cl : Client)
    → content_size_of pkt.udp_msg ≡ some n
    → client_has_topic cl topic ≡ true
    → offer topic pkt cl ≡ done (after_packet topic pkt cl, frames pkt n cl)
unfolding offer topic_has_sf
offer_lem topic pkt n cl at has = by_topic (cl.topics topic) refl
  where
    by_topic :
        (o : Option Bool)
        → cl.topics topic ≡ o
        → offer topic pkt cl ≡ done (after_packet topic pkt cl, frames pkt n cl)
    by_topic none e = absurd (false≢true (sym (no_topic topic cl e) ∙ has))
    by_topic (some sf) e = elim (Bool-cases cl.connected) [
      | inl on ↦ simp (e, on, after_packet, send_packet-messages cl pkt n at)
      | inr off ↦ elim (Bool-cases sf) [
        | inl stores ↦ simp (e, off, stores, after_packet, topic_has_sf)
        | inr drops ↦ simp (e, off, drops, after_packet, topic_has_sf)
      ]
    ]

set_same :
    (objects : List Client) (r : ℕ) (cl : Client)
    → get_elem? objects r ≡ some cl
    → (v : Client) → get_elem? (set objects r v) r ≡ some v
set_same objects r cl at v = get_elem?-set_self objects r v (lt_of_get_elem? objects r at)

member-cons_ne : (q r : ℕ) (rs : List ℕ) → q ≢ r → member q (r ∷ rs) ≡ member q rs
member-cons_ne q r rs ne = rw (ne→not_== q r ne) refl

not_member-ne : (q r : ℕ) (rs : List ℕ) → member q rs ≡ true → member r rs ≡ false → q ≢ r
not_member-ne q r rs yes_q no_r e =
    false≢true (sym no_r ∙ ap (λ (x : ℕ). member x rs) (sym e) ∙ yes_q)

-- The messages depend on the other objects only.
frames_of-set :
    (pkt : Packet) (n r : ℕ) (rs : List ℕ) (objects : List Client) (v : Client)
    → member r rs ≡ false
    → frames_of pkt n rs (set objects r v) ≡ frames_of pkt n rs objects
frames_of-set pkt n r [] objects v out = refl
frames_of-set pkt n r (q ∷ rs) objects v out = elim (ℕ_discrete r q) [
  | yes same ↦
      let here : true ≡ false = rw (same, ==_refl q) at out in absurd (false≢true (sym here))
  | no other ↦
      rw (get_elem?-set_ne objects v other)
        (ap (◌++◌ _) (frames_of-set pkt n r rs objects v (sym (member-cons_ne r q rs other) ∙ out)))
]

module _ (topic : Text) (pkt : Packet) (n : ℕ) (at : content_size_of pkt.udp_msg ≡ some n) where
  -- What `deliver` leaves of the objects, and what it sends.
  pub record Delivered (rs : List ℕ) (objects : List Client) (o : List Client × List Sent)
      : Type 0 where
    pub count : length o.0 ≡ length objects
    pub each :
        (r : ℕ) (cl : Client)
        → get_elem? objects r ≡ some cl
        → get_elem? o.0 r ≡ some (if member r rs then after_packet topic pkt cl else cl)
    pub sent : o.1 ≡ frames_of pkt n rs objects

  pub deliver-Delivered :
      (rs : List ℕ) (objects : List Client)
      → Distinct rs
      → AreSubscribers topic rs objects
      → Returns (Delivered rs objects) (deliver topic pkt rs objects)
  unfolding deliver
  deliver-Delivered [] objects apart have =
      returns (record { count = refl; each = λ r cl e. e; sent = refl })
  deliver-Delivered (r ∷ rs) objects apart have =
      let (cl, at_r, has) = have r (rw (==_refl r) refl) in
      let objects' = set objects r (after_packet topic pkt cl) in
      rw (at_r, offer_lem topic pkt n cl at has)
        (Returns->>= (deliver-Delivered rs objects' apart.1 (others (after_packet topic pkt cl)))
          λ o v. returns (record {
            count = v.count ∙ length-set objects r (after_packet topic pkt cl);
            each = λ q c e. elim (ℕ_discrete q r) [
              | yes same ↦
                  let kept =
                    v.each r (after_packet topic pkt cl)
                      (set_same objects r cl at_r (after_packet topic pkt cl)) in
                  let kept' : get_elem? o.0 r ≡ some (after_packet topic pkt cl) =
                    rw apart.0 at kept in
                  let is_cl : some c ≡ some cl = sym e ∙ ap (get_elem? objects) same ∙ at_r in
                  let is_cl' : cl ≡ c = cc in
                  rw (same, ==_refl r)
                    (kept' ∙ ap (λ (x : Client). some (after_packet topic pkt x)) is_cl')
              | no other ↦ rw (member-cons_ne q r rs other) (
                  v.each q c (
                    get_elem?-set_ne objects (after_packet topic pkt cl) (λ back. other (sym back))
                    ∙ e))
            ];
            sent = rw at_r (
                ap (◌++◌ (frames pkt n cl))
                  (v.sent ∙ frames_of-set pkt n r rs objects (after_packet topic pkt cl) apart.0));
          }))
    where
      others : (cl : Client) → AreSubscribers topic rs (set objects r cl)
      others cl q m =
          let ne = not_member-ne q r rs m apart.0 in
          let (c, e, has) = have q (rw (ne→not_== q r ne) m) in
          (c, get_elem?-set_ne objects cl (λ back. ne (sym back)) ∙ e, has)
