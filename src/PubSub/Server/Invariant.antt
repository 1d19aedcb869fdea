-- ===== src/PubSub/Server/Invariant.antt =====
-- PCom2/server.cpp: the tables of the server agree, and no event breaks them.
use native.Mathlib.Decide.{ℕ_discrete}
use pcom_assignments.Prelude.{
  ℕ, ◌<◌, ◌≡◌, refl, sym, ap, ◌∙◌, ◌≢◌, ◌⊎◌, inl, inr, arith, List, [], ◌∷◌, ◌++◌, Bool, true,
  false, Option, some, ==_refl, ne→not_==, length, length-append, get_elem?, set, length-set,
  get_elem?-set_self, get_elem?-set_ne, lt_of_get_elem?, get_elem?-append_left,
  get_elem?-append_last, append_last_cases, Bool-cases,
}
use pcom_assignments.Prelude.Texts.{Text, insert_or_assign, eq_text, eq_text_iff}
use pcom_assignments.PubSub.Protocol.{Packet}
use pcom_assignments.PubSub.Client.{Client, new_client, subscribe, unsubscribe, client_has_topic}
use pcom_assignments.PubSub.Server.{Server, member, insert_ref, erase_ref, set_subscribers}
use pcom_assignments.PubSub.Server.Delivery.{IsSendable, Distinct}
use pcom_assignments.PubSub.Server.Subscribers.{
  member-insert_ref, member-erase_ref, insert_ref-Distinct, erase_ref-Distinct, has-subscribe,
  has-unsubscribe,
}

abbrev pub AreSendable : List Packet → Type 0
AreSendable [] = Unit {0}
AreSendable (p ∷ ps) = IsSendable p × AreSendable ps

pub AreSendable-append :
    (ps qs : List Packet) → AreSendable ps → AreSendable qs → AreSendable (ps ++ qs)
AreSendable-append [] qs hp hq = hq
AreSendable-append (p ∷ ps) qs hp hq = (hp.0, AreSendable-append ps qs hp.1 hq)

-- The sets of subscribers are those of the clients that have the topic, the ids lead to the
-- objects with these ids, and what is queued can be sent.
pub record AreTables (objects : List Client) (clients : Text → Option ℕ)
    (subscribers : Text → List ℕ) : Type 0 where
  pub subscribed :
      (t : Text) (r : ℕ) (cl : Client)
      → get_elem? objects r ≡ some cl
      → member r (subscribers t) ≡ client_has_topic cl t
  pub known : (t : Text) (r : ℕ) → member r (subscribers t) ≡ true → r < length objects
  pub distinct : (t : Text) → Distinct (subscribers t)
  pub named :
      (id : Text) (r : ℕ)
      → clients id ≡ some r
      → (cl : Client) × (get_elem? objects r ≡ some cl) × (cl.id ≡ id)
  pub sendable : (r : ℕ) (cl : Client) → get_elem? objects r ≡ some cl → AreSendable cl.sf_queue

abbrev pub IsServer : Server → Type 0
IsServer s = AreTables s.objects s.clients s.topic_to_clients

-- An element of a list with one element written.
set_cases :
    (objects : List Client) (r q : ℕ) (v cl : Client)
    → get_elem? (set objects r v) q ≡ some cl
    → ((q ≡ r) × (cl ≡ v)) ⊎ ((q ≢ r) × (get_elem? objects q ≡ some cl))
set_cases objects r q v cl e = elim (ℕ_discrete q r) [
  | yes same ↦
      let lt = lt_of_get_elem? (set objects r v) q e in
      let self = get_elem?-set_self objects r v (omega (arith, lt, length-set objects r v, same)) in
      let both : some cl ≡ some v = sym e ∙ ap (get_elem? (set objects r v)) same ∙ self in
      inl (same, (cc))
  | no other ↦ inr (other, sym (get_elem?-set_ne objects v (λ back. other (sym back))) ∙ e)
]

module _ (objects : List Client) (clients : Text → Option ℕ) (subscribers : Text → List ℕ)
    (v : AreTables objects clients subscribers) where
  module _ (r : ℕ) (cl : Client) (at : get_elem? objects r ≡ some cl) (cl' : Client)
      (same_id : cl'.id ≡ cl.id) (queue : AreSendable cl'.sf_queue) where
    named_set :
        (id : Text) (q : ℕ)
        → clients id ≡ some q
        → (c : Client) × (get_elem? (set objects r cl') q ≡ some c) × (c.id ≡ id)
    named_set id q e =
        let (c, e', is) = v.named id q e in
        elim (ℕ_discrete q r) [
          | yes same ↦
              let both : some c ≡ some cl = sym e' ∙ ap (get_elem? objects) same ∙ at in
              let is_cl : c ≡ cl = cc in
              (
                cl',
                ap (get_elem? (set objects r cl')) same
                    ∙ get_elem?-set_self objects r cl' (lt_of_get_elem? objects r at),
                same_id ∙ sym (ap (λ (x : Client). x.id) is_cl) ∙ is,
              )
          | no other ↦ (c, get_elem?-set_ne objects cl' (λ back. other (sym back)) ∙ e', is)
        ]

    sendable_set :
        (q : ℕ) (c : Client) → get_elem? (set objects r cl') q ≡ some c → AreSendable c.sf_queue
    sendable_set q c e = elim (set_cases objects r q cl' c e) [
      | inl (_, is) ↦ rw is queue
      | inr (_, e') ↦ v.sendable q c e'
    ]

    -- An object is written, and the subscribers of one topic with it.
    pub AreTables-set :
        (subscribers' : Text → List ℕ)
        → ((t : Text) → Distinct (subscribers' t))
        → ((t : Text) → member r (subscribers' t) ≡ client_has_topic cl' t)
        → ((t : Text) (q : ℕ) → q ≢ r → member q (subscribers' t) ≡ member q (subscribers t))
        → AreTables (set objects r cl') clients subscribers'
    AreTables-set subscribers' apart here others = record {
      subscribed = λ t q c e. elim (set_cases objects r q cl' c e) [
        | inl (same, is) ↦ rw (same, is) (here t)
        | inr (other, e') ↦ others t q other ∙ v.subscribed t q c e'
      ];
      known = λ t q m. rw (length-set objects r cl') (elim (ℕ_discrete q r) [
        | yes same ↦ rw same (lt_of_get_elem? objects r at)
        | no other ↦ v.known t q (sym (others t q other) ∙ m)
      ]);
      distinct = apart;
      named = named_set;
      sendable = sendable_set;
    }

    -- An object is written and keeps its topics.
    pub AreTables-update :
        ((t : Text) → client_has_topic cl' t ≡ client_has_topic cl t)
        → AreTables (set objects r cl') clients subscribers
    AreTables-update same_topics =
        AreTables-set subscribers v.distinct (λ t. v.subscribed t r cl at ∙ sym (same_topics t))
          (λ t q other. refl)

  -- The object that a client subscribes or unsubscribes with.
  pub AreTables-subscribe :
      (r : ℕ) (cl : Client) (topic : Text) (sf : Bool)
      → get_elem? objects r ≡ some cl
      → AreTables
          (set objects r (subscribe cl topic sf))
          clients
          (set_subscribers topic (insert_ref r (subscribers topic)) subscribers)
  AreTables-subscribe r cl topic sf at =
      AreTables-set r cl at (subscribe cl topic sf) (unfold subscribe in refl)
        (unfold subscribe in v.sendable r cl at)
        (set_subscribers topic (insert_ref r (subscribers topic)) subscribers) apart here others
    where
      apart :
          (t : Text)
          → Distinct (set_subscribers topic (insert_ref r (subscribers topic)) subscribers t)
      apart t = elim (Bool-cases (eq_text topic t)) [
        | inl same ↦ rw same (insert_ref-Distinct r (subscribers topic) (v.distinct topic))
        | inr other ↦ rw other (v.distinct t)
      ]

      here :
          (t : Text)
          → member r (set_subscribers topic (insert_ref r (subscribers topic)) subscribers t)
            ≡ client_has_topic (subscribe cl topic sf) t
      here t = elim (Bool-cases (eq_text topic t)) [
        | inl same ↦
            rw
              (
                has-subscribe cl topic t sf,
                same,
                member-insert_ref r r (subscribers topic),
                ==_refl r,
              )
              refl
        | inr other ↦ rw (has-subscribe cl topic t sf, other) (v.subscribed t r cl at)
      ]

      others :
          (t : Text) (q : ℕ)
          → q ≢ r
          → member q (set_subscribers topic (insert_ref r (subscribers topic)) subscribers t)
            ≡ member q (subscribers t)
      others t q ne = elim (Bool-cases (eq_text topic t)) [
        | inl same ↦
            rw (same, member-insert_ref q r (subscribers topic), ne→not_== q r ne)
              (ap (λ (x : Text). member q (subscribers x)) ((eq_text_iff topic t).0 same))
        | inr other ↦ rw other refl
      ]

  pub AreTables-unsubscribe :
      (r : ℕ) (cl : Client) (topic : Text)
      → get_elem? objects r ≡ some cl
      → AreTables
          (set objects r (unsubscribe cl topic))
          clients
          (set_subscribers topic (erase_ref r (subscribers topic)) subscribers)
  AreTables-unsubscribe r cl topic at =
      AreTables-set r cl at (unsubscribe cl topic) (unfold unsubscribe in refl)
        (unfold unsubscribe in v.sendable r cl at)
        (set_subscribers topic (erase_ref r (subscribers topic)) subscribers) apart here others
    where
      apart :
          (t : Text)
          → Distinct (set_subscribers topic (erase_ref r (subscribers topic)) subscribers t)
      apart t = elim (Bool-cases (eq_text topic t)) [
        | inl same ↦ rw same (erase_ref-Distinct r (subscribers topic) (v.distinct topic))
        | inr other ↦ rw other (v.distinct t)
      ]

      here :
          (t : Text)
          → member r (set_subscribers topic (erase_ref r (subscribers topic)) subscribers t)
            ≡ client_has_topic (unsubscribe cl topic) t
      here t = elim (Bool-cases (eq_text topic t)) [
        | inl same ↦
            rw
              (
                has-unsubscribe cl topic t,
                same,
                member-erase_ref r r (subscribers topic),
                ==_refl r,
              )
              refl
        | inr other ↦ rw (has-unsubscribe cl topic t, other) (v.subscribed t r cl at)
      ]

      others :
          (t : Text) (q : ℕ)
          → q ≢ r
          → member q (set_subscribers topic (erase_ref r (subscribers topic)) subscribers t)
            ≡ member q (subscribers t)
      others t q ne = elim (Bool-cases (eq_text topic t)) [
        | inl same ↦
            rw (same, member-erase_ref q r (subscribers topic), ne→not_== q r ne)
              (ap (λ (x : Text). member q (subscribers x)) ((eq_text_iff topic t).0 same))
        | inr other ↦ rw other refl
      ]

  -- A new object for a new id.
  pub AreTables-new :
      (fd : ℕ) (id : Text)
      → AreTables
          (objects ++ new_client fd id ∷ [])
          (insert_or_assign eq_text id (length objects) clients)
          subscribers
  AreTables-new fd id = record {
    subscribed = λ t q c e. elim (append_last_cases objects (new_client fd id) q c e) [
      | inl old ↦ v.subscribed t q c old
      | inr (last, is) ↦ rw is (no_member t q last ∙ sym (no_topics t))
    ];
    known = λ t q m. omega (arith, v.known t q m, length-append objects (new_client fd id ∷ []));
    distinct = v.distinct;
    named = λ j q e. elim (Bool-cases (eq_text id j)) [
      | inl same ↦
          let at : some (length objects) ≡ some q = rw same at e in
          let is_last : length objects ≡ q = ground arith in
          (
            new_client fd id,
            rw (← is_last) (get_elem?-append_last objects (new_client fd id)),
            unfold new_client in (eq_text_iff id j).0 same,
          )
      | inr other ↦
          let at : clients j ≡ some q = rw other at e in
          let (c, e', is) = v.named j q at in
          (c, get_elem?-append_left objects (new_client fd id ∷ []) q e', is)
    ];
    sendable = λ q c e. elim (append_last_cases objects (new_client fd id) q c e) [
      | inl old ↦ v.sendable q c old
      | inr (last, is) ↦ rw is (unfold new_client in tt)
    ];
  }
    where
      no_member : (t : Text) (q : ℕ) → q ≡ length objects → member q (subscribers t) ≡ false
      no_member t q last = elim (Bool-cases (member q (subscribers t))) [
        | inl m ↦ absurd (omega (arith, v.known t q m, last))
        | inr absent ↦ absent
      ]

      no_topics : (t : Text) → client_has_topic (new_client fd id) t ≡ false
      no_topics t = unfold client_has_topic new_client in refl
