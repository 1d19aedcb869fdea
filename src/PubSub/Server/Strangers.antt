-- ===== src/PubSub/Server/Strangers.antt =====
-- PCom2/server.cpp: what a sender that is no client can do to the server.
use native.Mathlib.Decide.{ℕ_discrete}
use mathlib.Core.Bool.{false≢true}
use pcom_assignments.Prelude.{
  ℕ, ◌<◌, ◌≡◌, ◌≢◌, refl, sym, ◌∙◌, ap, inl, inr, arith, List, [], ◌∷◌, true, false, none, some,
  ==_refl, ne→not_==, get_elem?, get_elem?-set_ne, get_elem?-set_self, lt_of_get_elem?, set, ltb,
  if◌then◌else◌, Bool-cases,
}
use pcom_assignments.Prelude.Run.{done, fault, uninitialised, null_pointer}
use pcom_assignments.Prelude.Texts.{Text}
use pcom_assignments.PubSub.Protocol.{Packet, id_msg, msg_type, topic_string}
use pcom_assignments.PubSub.Client.{Client, client_has_topic, content_size_of, sizes, send_packet}
use pcom_assignments.PubSub.Server.{
  Server, connection, readable, datagram, Event, set_fd, member, offer, deliver, received_packet,
  on_datagram, on_connection, step, main_loop,
}
use pcom_assignments.PubSub.Server.Invariant.{IsServer}
use pcom_assignments.PubSub.Server.Datagram.{subscribers_lem}
use pcom_assignments.PubSub.Server.Reuse.{missing-Breaks}

-- The data type is none of the four.
unsized : (pkt : Packet) → 3 < pkt.udp_msg.data_type → content_size_of pkt.udp_msg ≡ none
unfolding content_size_of
unsized pkt wide = ground arith

sizes-uninitialised : (pkt : Packet) → 3 < pkt.udp_msg.data_type → sizes pkt ≡ fault uninitialised
unfolding sizes
sizes-uninitialised pkt wide = simp (unsized pkt wide, sizes)

-- Every reference of the list is to an object.
AreObjects : List ℕ → List Client → Type 0
AreObjects rs objects = (q : ℕ) → member q rs ≡ true → (c : Client) × (get_elem? objects q ≡ some c)

AreObjects-set :
    (q : ℕ) (rs : List ℕ) (objects : List Client) (c : Client)
    → AreObjects (q ∷ rs) objects
    → AreObjects rs (set objects q c)
unfolding AreObjects
AreObjects-set q rs objects c have p m = elim (ℕ_discrete p q) [
  | yes same ↦
      let (old, at) = have q (rw (==_refl q) refl) in
      (
        c,
        ap (get_elem? (set objects q c)) same
            ∙ get_elem?-set_self objects q c (lt_of_get_elem? objects q at),
      )
  | no other ↦
      let (old, at) = have p (rw (ne→not_== p q other) m) in
      (old, get_elem?-set_ne objects c (λ back. other (sym back)) ∙ at)
]

module _ (topic : Text) (pkt : Packet) (wide : 3 < pkt.udp_msg.data_type) where
  offer_connected : (cl : Client) → cl.connected ≡ true → offer topic pkt cl ≡ fault uninitialised
  unfolding offer send_packet
  offer_connected cl on = simp on (rw (sizes-uninitialised pkt wide) refl)

  -- A client that is away is passed over, with or without the packet in its queue.
  offer_away :
      (cl : Client) → cl.connected ≡ false → (cl' : Client) × (offer topic pkt cl ≡ done (cl', []))
  unfolding offer
  offer_away cl off = simp off (_, refl)

  -- The loop over the subscribers gets to the connected one, or faults before.
  deliver-uninitialised :
      (rs : List ℕ) (objects : List Client)
      → AreObjects rs objects
      → (r : ℕ) (cl : Client) → member r rs ≡ true
      → get_elem? objects r ≡ some cl
      → cl.connected ≡ true
      → deliver topic pkt rs objects ≡ fault uninitialised
  unfolding deliver AreObjects
  deliver-uninitialised [] objects have r cl m at on = absurd (false≢true m)
  deliver-uninitialised (q ∷ rs) objects have r cl m at on =
      let (c, at_q) = have q (rw (==_refl q) refl) in
      elim (Bool-cases c.connected) [
        | inl on_q ↦ rw (at_q, offer_connected c on_q) refl
        | inr off_q ↦
            let (c', passed) = offer_away c off_q in
            rw
              (
                at_q,
                passed,
                deliver-uninitialised rs (set objects q c') (AreObjects-set q rs objects c' have) r
                    cl (behind c at_q off_q)
                    (get_elem?-set_ne objects c' (λ back. apart c at_q off_q (sym back)) ∙ at) on,
              )
              refl
      ]
    where
      apart : (c : Client) → get_elem? objects q ≡ some c → c.connected ≡ false → r ≢ q
      apart c at_q off_q same =
          let both : some c ≡ some cl = sym at_q ∙ ap (get_elem? objects) (sym same) ∙ at in
          let is : c ≡ cl = cc in false≢true (sym off_q ∙ ap (λ (x : Client). x.connected) is ∙ on)

      behind :
          (c : Client) → get_elem? objects q ≡ some c → c.connected ≡ false → member r rs ≡ true
      behind c at_q off_q = rw (ne→not_== r q (apart c at_q off_q)) at m

-- In tables that agree, with a connected client that has the topic of a datagram whose data type is
-- none of the four: whoever sent it, and whatever the other clients are, the server takes an
-- uninitialised size for the content, and so does its loop.
pub main_loop-uninitialised :
    (udpsockfd tcpsockfd : ℕ) (s : Server) (ip port : ℕ) (bytes : List ℕ) (es : List Event) (r : ℕ)
    (cl : Client)
    → IsServer s
    → s.exit_status ≡ false
    → 3 < (received_packet ip port bytes).udp_msg.data_type
    → get_elem? s.objects r ≡ some cl
    → client_has_topic cl (topic_string (received_packet ip port bytes).udp_msg) ≡ true
    → cl.connected ≡ true
    → main_loop udpsockfd tcpsockfd s (datagram ip port bytes ∷ es) ≡ fault uninitialised
unfolding main_loop step on_datagram AreObjects
main_loop-uninitialised udpsockfd tcpsockfd s ip port bytes es r cl v running wide at has on =
    let pkt = received_packet ip port bytes in
    let topic = topic_string pkt.udp_msg in
    simp running (
      rw
        (deliver-uninitialised topic pkt wide (s.topic_to_clients topic) s.objects
          (λ q m. let (c, at_q, _) = subscribers_lem s v topic q m in (c, at_q)) r cl
          (v.subscribed topic r cl at ∙ has) at on)
        refl)

-- A connection on a new descriptor whose first message is no id message, and that closes then, while
-- no client has the empty id: the server dereferences a null pointer.
pub main_loop-null_pointer :
    (udpsockfd tcpsockfd : ℕ) (s : Server) (newsockfd : ℕ) (bytes : List ℕ) (es : List Event)
    → s.exit_status ≡ false
    → msg_type bytes ≢ id_msg
    → s.fd_to_id newsockfd ≡ none
    → s.clients [] ≡ none
    → main_loop udpsockfd tcpsockfd s (connection newsockfd bytes ∷ readable newsockfd [] ∷ es)
      ≡ fault null_pointer
unfolding main_loop step on_connection
main_loop-null_pointer udpsockfd tcpsockfd s newsockfd bytes es running no_id no_entry no_client =
    let s' : Server = record s {
      read_fds = set_fd newsockfd true s.read_fds;
      fdmax = if ltb s.fdmax newsockfd then newsockfd else s.fdmax;
      exit_status = false;
    } in
    simp running (
      rw (ne→not_== (msg_type bytes) id_msg no_id)
        (rw ((missing-Breaks s' newsockfd no_entry no_client).at_close) refl))
