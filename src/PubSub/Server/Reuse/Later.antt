-- ===== src/PubSub/Server/Reuse/Later.antt =====
-- PCom2/server.cpp: a descriptor that has lost its entry does not get it back by other events.
use pcom_assignments.Prelude.{
  ℕ, ◌≡◌, ◌≢◌, refl, List, [], ◌∷◌, get_elem?, false, Option, none, some, ◌==◌, ne→not_==, inl, inr,
  Bool-cases, Option-cases,
}
use pcom_assignments.Prelude.Run.{
  done, Returns, returns, Returns->>=, Returns-both, Returns-Whenever, Returns-eq, Whenever,
  whenever, Whenever->>=, Whenever-then, Whenever-if, require, null_pointer,
}
use pcom_assignments.Prelude.Texts.{Text, text, ne→not_eq_text, starts_with, erase}
use pcom_assignments.PubSub.Protocol.{
  id_msg, sub_msg, unsub_msg, msg_type, payload_string, payload_sf, topic_string,
}
use pcom_assignments.PubSub.Client.{Client, reconnect, client_has_topic}
use pcom_assignments.PubSub.Server.{
  Server, Action, Event, command, datagram, connection, readable, client_at, object, deliver,
  received_packet, on_datagram, on_known, on_connection, on_close, has_same, on_subscribe,
  on_unsubscribe, on_readable, on_command, step, main_loop,
}
use pcom_assignments.PubSub.Server.Invariant.{IsServer}
use pcom_assignments.PubSub.Server.Safety.{IsHandled}
use pcom_assignments.PubSub.Server.Datagram.{step-IsServer}
use pcom_assignments.PubSub.Server.Reuse.{Breaks, missing-Breaks, IsLost, on_connection-IsLost}

-- Neither a connection on the descriptor nor one with the empty id, and nothing read from it.
abbrev pub IsElsewhere : ℕ → Event → Type 0
IsElsewhere i (command word) = Unit {0}
IsElsewhere i (datagram ip port bytes) = Unit {0}
IsElsewhere i (connection newsockfd bytes) = (newsockfd ≢ i) × (payload_string bytes ≢ [])
IsElsewhere i (readable j bytes) = j ≢ i

module _ (i : ℕ) where
  abbrev Lost : Server × List Action → Type 0
  Lost o = IsLost o.0 i

  erase_lem : (k : ℕ) (m : ℕ → Option Text) → m i ≡ none → erase ◌==◌ k m i ≡ none
  erase_lem k m e = elim (Bool-cases (k == i)) [ inl same ↦ rw same refl | inr other ↦ rw other e ]

  module _ (s : Server) (v : IsLost s i) where
    client_at-IsLost :
        (j : ℕ) → j ≢ i → Whenever (λ (u : ℕ × Client × Server). IsLost u.2 i) (client_at s j)
    unfolding client_at
    client_at-IsLost j ne =
        Whenever->>= (require null_pointer _)
          λ r. Whenever->>= (object s r) λ cl. whenever (rw (ne→not_== j i ne) v.0, v.1)

    on_readable-IsLost : (j : ℕ) (bytes : List ℕ) → j ≢ i → Whenever Lost (on_readable s j bytes)
    unfolding on_readable on_close on_subscribe on_unsubscribe
    on_readable-IsLost j [] ne = Whenever-then (client_at-IsLost j ne) λ u w. whenever w
    on_readable-IsLost j (b ∷ bytes) ne =
        Whenever-if (b == sub_msg)
          (λ e. Whenever-then (client_at-IsLost j ne) λ u w.
            Whenever-if (has_same u.1 (payload_string (b ∷ bytes)) (payload_sf (b ∷ bytes)))
              (λ e. whenever w) (λ e. whenever w))
          λ e.
            Whenever-if (b == unsub_msg)
              (λ e. Whenever-then (client_at-IsLost j ne) λ u w.
                Whenever-if (client_has_topic u.1 (payload_string (b ∷ bytes))) (λ e. whenever w)
                  (λ e. whenever w))
              (λ e. whenever v)

    on_known-IsLost :
        (newsockfd : ℕ) (id : Text) (r : ℕ)
        → newsockfd ≢ i
        → Whenever Lost (on_known s newsockfd id r)
    unfolding on_known
    on_known-IsLost newsockfd id r ne = Whenever->>= (object s r) λ cl.
        Whenever-if cl.connected (λ e. whenever v)
          (λ e.
            Whenever->>= (reconnect cl newsockfd)
              λ o. whenever (rw (ne→not_== newsockfd i ne) (erase_lem cl.fd s.fd_to_id v.0), v.1))

  on_connection-Lost :
      (s : Server)
      → IsLost s i
      → (newsockfd : ℕ) (bytes : List ℕ) → newsockfd ≢ i
      → payload_string bytes ≢ []
      → Whenever Lost (on_connection s newsockfd bytes)
  unfolding on_connection
  on_connection-Lost s v newsockfd bytes ne named =
      Whenever-if (msg_type bytes == id_msg)
        (λ e. elim (Option-cases (s.clients (payload_string bytes))) [
          | inl new ↦ rw new (
              whenever (
                rw (ne→not_== newsockfd i ne) v.0,
                rw (ne→not_eq_text (payload_string bytes) [] named) v.1,
              ))
          | inr (r, at) ↦ rw at (on_known-IsLost _ v newsockfd (payload_string bytes) r ne)
        ])
        (λ e. whenever v)

  module _ (udpsockfd tcpsockfd : ℕ) where
    step-IsLost :
        (s : Server) (e : Event)
        → IsLost s i
        → IsElsewhere i e
        → Whenever Lost (step udpsockfd tcpsockfd s e)
    unfolding step on_command on_datagram
    step-IsLost s (command word) v h = elim (Bool-cases (starts_with (text "exit") word)) [
      | inl exit ↦ rw exit (whenever v)
      | inr other ↦ rw other (whenever v)
    ]
    step-IsLost s (datagram ip port bytes) v h =
        Whenever->>=
          (deliver (topic_string (received_packet ip port bytes).udp_msg)
            (received_packet ip port bytes)
            (s.topic_to_clients (topic_string (received_packet ip port bytes).udp_msg)) s.objects)
          λ o. whenever v
    step-IsLost s (connection newsockfd bytes) v h = on_connection-Lost s v newsockfd bytes h.0 h.1
    step-IsLost s (readable j bytes) v h = on_readable-IsLost s v j bytes h

    -- The server handles every event in the state that it meets, and the events are elsewhere.
    abbrev pub AreElsewhere : Server → List Event → Type 0
    AreElsewhere s [] = Unit {0}
    AreElsewhere s (e ∷ es) =
        IsHandled s e
        × IsElsewhere i e
        × ((o : Server × List Action) → step udpsockfd tcpsockfd s e ≡ done o → AreElsewhere o.0 es)

    main_loop-IsLost :
        (s : Server) (es : List Event)
        → IsServer s
        → IsLost s i
        → AreElsewhere s es
        → Returns Lost (main_loop udpsockfd tcpsockfd s es)
    unfolding main_loop
    main_loop-IsLost s [] t v h = returns v
    main_loop-IsLost s (e ∷ es) t v h = elim (Bool-cases s.exit_status) [
      | inl ended ↦ rw ended (returns v)
      | inr running ↦
          let (o, at, w) = Returns-eq (
            Returns-Whenever (step-IsServer udpsockfd tcpsockfd s e t h.0)
              (step-IsLost s e v h.1)) in
          simp running
            (rw at (Returns->>= (main_loop-IsLost o.0 es w.0 w.1 (h.2 o at)) λ u x. returns x))
    ]

-- In tables that agree, while no client has the empty id: a disconnected client reconnects on another
-- descriptor than its old one, and then come any events that the server handles and that are not of the
-- old descriptor, among them no connection on it or with the empty id. The loop returns, and in the
-- state that it leaves a close, a subscription or an unsubscription read from the old descriptor
-- dereferences a null pointer.
pub main_loop-Breaks :
    (udpsockfd tcpsockfd : ℕ) (s : Server) (newsockfd : ℕ) (bytes : List ℕ) (r : ℕ) (cl : Client)
    → IsServer s
    → s.exit_status ≡ false
    → msg_type bytes ≡ id_msg
    → s.clients (payload_string bytes) ≡ some r
    → get_elem? s.objects r ≡ some cl
    → cl.connected ≡ false
    → cl.fd ≢ newsockfd
    → s.clients [] ≡ none
    → (es : List Event)
    → ((o : Server × List Action)
        → on_connection s newsockfd bytes ≡ done o
        → AreElsewhere cl.fd udpsockfd tcpsockfd o.0 es)
    → Returns
        (λ (o : Server × List Action). Breaks o.0 cl.fd)
        (main_loop udpsockfd tcpsockfd s (connection newsockfd bytes ∷ es))
unfolding main_loop step
main_loop-Breaks udpsockfd tcpsockfd s newsockfd bytes r cl t running is_id at_id at off apart
      no_client es elsewhere =
    let (o, at_o, w) = Returns-eq (
      Returns-both (step-IsServer udpsockfd tcpsockfd s (connection newsockfd bytes) t tt) (
        on_connection-IsLost s newsockfd bytes r cl is_id at_id at (t.sendable r cl at) off apart
          no_client)) in
    simp running (
      rw at_o (
        Returns->>= (main_loop-IsLost cl.fd udpsockfd tcpsockfd o.0 es w.0 w.1 (elsewhere o at_o))
          λ u x. returns (missing-Breaks u.0 cl.fd x.0 x.1)))
