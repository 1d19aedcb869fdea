-- ===== src/PubSub/Server/Reuse.antt =====
-- PCom2/server.cpp: a client that reconnects when its old descriptor is already that of another one.
pub mod Later
use pcom_assignments.Prelude.{
  ℕ, ◌≡◌, refl, sym, ◌≢◌, List, [], ◌∷◌, true, false, none, some, ◌==◌, ==_refl, ne→not_==,
  get_elem?, set, ltb, if◌then◌else◌,
}
use pcom_assignments.Prelude.Run.{fault, null_pointer, Returns, returns}
use pcom_assignments.Prelude.Texts.{insert_or_assign, erase}
use pcom_assignments.PubSub.Protocol.{id_msg, sub_msg, unsub_msg, msg_type, payload_string}
use pcom_assignments.PubSub.Client.{Client}
use pcom_assignments.PubSub.Server.{
  Server, Action, client_at, on_close, on_subscribe, on_unsubscribe, on_readable, on_known,
  on_connection, set_fd,
}
use pcom_assignments.PubSub.Server.Invariant.{AreSendable}
use pcom_assignments.PubSub.Server.Safety.{reconnected, reconnect-messages}

-- Without an entry for the descriptor and a client with the empty id there is no client to find.
client_at-missing :
    (s : Server) (i : ℕ)
    → s.fd_to_id i ≡ none
    → s.clients [] ≡ none
    → client_at s i ≡ fault null_pointer
unfolding client_at
client_at-missing s i no_id no_client = rw (no_id, no_client) refl

-- Whatever the server acts on when it reads from the descriptor dereferences a null pointer.
pub record Breaks (s : Server) (i : ℕ) : Type 0 where
  pub at_close : on_readable s i [] ≡ fault null_pointer
  pub at_subscribe : (rest : List ℕ) → on_readable s i (sub_msg ∷ rest) ≡ fault null_pointer
  pub at_unsubscribe : (rest : List ℕ) → on_readable s i (unsub_msg ∷ rest) ≡ fault null_pointer

pub missing-Breaks : (s : Server) (i : ℕ) → s.fd_to_id i ≡ none → s.clients [] ≡ none → Breaks s i
unfolding on_readable on_close on_subscribe on_unsubscribe
missing-Breaks s i no_id no_client = record {
  at_close = rw (client_at-missing s i no_id no_client) refl;
  at_subscribe = λ rest. rw (client_at-missing s i no_id no_client) refl;
  at_unsubscribe = λ rest. rw (client_at-missing s i no_id no_client) refl;
}

-- The descriptor has no entry, and no client has the empty id.
abbrev pub IsLost : Server → ℕ → Type 0
IsLost s i = (s.fd_to_id i ≡ none) × (s.clients [] ≡ none)

-- When a disconnected client reconnects on another descriptor than its old one, `on_connection` returns
-- and the old descriptor has no entry, whichever client it belongs to by now.
pub on_connection-IsLost :
    (s : Server) (newsockfd : ℕ) (bytes : List ℕ) (r : ℕ) (cl : Client)
    → msg_type bytes ≡ id_msg
    → s.clients (payload_string bytes) ≡ some r
    → get_elem? s.objects r ≡ some cl
    → AreSendable cl.sf_queue
    → cl.connected ≡ false
    → cl.fd ≢ newsockfd
    → s.clients [] ≡ none
    → Returns (λ (o : Server × List Action). IsLost o.0 cl.fd) (on_connection s newsockfd bytes)
unfolding on_connection on_known
on_connection-IsLost s newsockfd bytes r cl is_id at_id at h off apart no_client = simp is_id (
    rw (at_id, at)
      (simp off (
        rw (reconnect-messages cl newsockfd h) (
          returns
            (rw (ne→not_== newsockfd cl.fd (λ e. apart (sym e)), ==_refl cl.fd) refl, no_client)))))
