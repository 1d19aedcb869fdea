-- ===== src/PubSub/Server.antt =====
-- PCom2/server.cpp: the tables of the server and the body of its loop for one ready descriptor. A
-- pointer to a client is the index of its object among all objects, of which none is deleted while
-- the loop runs. The set of the subscribers of a topic is a list without duplicates.
pub mod Delivery
pub mod Subscribers
pub mod Invariant
pub mod Safety
pub mod Datagram
pub mod Replies
pub mod Reuse
pub mod Strangers
pub mod Exit
pub mod Away
use pcom_assignments.Prelude.{
  ℕ, zero, suc, ◌+◌, ◌-◌, List, [], ◌∷◌, ◌++◌, map, Bool, true, false, not, ◌&&◌, ◌||◌, Option,
  none, some, ◌==◌, ltb, if◌then◌else◌, length, get_elem?, get_or, set, take, drop,
}
use pcom_assignments.Prelude.Run.{Run, done, fault, null_pointer, use_after_free, ◌>>=◌, require}
use pcom_assignments.Prelude.Texts.{Text, text, eq_text, fit, starts_with, insert_or_assign, erase}
use pcom_assignments.PubSub.Protocol.{
  UdpPacket, Packet, topic_len, udppacket_len, exit_msg, conf_msg, id_msg, sub_msg, unsub_msg,
  err_msg, proto_msg, msg_type, payload_string, payload_sf, topic_string,
}
use pcom_assignments.PubSub.Client.{
  Sent, Client, new_client, disconnect, subscribe, unsubscribe, client_has_topic, topic_has_sf,
  store_packet, send_packet, reconnect,
}

pub record Server : Type 0 where
  pub objects : List Client
  pub clients : Text → Option ℕ
  pub fd_to_id : ℕ → Option Text
  pub topic_to_clients : Text → List ℕ
  pub read_fds : ℕ → Bool
  pub fdmax : ℕ
  pub exit_status : Bool

pub data Action : Type 0 where
  sends : Sent → Action
  closes : ℕ → Action

-- What is read from a ready descriptor: a word of a command, a datagram and its sender, a new
-- connection and the first bytes received on it, or bytes received from a client, none of which
-- means that it has closed its connection.
pub data Event : Type 0 where
  command : Text → Event
  datagram : (ip port : ℕ) → List ℕ → Event
  connection : (newsockfd : ℕ) → List ℕ → Event
  readable : (i : ℕ) → List ℕ → Event

abbrev pub send_msg : (fd type : ℕ) → Action
send_msg fd type = sends (record { fd = fd; bytes = proto_msg type [] })

abbrev pub set_fd : ℕ → Bool → (ℕ → Bool) → ℕ → Bool
set_fd fd b fds j = if fd == j then b else fds j

abbrev pub member : ℕ → List ℕ → Bool
member r [] = false
member r (q ∷ rs) = r == q || member r rs

-- `insert` and `erase` of a `std::set`.
abbrev pub insert_ref : ℕ → List ℕ → List ℕ
insert_ref r rs = if member r rs then rs else r ∷ rs

abbrev pub erase_ref : ℕ → List ℕ → List ℕ
erase_ref r [] = []
erase_ref r (q ∷ rs) = if r == q then erase_ref r rs else q ∷ erase_ref r rs

abbrev pub set_subscribers : Text → List ℕ → (Text → List ℕ) → Text → List ℕ
set_subscribers topic rs m t = if eq_text topic t then rs else m t

abbrev pub object : Server → ℕ → Run Client
object s r = require use_after_free (get_elem? s.objects r)

-- `clients[fd_to_id[i]]`: a missing descriptor gets the empty id, and a missing client is NULL,
-- which every use dereferences at once.
unfoldable pub client_at : Server → (i : ℕ) → Run (ℕ × Client × Server)
client_at s i = do
  let id = elim (s.fd_to_id i) as (λ _. Text) [ none ↦ [] | some id ↦ id ]
  r ← require null_pointer (s.clients id)
  cl ← object s r
  done (r, cl, record s { fd_to_id = insert_or_assign ◌==◌ i id s.fd_to_id })

unfoldable pub offer : (topic : Text) → Packet → Client → Run (Client × List Sent)
offer topic pkt cl =
    if cl.connected
    then (do out ← send_packet cl pkt; done (cl, out))
    else (let (sf, cl') = topic_has_sf cl topic in
        done (if sf then store_packet cl' pkt else cl', []))

-- The loop over the subscribers of the topic.
unfoldable pub deliver :
    (topic : Text) → Packet → List ℕ → List Client → Run (List Client × List Sent)
deliver topic pkt [] objects = done (objects, [])
deliver topic pkt (r ∷ rs) objects = do
  cl ← require use_after_free (get_elem? objects r)
  (cl', out) ← offer topic pkt cl
  (objects', more) ← deliver topic pkt rs (set objects r cl')
  done (objects', out ++ more)

abbrev pub received_packet : (ip port : ℕ) → List ℕ → Packet
received_packet ip port bytes =
    let buffer = fit udppacket_len bytes in
    record {
      udp_client_ip = ip;
      udp_client_port = port;
      udp_msg = record {
        topic = take topic_len buffer;
        data_type = get_or (drop topic_len buffer) 0 0;
        content = drop 51 buffer;
      };
    }

unfoldable pub on_datagram : Server → (ip port : ℕ) → List ℕ → Run (Server × List Action)
on_datagram s ip port bytes = do
  let pkt = received_packet ip port bytes
  let topic = topic_string pkt.udp_msg
  (objects, out) ← deliver topic pkt (s.topic_to_clients topic) s.objects
  done (record s { objects = objects }, map sends out)

-- A client whose id is known.
unfoldable pub on_known : Server → (newsockfd : ℕ) → Text → ℕ → Run (Server × List Action)
on_known s newsockfd cli_id r = do
  cl ← object s r
  if cl.connected
      then done (
        record s { read_fds = set_fd newsockfd false s.read_fds },
        send_msg newsockfd exit_msg ∷ closes newsockfd ∷ [],
      )
      else (do
        (cl', out) ← reconnect cl newsockfd
        done (
          record s {
            objects = set s.objects r cl';
            fd_to_id = insert_or_assign ◌==◌ newsockfd cli_id (erase ◌==◌ cl.fd s.fd_to_id);
          },
          map sends out,
        ))

unfoldable pub on_connection : Server → (newsockfd : ℕ) → List ℕ → Run (Server × List Action)
on_connection s newsockfd bytes =
    let s' = record s {
      read_fds = set_fd newsockfd true s.read_fds;
      fdmax = if ltb s.fdmax newsockfd then newsockfd else s.fdmax;
    } in
    let cli_id = payload_string bytes in
    if msg_type bytes == id_msg
    then elim (s.clients cli_id) [
      | some r ↦ on_known s' newsockfd cli_id r
      | none ↦ done (
        record s' {
          objects = s.objects ++ new_client newsockfd cli_id ∷ [];
          clients = insert_or_assign eq_text cli_id (length s.objects) s.clients;
          fd_to_id = insert_or_assign ◌==◌ newsockfd cli_id s.fd_to_id;
        },
        [],
      )
    ]
    else done (s', [])

unfoldable pub on_close : Server → (i : ℕ) → Run (Server × List Action)
on_close s i = do
  (r, cl, s') ← client_at s i
  done (
    record s' { objects = set s'.objects r (disconnect cl); read_fds = set_fd i false s'.read_fds },
    closes i ∷ [],
  )

abbrev pub eq_bool : Bool → Bool → Bool
eq_bool true b = b
eq_bool false b = not b

-- Whether the client has the topic with the same SF.
unfoldable pub has_same : Client → Text → Bool → Bool
has_same cl topic sf =
    if client_has_topic cl topic then eq_bool (topic_has_sf cl topic).0 sf else false

unfoldable pub on_subscribe : Server → (i : ℕ) → List ℕ → Run (Server × List Action)
on_subscribe s i bytes = do
  let topic = payload_string bytes
  (r, cl, s') ← client_at s i
  if has_same cl topic (payload_sf bytes)
      then done (s', send_msg i err_msg ∷ [])
      else done (
        record s' {
          objects = set s'.objects r (subscribe cl topic (payload_sf bytes));
          topic_to_clients =
              set_subscribers topic (insert_ref r (s'.topic_to_clients topic)) s'.topic_to_clients;
        },
        send_msg i conf_msg ∷ [],
      )

unfoldable pub on_unsubscribe : Server → (i : ℕ) → List ℕ → Run (Server × List Action)
on_unsubscribe s i bytes = do
  let topic = payload_string bytes
  (r, cl, s') ← client_at s i
  if client_has_topic cl topic
      then done (
        record s' {
          objects = set s'.objects r (unsubscribe cl topic);
          topic_to_clients =
              set_subscribers topic (erase_ref r (s'.topic_to_clients topic)) s'.topic_to_clients;
        },
        send_msg i conf_msg ∷ [],
      )
      else done (s', send_msg i err_msg ∷ [])

unfoldable pub on_readable : Server → (i : ℕ) → List ℕ → Run (Server × List Action)
on_readable s i [] = on_close s i
on_readable s i (b ∷ bytes) =
    if b == sub_msg
    then on_subscribe s i (b ∷ bytes)
    else if b == unsub_msg
    then on_unsubscribe s i (b ∷ bytes)
    else done (s, [])

module _ (udpsockfd tcpsockfd : ℕ) where
  -- The loop over the descriptors `j`, with `left` rounds to go.
  unfoldable pub exit_loop : (left j : ℕ) → (ℕ → Bool) → (ℕ → Bool) × List Action
  exit_loop zero j fds = (fds, [])
  exit_loop (suc left) j fds =
      let here = fds j && (not (j == udpsockfd) && not (j == tcpsockfd)) in
      let (fds', more) = exit_loop left (j + 1) (if here then set_fd j false fds else fds) in
      (fds', if here then send_msg j exit_msg ∷ closes j ∷ more else more)

  unfoldable pub on_command : Server → Text → Server × List Action
  on_command s word =
      if starts_with (text "exit") word
      then (let (fds, out) = exit_loop (s.fdmax + 1 - 3) 3 s.read_fds in
          (record s { read_fds = fds; exit_status = true }, out))
      else (s, [])

  unfoldable pub step : Server → Event → Run (Server × List Action)
  step s (command word) = done (on_command s word)
  step s (datagram ip port bytes) = on_datagram s ip port bytes
  step s (connection newsockfd bytes) = on_connection s newsockfd bytes
  step s (readable i bytes) = on_readable s i bytes

  -- The loop of `main`, an event after the other.
  unfoldable pub main_loop : Server → List Event → Run (Server × List Action)
  main_loop s [] = done (s, [])
  main_loop s (e ∷ es) =
      if s.exit_status
      then done (s, [])
      else (do (t, out) ← step s e; (u, more) ← main_loop t es; done (u, out ++ more))

  -- The tables before the loop.
  unfoldable pub initial : Server
  initial = record {
    objects = [];
    clients = λ id. none;
    fd_to_id = λ i. none;
    topic_to_clients = λ topic. [];
    read_fds = set_fd 0 true (set_fd udpsockfd true (set_fd tcpsockfd true (λ j. false)));
    fdmax = tcpsockfd;
    exit_status = false;
  }
