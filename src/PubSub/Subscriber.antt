-- ===== src/PubSub/Subscriber.antt =====
-- PCom2/subscriber.cpp: what is shown of a packet, the requests, and the body of the loop for a
-- ready descriptor. The debugging messages are on, as in the code.
pub mod Arrays
pub mod Contents
pub mod Rebuild
pub mod Wire
pub mod Requests
pub mod Composition
pub mod Missed
use pcom_assignments.Prelude.{
  ℕ, zero, suc, ◌+◌, ◌*◌, ◌<◌, List, [], ◌∷◌, ◌++◌, Bool, true, false, not, ◌&&◌, ◌||◌, Option,
  none, some, ◌==◌, ltb, if◌then◌else◌, length, get_or, take, drop,
}
use pcom_assignments.Prelude.Run.{Run, done, fault, out_of_bounds, uninitialised, ◌>>=◌, require}
use pcom_assignments.Prelude.Words.{le16, le32, swap16, swap32}
use pcom_assignments.Prelude.Texts.{Text, text, fit, cstr, starts_with, is_space, skip_spaces}
use pcom_assignments.PubSub.Protocol.{
  UdpPacket, Packet, SubsPacket, SizePacket, topic_len, content_len, packet_len, subspacket_len,
  msg_len, exit_msg, conf_msg, pkt_msg, id_msg, sub_msg, unsub_msg, err_msg, proto_msg, msg_type,
  topic_string, content_string, subs_packet_bytes,
}

-- What is written to `std::cout` and `std::cerr`.
pub data Printed : Type 0 where
  out : Text → Printed
  err : Text → Printed

-- The floating point numbers and the text of numbers and addresses.
pub record Streams : Type 1 where
  pub Double : Type 0
  pub double : ℕ → Double
  pub divide : Double → ℕ → Double
  pub float : Double → Double
  pub fixed : (precision : ℕ) → Double → Text
  pub decimal : ℕ → Text
  pub inet_ntoa : ℕ → Text

abbrev pub read16 : List ℕ → (at : ℕ) → ℕ
read16 bs at = le16 (get_or bs at 0) (get_or bs (at + 1) 0)

abbrev pub read32 : List ℕ → (at : ℕ) → ℕ
read32 bs at =
    le32 (get_or bs at 0) (get_or bs (at + 1) 0) (get_or bs (at + 2) 0) (get_or bs (at + 3) 0)

-- A `size_t`.
abbrev pub read_size : List ℕ → (at : ℕ) → ℕ
read_size bs at = read32 bs at + 0x1_0000_0000 * read32 bs (at + 4)

abbrev pub size_packet_of : List ℕ → SizePacket
size_packet_of bs = record {
  to_receive = read_size bs 0;
  topic_size = read_size bs 8;
  content_size = read_size bs 16;
}

-- A part that does not fit its array is a fault.
unfoldable pub rebuild_packet : SizePacket → List ℕ → Run Packet
rebuild_packet sz buffer =
    if ltb topic_len sz.topic_size || ltb content_len sz.content_size
    then fault out_of_bounds
    else done (record {
      udp_client_ip = read32 buffer 0;
      udp_client_port = read16 buffer 4;
      udp_msg = record {
        topic = fit topic_len (take sz.topic_size (drop 6 buffer));
        data_type = get_or (drop 6 buffer) sz.topic_size 0;
        content = fit content_len (take sz.content_size (drop (suc sz.topic_size) (drop 6 buffer)));
      };
    })

module _ (io : Streams) where
  unfoldable pub print_int : List ℕ → Text
  print_int content =
      let num = swap32 (read32 content 1) in
      text "INT - "
      ++ ((if get_or content 0 0 == 0 then [] else text "-") ++ (io.decimal num ++ 10 ∷ []))

  unfoldable pub print_short_real : List ℕ → Text
  print_short_real content =
      let converted = io.float (io.divide (io.double (swap16 (read16 content 0))) 100) in
      text "SHORT_REAL - " ++ (io.fixed 2 converted ++ 10 ∷ [])

  -- `div` divisions by 10.
  unfoldable pub divide_loop : (div : ℕ) → io.Double → io.Double
  divide_loop zero converted = converted
  divide_loop (suc div) converted = divide_loop div (io.divide converted 10)

  unfoldable pub print_real : List ℕ → Text
  print_real content =
      let num = swap32 (read32 content 1) in
      let div = get_or content 5 0 in
      text "FLOAT - "
      ++ ((if get_or content 0 0 == 0 then [] else text "-")
          ++ (io.fixed div (divide_loop div (io.double num)) ++ 10 ∷ []))

  unfoldable pub print_string : List ℕ → Text
  print_string content = text "STRING - " ++ (cstr content ++ 10 ∷ [])

  -- The content by the data type.
  unfoldable pub print_content : UdpPacket → Printed
  print_content p =
      if p.data_type == 0
      then out (print_int p.content)
      else if p.data_type == 1
      then out (print_short_real p.content)
      else if p.data_type == 2
      then out (print_real p.content)
      else if p.data_type == 3
      then out (print_string p.content)
      else err (text "Invalid data type!\n")

  unfoldable pub print_packet : Packet → List Printed
  print_packet pkt =
      out (
        io.inet_ntoa pkt.udp_client_ip
        ++ (58 ∷ io.decimal (swap16 pkt.udp_client_port)
            ++ (text " - " ++ (topic_string pkt.udp_msg ++ text " - "))))
      ∷ print_content pkt.udp_msg
      ∷ []

  -- What the next `recv` finds behind the sizes of a packet.
  unfoldable pub on_packet : SizePacket → (packet : List ℕ) → Run (Bool × List Printed)
  on_packet sz packet =
      let received = take sz.to_receive packet in
      if ltb packet_len (length received)
      then fault out_of_bounds
      else (do pkt ← rebuild_packet sz (fit packet_len received); done (false, print_packet pkt))

  -- A message of the server and the bytes behind it: the exit status and the output.
  unfoldable pub on_message : (message packet : List ℕ) → Run (Bool × List Printed)
  on_message message packet =
      if msg_type message == exit_msg
      then done (true, [])
      else if msg_type message == pkt_msg
      then on_packet (size_packet_of (drop 1 (fit msg_len message))) packet
      else done (false, err (text "Unexpected message type received!\n") ∷ [])

  -- The loop for what one `recv` after the other gives, as long as each gives what one `send` wrote: a
  -- packet message is followed by its packet, and EXIT ends the loop.
  unfoldable pub receive_loop : List (List ℕ) → Run (Bool × List Printed)
  receive_loop [] = done (false, [])
  receive_loop (message ∷ []) = on_message message []
  receive_loop (message ∷ next ∷ rest) =
      elim (msg_type message == pkt_msg) as (λ _. Run (Bool × List Printed)) [
        | true ↦ do
          (exit_status, shown) ← on_message message next
          (exit_status', more) ← receive_loop rest
          done (exit_status', shown ++ more)
        | false ↦ do
          (exit_status, shown) ← on_message message []
          (exit_status', more) ← elim exit_status as (λ _. Run (Bool × List Printed)) [
            | true ↦ done (true, [])
            | false ↦ receive_loop (next ∷ rest)
          ]
          done (exit_status', shown ++ more)
      ]

-- The first message, with the id of the program's arguments.
unfoldable pub id_message : Text → Run (List ℕ)
id_message id =
    if ltb subspacket_len (length id) then fault out_of_bounds else done (proto_msg id_msg id)

-- What is printed of the server's answer to a request.
unfoldable pub print_feedback : (type : ℕ) → (feedback : List ℕ) → Printed
print_feedback type feedback =
    if msg_type feedback == conf_msg
    then out (
        if type == sub_msg
        then text "Subscribed to topic.\n"
        else text "Unsubscribed from topic.\n")
    else if msg_type feedback == err_msg
    then (if type == sub_msg
        then err (text "Topic already subscribed to with same SF!\n")
        else out (text "Topic not subscribed to!\n"))
    else err (text "Unexpected message type received!\n")

-- The request, and what is printed when the answer is received.
unfoldable pub sub_unsub :
    (topic : Text) (sf : Bool) (type : ℕ) (feedback : List ℕ) → Run (List ℕ × Printed)
sub_unsub topic sf type feedback =
    if ltb topic_len (length topic)
    then fault out_of_bounds
    else done (
      proto_msg type (subs_packet_bytes (record { topic = fit topic_len topic; sf = sf })),
      print_feedback type feedback,
    )

abbrev pub until_space : Text → Text × Text
until_space [] = ([], [])
until_space (c ∷ s) =
    let rest = until_space s in if is_space c then ([], c ∷ s) else (c ∷ rest.0, rest.1)

-- `std::cin >> word`: the word and the input behind it.
abbrev pub read_word : Text → Text × Text
read_word input = until_space (skip_spaces input)

-- `char sf; std::cin >> sf`, which leaves the variable unset at the end of the input.
abbrev pub first_char : Text → Run (ℕ × Text)
first_char [] = fault uninitialised
first_char (c ∷ rest) = done (c, rest)

abbrev pub read_char : Text → Run (ℕ × Text)
read_char input = first_char (skip_spaces input)

-- The rest of the line is dropped; a byte 255 is taken for the end of the input.
unfoldable pub clear_stdin : Text → Text
clear_stdin [] = []
clear_stdin (c ∷ s) = if c == 10 || c == 255 then s else clear_stdin s

-- What a command leaves: the exit status, the input to come, what is sent and what is printed.
pub record Turn : Type 0 where
  pub exit_status : Bool
  pub rest : Text
  pub sent : List (List ℕ)
  pub printed : List Printed

abbrev pub refuse : Text → Text → Turn
refuse rest message = record {
  exit_status = false;
  rest = rest;
  sent = [];
  printed = err message ∷ [];
}

unfoldable pub send_request :
    (topic : Text) (sf : Bool) (type : ℕ) (rest : Text) (feedback : List ℕ) → Run Turn
send_request topic sf type rest feedback = do
  (message, shown) ← sub_unsub topic sf type feedback
  done (record { exit_status = false; rest = rest; sent = message ∷ []; printed = shown ∷ [] })

-- The branch of the commands `subscribe` and `unsubscribe`.
unfoldable pub on_request : (command rest : Text) (feedback : List ℕ) → Run Turn
on_request command rest feedback =
    let (topic, behind) = read_word rest in
    if ltb 50 (length topic)
    then done (refuse (clear_stdin behind) (text "Invalid topic size!\n"))
    else if starts_with (text "un") command
    then send_request topic false unsub_msg (clear_stdin behind) feedback
    else (do
      (sf, after) ← read_char behind
      if not (sf == 48) && not (sf == 49)
          then done (refuse (clear_stdin after) (text "Invalid SF value!\n"))
          else send_request topic (not (sf == 48)) sub_msg (clear_stdin after) feedback)

-- The branch of the standard input. A word that does not fit the buffer is a fault.
unfoldable pub on_stdin : (input : Text) (feedback : List ℕ) → Run Turn
on_stdin input feedback =
    let (command, rest) = read_word input in
    if ltb (length command) packet_len
    then (if starts_with (text "exit") command
        then done (record { exit_status = true; rest = rest; sent = []; printed = [] })
        else if starts_with (text "subscribe") command || starts_with (text "unsubscribe") command
        then on_request command rest feedback
        else done (refuse (clear_stdin rest) (text "Invalid command!\n")))
    else fault out_of_bounds
