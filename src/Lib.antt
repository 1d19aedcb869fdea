-- ===== src/Lib.antt =====
-- Verification of the communication protocols assignments.
--
-- PCom1 is an IPv4 router. `main` in PCom1/router.c reads a routing table, and then handles one
-- packet after the other: it answers ICMP echo requests and ARP requests for itself, learns
-- addresses from ARP replies, and forwards everything else, by the longest prefix match; packets
-- whose next hop has no known hardware address wait in a queue. PCom1/skel.c builds and checks the
-- frames, PCom1/queue.c and PCom1/list.c are the queue.
--
-- Files and the code that they model:
--   Prelude: shared names; Prelude/Words and Prelude/Bytes are the words and the memory of a
--     little-endian machine, Prelude/Run is the outcome of C code, a value or a fault.
--   Router/GrowArray: the pointer arrays of ARP table and buckets (add_to_arptable, parse_rtable);
--     a cell is `none` until it is written.
--   Router/ArpTable: init_arptable, add_to_arptable, get_mac.
--   Router/Queue: queue.c and list.c, over an explicit heap. `fresh` is what malloc returns.
--   Router/Masks: get_prefix_length and get_subnet_mask.
--   Router/RouteTable: init_rtable, parse_rtable, entry_compare, get_best_route.
--   Router/Checksum: ip_checksum, icmp_checksum and calculate_checksum.
--   Router/Hwaddr: hex2num, hex2byte and hwaddr_aton.
--   Router/Frames: build_ethhdr, send_icmp, send_icmp_error, send_arp, parse_arp, parse_icmp.
--   Router/Handler: `main`; a step (`handle`) is the body of its loop: it takes the router's state
--     and a packet and gives the new state and the frames sent. `main_loop` is the loop over the
--     packets that come in. Handler/Safety is about one packet, Handler/Runs about any number of
--     them, Handler/Resolution about a packet that waits and the reply that it waits for.
--   Router/Sockets: get_packet and socket_receive_message, over the results of select and read.
--     The packets of the handler have any bytes behind their length, as those received here.
--   Router/Examples: the theorems at concrete tables and packets.
--
-- PCom2 is a server that passes on the datagrams of UDP clients to the TCP clients that have
-- subscribed to their topics, and stores them for those who are away and want that. A server step
-- (PCom2/server.cpp, the body of the loop of `main`) takes the tables and an event, and gives the
-- new tables and what is sent and closed; a subscriber (PCom2/subscriber.cpp) is a function of what
-- it receives and of its input.
--   PubSub/Protocol: PCom2/protocol.h, the messages and their bytes.
--   PubSub/Client: the class Client. PubSub/Server: the tables and the branches of the loop.
--     A pointer to a client is the index of its object; a map is a function to an option.
--   PubSub/Server/Invariant, Safety, Datagram, Replies, Reuse and Exit are about it;
--     Server/Away is about sequences of events while a client is away, Server/Strangers about
--     senders that are no clients.
--   PubSub/Subscriber: rebuild_packet, the print functions, sub_unsub and the branches of the loop;
--     Subscriber/Wire, Composition and Missed are about server and subscriber together. In
--     `receive_loop` each recv gives what one send wrote.
--   PubSub/Examples: the theorems at a concrete run.
--
-- PCom3 is a client of a book library over HTTP. BookClient/Buffer is PCom3/buffer.c, the buffer
-- that collects a response: a block of cells that hold `none` until they are written, and a size.
-- BookClient/Transport is receive_from_server of PCom3/helpers.c, over the list of the results of
-- `read`, and Transport/Sending is send_to_server, over those of `write`. `tolower` and `strtol` of
-- the C library are parameters; `strtol` is given the bytes up to the end of the buffer.
-- BookClient/Requests is compute_message and PCom3/requests.c, with the sizes of their arrays.
-- BookClient/Session is PCom3/client.c: print_response, the cookie and the token, and in
-- Session/Commands a function for each command, which takes the session, the input and the response
-- of the server; Session/Ids is about the id of a book; Session/Loop is the loop of `main` over
-- them, for responses given by the number of the request. BookClient/Stdio is what it uses of the
-- input and output of C. BookClient/Examples has the theorems at concrete inputs.
--
-- The sizes and indices of BookClient/Transport are the ints of the code: a `size_t` or a long that
-- is no int wraps, and a sum that is no int is a fault.
--
-- Conventions. Addresses and header fields are the words that the machine reads, in network byte
-- order; hardware addresses and frames are lists of bytes; a received payload is a function from
-- offsets to bytes, the IP header 14 bytes in. The buffer of `main` is at a multiple of 4 and holds
-- a length of 4 bytes first, so that the IP header is at 2 modulo 4. The queue of the handler is
-- the list that Router/Queue/Fifo shows the heap queue to be. The loop that sends its packets
-- (drain_loop) has their memory: a packet is at its number in the queue, and nowhere when freed.
--
-- Fuel. The loop of get_prefix_length has 33 rounds, since 32 shifts clear a word. A binary search
-- has one round more than the bucket has entries, since each round drops an entry. Folding the
-- carries has 5 rounds, since three bring 33 bits down to 16. These three are proved enough. The 20
-- digits of a number in BookClient/Stdio are enough for 64 bits. The loop of the client of PCom3
-- need not end, and is given a number of rounds. The loop of send_to_server has a number of rounds
-- too; as many as the message has bytes are proved enough.
--
-- Parameters. qsort of the C library is a parameter with its documented contract (Sorting.IsQsort):
-- it permutes, and it sorts where the comparison is a total order; Router/RouteTable/Insertion is
-- an instance of it. The addresses of the interfaces (Handler.Interfaces) are those that the kernel
-- gives. A line of the table file is the four values that fscanf and inet_addr read from it.
--
-- The JSON library of PCom3 (BookClient/Session.Json), and the floating point numbers and texts of
-- numbers of the C++ library (PubSub/Subscriber.Streams) are parameters too, with nothing assumed.
--
-- Not modelled: the sockets (get_sock, init, the writes behind send_packet), select, the ioctl
-- calls, a malloc that fails, the freeing of the tables behind the loops; parson, a JSON library of another
-- project; what the PCom2 server prints. Shifts by the width of a word are those of x86.
pub mod Prelude
pub mod Router
pub mod BookClient
pub mod PubSub
