-- ===== src/Lib.antt =====
-- Verification of the Linux DECnet stack of this repository: the NSP transport protocol of the
-- kernel module, its sockets, the headers of its routing layer and its forwarding tables, the
-- message layer of the file access listener, and addresses as text.
--
-- The program. kernel/net/decnet is a kernel module with the DECnet routing layer (dn_route.c,
-- dn_neigh.c, dn_dev.c, dn_fib.c), the NSP transport protocol (dn_nsp_in.c, dn_nsp_out.c,
-- dn_timer.c) and the socket layer (af_decnet.c); dnprogs holds libraries, daemons and tools that
-- use it. Packets come from the routing layer into dn_nsp_rx_packet, which finds their socket, and
-- then into dn_nsp_backlog_rcv, which calls one handler per message type. The handlers change the
-- socket's control block (struct dn_scp) and may send: acknowledgements, link-service messages and
-- retransmissions leave through dn_nsp_send to the routing layer.
--
-- The files.
--   Base: names of the libraries, Boolean tests, lists and bit masks over the native numbers.
--   Nsp/Seq: 12-bit sequence numbers (dn_nsp.h); Nsp/Seq/Order: their circular order.
--   Nsp/Socket: struct dn_scp, struct dn_skb_cb, the fields of struct sock that NSP uses, and the
--     rest of the kernel as the record Kernel.
--   Nsp/Timer, Nsp/Send, Nsp/Header, Nsp/Queue, Nsp/Message: dn_nsp_out.c, up to connect initiate.
--   Nsp/Ack: dn_nsp_check_xmit_queue of dn_nsp_out.c, dn_ack and dn_process_ack of dn_nsp_in.c.
--   Nsp/Receive: dn_nsp_backlog_rcv; its children Connect, Disconnect and Segment: the handlers.
--   Nsp/Timer/Bounds, Nsp/Send/Window, Nsp/Ack/GoBackN, Nsp/Ack/Sender, Nsp/Ack/Credit,
--     Nsp/Ack/Frame, Nsp/Ack/RoundTrip, Nsp/Frame, Nsp/Receive/Segment/Link, Nsp/Receive/Segment/Delivery,
--     Nsp/Receive/States, Nsp/Receive/Machine: theorems.
--   Nsp/Samples, Nsp/Tests: concrete sockets and packets, and the theorems applied to them.
--   Session/Username: dn_sockaddr2username and dn_username2sockaddr of af_decnet.c.
--   Session/Table: the hash table of sockets of af_decnet.c, its ports and its lookups.
--   Session/Conninit: dn_nsp_send_conninit and dn_nsp_retrans_conninit of dn_nsp_out.c.
--   Session/Listener: dn_check_idf and dn_find_listener of dn_nsp_in.c.
--   Session/Rx: dn_nsp_rx_packet and dn_nsp_no_socket of dn_nsp_in.c, with dn_nsp_return_disc.
--   Session/Timer: dn_slow_timer of dn_timer.c, dn_destroy_timer and dn_keepalive of af_decnet.c.
--   Session/Calls/Open, Connect, Accept, Close: the socket calls of af_decnet.c.
--   Session/Stream/Send, Receive: the loops of dn_sendmsg and dn_recvmsg of af_decnet.c.
--   Session/Timer/States, Session/Timer/Closing, Session/Calls/Connect/Errors,
--     Session/Calls/Accept/RoundTrip, Session/Calls/Close/Silence, Session/Stream/Send/Segments,
--     Session/Stream/Send/Window, Session/Stream/Receive/Bytes: theorems.
--   Session/Username/RoundTrip, Session/Table/Ports, Session/Table/Lookup,
--     Session/Listener/RoundTrip, Session/Conninit/Retries, Session/Rx/Safety, Session/Rx/States:
--     theorems.
--   Session/Tests, Session/Calls/Tests, Session/Stream/Tests: theorems applied to concrete tables,
--     sockets and packets.
--   Route/Header: the output functions of dn_neigh.c.
--   Route/Receive: dn_route_rcv, dn_route_rx_long and dn_route_rx_short of dn_route.c.
--   Route/Forward: dn_route_rx_packet, dn_return_short, dn_return_long, dn_forward and dn_output.
--   Route/Source: dn_match_addr and dnet_select_source; Route/Source/Choice: theorems.
--   Route/Fib: dn_fib_semantic_match of dn_fib.c; Route/Table: the zones, the hash chains and the
--     lookup of dn_table.c; Route/Table/Update: insertion and flush; Route/Table/Delete: deletion.
--   Route/Table/Lookup, Route/Table/Longest, Route/Table/Chain, Route/Table/Insert,
--     Route/Table/Zones, Route/Table/Order, Route/Table/Kept, Route/Table/Runs: theorems.
--   Route/Circuit: the hellos of dn_neigh.c and the timers and the election of dn_dev.c;
--     Route/Circuit/Hello: the hellos that are sent; Route/Circuit/Election, Route/Circuit/Sent:
--     theorems; Route/Circuit/Tests: the theorems applied to two routers.
--   Route/Receive/RoundTrip, Route/Receive/Hellos, Route/Forward/Hops, Route/Forward/Returned:
--     theorems; Route/Tests: the theorems applied to concrete packets.
--   Libdnet/Address: dnet_ntop and dnet_pton of dnprogs/libdnet; Libdnet/Address/Text, Reading,
--     RoundTrip: theorems; Libdnet/Tests: the theorem applied to an address.
--   Fal2/Receive: the receive buffer and DAPnextMessage of dnprogs/fal2/dap.c; Fal2/Get: the
--     routines that read fields; Fal2/Put: those that put fields into a transmit buffer; Fal2/Pool:
--     DAPallocBuf, DAPwrite, DAPflushBuffers and the pool; Fal2/Build: headers and whole messages.
--   Fal2/Receive/Frames, Fal2/Pool/Uses, Fal2/Pool/Stream, Fal2/Pool/Ready, Fal2/Pool/Blocks,
--     Fal2/Blocked, Fal2/Blocked/Cut, Fal2/Blocked/RoundTrip, Fal2/Blocked/Apart,
--     Fal2/Blocked/Written, Fal2/Extensible with its children: theorems;
--     Fal2/Tests: the theorems applied to concrete messages.
--
-- How state is modelled. A handler is a function from a socket (Sock) to a socket. What leaves the
-- socket is kept in it: the packets sent, newest first, and the numbers of calls of the callbacks
-- and of requests for memory. A packet that is freed is one that is in no queue afterwards. The
-- locks of the kernel make each handler atomic, so a history is a sequence of calls.
--
-- Parameters. What the rest of the kernel answers while a packet is handled is a field of Kernel:
-- the clock, the sysctl settings, whether each allocation succeeds, the socket filter, the memory
-- accounting and the route lookup. No theorem assumes anything of them that it does not name.
--
-- The DAP layer of fal2 keeps one receive buffer and a pool of transmit buffers, the records Rcv
-- and Transmit; each routine is a function of them. A read of the socket is an argument, and what
-- is given to writev is kept in the order of the calls. A forwarding table is the list of its
-- zones.
--
-- Numbers. Fields of 8, 16 and 32 bits wrap where the code stores them; unsigned long has 32
-- bits, as on the 32-bit Raspbian kernels. Loops over lists are structural recursion. Three loops
-- run on fuel: the search of port_alloc, with 65536, the number of ports, after which the code
-- has come round to where it started; that of dn_match_addr, with the 16 bits that it shifts out;
-- and the loop of dn_sendmsg, whose rounds nothing bounds, as it may wait for room again and
-- again: what is shown of it holds after any number of rounds. A call that sleeps is modelled up
-- to the sleep and from each waking on. The netfilter hooks are taken to let packets pass.
--
-- Not modelled: logging, locks and reference counts (sk_receive_skb is taken to run the receive
-- routine at once, and its socket filter to let the packet pass unchanged); the route cache, the
-- rules and the building of routes, and what devices do beside the hellos on broadcast circuits;
-- the socket options, polling, and what dn_sendmsg and dn_recvmsg do around their loops; the
-- results of writev, dates and DAPcheckRead in fal2; and the other programs under dnprogs but for
-- the addresses of libdnet and the message layer of fal2. dnprogs/mail/uulib and
-- dnprogs/libvaxdata are copies of other projects.
pub mod Base
pub mod Fal2
pub mod Libdnet
pub mod Nsp
pub mod Route
pub mod Session
