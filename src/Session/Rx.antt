-- ===== src/Session/Rx.antt =====
-- The receive routine: `dn_nsp_rx_packet` and `dn_nsp_no_socket` of
-- kernel/net/decnet/dn_nsp_in.c, and `dn_nsp_return_disc` of kernel/net/decnet/dn_nsp_out.c.
-- `pskb_may_pull` is the test on the packet's length, as where its memory can be had.
pub mod Safety
pub mod States
use raspbian_decnet.Base.{
  ℕ, ◌-◌, Bool, true, false, not, ◌&&◌, ◌||◌, ltb, leb, ◌==◌, ◌!=◌, if◌then◌else◌, Option, none,
  some, List, [], ◌∷◌, length, get_or, drop, bit_and,
}
use raspbian_decnet.Nsp.Socket.{Kernel, Sock, Skb}
use raspbian_decnet.Nsp.Timer.{is_running}
use raspbian_decnet.Nsp.Header.{read_le16}
use raspbian_decnet.Nsp.Queue.{tests}
use raspbian_decnet.Nsp.Ack.{skb_pull}
use raspbian_decnet.Nsp.Message.{
  nsp_discinit, nsp_discconf, nsp_reason_ok, nsp_reason_nl, dn_nsp_do_disc,
}
use raspbian_decnet.Nsp.Receive.Connect.{dn_rt_f_rts, dn_returned_conn_init}
use raspbian_decnet.Nsp.Receive.{dn_nsp_backlog_rcv}
use raspbian_decnet.Session.Table.{Table, set_sock, dn_check_returned_conn, dn_find_by_skb}
use raspbian_decnet.Session.Listener.{dn_find_listener}

-- A packet as the routing layer delivers it: `skb_dst(skb)`, and whether `skb_linearize` succeeds.
pub record Arrival : Type 0 where
  pub skb : Skb
  pub skb_dst : Option ℕ
  pub linearizes : Bool

-- Freed with `NET_RX_DROP`, freed with `NET_RX_SUCCESS`, or given to `sk_receive_skb`.
pub data Outcome : Type 0 where
  dropped : Outcome
  consumed : Outcome
  handed : ℕ → Skb → Outcome

-- The sockets, what happens to the packet, and the packets sent for no socket.
pub record Rx : Type 0 where
  pub table : Table
  pub outcome : Outcome
  pub replies : List Skb

abbrev pub dropping : Table → Rx
dropping t = record { table = t; outcome = Outcome.dropped; replies = [] }

-- The packets that `dst_output` is given.
abbrev pub sent_reply : Kernel → Option Skb → List Skb
sent_reply k none = []
sent_reply k (some reply) = if k.alloc 0 then reply ∷ [] else []

unfoldable pub dn_nsp_return_disc : Kernel → Arrival → Skb → ℕ → ℕ → List Skb
dn_nsp_return_disc k a skb msgflg reason =
    sent_reply k (dn_nsp_do_disc msgflg reason a.skb_dst 0 [] skb.cb.src_port skb.cb.dst_port)

unfoldable pub dn_nsp_no_socket : Kernel → Arrival → Skb → ℕ → Table → Rx
dn_nsp_no_socket k a skb reason t =
    let kind = bit_and skb.cb.nsp_flags 0x70 in
    let disc : ℕ → Rx = λ msgflg. record {
      table = t;
      outcome = Outcome.consumed;
      replies = dn_nsp_return_disc k a skb msgflg reason;
    } in
    if tests skb.cb.rt_flags dn_rt_f_rts
    then dropping t
    else if reason != nsp_reason_ok && bit_and skb.cb.nsp_flags 0x0c == 0x08
    then if kind == 0x10 || kind == 0x60
      then disc nsp_discinit
      else if kind == 0x20
      then disc nsp_discconf
      else dropping t
    else dropping t

abbrev pub same_dst : Option ℕ → Option ℕ → Bool
same_dst none none = true
same_dst none (some b) = false
same_dst (some a) none = false
same_dst (some a) (some b) = a == b

-- What is noted on the socket of a packet.
abbrev pub heard : Kernel → Arrival → Sock → Sock
heard k a s =
    let switched = not (same_dst a.skb_dst s.dst_cache) && is_running s.scp.state in
    record s {
      dst_cache = if switched then a.skb_dst else s.dst_cache;
      scp = record (s.scp) { nsp_rxtshift = 0; stamp = k.jiffies };
    }

-- The code from `got_it` on.
unfoldable pub got_it : Kernel → Arrival → Skb → ℕ → Table → Option ℕ → Rx
unfolding dn_nsp_no_socket
got_it k a skb reason t none = dn_nsp_no_socket k a skb reason t
got_it k a skb reason t (some sk) =
    let t' = set_sock sk (heard k a (t.socks sk)) t in
    if tests skb.cb.nsp_flags (255 - 0x60) && not a.linearizes
    then dropping t'
    else record { table = t'; outcome = Outcome.handed sk skb; replies = [] }

abbrev pub returned : Table → Option ℕ → Table
returned t none = t
returned t (some sk) = set_sock sk (dn_returned_conn_init (t.socks sk)) t

-- One of our own connect initiates comes back. The length test is for 4 bytes; the ports are the
-- bytes 1 to 4.
unfoldable pub returned_conn : Skb → Table → Rx
returned_conn skb t =
    let cb = record (skb.cb) {
      dst_port = read_le16 (drop 1 skb.bytes);
      src_port = read_le16 (drop 3 skb.bytes);
    } in
    record {
      table = if leb 4 (length skb.bytes) then returned t (dn_check_returned_conn t cb) else t;
      outcome = Outcome.consumed;
      replies = [];
    }

-- A packet for a port; one of fewer than 5 bytes has no source port.
unfoldable pub port_packet : Kernel → Arrival → Skb → Table → Rx
unfolding got_it
port_packet k a skb t =
    let short = record skb {
      cb = record (skb.cb) { dst_port = read_le16 (drop 1 skb.bytes); src_port = 0 };
    } in
    let whole =
      skb_pull (record short { cb = record (short.cb) { src_port = read_le16 (drop 3 skb.bytes) } })
        5 in
    let skb' = if leb 5 (length skb.bytes) then whole else short in
    if tests skb.cb.rt_flags dn_rt_f_rts || ltb (length skb.bytes) 3
    then dropping t
    else got_it k a skb' nsp_reason_nl t (dn_find_by_skb t skb'.cb)

unfoldable pub dn_nsp_rx_packet : Kernel → Arrival → Table → Rx
unfolding port_packet returned_conn got_it
dn_nsp_rx_packet k a t =
    let flags = get_or a.skb.bytes 0 0 in
    let skb = record (a.skb) { cb = record (a.skb.cb) { nsp_flags = flags } } in
    let kind = bit_and flags 0x70 in
    let (sk, reason, skb') = dn_find_listener t skb nsp_reason_nl in
    if ltb (length skb.bytes) 2 || tests flags 0x83
    then dropping t
    else if bit_and flags 0x0c == 0x08 && (kind == 0 || kind == 0x70 || kind == 0x50)
    then dropping t
    else if bit_and flags 0x0c == 0x08 && (kind == 0x10 || kind == 0x60)
    then (if tests skb.cb.rt_flags dn_rt_f_rts
        then returned_conn skb t
        else got_it k a skb' reason t sk)
    else port_packet k a skb t

-- `sk_receive_skb` on a socket that no process holds, as `sk->sk_backlog_rcv` is set, where the
-- socket's filter, which a user can attach, lets the packet pass unchanged.
abbrev pub receive_skb : Kernel → Outcome → Table → Table
receive_skb k Outcome.dropped t = t
receive_skb k Outcome.consumed t = t
receive_skb k (Outcome.handed sk skb) t = set_sock sk (dn_nsp_backlog_rcv k skb (t.socks sk)) t

-- The sockets once the packet has been dealt with.
unfoldable pub dn_nsp_rx : Kernel → Arrival → Table → Table
unfolding dn_nsp_rx_packet
dn_nsp_rx k a t = let r = dn_nsp_rx_packet k a t in receive_skb k r.outcome r.table
