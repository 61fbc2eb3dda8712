-- ===== src/Nsp/Receive.antt =====
-- The receive routine of a socket: `dn_nsp_backlog_rcv` of kernel/net/decnet/dn_nsp_in.c. The
-- handlers that it calls are in the children.
pub mod Connect
pub mod Disconnect
pub mod Segment
pub mod States
pub mod Machine
use raspbian_decnet.Base.{ℕ, Bool, true, false, not, ◌&&◌, ◌||◌, ◌==◌, ◌!=◌, if◌then◌else◌, bit_and}
use raspbian_decnet.Nsp.Socket.{Kernel, Sock, Skb, State, TcpState}
use raspbian_decnet.Nsp.Timer.{is_running}
use raspbian_decnet.Nsp.Send.{wake}
use raspbian_decnet.Nsp.Queue.{tests}
use raspbian_decnet.Nsp.Message.{is_connect_confirm}
use raspbian_decnet.Nsp.Ack.{dn_process_ack}
use Connect.{
  dn_rt_f_rts, segment_buffer_size, off_ethernet, dn_nsp_conn_init, dn_nsp_conn_conf,
  dn_nsp_conn_ack,
}
use Disconnect.{dn_nsp_disc_init, dn_nsp_disc_conf}
use Segment.{dn_nsp_linkservice, dn_nsp_otherdata, dn_nsp_data}

-- Data and acknowledgements move a socket that has sent a connect confirm into RUN.
pub kick : Kernel → Skb → Sock → Sock
kick k skb s =
    let running = wake (record s {
      scp = record (s.scp) { state = State.running };
      sk_state = TcpState.tcp_established;
    }) in
    let segsize =
      if off_ethernet skb.cb.rt_flags then segment_buffer_size k else running.scp.segsize_rem in
    if is_connect_confirm s.scp.state && not s.sk_dead
    then record running { scp = record (running.scp) { segsize_rem = segsize } }
    else s

-- The last `switch`, on what is left behind the acknowledgements.
pub deliver : Kernel → Skb → Sock → Sock
deliver k skb s =
    if bit_and skb.cb.nsp_flags 0x0c == 0 && is_running s.scp.state
    then if skb.cb.nsp_flags == 0x10
      then dn_nsp_linkservice k skb s
      else if skb.cb.nsp_flags == 0x30
      then dn_nsp_otherdata k skb s
      else dn_nsp_data k skb s
    else s

pub control : Kernel → Skb → Sock → Sock
control k skb s =
    let kind = bit_and skb.cb.nsp_flags 0x70 in
    if kind == 0x10 || kind == 0x60
    then dn_nsp_conn_init skb s
    else if kind == 0x20
    then dn_nsp_conn_conf k skb s
    else if kind == 0x30
    then dn_nsp_disc_init k skb s
    else if kind == 0x40
    then dn_nsp_disc_conf k skb s
    else s

unfoldable pub dn_nsp_backlog_rcv : Kernel → Skb → Sock → Sock
unfolding kick deliver control
dn_nsp_backlog_rcv k skb s =
    let flags = skb.cb.nsp_flags in
    let other = not (bit_and flags 0x1c == 0) && not (flags == 0x04) in
    let (skb', s') = dn_process_ack k skb other (kick k skb s) in
    if tests skb.cb.rt_flags dn_rt_f_rts
    then s
    else if bit_and flags 0x0c == 0x08
    then control k skb s
    else if flags == 0x24
    then dn_nsp_conn_ack k s
    else deliver k skb' s'
