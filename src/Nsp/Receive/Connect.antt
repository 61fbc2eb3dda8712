-- ===== src/Nsp/Receive/Connect.antt =====
-- Connection messages: `dn_nsp_conn_init`, `dn_nsp_conn_conf`, `dn_nsp_conn_ack` and
-- `dn_returned_conn_init` of kernel/net/decnet/dn_nsp_in.c.
use raspbian_decnet.Base.{
  ℕ, ◌+◌, ◌-◌, ◌*◌, Bool, true, false, ◌&&◌, ◌||◌, ltb, leb, ◌==◌, if◌then◌else◌, [], ◌∷◌, ◌++◌,
  bit_and, length, get_or, take, drop,
}
use raspbian_decnet.Nsp.Seq.{u16}
use raspbian_decnet.Nsp.Socket.{Kernel, Sock, Skb, OptdataDn, State, TcpState, ulong}
use raspbian_decnet.Nsp.Send.{ehostunreach, wake}
use raspbian_decnet.Nsp.Header.{read_le16}
use raspbian_decnet.Nsp.Queue.{dn_pend_idle, dn_nsp_schedule_pending}
use raspbian_decnet.Nsp.Ack.{skb_pull}

abbrev pub dn_rt_f_rts : ℕ
dn_rt_f_rts = 0x10

abbrev pub dn_rt_f_ie : ℕ
dn_rt_f_ie = 0x20

abbrev pub dn_rt_pkt_msk : ℕ
dn_rt_pkt_msk = 0x06

abbrev pub dn_rt_pkt_short : ℕ
dn_rt_pkt_short = 0x02

abbrev pub nsp_fc_mask : ℕ
nsp_fc_mask = 0x0c

abbrev pub nsp_fc_none : ℕ
nsp_fc_none = 0x00

abbrev pub nsp_fc_scmc : ℕ
nsp_fc_scmc = 0x08

abbrev pub dn_max_nsp_data_header : ℕ
dn_max_nsp_data_header = 11

-- A short routing header, or no Intra-Ethernet bit.
abbrev pub off_ethernet : ℕ → Bool
off_ethernet rt_flags =
    bit_and rt_flags dn_rt_pkt_msk == dn_rt_pkt_short || bit_and rt_flags dn_rt_f_ie == 0

-- `decnet_segbufsize - (DN_MAX_NSP_DATA_HEADER + 6)`, stored in a `__u16`.
abbrev pub segment_buffer_size : Kernel → ℕ
segment_buffer_size k = u16 (k.segbufsize + 65536 - (dn_max_nsp_data_header + 6))

-- `skb_copy_from_linear_data_offset(skb, 1, opt_data, dlen)`: what it reads past the packet is
-- whatever the memory there holds. The array keeps its other bytes.
abbrev pub copy_optdata : Kernel → Skb → OptdataDn → OptdataDn
copy_optdata k skb old =
    let dlen = get_or skb.bytes 0 0 in
    let copied = take dlen (drop 1 (skb.bytes ++ k.tailroom skb)) in
    if ltb 0 (length skb.bytes) && (leb dlen 16 && leb dlen (length skb.bytes))
    then record old { opt_optl = dlen; opt_data = copied ++ drop dlen old.opt_data }
    else old

unfoldable pub dn_nsp_conn_init : Skb → Sock → Sock
dn_nsp_conn_init skb s = if ltb s.sk_max_ack_backlog s.sk_ack_backlog then s else record s {
  sk_ack_backlog = s.sk_ack_backlog + 1;
  sk_receive_queue = s.sk_receive_queue ++ (skb ∷ []);
  state_changes = s.state_changes + 1;
}

abbrev pub awaits_confirm : State → Bool
awaits_confirm State.connect_initiate = true
awaits_confirm State.connect_delivery = true
awaits_confirm _ = false

-- The socket as the confirm message sets it up.
unfoldable pub confirmed : Kernel → Skb → Sock → Sock
confirmed k skb s =
    let services = get_or skb.bytes 0 0 in
    let rest = skb_pull skb 4 in
    record s {
      scp = record (s.scp) {
        persist = 0;
        conntimer = 0;
        addrrem = skb.cb.src_port;
        state = State.running;
        services_rem = services;
        info_rem = get_or skb.bytes 1 0;
        segsize_rem =
            if off_ethernet skb.cb.rt_flags
            then segment_buffer_size k
            else read_le16 (drop 2 skb.bytes);
        max_window =
            if bit_and services nsp_fc_mask == nsp_fc_none
            then k.no_fc_max_cwnd
            else s.scp.max_window;
        conndata_in = copy_optdata k rest s.scp.conndata_in;
      };
      sk_state = TcpState.tcp_established;
    }

unfoldable pub dn_nsp_conn_conf : Kernel → Skb → Sock → Sock
unfolding confirmed
dn_nsp_conn_conf k skb s =
    if leb 4 (length skb.bytes) && awaits_confirm s.scp.state
    then wake (dn_nsp_schedule_pending k dn_pend_idle (confirmed k skb s))
    else s

abbrev pub is_connect_initiate : State → Bool
is_connect_initiate State.connect_initiate = true
is_connect_initiate _ = false

unfoldable pub dn_nsp_conn_ack : Kernel → Sock → Sock
dn_nsp_conn_ack k s =
    if is_connect_initiate s.scp.state
    then record s {
      scp = record (s.scp) {
        state = State.connect_delivery;
        persist = 0;
        conntimer = ulong (k.outgoing_timer * k.hz);
      };
    }
    else s

unfoldable pub dn_returned_conn_init : Sock → Sock
dn_returned_conn_init s =
    if is_connect_initiate s.scp.state
    then wake (record s {
      scp = record (s.scp) { state = State.no_communication };
      sk_state = TcpState.tcp_close;
      sk_err = ehostunreach;
    })
    else s
