-- ===== src/Nsp/Receive/Disconnect.antt =====
-- Disconnect messages: `dn_nsp_disc_init` and `dn_nsp_disc_conf` of
-- kernel/net/decnet/dn_nsp_in.c.
use raspbian_decnet.Base.{
  ℕ, ltb, ◌==◌, ◌!=◌, if◌then◌else◌, Option, none, some, bit_or, length, replicate,
}
use raspbian_decnet.Nsp.Socket.{
  Kernel, Sock, Skb, OptdataDn, State, TcpState, SocketState, PersistFxn,
}
use raspbian_decnet.Nsp.Send.{wake, set_persist}
use raspbian_decnet.Nsp.Header.{read_le16}
use raspbian_decnet.Nsp.Ack.{skb_pull}
use raspbian_decnet.Nsp.Message.{nsp_discconf, nsp_reason_nl, nsp_reason_dc, dn_nsp_send_disc}
use raspbian_decnet.Nsp.Receive.Connect.{copy_optdata}

abbrev pub econnrefused : ℕ
econnrefused = 111

abbrev pub shutdown_mask : ℕ
shutdown_mask = 3

-- `sk->sk_socket->state = SS_DISCONNECTING` unless it is SS_UNCONNECTED. A socket that is not dead
-- has a `sk_socket`.
abbrev pub disconnecting_socket : Option SocketState → Option SocketState
disconnecting_socket none = none
disconnecting_socket (some SocketState.unconnected) = some SocketState.unconnected
disconnecting_socket (some _) = some SocketState.disconnecting

-- What both handlers do to the user's socket.
abbrev pub tell_user : Sock → Sock
tell_user s =
    if s.sk_dead then s else wake (record s { sk_socket = disconnecting_socket s.sk_socket })

-- `scp->persist_fxn = dn_destroy_timer; scp->persist = dn_nsp_persist(sk);`
abbrev pub start_destroy_timer : Kernel → Sock → Sock
start_destroy_timer k s =
    set_persist k (record s { scp = record (s.scp) { persist_fxn = PersistFxn.destroy_timer } })

abbrev pub with_state : State → Sock → Sock
with_state st s = record s { scp = record (s.scp) { state = st } }

abbrev pub shut_down : Sock → Sock
shut_down s = record s { sk_shutdown = bit_or s.sk_shutdown shutdown_mask }

-- The `switch` of `dn_nsp_disc_init`.
unfoldable pub disc_init_state : State → Sock → Sock
disc_init_state State.connect_initiate s =
    let refused = with_state State.rejected (record s { sk_err = econnrefused }) in
    record refused { scp = record (refused.scp) { conntimer = 0 } }
disc_init_state State.connect_delivery s =
    let refused = with_state State.rejected (record s { sk_err = econnrefused }) in
    record refused { scp = record (refused.scp) { conntimer = 0 } }
disc_init_state State.running s = with_state State.disconnect_notification (shut_down s)
disc_init_state State.disconnect_initiate s = with_state State.disconnect_complete s
disc_init_state _ s = s

-- The reason, and the optional data over zeroes.
unfoldable pub read_discdata : Kernel → Skb → OptdataDn
read_discdata k skb =
    copy_optdata k (skb_pull skb 2)
      (record { opt_status = read_le16 skb.bytes; opt_optl = 0; opt_data = replicate 16 0 })

unfoldable pub dn_nsp_disc_init : Kernel → Skb → Sock → Sock
unfolding disc_init_state read_discdata
dn_nsp_disc_init k skb s =
    let s1 = record s {
      scp = record (s.scp) { discdata_in = read_discdata k skb; addrrem = skb.cb.src_port };
      sk_state = TcpState.tcp_close;
    } in
    let s2 = tell_user (disc_init_state s.scp.state s1) in
    let s3 = dn_nsp_send_disc k nsp_discconf nsp_reason_dc s2 in
    if ltb (length skb.bytes) 2
    then s
    else start_destroy_timer k (if s2.scp.addrrem != 0 then s3 else s2)

-- The `switch` of `dn_nsp_disc_conf`.
unfoldable pub disc_conf_state : State → ℕ → Sock → Sock
disc_conf_state State.connect_initiate reason s = with_state State.no_resources s
disc_conf_state State.disconnect_reject reason s =
    if reason == nsp_reason_dc
    then with_state State.disconnect_reject_complete s
    else if reason == nsp_reason_nl
    then with_state State.closed_notification s
    else s
disc_conf_state State.disconnect_initiate reason s = with_state State.disconnect_complete s
disc_conf_state State.running reason s = with_state State.closed_notification (shut_down s)
disc_conf_state State.connect_confirm reason s = with_state State.closed_notification s
disc_conf_state _ reason s = s

unfoldable pub dn_nsp_disc_conf : Kernel → Skb → Sock → Sock
unfolding disc_conf_state
dn_nsp_disc_conf k skb s =
    let s1 = record s { sk_state = TcpState.tcp_close } in
    let s2 = tell_user (disc_conf_state s.scp.state (read_le16 skb.bytes) s1) in
    if length skb.bytes != 2 then s else start_destroy_timer k s2
