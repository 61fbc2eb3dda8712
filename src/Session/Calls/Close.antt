-- ===== src/Session/Calls/Close.antt =====
-- Closing: `dn_destroy_sock`, `dn_shutdown` and `dn_release` of kernel/net/decnet/af_decnet.c.
pub mod Silence
use raspbian_decnet.Base.{ℕ, Bool, true, false, ◌||◌, ◌==◌, ◌!=◌, if◌then◌else◌, Option, none, some}
use raspbian_decnet.Nsp.Socket.{Kernel, Sock, State, TcpState, SocketState}
use raspbian_decnet.Nsp.Message.{nsp_discinit, nsp_discconf, nsp_reason_dc, dn_nsp_send_disc}
use raspbian_decnet.Nsp.Receive.Disconnect.{
  shutdown_mask, disconnecting_socket, start_destroy_timer, with_state,
}
use raspbian_decnet.Session.Table.{Table, set_sock, dn_unhash_sock}
use raspbian_decnet.Session.Calls.Open.{einval, is_opened}

abbrev pub enotconn : ℕ
enotconn = 107

abbrev pub shut_rdwr : ℕ
shut_rdwr = 2

-- A disconnect initiate, and the timer behind it.
abbrev pub disconnect : Kernel → Sock → Sock
disconnect k s = start_destroy_timer k (dn_nsp_send_disc k nsp_discinit 0 s)

-- The `switch`. The flag tells that the socket is unhashed and its reference dropped.
unfoldable pub destroy_in_state : Kernel → State → Sock → Sock × Bool
destroy_in_state k State.disconnect_notification s =
    (start_destroy_timer k (dn_nsp_send_disc k nsp_discconf nsp_reason_dc s), false)
destroy_in_state k State.connect_receive s =
    (disconnect k (with_state State.disconnect_reject s), false)
destroy_in_state k State.running s = (disconnect k (with_state State.disconnect_initiate s), false)
destroy_in_state k State.disconnect_initiate s = (disconnect k s, false)
destroy_in_state k State.disconnect_reject s = (disconnect k s, false)
destroy_in_state k State.opened s = (s, true)
destroy_in_state k State.connect_confirm s = (s, true)
destroy_in_state k State.closed s = (s, true)
destroy_in_state k _ s = (start_destroy_timer k s, false)

-- What comes before the `switch`.
abbrev pub closing : Sock → Sock
closing s = record s {
  scp = record (s.scp) { nsp_rxtshift = 0 };
  sk_socket = disconnecting_socket s.sk_socket;
  sk_state = TcpState.tcp_close;
}

unfoldable pub destroy_sock : Kernel → Sock → Sock × Bool
unfolding destroy_in_state
destroy_sock k s = destroy_in_state k s.scp.state (closing s)

unfoldable pub dn_destroy_sock : Kernel → Table → ℕ → Table × Bool
unfolding destroy_sock
dn_destroy_sock k t sk =
    let (s, removed) = destroy_sock k (t.socks sk) in
    let t' = set_sock sk s t in (if removed then dn_unhash_sock t' sk else t', removed)

-- `sock_orphan`: the socket is dead and has no user.
abbrev pub orphan : Sock → Sock
orphan s = record s { sk_dead = true; sk_socket = none }

unfoldable pub dn_release : Kernel → Table → ℕ → Table × Bool
unfolding dn_destroy_sock
dn_release k t sk = dn_destroy_sock k (set_sock sk (orphan (t.socks sk)) t) sk

abbrev pub is_unconnected : SocketState → Bool
is_unconnected SocketState.unconnected = true
is_unconnected _ = false

abbrev pub is_disconnecting : SocketState → Bool
is_disconnecting SocketState.disconnecting = true
is_disconnecting _ = false

-- The error number and the table; the user's socket has the state `st`.
unfoldable pub dn_shutdown : Kernel → Table → ℕ → SocketState → ℕ → ℕ × Table
dn_shutdown k t sk st how =
    let s = record (t.socks sk) { sk_shutdown = shutdown_mask } in
    if is_unconnected st
    then (enotconn, t)
    else if is_disconnecting st
    then (0, t)
    else if is_opened (t.socks sk).scp.state || how != shut_rdwr
    then (einval, t)
    else (0, (dn_destroy_sock k (set_sock sk s t) sk).0)
