-- ===== src/Session/Timer.antt =====
-- The slow timer of a socket: `dn_slow_timer` of kernel/net/decnet/dn_timer.c, with
-- `dn_destroy_timer` and `dn_keepalive` of kernel/net/decnet/af_decnet.c.
pub mod States
pub mod Closing
use raspbian_decnet.Base.{
  ℕ, ◌+◌, ◌-◌, ◌*◌, ◌/◌, ◌^◌, Bool, true, false, ◌&&◌, ltb, leb, ◌==◌, ◌!=◌, ◌||◌, if◌then◌else◌,
  Option, none, some, List,
}
use raspbian_decnet.Nsp.Socket.{
  Kernel, Sock, State, TcpState, SocketState, PersistFxn, ulong, ulong_sub,
}
use raspbian_decnet.Nsp.Timer.{is_running}
use raspbian_decnet.Nsp.Send.{wake, set_persist, is_empty, dn_nochange, dn_nsp_xmit_timeout}
use raspbian_decnet.Nsp.Queue.{dn_nsp_send_link, dn_nsp_send_data_ack}
use raspbian_decnet.Nsp.Message.{nsp_discinit, dn_nsp_send_disc, dn_nsp_retrans_conn_conf}
use raspbian_decnet.Session.Conninit.{dn_nsp_retrans_conninit}

abbrev pub slow_interval : Kernel → ℕ
slow_interval k = k.hz / 2

-- `time_after_eq(a, b)`: the difference as a `long` is not negative.
abbrev pub time_after_eq : ℕ → ℕ → Bool
time_after_eq a b = ltb (ulong_sub a b) (2 ^ 31)

unfoldable pub dn_keepalive : Kernel → Sock → Sock
dn_keepalive k s =
    if is_empty s.scp.other_xmit_queue then (dn_nsp_send_link k dn_nochange 0 s).0 else s

abbrev pub at_state : State → Sock → Sock
at_state st s = record s { scp = record (s.scp) { state = st } }

-- A disconnect initiate that is sent again; from `limit` tries on the socket gives up.
unfoldable pub disconnect_again : Kernel → ℕ → State → Sock → Sock
disconnect_again k limit over s =
    let s1 = dn_nsp_send_disc k nsp_discinit 0 s in
    let s2 = if leb limit s1.scp.nsp_rxtshift then at_state over s1 else s1 in
    record s2 { scp = record (s2.scp) { stamp = k.jiffies } }

abbrev pub has_user : Option SocketState → Bool
has_user none = false
has_user (some st) = true

-- A socket that is over: whether it is removed.
unfoldable pub linger : Kernel → Sock → Sock × Bool
linger k s = (
  record s { scp = record (s.scp) { persist = k.hz } },
  if has_user s.sk_socket then false else time_after_eq k.jiffies (ulong (s.scp.stamp + k.hz * 2)),
)

-- The `switch`, by the state.
unfoldable pub destroy_by_state : Kernel → State → Sock → Sock × Bool
destroy_by_state k State.disconnect_initiate s =
    (disconnect_again k k.di_count State.closed_notification s, false)
destroy_by_state k State.disconnect_reject s =
    (disconnect_again k k.dr_count State.disconnect_reject_complete s, false)
destroy_by_state k _ s = linger k s

-- The flag is the value that is returned: the socket has been unhashed and its reference dropped.
unfoldable pub dn_destroy_timer : Kernel → Sock → Sock × Bool
unfolding destroy_by_state
dn_destroy_timer k s = destroy_by_state k s.scp.state (set_persist k s)

-- The call of `scp->persist_fxn`; the null pointer is never called.
unfoldable pub call_persist_fxn : Kernel → PersistFxn → Sock → Sock × Bool
unfolding dn_destroy_timer
call_persist_fxn k PersistFxn.null s = (s, false)
call_persist_fxn k PersistFxn.destroy_timer s = dn_destroy_timer k s
call_persist_fxn k PersistFxn.xmit_timeout s = (dn_nsp_xmit_timeout k s, false)
call_persist_fxn k PersistFxn.retrans_conn_conf s = (dn_nsp_retrans_conn_conf k s, false)
call_persist_fxn k PersistFxn.retrans_conninit s = (dn_nsp_retrans_conninit k s, false)

abbrev pub is_null : PersistFxn → Bool
is_null PersistFxn.null = true
is_null _ = false

abbrev pub set_persist_to : ℕ → Sock → Sock
set_persist_to t s = record s { scp = record (s.scp) { persist = t } }

-- The retransmission timer.
unfoldable pub persist_tick : Kernel → Sock → Sock × Bool
unfolding call_persist_fxn
persist_tick k s =
    let called = call_persist_fxn k s.scp.persist_fxn (set_persist_to 0 s) in
    if s.scp.persist == 0 || is_null s.scp.persist_fxn
    then (s, false)
    else if leb s.scp.persist (slow_interval k)
    then called
    else (set_persist_to (s.scp.persist - slow_interval k) s, false)

abbrev pub set_conntimer : ℕ → Sock → Sock
set_conntimer t s = record s { scp = record (s.scp) { conntimer = t } }

abbrev pub is_connect_delivery : State → Bool
is_connect_delivery State.connect_delivery = true
is_connect_delivery _ = false

-- The timeout of an outgoing connection.
unfoldable pub conntimer_tick : Kernel → Sock → Sock
conntimer_tick k s =
    let over = at_state State.no_communication (set_conntimer 0 s) in
    if s.scp.conntimer == 0
    then s
    else if is_connect_delivery s.scp.state
    then if leb s.scp.conntimer (slow_interval k)
      then wake (record over { sk_state = TcpState.tcp_close })
      else set_conntimer (s.scp.conntimer - slow_interval k) s
    else set_conntimer 0 s

-- `scp->keepalive_fxn` is `dn_keepalive` from the socket's allocation on.
unfoldable pub keepalive_tick : Kernel → Sock → Sock
unfolding dn_keepalive
keepalive_tick k s =
    if s.scp.keepalive != 0
      && (is_running s.scp.state && time_after_eq k.jiffies (ulong (s.scp.stamp + s.scp.keepalive)))
    then dn_keepalive k s
    else s

-- The timeout of a delayed acknowledgement.
unfoldable pub ackdelay_tick : Kernel → Sock → Sock
ackdelay_tick k s =
    let set : ℕ → Sock = λ t. record s { scp = record (s.scp) { ackdelay = t } } in
    if s.scp.ackdelay != 0 && is_running s.scp.state
    then if leb s.scp.ackdelay (slow_interval k)
      then dn_nsp_send_data_ack k (set 0)
      else set (s.scp.ackdelay - slow_interval k)
    else s

-- When the timer runs again; none where the socket has been removed.
abbrev pub rearm : Kernel → ℕ → Option ℕ
rearm k after = some (ulong (k.jiffies + after))

-- The flag is `sock_owned_by_user(sk)`.
unfoldable pub dn_slow_timer : Kernel → Bool → Sock → Sock × Option ℕ
unfolding persist_tick conntimer_tick keepalive_tick ackdelay_tick
dn_slow_timer k owned s =
    let (s1, removed) = persist_tick k s in
    if owned
    then (s, rearm k (k.hz / 10))
    else if removed
    then (s1, none)
    else (ackdelay_tick k (keepalive_tick k (conntimer_tick k s1)), rearm k (slow_interval k))
