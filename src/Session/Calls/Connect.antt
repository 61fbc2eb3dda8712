-- ===== src/Session/Calls/Connect.antt =====
-- Setting up a link: `__dn_connect`, `dn_wait_run`, `dn_confirm_accept` and `dn_check_state` of
-- kernel/net/decnet/af_decnet.c.
pub mod Errors
use raspbian_decnet.Base.{
  ℕ, ◌+◌, ◌*◌, Bool, true, false, not, ◌&&◌, ◌||◌, ◌==◌, ◌!=◌, if◌then◌else◌, Option, none, some,
  bit_and, bit_or,
}
use raspbian_decnet.Nsp.Socket.{Kernel, Sock, State, SocketState, PersistFxn}
use raspbian_decnet.Nsp.Timer.{is_running}
use raspbian_decnet.Nsp.Send.{ehostunreach}
use raspbian_decnet.Nsp.Queue.{tests}
use raspbian_decnet.Nsp.Message.{is_connect_confirm, dn_send_conn_conf}
use raspbian_decnet.Nsp.Receive.Connect.{is_connect_initiate}
use raspbian_decnet.Nsp.Receive.Disconnect.{econnrefused, with_state}
use raspbian_decnet.Session.Conninit.{nsp_ci, dn_nsp_send_conninit}
use raspbian_decnet.Session.Table.{Table, sdf_wild, set_sock}
use raspbian_decnet.Session.Calls.Open.{
  einval, af_decnet, size_of_sockaddr_dn, Host, Uaddr, is_opened, dn_auto_bind,
}

abbrev pub eisconn : ℕ
eisconn = 106

abbrev pub einprogress : ℕ
einprogress = 115

abbrev pub ealready : ℕ
ealready = 114

abbrev pub eagain : ℕ
eagain = 11

abbrev pub etimedout : ℕ
etimedout = 110

-- A call is over with an error number, or sleeps.
pub data Reply : Type 0 where
  done : ℕ → Reply
  sleeps : Reply

-- A waking: the time that is left, and what `sock_intr_errno` says where a signal is pending.
pub record Waking : Type 0 where
  pub timeo : ℕ
  pub signal : Option ℕ

-- The body of both waiting loops once the socket is locked: `late` is the error of a timeout.
-- `sock_error` clears the error that it reports.
unfoldable pub on_waking : ℕ → Waking → Sock → Reply × Sock
on_waking late w s =
    if is_running s.scp.state
    then (Reply.done 0, s)
    else if s.sk_err != 0
    then (Reply.done s.sk_err, record s { sk_err = 0 })
    else elim w.signal [
      | some errno ↦ (Reply.done errno, s)
      | none ↦ (if w.timeo == 0 then Reply.done late else Reply.sleeps, s)
    ]

abbrev pub set_user : SocketState → Sock → Sock
set_user st s = record s { sk_socket = some st }

-- What follows the loops; `waits` are the states in which the attempt goes on.
unfoldable pub settle : (State → Bool) → Reply × Sock → Reply × Sock
settle waits (Reply.sleeps, s) = (Reply.sleeps, s)
settle waits (Reply.done err, s) = (
  Reply.done err,
  if err == 0
      then set_user SocketState.connected s
      else if waits s.scp.state
      then s
      else set_user SocketState.unconnected s,
)

abbrev pub is_connecting : State → Bool
is_connecting st = is_connect_initiate st || is_connect_confirm st

-- `dn_wait_run` when it is called.
unfoldable pub dn_wait_run : ℕ → Sock → Reply × Sock
unfolding settle
dn_wait_run timeo s =
    if is_running s.scp.state
    then settle is_connecting (Reply.done 0, s)
    else if timeo == 0
    then (Reply.done ealready, s)
    else (Reply.sleeps, s)

-- `dn_wait_run` each time that it wakes.
unfoldable pub wait_run_wakes : Waking → Sock → Reply × Sock
unfolding on_waking settle
wait_run_wakes w s = settle is_connecting (on_waking etimedout w s)

-- `dn_confirm_accept` up to its sleep.
unfoldable pub dn_confirm_accept : Kernel → Host → Sock → Reply × Sock
dn_confirm_accept k h s =
    let confirm = record s {
      scp = record (s.scp) {
        state = State.connect_confirm;
        segsize_loc = elim s.dst_cache [ none ↦ 0 | some dst ↦ h.advmss dst ];
      };
    } in
    let sent = dn_send_conn_conf k confirm in
    let timed = record sent {
      scp = record (sent.scp) {
        persist = 2 * k.hz;
        persist_count = 4;
        persist_fxn = PersistFxn.retrans_conn_conf;
      };
    } in
    elim s.scp.state [ State.connect_receive ↦ (Reply.sleeps, timed) | _ ↦ (Reply.done einval, s) ]

-- `dn_confirm_accept` each time that it wakes.
unfoldable pub confirm_accept_wakes : Waking → Sock → Reply × Sock
unfolding on_waking settle
confirm_accept_wakes w s = settle is_connect_confirm (on_waking eagain w s)

-- The address that is meant: 0.0 is this node, 0.n is n in this node's area, and a.0 is invalid.
unfoldable pub full_address : ℕ → ℕ → Option ℕ
full_address own dstaddr =
    if dstaddr == 0
    then some own
    else if bit_and dstaddr 0xfc00 == 0
    then some (bit_or dstaddr (bit_and own 0xfc00))
    else if bit_and dstaddr 0x3ff == 0
    then none
    else some dstaddr

-- From the route lookup on, with the peer's full address; `dn_route_output_sock` finds `k.route`.
unfoldable pub begin_connect : Kernel → Host → ℕ → Sock → Reply × Sock
unfolding dn_wait_run
begin_connect k h timeo s = elim k.route [
  | none ↦ (Reply.done ehostunreach, s)
  | some dst ↦
      let ready = record s {
        dst_cache = some dst;
        sk_socket = some SocketState.connecting;
        scp = record (s.scp) { state = State.connect_initiate; segsize_loc = h.advmss dst };
      } in
      let sent = dn_nsp_send_conninit k nsp_ci ready in
      let timed = record sent {
        scp = record (sent.scp) {
          persist = 2 * k.hz;
          persist_count = 4;
          persist_fxn = PersistFxn.retrans_conninit;
        };
      } in
      if timeo != 0 then dn_wait_run timeo timed else (Reply.done einprogress, timed)
]

-- A call on a socket whose user is connecting already.
unfoldable pub connect_again : ℕ → Sock → Reply × Sock
connect_again timeo s =
    if is_running s.scp.state
    then (Reply.done 0, set_user SocketState.connected s)
    else if is_connecting s.scp.state
    then dn_wait_run timeo s
    else (Reply.done econnrefused, set_user SocketState.unconnected s)

abbrev pub bad_peer : Uaddr → Bool
bad_peer u =
    u.addr_len != size_of_sockaddr_dn
    || (u.sdn_family != af_decnet || tests u.name.sdn_flags sdf_wild)

abbrev pub with_sock : Table → ℕ → Reply × Sock → Reply × Table
with_sock t sk (reply, s) = (reply, set_sock sk s t)

-- Past the check of the address; `err` is what the code holds in `err` there.
abbrev pub connect_to : Kernel → Host → ℕ → Table → ℕ → Uaddr → ℕ → Option ℕ → Reply × Table
connect_to k h err t sk u timeo none = (Reply.done err, t)
connect_to k h err t sk u timeo (some dstaddr) =
    let s = t.socks sk in
    let peer = record (u.name) { sdn_nodeaddr = dstaddr } in
    with_sock t sk (begin_connect k h timeo (record s { scp = record (s.scp) { peer = peer } }))

-- Past the binding of the socket.
unfoldable pub connect_bound : Kernel → Host → ℕ → Table → ℕ → Uaddr → ℕ → Reply × Table
connect_bound k h err t sk u timeo =
    connect_to k h err t sk u timeo (full_address h.decnet_address u.name.sdn_nodeaddr)

-- The first call on a socket without a link. `err` is EINVAL, or what `dn_auto_bind` returned.
unfoldable pub connect_first : Kernel → Host → Table → ℕ → Uaddr → ℕ → Reply × Table
connect_first k h t sk u timeo =
    let (err, t') = dn_auto_bind h t sk in
    if not (is_opened (t.socks sk).scp.state) || bad_peer u
    then (Reply.done einval, t)
    else if (t.socks sk).sk_zapped
    then if err != 0 then (Reply.done err, t') else connect_bound k h 0 t' sk u timeo
    else connect_bound k h einval t sk u timeo

unfoldable pub dn_connect : Kernel → Host → Table → ℕ → SocketState → Uaddr → ℕ → Reply × Table
dn_connect k h t sk SocketState.connected u timeo = (Reply.done eisconn, t)
dn_connect k h t sk SocketState.connecting u timeo =
    with_sock t sk (connect_again timeo (t.socks sk))
dn_connect k h t sk _ u timeo = connect_first k h t sk u timeo

-- What sending and receiving ask of the state: the call's reply, where it has one at once. Only a
-- socket without a link looks at the address.
unfoldable pub dn_check_state :
    Kernel → Host → Table → ℕ → SocketState → Option Uaddr → ℕ → Reply × Table
unfolding dn_confirm_accept dn_wait_run dn_connect
dn_check_state k h t sk st u timeo = elim (t.socks sk).scp.state [
  | State.running ↦ (Reply.done 0, t)
  | State.connect_receive ↦ with_sock t sk (dn_confirm_accept k h (t.socks sk))
  | State.connect_initiate ↦ with_sock t sk (dn_wait_run timeo (t.socks sk))
  | State.connect_confirm ↦ with_sock t sk (dn_wait_run timeo (t.socks sk))
  | State.opened ↦ elim u [
    | some addr ↦ dn_connect k h t sk st addr timeo
    | none ↦ (Reply.done einval, t)
  ]
  | _ ↦ (Reply.done einval, t)
]
