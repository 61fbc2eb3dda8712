-- ===== src/Session/Calls/Open.antt =====
-- New sockets and their names: `dn_alloc_sock`, `dn_create`, `dn_bind`, `dn_auto_bind` and
-- `dn_listen` of kernel/net/decnet/af_decnet.c.
use raspbian_decnet.Base.{
  ℕ, ◌-◌, ◌*◌, Bool, true, false, not, ◌&&◌, ◌||◌, ltb, leb, ◌==◌, ◌!=◌, if◌then◌else◌, Option,
  none, [], ◌∷◌, ◌++◌, take, drop, replicate, bit_or,
}
use raspbian_decnet.Nsp.Socket.{
  Kernel, Sock, DnScp, SockaddrDn, OptdataDn, AccessdataDn, State, TcpState, SocketState,
  PersistFxn,
}
use raspbian_decnet.Nsp.Timer.{nsp_min_window, nsp_max_window}
use raspbian_decnet.Nsp.Send.{dn_send}
use raspbian_decnet.Nsp.Queue.{tests}
use raspbian_decnet.Nsp.Receive.Connect.{nsp_fc_none, dn_max_nsp_data_header}
use raspbian_decnet.Session.Username.{dn_maxobjl}
use raspbian_decnet.Session.Listener.{no_sockaddr}
use raspbian_decnet.Session.Table.{
  Table, sdf_wild, set_sock, is_listening, dn_hash_sock, dn_rehash_sock,
}

abbrev pub einval : ℕ
einval = 22

abbrev pub eacces : ℕ
eacces = 13

abbrev pub eaddrnotavail : ℕ
eaddrnotavail = 99

abbrev pub af_decnet : ℕ
af_decnet = 12

abbrev pub acc_immed : ℕ
acc_immed = 0

-- `sizeof(struct sockaddr_dn)`.
abbrev pub size_of_sockaddr_dn : ℕ
size_of_sockaddr_dn = 26

-- What the host answers: `capable(CAP_NET_BIND_SERVICE)`, `dn_dev_islocal` on some device,
-- `dn_dev_bind_default` and its error, the node's own address, and the segment size of a route.
pub record Host : Type 0 where
  pub capable : Bool
  pub islocal : ℕ → Bool
  pub bind_error : ℕ
  pub bind_default : ℕ
  pub decnet_address : ℕ
  pub advmss : ℕ → ℕ

-- An address as the user passes it, with the fields that only the checks look at.
pub record Uaddr : Type 0 where
  pub addr_len : ℕ
  pub sdn_family : ℕ
  pub sdn_nodeaddrl : ℕ
  pub name : SockaddrDn

abbrev pub no_optdata : OptdataDn
no_optdata = record { opt_status = 0; opt_optl = 0; opt_data = replicate 16 0 }

-- "LINUX" as the account.
abbrev pub linux_access : AccessdataDn
linux_access = record {
  acc_accl = 5;
  acc_acc = 0x4c ∷ 0x49 ∷ 0x4e ∷ 0x55 ∷ 0x58 ∷ replicate 35 0;
  acc_passl = 0;
  acc_pass = replicate 40 0;
  acc_userl = 0;
  acc_user = replicate 40 0;
}

-- The session control port of a new socket; what the code does not set is zeroed memory.
abbrev pub new_scp : Kernel → DnScp
new_scp k = record {
  state = State.opened;
  addrloc = 0;
  addrrem = 0;
  numdat = 1;
  numoth = 1;
  numoth_rcv = 0;
  numdat_rcv = 0;
  ackxmt_dat = 0;
  ackxmt_oth = 0;
  ackrcv_dat = 0;
  ackrcv_oth = 0;
  flowrem_sw = dn_send;
  flowloc_sw = dn_send;
  flowrem_dat = 0;
  flowrem_oth = 1;
  flowloc_dat = 0;
  flowloc_oth = 1;
  services_rem = 0;
  services_loc = bit_or 1 nsp_fc_none;
  info_rem = 0;
  info_loc = 3;
  segsize_rem = 230 - dn_max_nsp_data_header;
  segsize_loc = 0;
  pending = 0;
  nonagle = 0;
  multi_ireq = 1;
  accept_mode = acc_immed;
  seg_total = 0;
  conndata_in = no_optdata;
  conndata_out = no_optdata;
  discdata_in = no_optdata;
  discdata_out = no_optdata;
  accessdata = linux_access;
  addr = no_sockaddr;
  peer = no_sockaddr;
  max_window = nsp_max_window;
  snd_window = nsp_min_window;
  nsp_srtt = k.hz;
  nsp_rttvar = k.hz * 3;
  nsp_rxtshift = 0;
  delayedacks = 0;
  data_xmit_queue = [];
  other_xmit_queue = [];
  other_receive_queue = [];
  other_report = 0;
  stamp = 0;
  persist = 0;
  persist_count = 0;
  persist_fxn = PersistFxn.null;
  keepalive = 10 * k.hz;
  ackdelay = 0;
  conntimer = 0;
}

-- A new socket, as `sock_init_data` and `dn_alloc_sock` leave it; the argument is
-- `sysctl_decnet_rmem[1]`, and whether a user's socket comes with it.
unfoldable pub dn_alloc_sock : Kernel → ℕ → Option SocketState → Sock
dn_alloc_sock k rmem sock = record {
  scp = new_scp k;
  sk_state = TcpState.tcp_close;
  sk_err = 0;
  sk_shutdown = 0;
  sk_dead = false;
  sk_zapped = true;
  sk_socket = sock;
  sk_rmem_alloc = 0;
  sk_rcvbuf = rmem;
  sk_drops = 0;
  sk_ack_backlog = 0;
  sk_max_ack_backlog = 0;
  sk_receive_queue = [];
  dst_cache = none;
  sent = [];
  state_changes = 0;
  data_readies = 0;
  allocations = 0;
}

-- The checks of `dn_bind` on the address, in their order: the first error, or 0.
unfoldable pub bind_error : Host → Uaddr → ℕ
bind_error h u =
    let wild = tests u.name.sdn_flags sdf_wild in
    if u.addr_len != size_of_sockaddr_dn
    then einval
    else if u.sdn_family != af_decnet
    then einval
    else if u.sdn_nodeaddrl != 0 && u.sdn_nodeaddrl != 2
    then einval
    else if ltb dn_maxobjl u.name.sdn_objnamel
    then einval
    else if tests u.name.sdn_flags (255 - sdf_wild)
    then einval
    else if not h.capable && (u.name.sdn_objnum != 0 || wild)
    then eacces
    else if not wild && (u.sdn_nodeaddrl != 0 && not (h.islocal u.name.sdn_nodeaddr))
    then eaddrnotavail
    else 0

abbrev pub set_zapped : Bool → Sock → Sock
set_zapped flag s = record s { sk_zapped = flag }

-- `dn_hash_sock`, and the flag again where it fails.
abbrev pub hash_or_zap : Table → ℕ → ℕ × Table
hash_or_zap t sk =
    let (rv, t') = dn_hash_sock t sk in
    (rv, if rv == 0 then t' else set_sock sk (set_zapped true (t'.socks sk)) t')

-- The error number and the table.
unfoldable pub dn_bind : Host → Table → ℕ → Uaddr → ℕ × Table
unfolding bind_error
dn_bind h t sk u =
    let s = t.socks sk in
    let bound = record s { scp = record (s.scp) { addr = u.name }; sk_zapped = false } in
    let rv = bind_error h u in
    if rv != 0
    then (rv, t)
    else if s.sk_zapped
    then hash_or_zap (set_sock sk bound t) sk
    else (einval, t)

-- The account name becomes the socket's name when it has at most 12 bytes.
abbrev pub take_account : DnScp → DnScp
take_account scp =
    let n = scp.accessdata.acc_accl in
    let name = record (scp.addr) {
      sdn_objnamel = n;
      sdn_objname = take n scp.accessdata.acc_acc ++ drop n scp.addr.sdn_objname;
    } in
    let emptied = record (scp.accessdata) { acc_accl = 0; acc_acc = replicate 40 0 } in
    if n != 0 && leb n 12 then record scp { addr = name; accessdata = emptied } else scp

unfoldable pub dn_auto_bind : Host → Table → ℕ → ℕ × Table
dn_auto_bind h t sk =
    let s = set_zapped false (t.socks sk) in
    let unnamed = record (s.scp) { addr = record (s.scp.addr) { sdn_flags = 0; sdn_objnum = 0 } } in
    let scp = take_account unnamed in
    let addressed = record scp { addr = record (scp.addr) { sdn_nodeaddr = h.bind_default } } in
    if h.bind_error != 0
    then (h.bind_error, set_sock sk (record s { scp = scp }) t)
    else hash_or_zap (set_sock sk (record s { scp = addressed }) t) sk

abbrev pub is_opened : State → Bool
is_opened State.opened = true
is_opened _ = false

unfoldable pub dn_listen : Table → ℕ → ℕ → ℕ × Table
dn_listen t sk backlog =
    let s = t.socks sk in
    let listening = record s {
      sk_max_ack_backlog = backlog;
      sk_ack_backlog = 0;
      sk_state = TcpState.tcp_listen;
    } in
    if s.sk_zapped || (not (is_opened s.scp.state) || is_listening s)
    then (einval, t)
    else (0, dn_rehash_sock (set_sock sk listening t) sk)
