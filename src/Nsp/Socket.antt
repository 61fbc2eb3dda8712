-- ===== src/Nsp/Socket.antt =====
-- What an NSP socket keeps: `struct dn_scp` and `struct dn_skb_cb` (kernel/include/net/dn.h), the
-- address records of <linux/dn.h> that they hold, and the fields of `struct sock` that the NSP
-- code reads or writes. Numbers of 16 bits that the wire holds in little-endian order are kept in
-- host order; `unsigned long` has 32 bits, as on the 32-bit Raspbian kernels.
use raspbian_decnet.Base.{ℕ, ◌+◌, ◌-◌, ◌%◌, ◌^◌, Bool, Option, List}

abbrev pub ulong_mod : ℕ
ulong_mod = 2 ^ 32

abbrev pub ulong : ℕ → ℕ
ulong n = n % ulong_mod

-- `a - b` on `unsigned long`.
abbrev pub ulong_sub : ℕ → ℕ → ℕ
ulong_sub a b = (a + ulong_mod - b) % ulong_mod

-- `scp->state`: the names `DN_O` to `DN_CN` written out.
pub data State : Type 0 where
  opened connect_receive disconnect_reject disconnect_reject_complete connect_confirm : State
  connect_initiate no_resources no_communication connect_delivery rejected running : State
  disconnect_initiate disconnect_complete disconnect_notification closed : State
  closed_notification : State

-- `sk->sk_state`: the values that the DECnet code gives it.
pub data TcpState : Type 0 where
  tcp_established tcp_close tcp_listen tcp_syn_sent : TcpState

-- `sk->sk_socket->state`.
pub data SocketState : Type 0 where
  unconnected connecting connected disconnecting : SocketState

-- `scp->persist_fxn`; `null` is the null pointer.
pub data PersistFxn : Type 0 where
  null destroy_timer xmit_timeout retrans_conn_conf retrans_conninit : PersistFxn

-- `struct sockaddr_dn`: the name is kept as the bytes of the array `sdn_objname`.
pub record SockaddrDn : Type 0 where
  pub sdn_flags : ℕ
  pub sdn_objnum : ℕ
  pub sdn_objnamel : ℕ
  pub sdn_objname : List ℕ
  pub sdn_nodeaddr : ℕ

pub record OptdataDn : Type 0 where
  pub opt_status : ℕ
  pub opt_optl : ℕ
  pub opt_data : List ℕ

pub record AccessdataDn : Type 0 where
  pub acc_accl : ℕ
  pub acc_acc : List ℕ
  pub acc_passl : ℕ
  pub acc_pass : List ℕ
  pub acc_userl : ℕ
  pub acc_user : List ℕ

pub record DnSkbCb : Type 0 where
  pub dst : ℕ
  pub src : ℕ
  pub hops : ℕ
  pub dst_port : ℕ
  pub src_port : ℕ
  pub services : ℕ
  pub info : ℕ
  pub rt_flags : ℕ
  pub nsp_flags : ℕ
  pub ack_delay : ℕ
  pub segsize : ℕ
  pub segnum : ℕ
  pub xmit_count : ℕ
  pub stamp : ℕ
  pub iif : ℕ

-- A packet: the bytes from `skb->data` on, its control block and its charge to a socket's memory.
pub record Skb : Type 0 where
  pub bytes : List ℕ
  pub cb : DnSkbCb
  pub truesize : ℕ

pub record DnScp : Type 0 where
  pub state : State
  pub addrloc : ℕ
  pub addrrem : ℕ
  pub numdat : ℕ
  pub numoth : ℕ
  pub numoth_rcv : ℕ
  pub numdat_rcv : ℕ
  pub ackxmt_dat : ℕ
  pub ackxmt_oth : ℕ
  pub ackrcv_dat : ℕ
  pub ackrcv_oth : ℕ
  pub flowrem_sw : ℕ
  pub flowloc_sw : ℕ
  pub flowrem_dat : ℕ
  pub flowrem_oth : ℕ
  pub flowloc_dat : ℕ
  pub flowloc_oth : ℕ
  pub services_rem : ℕ
  pub services_loc : ℕ
  pub info_rem : ℕ
  pub info_loc : ℕ
  pub segsize_rem : ℕ
  pub segsize_loc : ℕ
  pub pending : ℕ
  pub nonagle : ℕ
  pub multi_ireq : ℕ
  pub accept_mode : ℕ
  pub seg_total : ℕ
  pub conndata_in : OptdataDn
  pub conndata_out : OptdataDn
  pub discdata_in : OptdataDn
  pub discdata_out : OptdataDn
  pub accessdata : AccessdataDn
  pub addr : SockaddrDn
  pub peer : SockaddrDn
  pub max_window : ℕ
  pub snd_window : ℕ
  pub nsp_srtt : ℕ
  pub nsp_rttvar : ℕ
  pub nsp_rxtshift : ℕ
  pub delayedacks : ℕ
  pub data_xmit_queue : List Skb
  pub other_xmit_queue : List Skb
  pub other_receive_queue : List Skb
  pub other_report : ℕ
  pub stamp : ℕ
  pub persist : ℕ
  pub persist_count : ℕ
  pub persist_fxn : PersistFxn
  pub keepalive : ℕ
  pub ackdelay : ℕ
  pub conntimer : ℕ

-- `struct dn_sock`. `sk_dead` and `sk_zapped` are the flags SOCK_DEAD and SOCK_ZAPPED. `sk_socket` is the state of the socket that the user holds, if any.
-- `dst_cache` is the cached route. The last four fields record what the code does outside of the
-- socket: the packets it hands to the routing layer (the newest first), its calls of
-- `sk_state_change` and of `sk_data_ready`, and how many allocations it has asked for.
pub record Sock : Type 0 where
  pub scp : DnScp
  pub sk_state : TcpState
  pub sk_err : ℕ
  pub sk_shutdown : ℕ
  pub sk_dead : Bool
  pub sk_zapped : Bool
  pub sk_socket : Option SocketState
  pub sk_rmem_alloc : ℕ
  pub sk_rcvbuf : ℕ
  pub sk_drops : ℕ
  pub sk_ack_backlog : ℕ
  pub sk_max_ack_backlog : ℕ
  pub sk_receive_queue : List Skb
  pub dst_cache : Option ℕ
  pub sent : List Skb
  pub state_changes : ℕ
  pub data_readies : ℕ
  pub allocations : ℕ

-- What the rest of the kernel answers while one event is handled: the clock, the settings of
-- sysctl_net_decnet.c, whether the n-th allocation succeeds, whether a cached route may still be
-- used, what a route lookup finds, the verdict of the socket filter (0 accepts, and the packet may
-- have been trimmed) and whether receive memory may be charged.
pub record Kernel : Type 0 where
  pub jiffies : ℕ
  pub hz : ℕ
  pub segbufsize : ℕ
  pub no_fc_max_cwnd : ℕ
  pub outgoing_timer : ℕ
  pub di_count : ℕ
  pub dr_count : ℕ
  pub alloc : ℕ → Bool
  pub dst_valid : ℕ → Bool
  pub route : Option ℕ
  pub filter : Skb → ℕ × Skb
  pub rmem_schedule : Skb → Bool
  pub tailroom : Skb → List ℕ
