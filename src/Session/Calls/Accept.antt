-- ===== src/Session/Calls/Accept.antt =====
-- Accepting a link: `dn_accept`, `dn_access_copy` and `dn_user_copy` of
-- kernel/net/decnet/af_decnet.c, from the connect initiate on that the listener's queue gives.
pub mod RoundTrip
use raspbian_decnet.Base.{
  ℕ, ◌+◌, ◌-◌, Bool, true, false, ◌&&◌, ltb, ◌==◌, if◌then◌else◌, Option, none, some, List, [], ◌∷◌,
  ◌++◌, take, drop, get_or, bit_and, bit_or,
}
use raspbian_decnet.Nsp.Socket.{
  Kernel, Sock, Skb, DnScp, SockaddrDn, OptdataDn, AccessdataDn, State, TcpState, SocketState,
}
use raspbian_decnet.Nsp.Queue.{tests}
use raspbian_decnet.Nsp.Message.{dn_send_conn_ack}
use raspbian_decnet.Nsp.Receive.Connect.{nsp_fc_mask, nsp_fc_none}
use raspbian_decnet.Session.Username.{dn_username2sockaddr}
use raspbian_decnet.Session.Conninit.{nsp_rci, sdf_proxy, sdf_uicproxy}
use raspbian_decnet.Session.Listener.{dn_menuver_acc, dn_menuver_usr}
use raspbian_decnet.Session.Table.{
  Table, sdf_wild, set_sock, is_listening, dn_check_duplicate_conn, dn_hash_sock,
}
use raspbian_decnet.Session.Calls.Open.{
  einval, acc_immed, Host, is_opened, set_zapped, dn_alloc_sock,
}
use raspbian_decnet.Session.Calls.Connect.{Reply, with_sock, dn_confirm_accept}

-- A length byte, the bytes behind it copied over an array, and what follows them.
unfoldable pub copy_field : List ℕ → List ℕ → ℕ × List ℕ × List ℕ
copy_field [] old = (0, old, [])
copy_field (n ∷ ptr) old = (n, take n ptr ++ drop n old, drop n ptr)

-- The access data, and the packet behind it.
unfoldable pub dn_access_copy : List ℕ → AccessdataDn → AccessdataDn × List ℕ
dn_access_copy bytes acc =
    let (userl, user, ptr1) = copy_field bytes acc.acc_user in
    let (passl, pass, ptr2) = copy_field ptr1 acc.acc_pass in
    let (accl, account, ptr3) = copy_field ptr2 acc.acc_acc in
    (
      record {
        acc_accl = accl;
        acc_acc = account;
        acc_passl = passl;
        acc_pass = pass;
        acc_userl = userl;
        acc_user = user;
      },
      ptr3,
    )

-- The optional data; the length has been checked before, as `BUG_ON` says.
unfoldable pub dn_user_copy : List ℕ → OptdataDn → OptdataDn
dn_user_copy bytes opt =
    let (len, optional, ptr) = copy_field bytes opt.opt_data in
    record { opt_status = 0; opt_optl = len; opt_data = optional }

abbrev pub pull_name : Option ℕ → List ℕ → List ℕ
pull_name none bytes = bytes
pull_name (some n) bytes = drop n bytes

-- The names, access data and optional data of the message, in the new socket.
unfoldable pub read_link : List ℕ → DnScp → DnScp
read_link bytes scp =
    let (dstlen, addr, dst_type) = dn_username2sockaddr bytes scp.addr 0 in
    let ptr1 = pull_name dstlen bytes in
    let (srclen, peer, src_type) = dn_username2sockaddr ptr1 scp.peer dst_type in
    let ptr2 = pull_name srclen ptr1 in
    let menuver = get_or ptr2 0 0 in
    let ptr3 = drop 1 ptr2 in
    let (access, ptr4) = dn_access_copy ptr3 scp.accessdata in
    let proxy = if tests menuver 4 then sdf_proxy else 0 in
    let uic = if tests menuver 8 then sdf_uicproxy else 0 in
    record scp {
      addr = addr;
      peer = record peer { sdn_flags = bit_or (bit_or peer.sdn_flags proxy) uic };
      accessdata = if tests menuver dn_menuver_acc then access else scp.accessdata;
      conndata_in =
          if tests menuver dn_menuver_usr
          then dn_user_copy (if tests menuver dn_menuver_acc then ptr4 else ptr3) scp.conndata_in
          else scp.conndata_in;
    }

-- What the control block of the packet says of the link.
unfoldable pub link_from_cb : Kernel → Skb → DnScp → DnScp → DnScp
link_from_cb k skb listener scp =
    let cb = skb.cb in
    record scp {
      state = State.connect_receive;
      addrrem = cb.src_port;
      services_rem = cb.services;
      info_rem = cb.info;
      segsize_rem = if ltb cb.segsize 230 then 230 else cb.segsize;
      accept_mode = listener.accept_mode;
      max_window =
          if bit_and cb.services nsp_fc_mask == nsp_fc_none
          then k.no_fc_max_cwnd
          else scp.max_window;
      addr = record (listener.addr) {
        sdn_flags = bit_and listener.addr.sdn_flags (255 - sdf_wild);
      };
    }

-- The new socket, before it is hashed. The nodes of the names are those of the packet's route.
unfoldable pub new_link : Kernel → ℕ → Skb → Option ℕ → DnScp → Option SocketState → Sock
new_link k rmem skb dst listener newsock =
    let fresh = dn_alloc_sock k rmem newsock in
    let scp = read_link skb.bytes (link_from_cb k skb listener fresh.scp) in
    record fresh {
      sk_state = TcpState.tcp_listen;
      dst_cache = dst;
      scp = record scp {
        addr = record (scp.addr) { sdn_nodeaddr = skb.cb.dst };
        peer = record (scp.peer) { sdn_nodeaddr = skb.cb.src };
        conndata_out = listener.conndata_out;
        discdata_out = listener.discdata_out;
      };
    }

-- A retransmitted connect initiate of a link that is there already is passed over.
unfoldable pub is_passed_over : Table → Skb → Bool
is_passed_over t skb = bit_and skb.cb.nsp_flags 0x78 == nsp_rci && dn_check_duplicate_conn t skb.cb

-- A new socket that was hashed: the acknowledgement, and the confirmation unless it is deferred.
abbrev pub answer : Kernel → Host → Table → ℕ → Reply × Table
answer k h t sk =
    let s = dn_send_conn_ack k (set_zapped false (t.socks sk)) in
    if s.scp.accept_mode == acc_immed
    then with_sock t sk (dn_confirm_accept k h s)
    else (Reply.done 0, set_sock sk s t)

-- The listener without the packet that was at the head of its queue.
abbrev pub dequeued : List Skb → Sock → Sock
dequeued rest s = record s { sk_receive_queue = rest; sk_ack_backlog = s.sk_ack_backlog - 1 }

-- A packet that is accepted: the new socket is `newsk`; `dst` is the packet's route.
unfoldable pub accept_packet :
    Kernel → Host → Table → ℕ → ℕ → ℕ → Skb → Option ℕ → Option SocketState → Reply × Table
accept_packet k h t sk newsk rmem skb dst newsock =
    let link = new_link k rmem skb dst (t.socks sk).scp newsock in
    let (err, t') = dn_hash_sock (set_sock newsk link t) newsk in
    if err == 0 then answer k h t' newsk else (Reply.done err, t')

-- What is queued: packets that are passed over are dropped, and an empty queue is waited on.
unfoldable pub accept_queued :
    Kernel
    → Host
    → (Skb → Option ℕ)
    → List Skb
    → Table
    → ℕ
    → ℕ
    → ℕ
    → Option SocketState
    → Reply × Table
accept_queued k h skb_dst [] t sk newsk rmem newsock = (Reply.sleeps, t)
accept_queued k h skb_dst (skb ∷ queue) t sk newsk rmem newsock =
    let t' = set_sock sk (dequeued queue (t.socks sk)) t in
    let rest = accept_queued k h skb_dst queue t' sk newsk rmem newsock in
    if is_passed_over t' skb
    then rest
    else accept_packet k h t' sk newsk rmem skb (skb_dst skb) newsock

unfoldable pub dn_accept :
    Kernel → Host → (Skb → Option ℕ) → Table → ℕ → ℕ → ℕ → Option SocketState → Reply × Table
dn_accept k h skb_dst t sk newsk rmem newsock =
    let s = t.socks sk in
    if is_listening s && is_opened s.scp.state
    then accept_queued k h skb_dst s.sk_receive_queue t sk newsk rmem newsock
    else (Reply.done einval, t)
