-- ===== src/Nsp/Samples.antt =====
-- A socket and a kernel to run the NSP code on.
use raspbian_decnet.Base.{ℕ, true, false, some, List, [], ◌∷◌}
use raspbian_decnet.Nsp.Socket.{
  Kernel, Sock, Skb, DnScp, SockaddrDn, OptdataDn, State, TcpState, SocketState, PersistFxn,
}
use raspbian_decnet.Nsp.Send.{empty_cb}

abbrev pub sample_kernel : Kernel
sample_kernel = record {
  jiffies = 1000;
  hz = 250;
  segbufsize = 576;
  no_fc_max_cwnd = 1;
  outgoing_timer = 60;
  di_count = 3;
  dr_count = 3;
  alloc = λ n. true;
  dst_valid = λ dst. true;
  route = some 7;
  filter = λ skb. (0, skb);
  rmem_schedule = λ skb. true;
  tailroom = λ skb. [];
}

-- A segment on a transmit queue.
abbrev pub segment : ℕ → ℕ → Skb
segment number sent = record {
  bytes = 0x60 ∷ number ∷ [];
  cb = record empty_cb { segnum = number; xmit_count = sent; nsp_flags = 0x60; stamp = 990 };
  truesize = 0;
}

-- A packet as the network delivers it.
abbrev pub packet : ℕ → List ℕ → Skb
packet nsp_flags bytes = record {
  bytes = bytes;
  cb = record empty_cb { nsp_flags = nsp_flags; src_port = 77; rt_flags = 0x26; stamp = 1000 };
  truesize = 300;
}

abbrev pub no_optdata : OptdataDn
no_optdata = record { opt_status = 0; opt_optl = 0; opt_data = [] }

abbrev pub no_name : SockaddrDn
no_name = record {
  sdn_flags = 0;
  sdn_objnum = 17;
  sdn_objnamel = 0;
  sdn_objname = [];
  sdn_nodeaddr = 1025;
}

-- A running link with three segments out, around the wrap of the numbers.
abbrev pub sample_scp : DnScp
sample_scp = record {
  state = State.running;
  addrloc = 8193;
  addrrem = 77;
  numdat = 1;
  numoth = 5;
  numoth_rcv = 9;
  numdat_rcv = 4094;
  ackxmt_dat = 0;
  ackxmt_oth = 0;
  ackrcv_dat = 4093;
  ackrcv_oth = 4;
  flowrem_sw = 2;
  flowloc_sw = 2;
  flowrem_dat = 0;
  flowrem_oth = 1;
  flowloc_dat = 0;
  flowloc_oth = 1;
  services_rem = 1;
  services_loc = 1;
  info_rem = 0;
  info_loc = 3;
  segsize_rem = 1459;
  segsize_loc = 1459;
  pending = 0;
  nonagle = 0;
  multi_ireq = 1;
  accept_mode = 0;
  seg_total = 0;
  conndata_in = no_optdata;
  conndata_out = no_optdata;
  discdata_in = no_optdata;
  discdata_out = no_optdata;
  accessdata = record {
    acc_accl = 0;
    acc_acc = [];
    acc_passl = 0;
    acc_pass = [];
    acc_userl = 0;
    acc_user = [];
  };
  addr = no_name;
  peer = no_name;
  max_window = 2046;
  snd_window = 4;
  nsp_srtt = 250;
  nsp_rttvar = 750;
  nsp_rxtshift = 0;
  delayedacks = 0;
  data_xmit_queue = segment 4094 1 ∷ segment 4095 2 ∷ segment 0 1 ∷ [];
  other_xmit_queue = [];
  other_receive_queue = [];
  other_report = 0;
  stamp = 995;
  persist = 0;
  persist_count = 0;
  persist_fxn = PersistFxn.null;
  keepalive = 2500;
  ackdelay = 0;
  conntimer = 0;
}

abbrev pub sample_sock : Sock
sample_sock = record {
  scp = sample_scp;
  sk_state = TcpState.tcp_established;
  sk_err = 0;
  sk_shutdown = 0;
  sk_dead = false;
  sk_zapped = false;
  sk_socket = some SocketState.connected;
  sk_rmem_alloc = 0;
  sk_rcvbuf = 100000;
  sk_drops = 0;
  sk_ack_backlog = 0;
  sk_max_ack_backlog = 5;
  sk_receive_queue = [];
  dst_cache = some 7;
  sent = [];
  state_changes = 0;
  data_readies = 0;
  allocations = 0;
}
