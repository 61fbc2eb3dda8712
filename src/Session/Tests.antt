-- ===== src/Session/Tests.antt =====
-- The theorems at concrete sockets and packets.
use raspbian_decnet.Base.{
  ℕ, ◌≡◌, refl, true, ◌==◌, if◌then◌else◌, none, some, [], ◌∷◌, ◌++◌, replicate, arith, All, ◌≢◌,
  Bool-cases, inl, inr,
}
use raspbian_decnet.Nsp.Socket.{Skb, Sock, DnScp, SockaddrDn, State, TcpState}
use raspbian_decnet.Nsp.Samples.{sample_kernel, sample_scp, sample_sock, packet}
use raspbian_decnet.Nsp.Ack.RoundTrip.{with_bytes}
use raspbian_decnet.Nsp.Send.{ehostunreach}
use raspbian_decnet.Session.Conninit.{dn_nsp_retrans_conninit}
use raspbian_decnet.Session.Conninit.Retries.{
  timeouts, Sends, IsRetried, retransmitted, timeouts-resent,
}
use raspbian_decnet.Session.Username.{dn_sockaddr2username, dn_username2sockaddr}
use raspbian_decnet.Session.Username.RoundTrip.{
  IsName, received, username2sockaddr-sockaddr2username,
}
use raspbian_decnet.Session.Table.{
  Table, check_port, port_alloc, dn_hash_sock, dn_sklist_find_listener,
}
use raspbian_decnet.Session.Table.Ports.{Allocates, port_alloc-Allocates}
use raspbian_decnet.Session.Table.Lookup.{Hashes, hash_sock-Hashes}
use raspbian_decnet.Session.Conninit.{peer_type, conninit_message}
use raspbian_decnet.Session.Listener.{no_sockaddr, dn_find_listener}
use raspbian_decnet.Session.Listener.RoundTrip.{IsCaller, conninit_body, find_listener-conninit}
use raspbian_decnet.Session.Rx.{Arrival, dn_nsp_rx_packet, dn_nsp_rx}
use raspbian_decnet.Session.Rx.Safety.{Rightful, rx_packet-Rightful}
use raspbian_decnet.Session.Rx.States.{Steps, nsp_rx-Steps}

-- The object "FAL" by name.
abbrev fal_name : SockaddrDn
fal_name = record {
  sdn_flags = 0;
  sdn_objnum = 0;
  sdn_objnamel = 3;
  sdn_objname = 0x46 ∷ 0x41 ∷ 0x4c ∷ replicate 13 0;
  sdn_nodeaddr = 1025;
}

fal_name-IsName : IsName fal_name
fal_name-IsName = record { size = refl; short = omega arith; padded = refl }

username2sockaddr-sockaddr2username_example :
    dn_username2sockaddr ((dn_sockaddr2username fal_name 1).1 ++ (1 ∷ 2 ∷ [])) no_sockaddr 0
    ≡ (some 6, received 1 fal_name no_sockaddr, 1)
unfolding dn_sockaddr2username
username2sockaddr-sockaddr2username_example =
    username2sockaddr-sockaddr2username fal_name no_sockaddr 1 0 (1 ∷ 2 ∷ []) fal_name-IsName
      (omega arith) (omega arith)

-- Socket 1 is listening for the object 17, socket 2 has no port yet, and socket 3 is a running
-- link at port 0x2001.
abbrev table_socks : ℕ → Sock
table_socks sk =
    if sk == 1
    then record sample_sock { sk_state = TcpState.tcp_listen }
    else if sk == 2
    then record sample_sock { scp = record sample_scp { addrloc = 0; state = State.opened } }
    else sample_sock

abbrev sample_table : Table
sample_table = record {
  sk_hash = λ h. if h == 17 then 1 ∷ [] else if h == 1 then 3 ∷ [] else [];
  wild_sk = [];
  socks = table_socks;
  port = 0x2000;
}

port_alloc-Allocates_example : Allocates sample_table 2 (port_alloc sample_table 2)
port_alloc-Allocates_example = port_alloc-Allocates sample_table 2 (omega arith)

-- Port 0x2001 is taken, so that 0x2002 is next.
hash_sock_run : (dn_hash_sock sample_table 2).0 ≡ 0
unfolding dn_hash_sock port_alloc check_port
hash_sock_run = refl

away : (h : ℕ) → All (λ other. other ≢ 2) (sample_table.sk_hash h)
away h = elim (Bool-cases (h == 17)) [
  | inl e ↦ rw e (omega arith, tt)
  | inr e ↦ rw e (elim (Bool-cases (h == 1)) [ inl f ↦ rw f (omega arith, tt) | inr f ↦ rw f tt ])
]

hash_sock-Hashes_example : Hashes sample_table 2 (dn_hash_sock sample_table 2).1
hash_sock-Hashes_example =
    hash_sock-Hashes sample_table 2 (omega arith) refl refl away hash_sock_run

abbrev caller : DnScp
caller = record sample_scp { peer = fal_name; addr = fal_name }

caller-IsCaller : IsCaller caller
caller-IsCaller = record {
  peer = fal_name-IsName;
  addr = fal_name-IsName;
  addr_short = omega arith;
  user = (omega arith, omega arith);
  password = (omega arith, omega arith);
  account = (omega arith, omega arith);
  optional = (omega arith, omega arith);
}

find_listener-conninit_example :
    let (sk, reason, skb) =
      dn_find_listener sample_table
        (with_bytes (packet 0x18 []) (conninit_message caller 0x18))
        41 in
    (sk ≡ dn_sklist_find_listener sample_table (received (peer_type fal_name) fal_name no_sockaddr))
    × (reason ≡ 41)
    × (skb.cb.src_port ≡ 8193)
    × (skb.bytes ≡ conninit_body caller)
find_listener-conninit_example =
    find_listener-conninit sample_table caller (packet 0x18 []) 0x18 41 caller-IsCaller
      (omega arith)

-- A data segment for port 0x2001 from port 77.
abbrev sample_arrival : Arrival
sample_arrival = record {
  skb = packet 0 (0x60 ∷ 1 ∷ 0x20 ∷ 77 ∷ 0 ∷ 0xff ∷ 0x0f ∷ 5 ∷ []);
  skb_dst = some 7;
  linearizes = true;
}

rx_packet-Rightful_example :
    Rightful sample_table (dn_nsp_rx_packet sample_kernel sample_arrival sample_table).outcome
rx_packet-Rightful_example = rx_packet-Rightful sample_kernel sample_arrival sample_table

nsp_rx-Steps_example : Steps sample_table (dn_nsp_rx sample_kernel sample_arrival sample_table)
nsp_rx-Steps_example = nsp_rx-Steps sample_kernel sample_arrival sample_table

abbrev returned_packet : Skb
returned_packet = packet 0 (0x28 ∷ 1 ∷ 0x20 ∷ 77 ∷ 0 ∷ [])

abbrev returned_arrival : Arrival
returned_arrival = record {
  skb = record returned_packet { cb = record (returned_packet.cb) { rt_flags = 0x10 } };
  skb_dst = none;
  linearizes = true;
}

abbrev calling_sock : Sock
calling_sock = record sample_sock {
  scp = record caller { state = State.connect_initiate; persist_count = 2 };
}

sample_kernel-Sends : Sends sample_kernel
sample_kernel-Sends = record { memory = λ n. refl; routed = ground arith }

timeouts-resent_example :
    let ks = sample_kernel ∷ sample_kernel ∷ [] in
    let tried = timeouts ks calling_sock in
    let given_up = dn_nsp_retrans_conninit sample_kernel tried in
    IsRetried (retransmitted calling_sock) ks calling_sock
    × (tried.sent ≡ replicate 2 (retransmitted calling_sock) ++ calling_sock.sent)
    × (given_up.sent ≡ tried.sent)
    × (given_up.scp.state ≡ State.no_communication)
    × (given_up.sk_err ≡ ehostunreach)
    × (given_up.sk_state ≡ TcpState.tcp_close)
timeouts-resent_example =
    timeouts-resent (sample_kernel ∷ sample_kernel ∷ []) sample_kernel calling_sock
      (sample_kernel-Sends, (sample_kernel-Sends, tt)) refl refl (omega arith)
