-- ===== src/Session/Table.antt =====
-- The table of sockets of kernel/net/decnet/af_decnet.c: `dn_find_list`, `check_port`,
-- `port_alloc`, `dn_hash_sock`, `dn_unhash_sock`, `listen_hash`, `dn_rehash_sock` and the lookups.
-- A socket is named by a number, its address; ports are in host order. Error numbers stand
-- without their sign.
pub mod Ports
pub mod Lookup
use raspbian_decnet.Base.{
  ℕ, zero, suc, ◌+◌, ◌*◌, ◌/◌, ◌%◌, ◌^◌, Bool, true, false, not, ◌&&◌, ◌||◌, ◌==◌, ◌!=◌,
  if◌then◌else◌, Option, none, some, List, [], ◌∷◌, bit_and, bit_xor, get_or, take,
}
use raspbian_decnet.Nsp.Seq.{u16}
use raspbian_decnet.Nsp.Socket.{Sock, DnScp, DnSkbCb, SockaddrDn, TcpState, ulong}
use raspbian_decnet.Nsp.Queue.{tests}

-- `dn_sk_hash`, `dn_wild_sk`, the sockets themselves, and the static `port` of `port_alloc`.
pub record Table : Type 0 where
  pub sk_hash : ℕ → List ℕ
  pub wild_sk : List ℕ
  pub socks : ℕ → Sock
  pub port : ℕ

abbrev pub dn_sk_hash_mask : ℕ
dn_sk_hash_mask = 255

abbrev pub sdf_wild : ℕ
sdf_wild = 1

abbrev pub eaddrinuse : ℕ
eaddrinuse = 98

abbrev pub eusers : ℕ
eusers = 87

pub data Chain : Type 0 where
  wild : Chain
  hashed : ℕ → Chain

abbrev pub hash_of : ℕ → ℕ
hash_of port = bit_and port dn_sk_hash_mask

-- `sk_for_each` with a test for the socket to return.
pub first : (ℕ → Bool) → List ℕ → Option ℕ
first test [] = none
first test (sk ∷ rest) = if test sk then some sk else first test rest

abbrev pub is_some : Option ℕ → Bool
is_some none = false
is_some (some sk) = true

unfoldable pub dn_find_list : Table → Sock → Option Chain
dn_find_list t s =
    if tests s.scp.addr.sdn_flags sdf_wild
    then (if is_some (first (λ sk. true) t.wild_sk) then none else some Chain.wild)
    else some (Chain.hashed (hash_of s.scp.addrloc))

-- Whether `check_port` returns 0.
unfoldable pub check_port : Table → ℕ → Bool
unfolding first
check_port t port =
    port != 0
    && not (is_some (first (λ sk. (t.socks sk).scp.addrloc == port) (t.sk_hash (hash_of port))))

-- The loop of `port_alloc`: whether a port was found, and the last one tried; none is out of fuel.
pub next_port : Table → ℕ → ℕ → ℕ → Option (Bool × ℕ)
next_port t i_port zero port = none
next_port t i_port (suc fuel) port =
    let next = u16 (port + 1) in
    let rest = next_port t i_port fuel next in
    if check_port t next
    then some (true, next)
    else if next == i_port
    then some (false, next)
    else rest

abbrev pub set_sock : ℕ → Sock → Table → Table
set_sock sk s t = record t { socks = λ other. if other == sk then s else t.socks other }

abbrev pub set_addrloc : ℕ → ℕ → Table → Table
set_addrloc sk port t =
    let s = t.socks sk in set_sock sk (record s { scp = record (s.scp) { addrloc = port } }) t

-- What the loop leaves behind.
abbrev pub take_port : ℕ → Table → Option (Bool × ℕ) → Bool × Table
take_port sk t none = (false, t)
take_port sk t (some (found, port)) =
    let t' = record t { port = port } in
    if found then (true, set_addrloc sk port t') else (false, t')

-- The fuel is the number of ports.
unfoldable pub port_alloc : Table → ℕ → Bool × Table
unfolding next_port
port_alloc t sk = take_port sk t (next_port t t.port 65536 t.port)

-- `sk_add_node`.
abbrev pub add_node : ℕ → Chain → Table → Table
add_node sk Chain.wild t = record t { wild_sk = sk ∷ t.wild_sk }
add_node sk (Chain.hashed hash) t = record t {
  sk_hash = λ h. if h == hash then sk ∷ t.sk_hash h else t.sk_hash h;
}

abbrev pub add_found : ℕ → Table → Option Chain → ℕ × Table
add_found sk t none = (eaddrinuse, t)
add_found sk t (some chain) = (0, add_node sk chain t)

-- The error number, and the table.
unfoldable pub dn_hash_sock : Table → ℕ → ℕ × Table
unfolding dn_find_list
dn_hash_sock t sk =
    let (allocated, t') = port_alloc t sk in
    if (t.socks sk).scp.addrloc == 0
    then if allocated then add_found sk t' (dn_find_list t' (t'.socks sk)) else (eusers, t')
    else add_found sk t (dn_find_list t (t.socks sk))

pub without : ℕ → List ℕ → List ℕ
without sk [] = []
without sk (other ∷ rest) = if other == sk then without sk rest else other ∷ without sk rest

-- `sk_del_node_init`: off whatever list it is on.
unfoldable pub dn_unhash_sock : Table → ℕ → Table
unfolding without
dn_unhash_sock t sk = record t {
  sk_hash = λ h. without sk (t.sk_hash h);
  wild_sk = without sk t.wild_sk;
}

-- The loop over the name; `hash` is an `unsigned int`.
pub hash_name : List ℕ → ℕ → ℕ
hash_name [] hash = hash
hash_name (c ∷ rest) hash =
    let mixed = bit_xor hash c in hash_name rest (bit_xor mixed (ulong (mixed * 2 ^ 3)))

unfoldable pub listen_hash : SockaddrDn → ℕ
unfolding hash_name
listen_hash addr =
    if addr.sdn_objnum == 0
    then hash_of (hash_name (take addr.sdn_objnamel addr.sdn_objname) addr.sdn_objnamel)
    else hash_of addr.sdn_objnum

unfoldable pub dn_rehash_sock : Table → ℕ → Table
dn_rehash_sock t sk =
    if tests (t.socks sk).scp.addr.sdn_flags sdf_wild
    then t
    else add_node sk (Chain.hashed (listen_hash (t.socks sk).scp.addr))
        (set_addrloc sk 0 (dn_unhash_sock t sk))

abbrev pub is_listen : TcpState → Bool
is_listen TcpState.tcp_listen = true
is_listen _ = false

abbrev pub is_listening : Sock → Bool
is_listening s = is_listen s.sk_state

-- `memcmp` on the first `n` bytes of the arrays: whether they are the same.
pub same_bytes : ℕ → List ℕ → List ℕ → Bool
same_bytes zero xs ys = true
same_bytes (suc n) [] ys = true
same_bytes (suc n) (x ∷ xs) [] = true
same_bytes (suc n) (x ∷ xs) (y ∷ ys) = x == y && same_bytes n xs ys

-- The tests on a listening socket's name.
abbrev pub offers : SockaddrDn → SockaddrDn → Bool
offers own addr =
    if own.sdn_objnum != 0
    then own.sdn_objnum == addr.sdn_objnum
    else addr.sdn_objnum == 0
      && (own.sdn_objnamel == addr.sdn_objnamel
          && same_bytes addr.sdn_objnamel own.sdn_objname addr.sdn_objname)

-- `sk_head`, where it is listening.
abbrev pub wild_listener : Table → List ℕ → Option ℕ
wild_listener t [] = none
wild_listener t (sk ∷ rest) = if is_listening (t.socks sk) then some sk else none

abbrev pub or_else : Option ℕ → Option ℕ → Option ℕ
or_else none other = other
or_else (some sk) other = some sk

unfoldable pub dn_sklist_find_listener : Table → SockaddrDn → Option ℕ
unfolding first same_bytes
dn_sklist_find_listener t addr =
    or_else
      (first (λ sk. is_listening (t.socks sk) && offers (t.socks sk).scp.addr addr)
        (t.sk_hash (listen_hash addr)))
      (wild_listener t t.wild_sk)

abbrev pub is_duplicate : DnSkbCb → Sock → Bool
is_duplicate cb s =
    not (is_listening s) && (cb.src == s.scp.peer.sdn_nodeaddr && cb.src_port == s.scp.addrrem)

-- The loop over the chains, of which those below `n` are left; what it finds out does not depend
-- on the order.
pub any_chain : Table → (ℕ → Bool) → ℕ → Bool
any_chain t test zero = false
any_chain t test (suc n) = is_some (first test (t.sk_hash n)) || any_chain t test n

unfoldable pub dn_check_duplicate_conn : Table → DnSkbCb → Bool
unfolding any_chain first
dn_check_duplicate_conn t cb = any_chain t (λ sk. is_duplicate cb (t.socks sk)) 256

unfoldable pub dn_check_returned_conn : Table → DnSkbCb → Option ℕ
unfolding first
dn_check_returned_conn t cb =
    first (λ sk. not (is_listening (t.socks sk)) && cb.src_port == (t.socks sk).scp.addrloc)
      (t.sk_hash (hash_of cb.src_port))

-- The tests on a socket for a packet to a port.
abbrev pub receives : DnScp → DnSkbCb → Bool
receives scp cb =
    cb.src == scp.peer.sdn_nodeaddr
    && (cb.dst_port == scp.addrloc && (scp.addrrem == 0 || cb.src_port == scp.addrrem))

unfoldable pub dn_find_by_skb : Table → DnSkbCb → Option ℕ
unfolding first
dn_find_by_skb t cb = first (λ sk. receives (t.socks sk).scp cb) (t.sk_hash (hash_of cb.dst_port))
