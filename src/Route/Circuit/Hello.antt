-- ===== src/Route/Circuit/Hello.antt =====
-- The hello messages that a node sends on a broadcast circuit, kernel/net/decnet/dn_dev.c, and what
-- a router reads in one (`struct rtnode_hello_message`, kernel/include/net/dn_dev.h). The 16-bit
-- length in front of a packet is left out.
use raspbian_decnet.Base.{
  ℕ, ◌+◌, ◌-◌, ◌*◌, ◌/◌, ◌%◌, ◌^◌, Bool, ◌||◌, ltb, ◌==◌, if◌then◌else◌, Option, none, some, List,
  [], ◌++◌, take, drop, get_or, length, replicate, bit_or, not, ◌∷◌,
}
use raspbian_decnet.Nsp.Header.{le16, read_le16}
use raspbian_decnet.Route.Receive.{dn_rt_pkt_cntl}
use raspbian_decnet.Route.Header.{dn_dn2eth}
use raspbian_decnet.Route.Circuit.{
  DnNeigh, DnDev, RouterHello, dn_am_i_a_router, dn_neigh_elist, dn_rt_info_l1rt, dn_rt_info_l2rt,
}

-- `has_length` says whether the device's type is one that carries the length of a packet.
unfoldable pub mtu2blksize : ℕ → Bool → ℕ
mtu2blksize mtu has_length =
    let blksize = if ltb 0xffff mtu then 0xffff else mtu in
    if has_length then (blksize + (2 ^ 32 - 2)) % 2 ^ 16 else blksize % 2 ^ 16

-- The length of the list of routers as bytes, one id of a circuit of seven reserved bytes before it.
abbrev pub listed : List (List ℕ) → List ℕ
listed [] = []
listed (s ∷ slots) = s ++ listed slots

unfoldable pub router_hello : ℕ → DnDev → ℕ → List (List ℕ) → List ℕ
router_hello blksize dev ifa_local slots =
    let i2 = 7 * length slots % 256 in
    let level = if dev.forwarding == 1 then dn_rt_info_l1rt else dn_rt_info_l2rt in
    let tail = 0 ∷ ((8 + i2) % 256 ∷ (replicate 7 0 ++ (i2 ∷ listed slots))) in
    let body = dev.parms_priority ∷ (0 ∷ (le16 dev.parms_t3 ++ tail)) in
    bit_or dn_rt_pkt_cntl 0x0b
    ∷ (2 ∷ (0 ∷ (0 ∷ (dn_dn2eth ifa_local ++ (level ∷ (le16 blksize ++ body))))))

-- The packet for all routers, where memory is given, and whether all end nodes get it too.
unfoldable pub dn_send_router_hello :
    ℕ → ℕ → Bool → ℕ → Option DnNeigh → DnDev → ℕ → Option (List ℕ × Bool)
unfolding router_hello
dn_send_router_hello hz jiffies memory blksize router dev ifa_local =
    let n = (blksize - 26) / 7 in
    let slots = dn_neigh_elist (if ltb 32 n then 32 else n) dev.neighbours [] in
    if ltb blksize (26 + 7) || not memory
    then none
    else some
        (router_hello blksize dev ifa_local slots, dn_am_i_a_router hz jiffies router dev ifa_local)

-- The fields of a router hello, from the hardware address that it came from.
unfoldable pub read_hello : List ℕ → List ℕ → RouterHello
read_hello h_source msg = record {
  id = take 6 (drop 4 msg);
  iinfo = get_or msg 10 0;
  hello_blksize = read_le16 (drop 11 msg);
  hello_priority = get_or msg 13 0;
  timer = read_le16 (drop 15 msg);
  h_source = h_source;
}

abbrev pub neighbor_of : Option ℕ → List ℕ
neighbor_of none = replicate 6 0
neighbor_of (some addr) = dn_dn2eth addr

-- The hello of an end node; `msgflg` is DN_RT_PKT_EEDH, or DN_RT_PKT_EEDHP with Phase IV Prime.
unfoldable pub dn_send_endnode_hello : Bool → Bool → ℕ → DnDev → ℕ → Option (List ℕ)
dn_send_endnode_hello memory dn_ivprime blksize dev ifa_local =
    let tail = le16 (dev.parms_t3 % 2 ^ 16) ++ (0 ∷ (2 ∷ (0xaa ∷ (0xaa ∷ [])))) in
    let body = replicate 8 0 ++ (neighbor_of dev.router ++ tail) in
    if memory
    then some (
        (if dn_ivprime then 0x0f else 0x0d)
        ∷ (2 ∷ (0 ∷ (0 ∷ (dn_dn2eth ifa_local ++ (3 ∷ (le16 blksize ++ (0 ∷ body))))))))
    else none

-- What a node sends on a broadcast circuit, once it has an address.
pub data Hello : Type 0 where
  silent : Hello
  endnode : Option (List ℕ) → Hello
  routing : Option (List ℕ × Bool) → Hello

unfoldable pub dn_send_brd_hello : ℕ → ℕ → Bool → Bool → ℕ → ℕ → Option DnNeigh → DnDev → ℕ → Hello
unfolding dn_send_endnode_hello dn_send_router_hello
dn_send_brd_hello hz jiffies memory dn_ivprime decnet_address blksize router dev ifa_local =
    if decnet_address == 0
    then silent
    else if dev.forwarding == 0
    then endnode (dn_send_endnode_hello memory dn_ivprime blksize dev ifa_local)
    else routing (dn_send_router_hello hz jiffies memory blksize router dev ifa_local)
