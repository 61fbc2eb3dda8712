-- ===== src/Route/Receive.antt =====
-- A packet that comes in: `dn_route_rcv`, `dn_route_rx_long`, `dn_route_rx_short` of
-- kernel/net/decnet/dn_route.c, up to the netfilter hooks, which are taken to let packets pass.
pub mod RoundTrip
pub mod Hellos
use raspbian_decnet.Base.{
  ℕ, zero, suc, ◌+◌, ◌-◌, ◌*◌, Bool, true, false, not, ◌&&◌, ◌||◌, ltb, ◌==◌, ◌!=◌, if◌then◌else◌,
  List, [], ◌∷◌, length, take, drop, get_or, bit_and,
}
use raspbian_decnet.Nsp.Header.{read_le16}
use raspbian_decnet.Nsp.Receive.Connect.{dn_rt_f_ie, dn_rt_f_rts, dn_rt_pkt_msk, dn_rt_pkt_short}
use raspbian_decnet.Session.Conninit.{dn_rt_f_rqr}
use raspbian_decnet.Nsp.Socket.{Skb, DnSkbCb}
use raspbian_decnet.Route.Header.{dn_rt_f_pf, dn_rt_f_ver, dn_rt_pkt_long, dn_eth2dn}

abbrev pub dn_rt_pkt_cntl : ℕ
dn_rt_pkt_cntl = 0x01

abbrev pub dn_rt_cntl_rsvd : ℕ
dn_rt_cntl_rsvd = 0x70

abbrev pub dn_rt_cntl_msk : ℕ
dn_rt_cntl_msk = 0x0f

abbrev pub dn_rt_pkt_ivp : ℕ
dn_rt_pkt_ivp = 0x10

-- What is known of an arrival, with the packet from its 16-bit length on: whether it came to the
-- initial namespace, to a device of DECnet in the state DN_DEV_S_RU; whether the packet can be
-- unshared and made linear; the two tests of its Ethernet destination; the time, the device; the
-- node's `dn_IVprime` and `decnet_address`.
pub record Arrival : Type 0 where
  pub skb : Skb
  pub init_net : Bool
  pub has_dn_dev : Bool
  pub running : Bool
  pub shares : Bool
  pub linearizes : Bool
  pub valid_mcast : Bool
  pub unknown_mcast : Bool
  pub jiffies : ℕ
  pub ifindex : ℕ
  pub dn_ivprime : Bool
  pub decnet_address : ℕ

-- A packet, with the bytes from its network header on.
pub record Inbound : Type 0 where
  pub skb : Skb
  pub network : List ℕ

-- What becomes of an arrival: it is dropped, or the function that gets it: `dn_route_ptp_hello`,
-- `dn_route_discard`, `dn_neigh_router_hello`, `dn_neigh_endnode_hello`, `dn_route_rx_packet`.
pub data Disposal : Type 0 where
  dropped : Disposal
  to_ptp_hello to_discard to_router_hello to_endnode_hello to_rx_packet : Inbound → Disposal

-- `skb_pull`, which does nothing where the packet is too short.
abbrev pub skb_pull : ℕ → List ℕ → List ℕ
skb_pull n bytes = if ltb (length bytes) n then bytes else drop n bytes

-- `memcmp(ptr, dn_hiord_addr, 4) == 0`.
abbrev pub is_hiord : List ℕ → Bool
is_hiord p =
    get_or p 0 0 == 0xaa && (get_or p 1 0 == 0x00 && (get_or p 2 0 == 0x04 && get_or p 3 0 == 0x00))

-- `ptr` is the packet behind its flags.
unfoldable pub dn_route_rx_long : Arrival → Inbound → Disposal
dn_route_rx_long a p =
    let ptr = p.skb.bytes in
    let dst = dn_eth2dn (drop 2 ptr) in
    let skb = record (p.skb) {
      bytes = drop 20 ptr;
      cb = record (p.skb.cb) { dst = dst; src = dn_eth2dn (drop 10 ptr); hops = get_or ptr 17 0 };
    } in
    if ltb (length ptr) 21
    then Disposal.dropped
    else if not (is_hiord (drop 2 ptr))
    then Disposal.dropped
    else if not (is_hiord (drop 10 ptr))
    then Disposal.dropped
    else if a.dn_ivprime && (a.unknown_mcast && dst != a.decnet_address)
    then Disposal.dropped
    else Disposal.to_rx_packet (record p { skb = skb })

unfoldable pub dn_route_rx_short : Inbound → Disposal
dn_route_rx_short p =
    let ptr = p.skb.bytes in
    let skb = record (p.skb) {
      bytes = drop 5 ptr;
      cb = record (p.skb.cb) {
        dst = read_le16 ptr;
        src = read_le16 (drop 2 ptr);
        hops = bit_and (get_or ptr 4 0) 0x3f;
      };
    } in
    if ltb (length ptr) 6 then Disposal.dropped else Disposal.to_rx_packet (record p { skb = skb })

-- The control packets. Those for initialisation and verification are looked at by two functions
-- that do nothing.
unfoldable pub control_packet : Arrival → ℕ → Inbound → Disposal
control_packet a flags p =
    let kind = bit_and flags dn_rt_cntl_msk in
    if bit_and flags dn_rt_cntl_rsvd != 0
    then Disposal.dropped
    else if not a.linearizes || not a.running
    then Disposal.dropped
    else if kind == 0x05
    then Disposal.to_ptp_hello p
    else if kind == 0x07 || kind == 0x09
    then (if a.valid_mcast then Disposal.to_discard p else Disposal.dropped)
    else if kind == 0x0b
    then (if a.dn_ivprime && bit_and flags dn_rt_pkt_ivp == 0
        then Disposal.dropped
        else if a.valid_mcast
        then Disposal.to_router_hello p
        else Disposal.dropped)
    else if kind == 0x0d
    then (if a.valid_mcast then Disposal.to_endnode_hello p else Disposal.dropped)
    else Disposal.dropped

-- The packets of data.
unfoldable pub routed : Arrival → ℕ → Inbound → Disposal
routed a flags p =
    let kind = bit_and flags dn_rt_pkt_msk in
    let behind = record p { skb = record (p.skb) { bytes = skb_pull 1 p.skb.bytes } } in
    if not a.running
    then Disposal.dropped
    else if kind == dn_rt_pkt_long
    then dn_route_rx_long a behind
    else if kind == dn_rt_pkt_short
    then dn_route_rx_short behind
    else Disposal.dropped

-- A packet without its padding.
abbrev pub entered : Arrival → ℕ → List ℕ → Inbound
entered a flags bytes =
    let old = a.skb.cb in
    let cb = record old { stamp = a.jiffies; iif = a.ifindex; rt_flags = flags } in
    record { skb = record (a.skb) { bytes = bytes; cb = cb }; network = bytes }

unfoldable pub unpadded : Arrival → ℕ → List ℕ → Disposal
unpadded a flags bytes =
    if bit_and flags dn_rt_f_ver != 0
    then Disposal.dropped
    else if bit_and flags dn_rt_pkt_cntl != 0
    then control_packet a flags (entered a flags bytes)
    else routed a flags (entered a flags bytes)

-- A packet of its length, and the byte behind the length, which is there even where it is 0.
unfoldable pub trimmed : Arrival → ℕ → List ℕ → Disposal
trimmed a flags bytes =
    let padlen = bit_and flags 0x7f in
    if bit_and flags dn_rt_f_pf == 0
    then unpadded a flags bytes
    else if ltb (length bytes) (padlen + 1)
    then Disposal.dropped
    else unpadded a (get_or bytes padlen 0) (drop padlen bytes)

unfoldable pub dn_route_rcv : Arrival → Disposal
dn_route_rcv a =
    let len = read_le16 a.skb.bytes in
    let behind = drop 2 a.skb.bytes in
    if not a.init_net || (not a.has_dn_dev || not a.shares)
    then Disposal.dropped
    else if ltb (length a.skb.bytes) 3
    then Disposal.dropped
    else if ltb (length behind) len
    then Disposal.dropped
    else trimmed a (get_or behind 0 0) (take len behind)
