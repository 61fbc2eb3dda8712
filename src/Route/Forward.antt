-- ===== src/Route/Forward.antt =====
-- What is done with a packet that has come in: `dn_route_rx_packet`, `dn_return_short`,
-- `dn_return_long` and `dn_forward`, and with one of this node's own, `dn_output`
-- (kernel/net/decnet/dn_route.c).
pub mod Hops
pub mod Returned
use raspbian_decnet.Base.{
  ℕ, zero, suc, ◌+◌, ◌-◌, Bool, true, false, not, ◌&&◌, ◌||◌, ltb, ◌==◌, ◌!=◌, if◌then◌else◌,
  Option, none, some, List, [], ◌∷◌, ◌++◌, length, take, drop, get_or, bit_and, bit_or,
}
use raspbian_decnet.Nsp.Seq.{u16}
use raspbian_decnet.Nsp.Receive.Connect.{dn_rt_f_ie, dn_rt_f_rts, dn_rt_pkt_msk, dn_rt_pkt_short}
use raspbian_decnet.Session.Conninit.{dn_rt_f_rqr}
use raspbian_decnet.Nsp.Socket.{Skb, DnSkbCb}
use raspbian_decnet.Route.Header.{dn_rt_f_pf, dn_rt_pkt_long}
use raspbian_decnet.Route.Receive.{Inbound}

-- What the routing tables say of a packet: its type is PACKET_HOST; the route's RTCF_DOREDIRECT;
-- room for the headers can be made.
pub record Hop : Type 0 where
  pub host : Bool
  pub redirect : Bool
  pub room : Bool

-- The packet as it goes on to `dn_to_neigh_output`.
unfoldable pub dn_forward : Hop → Skb → Option Skb
dn_forward h skb =
    let hops = u16 (skb.cb.hops + 1) in
    let flags = bit_and skb.cb.rt_flags (0xff - dn_rt_f_ie) in
    let flags' = if h.redirect then bit_or flags dn_rt_f_ie else flags in
    let onward = record skb { cb = record (skb.cb) { hops = hops; rt_flags = flags' } } in
    if not h.host || not h.room then none else if ltb 30 hops then none else some onward

-- A packet of this node, on a route from `saddr` to `daddr`, if the route has a neighbour.
unfoldable pub dn_output : Bool → ℕ → ℕ → Skb → Option Skb
dn_output has_neighbour saddr daddr skb =
    let flags = bit_or (bit_and skb.cb.rt_flags dn_rt_f_rqr) dn_rt_f_ie in
    let out = record skb {
      cb = record (skb.cb) { src = saddr; dst = daddr; rt_flags = flags; hops = 0 };
    } in
    if has_neighbour then some out else none

-- `n` bytes at an offset, and bytes written there. The code does not look at the packet's end:
-- where its offsets lie behind that, nothing is read or written here.
abbrev pub at : ℕ → ℕ → List ℕ → List ℕ
at offset n bytes = take n (drop offset bytes)

abbrev pub write : ℕ → List ℕ → List ℕ → List ℕ
write offset new bytes =
    take (length bytes) (take offset bytes ++ (new ++ drop (offset + length new) bytes))

-- The flags of a packet that is returned.
abbrev pub returned_flags : DnSkbCb → ℕ
returned_flags cb = bit_or (bit_and cb.rt_flags (0xff - dn_rt_f_rqr)) dn_rt_f_rts

-- The bytes that are sent back, from the network header on; the packet is written at the offset 2
-- of them.
unfoldable pub dn_return_short : Inbound → List ℕ
dn_return_short p =
    let flagged = write 2 (returned_flags p.skb.cb ∷ []) p.network in
    let counted = write 7 (0 ∷ []) flagged in write 3 (at 5 2 counted ++ at 3 2 counted) counted

unfoldable pub dn_return_long : Inbound → List ℕ
dn_return_long p =
    let flags = get_or p.network 2 0 in
    let skipped = if bit_and flags dn_rt_f_pf != 0 then bit_and flags 0x7f else 0 in
    let start = 2 + skipped in
    let flagged = write start (returned_flags p.skb.cb ∷ []) p.network in
    let counted = write (start + 17) (0 ∷ []) flagged in
    let dst = start + 3 in
    let src = start + 11 in write src (at dst 6 counted) (write dst (at src 6 counted) counted)

-- What becomes of a packet: the input function of its route gets it, it is sent back, or dropped.
pub data Fate : Type 0 where
  input : Skb → Fate
  sent_back : List ℕ → Fate
  lost : Fate

-- Whether `dn_route_input` finds a route, and whether the packet came to this host's address.
unfoldable pub dn_route_rx_packet : Bool → Bool → Inbound → Fate
dn_route_rx_packet routes host p =
    let kind = bit_and p.skb.cb.rt_flags dn_rt_pkt_msk in
    if routes
    then Fate.input p.skb
    else if not (host && bit_and p.skb.cb.rt_flags dn_rt_f_rqr != 0)
    then Fate.lost
    else if kind == dn_rt_pkt_short
    then Fate.sent_back (dn_return_short p)
    else if kind == dn_rt_pkt_long
    then Fate.sent_back (dn_return_long p)
    else Fate.lost
