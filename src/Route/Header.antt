-- ===== src/Route/Header.antt =====
-- The routing headers that are put in front of a packet: `dn_long_output`, `dn_short_output` and
-- `dn_phase3_output` of kernel/net/decnet/dn_neigh.c, with `dn_dn2eth` and `dn_eth2dn`
-- (kernel/include/net/dn.h) and the flags of kernel/include/net/dn_route.h.
use raspbian_decnet.Base.{
  ℕ, ◌+◌, Bool, if◌then◌else◌, Option, none, some, List, [], ◌∷◌, ◌++◌, length, drop, bit_and,
  bit_or,
}
use raspbian_decnet.Nsp.Header.{le16, read_le16}
use raspbian_decnet.Nsp.Receive.Connect.{dn_rt_f_ie, dn_rt_f_rts, dn_rt_pkt_short}
use raspbian_decnet.Session.Conninit.{dn_rt_f_rqr}
use raspbian_decnet.Nsp.Socket.{Skb, DnSkbCb}

abbrev pub dn_rt_f_pf : ℕ
dn_rt_f_pf = 0x80

abbrev pub dn_rt_f_ver : ℕ
dn_rt_f_ver = 0x40

abbrev pub dn_rt_pkt_long : ℕ
dn_rt_pkt_long = 0x06

-- The Ethernet address of a node: AA-00-04-00 and the address of the node.
abbrev pub dn_dn2eth : ℕ → List ℕ
dn_dn2eth addr = 0xaa ∷ 0x00 ∷ 0x04 ∷ 0x00 ∷ le16 addr

abbrev pub dn_eth2dn : List ℕ → ℕ
dn_eth2dn ethaddr = read_le16 (drop 4 ethaddr)

-- `struct dn_long_packet`.
unfoldable pub long_packet : DnSkbCb → List ℕ
long_packet cb =
    let kept = bit_and cb.rt_flags (dn_rt_f_ie + dn_rt_f_rqr + dn_rt_f_rts) in
    bit_or dn_rt_pkt_long kept
    ∷ 0
    ∷ 0
    ∷ (dn_dn2eth cb.dst ++ (0 ∷ 0 ∷ (dn_dn2eth cb.src ++ (0 ∷ bit_and cb.hops 0x3f ∷ 0 ∷ 0 ∷ []))))

-- `struct dn_short_packet`, of the two addresses.
unfoldable pub short_packet : ℕ → ℕ → DnSkbCb → List ℕ
short_packet dst src cb =
    let kept = bit_and cb.rt_flags (dn_rt_f_rqr + dn_rt_f_rts) in
    bit_or dn_rt_pkt_short kept ∷ (le16 dst ++ (le16 src ++ (bit_and cb.hops 0x3f ∷ [])))

-- A packet with what is put in front of it, the 16-bit length of all that follows first.
abbrev pub with_length : List ℕ → Skb → Skb
with_length front skb =
    let behind = front ++ skb.bytes in record skb { bytes = le16 (length behind) ++ behind }

-- Whether there is room in front of the packet, or memory to make it; without, the packet is lost.
unfoldable pub dn_long_output : Bool → Skb → Option Skb
dn_long_output room skb =
    if room then some (with_length ((0x01 + dn_rt_f_pf) ∷ long_packet skb.cb) skb) else none

unfoldable pub dn_short_output : Bool → Skb → Option Skb
dn_short_output room skb =
    if room then some (with_length (short_packet skb.cb.dst skb.cb.src skb.cb) skb) else none

-- A node of phase III knows no areas.
unfoldable pub dn_phase3_output : Bool → Skb → Option Skb
dn_phase3_output room skb =
    if room
    then some (
        with_length (short_packet (bit_and skb.cb.dst 0x03ff) (bit_and skb.cb.src 0x03ff) skb.cb)
          skb)
    else none
