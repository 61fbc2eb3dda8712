-- ===== src/Route/Receive/RoundTrip.antt =====
-- A packet that is put on the wire is read back at the other end.
use raspbian_decnet.Base.{
  below, take-length, ℕ, suc, ◌+◌, ◌%◌, ◌<◌, ◌≡◌, refl, ap, ◌∙◌, Bool, true, false, ◌&&◌, ltb, ◌==◌,
  ◌!=◌, some, List, [], ◌∷◌, ◌++◌, length, drop, get_or, arith, bit_and, bit_or, bit_and_mask,
}
use mathlib.Core.Option
use raspbian_decnet.Nsp.Header.{le16, read_le16}
use raspbian_decnet.Nsp.Socket.{Skb}
use raspbian_decnet.Route.Header.{dn_long_output, dn_short_output, long_packet, short_packet}
use raspbian_decnet.Route.Receive.{
  Arrival, Disposal, dn_route_rcv, trimmed, unpadded, routed, dn_route_rx_long, dn_route_rx_short,
  entered,
}

-- The other end is a device that is up and knows DECnet, and is not set to pass the packet by.
pub record Accepts (a : Arrival) (dst : ℕ) : Type 0 where
  pub init_net : a.init_net ≡ true
  pub has_dn_dev : a.has_dn_dev ≡ true
  pub running : a.running ≡ true
  pub shares : a.shares ≡ true
  pub for_us : a.dn_ivprime && (a.unknown_mcast && dst != a.decnet_address) ≡ false

-- The fields have their sizes, and the packet with its header fits in the 16 bits of its length.
pub record IsSendable (skb : Skb) : Type 0 where
  pub dst : skb.cb.dst < 65536
  pub src : skb.cb.src < 65536
  pub rt_flags : skb.cb.rt_flags < 256
  pub some_byte : 0 < length skb.bytes
  pub fits : length skb.bytes + 22 < 65536

abbrev pub arrives : Arrival → Skb → Arrival
arrives a skb = record a { skb = skb }

arrives-Accepts : (a : Arrival) (dst : ℕ) (skb : Skb) → Accepts a dst → Accepts (arrives a skb) dst
arrives-Accepts a dst skb ok = record {
  init_net = ok.init_net;
  has_dn_dev = ok.has_dn_dev;
  running = ok.running;
  shares = ok.shares;
  for_us = ok.for_us;
}

read_le16-le16 : (n : ℕ) (rest : List ℕ) → n < 65536 → read_le16 (le16 n ++ rest) ≡ n
read_le16-le16 n rest small = omega (arith, small)

framed :
    (a : Arrival) (dst : ℕ) (front : List ℕ)
    → Accepts a dst
    → 0 < length front
    → length front < 65536
    → a.skb.bytes ≡ le16 (length front) ++ front
    → dn_route_rcv a ≡ trimmed a (get_or front 0 0) front
unfolding dn_route_rcv
framed a dst front ok some_byte fits bytes =
    let len : read_le16 a.skb.bytes ≡ length front =
      ap read_le16 bytes ∙ read_le16-le16 (length front) front fits in
    let long : ltb (suc (suc (length front))) 3 ≡ false = ground (arith, some_byte) in
    let same : ltb (length front) (length front) ≡ false = ground arith in
    rw (ok.init_net, ok.has_dn_dev, ok.shares, len, bytes, long, same, take-length front) refl

-- The flags of a long and of a short packet: no version, no control packet.
abbrev pub long_flags : ℕ → ℕ
long_flags f = bit_or 0x06 (bit_and f 0x38)

abbrev pub short_flags : ℕ → ℕ
short_flags f = bit_or 0x02 (bit_and f 0x18)

abbrev is_data : ℕ → ℕ → Bool
is_data kind f =
    bit_and f 0x40 == 0 && (bit_and f 0x01 == 0 && (bit_and f 0x06 == kind && bit_and f 0x80 == 0))

long_flags-is_data : (f : ℕ) → f < 256 → is_data 6 (long_flags f) ≡ true
long_flags-is_data f small = below 256 f (λ f. is_data 6 (long_flags f)) refl small

short_flags-is_data : (f : ℕ) → f < 256 → is_data 2 (short_flags f) ≡ true
short_flags-is_data f small = below 256 f (λ f. is_data 2 (short_flags f)) refl small

-- A packet of data gets to `routed`.
data_routed :
    (a : Arrival) (kind flags : ℕ) (bytes : List ℕ)
    → is_data kind flags ≡ true
    → unpadded a flags bytes ≡ routed a flags (entered a flags bytes)
unfolding unpadded
data_routed a kind flags bytes h =
    let version : bit_and flags 0x40 ≡ 0 = ground (arith, h) in
    let control : bit_and flags 0x01 ≡ 0 = ground (arith, h) in rw (version, control) refl

-- A packet as it is read back: its header is gone, and what the header holds is known.
abbrev pub read_back : Arrival → ℕ → Skb → Skb
read_back a flags skb =
    let old = skb.cb in
    let cb = record old {
      hops = bit_and old.hops 0x3f;
      rt_flags = flags;
      stamp = a.jiffies;
      iif = a.ifindex;
    } in
    record skb { cb = cb }

-- The low 6 bits of the low 6 bits.
six_bits : (n : ℕ) → bit_and (bit_and n 0x3f) 0x3f ≡ bit_and n 0x3f
six_bits n = ground (arith, bit_and_mask 6 n, bit_and_mask 6 (n % 64))

-- One byte of padding is taken off.
padded :
    (a : Arrival) (f : ℕ) (rest : List ℕ)
    → trimmed a 0x81 (0x81 ∷ f ∷ rest) ≡ unpadded a f (f ∷ rest)
unfolding trimmed
padded a f rest =
    let long : ltb (suc (suc (length rest))) 2 ≡ false = ground arith in rw (long) refl

not_padded :
    (a : Arrival) (flags : ℕ) (bytes : List ℕ)
    → bit_and flags 0x80 ≡ 0
    → trimmed a flags bytes ≡ unpadded a flags bytes
unfolding trimmed
not_padded a flags bytes h = rw (h) refl

long_read :
    (a : Arrival) (skb wire : Skb) (flags : ℕ)
    → Accepts a skb.cb.dst
    → IsSendable skb
    → wire.cb ≡ skb.cb
    → wire.truesize ≡ skb.truesize
    → is_data 6 flags ≡ true
    → routed
        (arrives a wire)
        flags
        (entered (arrives a wire) flags (long_packet skb.cb ++ skb.bytes))
      ≡ Disposal.to_rx_packet
          (record { skb = read_back a flags skb; network = long_packet skb.cb ++ skb.bytes })
unfolding routed long_packet dn_route_rx_long
long_read a skb wire flags ok can same size h =
    let kind : bit_and flags 0x06 ≡ 6 = ground (arith, h) in
    let bytes = long_packet skb.cb ++ skb.bytes in
    let pulls : ltb (length bytes) 1 ≡ false = ground arith in
    let long : ltb (length (drop 1 bytes)) 21 ≡ false = ground (arith, can.some_byte) in
    let dst = read_le16-le16 skb.cb.dst [] can.dst in
    let src = read_le16-le16 skb.cb.src [] can.src in
    rw (kind, ok.running, pulls, long, dst, src, same, size, ok.for_us) refl

-- A packet with a long header that is put on the wire comes out of it at the other end as it was,
-- with its addresses, the flags of the header and the low 6 bits of its hop count.
pub rcv-long_output :
    (a : Arrival) (skb : Skb)
    → Accepts a skb.cb.dst
    → IsSendable skb
    → Option.map (λ wire. dn_route_rcv (arrives a wire)) (dn_long_output true skb)
      ≡ some (
          Disposal.to_rx_packet record {
            skb = read_back a (long_flags skb.cb.rt_flags) skb;
            network = long_packet skb.cb ++ skb.bytes;
          })
unfolding dn_long_output long_packet
rcv-long_output a skb ok can =
    let f = long_flags skb.cb.rt_flags in
    let front = 0x81 ∷ (long_packet skb.cb ++ skb.bytes) in
    let wire : Skb = record skb { bytes = le16 (length front) ++ front } in
    let kind = long_flags-is_data skb.cb.rt_flags can.rt_flags in
    ap some (
      framed (arrives a wire) skb.cb.dst front (arrives-Accepts a skb.cb.dst wire ok) (omega arith)
        (ground (arith, can.fits)) refl
      ∙ (padded (arrives a wire) f (drop 1 (long_packet skb.cb ++ skb.bytes))
          ∙ (data_routed (arrives a wire) 6 f (long_packet skb.cb ++ skb.bytes) kind
              ∙ long_read a skb wire f ok can refl refl kind)))

-- The same of a packet with a short header.
short_read :
    (a : Arrival) (skb wire : Skb) (flags : ℕ)
    → Accepts a skb.cb.dst
    → IsSendable skb
    → wire.cb ≡ skb.cb
    → wire.truesize ≡ skb.truesize
    → is_data 2 flags ≡ true
    → let bytes = short_packet skb.cb.dst skb.cb.src skb.cb ++ skb.bytes in
      routed (arrives a wire) flags (entered (arrives a wire) flags bytes)
      ≡ Disposal.to_rx_packet (record { skb = read_back a flags skb; network = bytes })
unfolding routed short_packet dn_route_rx_short
short_read a skb wire flags ok can same size h =
    let kind : bit_and flags 0x06 ≡ 2 = ground (arith, h) in
    let bytes = short_packet skb.cb.dst skb.cb.src skb.cb ++ skb.bytes in
    let pulls : ltb (length bytes) 1 ≡ false = ground arith in
    let long : ltb (length (drop 1 bytes)) 6 ≡ false = ground (arith, can.some_byte) in
    let dst = read_le16-le16 skb.cb.dst [] can.dst in
    let src = read_le16-le16 skb.cb.src [] can.src in
    rw (kind, ok.running, pulls, long, dst, src, same, size, six_bits skb.cb.hops) refl

-- A packet with a short header that is put on the wire comes out of it at the other end as it was,
-- with its addresses, the flags of the header and the low 6 bits of its hop count.
pub rcv-short_output :
    (a : Arrival) (skb : Skb)
    → Accepts a skb.cb.dst
    → IsSendable skb
    → Option.map (λ wire. dn_route_rcv (arrives a wire)) (dn_short_output true skb)
      ≡ some (
          Disposal.to_rx_packet record {
            skb = read_back a (short_flags skb.cb.rt_flags) skb;
            network = short_packet skb.cb.dst skb.cb.src skb.cb ++ skb.bytes;
          })
unfolding dn_short_output short_packet
rcv-short_output a skb ok can =
    let f = short_flags skb.cb.rt_flags in
    let front = short_packet skb.cb.dst skb.cb.src skb.cb ++ skb.bytes in
    let wire : Skb = record skb { bytes = le16 (length front) ++ front } in
    let kind = short_flags-is_data skb.cb.rt_flags can.rt_flags in
    ap some (
      framed (arrives a wire) skb.cb.dst front (arrives-Accepts a skb.cb.dst wire ok) (omega arith)
        (ground (arith, can.fits)) refl
      ∙ (not_padded (arrives a wire) f front (ground (arith, kind))
          ∙ (data_routed (arrives a wire) 2 f front kind
              ∙ short_read a skb wire f ok can refl refl kind)))
