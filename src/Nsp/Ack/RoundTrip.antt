-- ===== src/Nsp/Ack/RoundTrip.antt =====
-- Acknowledgements from one end to the other: what `dn_mk_ack_header` writes, `dn_process_ack`
-- reads back.
use raspbian_decnet.Base.{
  ℕ, ◌+◌, ◌/◌, ◌%◌, ◌^◌, ◌<◌, ◌≡◌, refl, ◌∙◌, Bool, true, false, arith, if◌then◌else◌, ◌==◌, List,
  ◌++◌, drop, length, bit_and, bit_or, bit_xor, bit_and_mask, bit_and_pow, bit_or_pow,
  bit_xor_pow_clear, bit_xor_pow_set, leb,
}
use raspbian_decnet.Nsp.Seq.{nsp_sg_mask}
use raspbian_decnet.Nsp.Socket.{Kernel, Sock, Skb, DnScp}
use raspbian_decnet.Nsp.Header.{le16, read_le16, dn_mk_ack_header}
use raspbian_decnet.Nsp.Ack.{dn_ack, ack_field, dn_process_ack}
use raspbian_decnet.Nsp.Queue.{tests}

read_le16-le16 : (n : ℕ) (rest : List ℕ) → n < 65536 → read_le16 (le16 n ++ rest) ≡ n
read_le16-le16 n rest h = omega arith

-- The fields that the header holds.
own_field : (n : ℕ) → n < 4096 → bit_or (bit_and n nsp_sg_mask) 0x8000 ≡ n + 0x8000
own_field n h = ground (arith, bit_and_mask 12 n, bit_or_pow 15 (bit_and n nsp_sg_mask))

crs_field : (n : ℕ) → n < 4096 → bit_or (bit_or (bit_and n nsp_sg_mask) 0x8000) 0x2000 ≡ n + 0xa000
crs_field n h = rw (own_field n h) (bit_or_pow 13 (n + 0x8000) (omega arith) ∙ omega arith)

abbrev pub with_bytes : Skb → List ℕ → Skb
with_bytes skb bytes = record skb { bytes = bytes }

-- One field, read back on either subchannel.
read_field :
    (k : Kernel) (skb : Skb) (n : ℕ) (rest : List ℕ) (oth : Bool) (s : Sock)
    → n < 65536
    → n / 2 ^ 15 % 2 ≡ 1
    → n / 2 ^ 14 % 2 ≡ 0
    → ack_field k (with_bytes skb (le16 n ++ rest)) oth s ≡ (
      with_bytes skb rest,
      dn_ack k (with_bytes skb rest) (if oth then bit_xor n 0x2000 else n) s,
      true,
    )
unfolding ack_field
read_field k skb n rest oth s small set clear =
    let long : leb 2 (length (le16 n ++ rest)) ≡ true = ground arith in
    let found : tests n 0x8000 ≡ true = ground (arith, bit_and_pow 15 n) in
    let plain : (bit_and n 0x4000 == 0) ≡ true = ground (arith, bit_and_pow 14 n) in
    rw (read_le16-le16 n rest small, long, found, plain) refl

-- An acknowledgement of data up to the number, and one of other data: the two that `dn_ack`
-- acts on.
abbrev pub ack_data : Kernel → Skb → ℕ → Sock → Sock
ack_data k skb n s = dn_ack k skb (n + 0x8000) s

abbrev pub ack_other : Kernel → Skb → ℕ → Sock → Sock
ack_other k skb n s = dn_ack k skb (n + 0xa000) s

flip_own : (n : ℕ) → n < 4096 → bit_xor (n + 0x8000) 0x2000 ≡ n + 0xa000
flip_own n h = omega (arith, bit_xor_pow_clear 13 (n + 0x8000) (omega arith))

flip_crs : (n : ℕ) → n < 4096 → bit_xor (n + 0xa000) 0x2000 ≡ n + 0x8000
flip_crs n h = omega (arith, bit_xor_pow_set 13 (n + 0xa000) (omega arith))

-- Two fields on the subchannel `oth`.
read_two :
    (k : Kernel) (skb : Skb) (a b : ℕ) (rest : List ℕ) (oth : Bool) (s : Sock)
    → a < 4096
    → b < 4096
    → dn_process_ack k (with_bytes skb (le16 (a + 0x8000) ++ (le16 (b + 0xa000) ++ rest))) oth s ≡ (
      with_bytes skb rest,
      (let middle = with_bytes skb (le16 (b + 0xa000) ++ rest) in
          let last = with_bytes skb rest in
          if oth
          then ack_data k last b (ack_other k middle a s)
          else ack_other k last b (ack_data k middle a s)),
    )
unfolding dn_process_ack
read_two k skb a b rest true s ha hb =
    let first =
      read_field k skb (a + 0x8000) (le16 (b + 0xa000) ++ rest) true s (omega arith) (omega arith)
        (omega arith) in
    rw (first, flip_own a ha)
      (rw
        (
          read_field k skb (b + 0xa000) rest true
              (ack_other k (with_bytes skb (le16 (b + 0xa000) ++ rest)) a s) (omega arith)
              (omega arith) (omega arith),
          flip_crs b hb,
        )
        refl)
read_two k skb a b rest false s ha hb =
    let first =
      read_field k skb (a + 0x8000) (le16 (b + 0xa000) ++ rest) false s (omega arith) (omega arith)
        (omega arith) in
    rw first (
      rw
        (read_field k skb (b + 0xa000) rest false
          (ack_data k (with_bytes skb (le16 (b + 0xa000) ++ rest)) a s) (omega arith) (omega arith)
          (omega arith))
        refl)

-- The acknowledgement fields of a header: what is behind the common header of 5 bytes.
abbrev pub ack_bytes : DnScp → ℕ → Bool → List ℕ
ack_bytes scp msgflag other = drop 5 (dn_mk_ack_header scp msgflag other).1

-- An end that reads the acknowledgement fields which another end has written, with any bytes
-- behind them, takes off the four bytes and acts on both acknowledgements: data up to the other
-- end's `numdat_rcv` on the data subchannel and other data up to its `numoth_rcv` on the other,
-- that of the message's own subchannel first.
pub process_ack-mk_ack_header :
    (k : Kernel) (skb : Skb) (peer : DnScp) (msgflag : ℕ) (other : Bool) (rest : List ℕ) (s : Sock)
    → peer.numdat_rcv < 4096
    → peer.numoth_rcv < 4096
    → dn_process_ack k (with_bytes skb (ack_bytes peer msgflag other ++ rest)) other s ≡ (
      with_bytes skb rest,
      (let last = with_bytes skb rest in
          if other
          then ack_data k last peer.numdat_rcv (
              ack_other k
                (with_bytes skb (le16 (peer.numdat_rcv + 0xa000) ++ rest))
                peer.numoth_rcv
                s)
          else ack_other k last peer.numoth_rcv (
              ack_data k
                (with_bytes skb (le16 (peer.numoth_rcv + 0xa000) ++ rest))
                peer.numdat_rcv
                s)),
    )
unfolding dn_mk_ack_header
process_ack-mk_ack_header k skb peer msgflag true rest s hd ho =
    rw (own_field peer.numoth_rcv ho, crs_field peer.numdat_rcv hd)
      (read_two k skb peer.numoth_rcv peer.numdat_rcv rest true s ho hd)
process_ack-mk_ack_header k skb peer msgflag false rest s hd ho =
    rw (own_field peer.numdat_rcv hd, crs_field peer.numoth_rcv ho)
      (read_two k skb peer.numdat_rcv peer.numoth_rcv rest false s hd ho)
