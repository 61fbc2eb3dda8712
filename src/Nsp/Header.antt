-- ===== src/Nsp/Header.antt =====
-- The headers of data and acknowledgement packets: `dn_mk_common_header`, `dn_mk_ack_header` and
-- `dn_nsp_mk_data_header` of kernel/net/decnet/dn_nsp_out.c. A header is the list of the bytes
-- that the code writes in front of the packet.
use raspbian_decnet.Base.{
  ℕ, ◌+◌, ◌*◌, ◌/◌, ◌%◌, Bool, ◌||◌, ◌==◌, if◌then◌else◌, List, [], ◌∷◌, ◌++◌, bit_and, bit_or,
}
use raspbian_decnet.Nsp.Seq.{nsp_sg_mask, nsp_ack_dly, seq_add}
use raspbian_decnet.Nsp.Socket.{DnScp, Skb}

-- A `__le16` in memory, and read back; a read past the end is 0 here.
abbrev pub le16 : ℕ → List ℕ
le16 n = n % 256 ∷ n / 256 % 256 ∷ []

abbrev pub read_le16 : List ℕ → ℕ
read_le16 [] = 0
read_le16 (low ∷ []) = low
read_le16 (low ∷ high ∷ rest) = low + high * 256

unfoldable pub dn_mk_common_header : DnScp → ℕ → List ℕ
dn_mk_common_header scp msgflag = msgflag ∷ (le16 scp.addrrem ++ le16 scp.addrloc)

unfoldable pub dn_mk_ack_header : DnScp → ℕ → Bool → DnScp × List ℕ
unfolding dn_mk_common_header
dn_mk_ack_header scp msgflag other =
    let dat = bit_and scp.numdat_rcv nsp_sg_mask in
    let oth = bit_and scp.numoth_rcv nsp_sg_mask in
    let acknum = if other then bit_or oth 0x8000 else bit_or dat 0x8000 in
    let ackcrs = if other then bit_or dat 0x8000 else bit_or oth 0x8000 in
    (
      record scp { ackxmt_dat = dat; ackxmt_oth = oth; ackdelay = 0 },
      dn_mk_common_header scp msgflag ++ (le16 acknum ++ le16 (bit_or ackcrs 0x2000)),
    )

-- The segment number that the packet takes, and the control block after it.
take_segnum : DnScp → Bool → ℕ × DnScp
take_segnum scp oth =
    if oth
    then (scp.numoth, record scp { numoth = seq_add scp.numoth 1 })
    else (scp.numdat, record scp { numdat = seq_add scp.numdat 1 })

unfoldable pub dn_nsp_mk_data_header : DnScp → Skb → Bool → DnScp × Skb
unfolding take_segnum
dn_nsp_mk_data_header scp skb oth =
    let (scp1, header) = dn_mk_ack_header scp skb.cb.nsp_flags oth in
    let (segnum, scp2) = take_segnum scp1 oth in
    let field = if oth || skb.cb.ack_delay == 0 then segnum else bit_or segnum nsp_ack_dly in
    (
      scp2,
      record skb {
        bytes = header ++ (le16 field ++ skb.bytes);
        cb = record (skb.cb) { segnum = segnum };
      },
    )
