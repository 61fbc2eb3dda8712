-- ===== src/Nsp/Receive/Segment.antt =====
-- Segments: `dn_nsp_linkservice`, `dn_queue_skb`, `dn_nsp_otherdata` and `dn_nsp_data` of
-- kernel/net/decnet/dn_nsp_in.c.
pub mod Link
pub mod Delivery
use raspbian_decnet.Base.{
  ℕ, ◌+◌, ◌-◌, ◌*◌, ◌/◌, Bool, true, false, not, ◌&&◌, ◌||◌, ltb, leb, ◌==◌, ◌!=◌, if◌then◌else◌,
  List, [], ◌∷◌, ◌++◌, bit_and, length, get_or, drop,
}
use raspbian_decnet.Nsp.Seq.{u16, seq_add, seq_next, sendack}
use raspbian_decnet.Nsp.Socket.{Kernel, Sock, Skb, DnScp}
use raspbian_decnet.Nsp.Send.{dn_send, dn_dontsend, dn_nochange, wake, dn_nsp_output}
use raspbian_decnet.Nsp.Header.{read_le16}
use raspbian_decnet.Nsp.Queue.{
  dn_pend_sw, tests, dn_nsp_schedule_pending, dn_nsp_send_data_ack, dn_nsp_send_oth_ack,
}
use raspbian_decnet.Nsp.Ack.{skb_pull}
use raspbian_decnet.Nsp.Receive.Connect.{nsp_fc_mask, nsp_fc_scmc}

abbrev pub enomem : ℕ
enomem = 12

abbrev pub enobufs : ℕ
enobufs = 105

-- A `signed char` is its byte.
abbrev pub negative_char : ℕ → Bool
negative_char c = leb 128 c

abbrev pub positive_char : ℕ → Bool
positive_char c = ltb 0 c && not (negative_char c)

-- A normal request, `lsflags & 0x04` clear: the new socket and `wake_up`.
unfoldable pub normal_request : Kernel → ℕ → ℕ → Sock → Sock × Bool
normal_request k lsflags fcval s =
    let p_fcval = 256 - fcval in
    let counted = bit_and s.scp.services_rem nsp_fc_mask == nsp_fc_scmc in
    let modifier = bit_and lsflags 0x03 in
    if modifier == dn_nochange
    then if negative_char fcval
      then (
        if ltb p_fcval s.scp.flowrem_dat && counted
            then record s { scp = record (s.scp) { flowrem_dat = s.scp.flowrem_dat - p_fcval } }
            else s,
        false,
      )
      else if positive_char fcval
      then (
        record s { scp = record (s.scp) { flowrem_dat = u16 (s.scp.flowrem_dat + fcval) } },
        true,
      )
      else (s, false)
    else if modifier == dn_dontsend
    then (record s { scp = record (s.scp) { flowrem_sw = dn_dontsend } }, false)
    else if modifier == dn_send
    then (dn_nsp_output k (record s { scp = record (s.scp) { flowrem_sw = dn_send } }), true)
    else (s, false)

-- An interrupt request.
unfoldable pub interrupt_request : ℕ → Sock → Sock × Bool
interrupt_request fcval s =
    if positive_char fcval
    then (record s { scp = record (s.scp) { flowrem_oth = u16 (s.scp.flowrem_oth + fcval) } }, true)
    else (s, false)

-- A request that carries the next number.
unfoldable pub next_request : Kernel → ℕ → ℕ → Sock → Sock
unfolding normal_request interrupt_request
next_request k lsflags fcval s =
    let s1 = record s { scp = record (s.scp) { numoth_rcv = seq_add s.scp.numoth_rcv 1 } } in
    let (s2, wake_up) =
      if tests lsflags 0x04
      then interrupt_request fcval s1
      else normal_request k lsflags fcval s1 in
    if wake_up then wake s2 else s2

unfoldable pub dn_nsp_linkservice : Kernel → Skb → Sock → Sock
unfolding next_request
dn_nsp_linkservice k skb s =
    let segnum = read_le16 skb.bytes in
    let lsflags = get_or skb.bytes 2 0 in
    let fcval = get_or skb.bytes 3 0 in
    let s1 = next_request k lsflags fcval s in
    if length skb.bytes != 4 || tests lsflags 0xf8
    then s
    else dn_nsp_send_oth_ack k (if seq_next s.scp.numoth_rcv segnum then s1 else s)

-- What `dn_queue_skb` decides: the error number, the packet as the filter leaves it, and the
-- socket with its accounts. The caller's queue takes the packet where the error is 0.
unfoldable pub dn_queue_skb : Kernel → Skb → Sock → ℕ × Skb × Sock
dn_queue_skb k skb s =
    let (err, kept) = k.filter skb in
    let dropped = record s { sk_drops = s.sk_drops + 1 } in
    let charged = record s { sk_rmem_alloc = s.sk_rmem_alloc + kept.truesize } in
    if err != 0
    then (err, kept, s)
    else if leb s.sk_rcvbuf s.sk_rmem_alloc
    then (enomem, kept, dropped)
    else if not (k.rmem_schedule kept)
    then (enobufs, kept, dropped)
    else (
      0,
      kept,
      if s.sk_dead then charged else record charged { data_readies = s.data_readies + 1 },
    )

-- The packet without its segment number, which the control block takes.
abbrev pub open_segment : Skb → Skb
open_segment skb = record skb {
  bytes = drop 2 skb.bytes;
  cb = record (skb.cb) { segnum = read_le16 skb.bytes };
}

-- The other-data segment is queued, if it is the next and there is room.
unfoldable pub accept_other : Kernel → Skb → Sock → Sock
accept_other k skb s =
    let (err, kept, s1) = dn_queue_skb k (open_segment skb) s in
    if seq_next s.scp.numoth_rcv (read_le16 skb.bytes)
    then if err == 0
      then record s1 {
        scp = record (s1.scp) {
          other_receive_queue = s1.scp.other_receive_queue ++ (kept ∷ []);
          numoth_rcv = seq_add s1.scp.numoth_rcv 1;
          other_report = 0;
        };
      }
      else s1
    else s

unfoldable pub dn_nsp_otherdata : Kernel → Skb → Sock → Sock
unfolding accept_other
dn_nsp_otherdata k skb s =
    if ltb (length skb.bytes) 2 then s else dn_nsp_send_oth_ack k (accept_other k skb s)

-- The socket has more than half of its receive memory in use.
abbrev pub dn_congested : Sock → Bool
dn_congested s = ltb (s.sk_rcvbuf / 2) s.sk_rmem_alloc

-- Whether the data segment is the next and was queued, and the socket.
unfoldable pub accept_data : Kernel → Skb → Sock → Bool × Sock
accept_data k skb s =
    let (err, kept, s1) = dn_queue_skb k (open_segment skb) s in
    if seq_next s.scp.numdat_rcv (read_le16 skb.bytes)
    then if err == 0
      then (
        true,
        record s1 {
          scp = record (s1.scp) { numdat_rcv = seq_add s1.scp.numdat_rcv 1 };
          sk_receive_queue = s1.sk_receive_queue ++ (kept ∷ []);
        },
      )
      else (false, s1)
    else (false, s)

-- A congested socket asks the other end to stop; this is looked at only for the next segment.
unfoldable pub press_back : Kernel → Bool → Sock → Sock
press_back k next s =
    if next && (s.scp.flowloc_sw == dn_send && dn_congested s)
    then dn_nsp_schedule_pending k dn_pend_sw
        (record s { scp = record (s.scp) { flowloc_sw = dn_dontsend } })
    else s

unfoldable pub dn_nsp_data : Kernel → Skb → Sock → Sock
unfolding accept_data press_back
dn_nsp_data k skb s =
    let segnum = read_le16 skb.bytes in
    let (queued, s1) = accept_data k skb s in
    let s2 = press_back k (seq_next s.scp.numdat_rcv segnum) s1 in
    if ltb (length skb.bytes) 2
    then s
    else if queued && not (sendack segnum)
    then if s2.scp.ackdelay != 0
      then record s2 { scp = record (s2.scp) { ackdelay = 3 * k.hz } }
      else s2
    else dn_nsp_send_data_ack k s2
