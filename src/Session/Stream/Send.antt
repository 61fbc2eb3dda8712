-- ===== src/Session/Stream/Send.antt =====
-- Sending: the loop of `dn_sendmsg`, with `dn_queue_too_long`, `dn_current_mss` and
-- `dn_mss_from_pmtu`, of kernel/net/decnet/af_decnet.c.
pub mod Segments
pub mod Window
use raspbian_decnet.Base.{
  ℕ, zero, suc, ◌+◌, ◌-◌, ◌^◌, ◌%◌, Bool, true, false, not, ◌&&◌, ◌||◌, ltb, leb, ◌==◌, ◌!=◌,
  if◌then◌else◌, Option, none, some, List, [], ◌∷◌, length, take, drop, bit_and, bit_or,
}
use raspbian_decnet.Nsp.Seq.{u16}
use raspbian_decnet.Nsp.Socket.{Kernel, Sock, Skb, DnScp, ulong, ulong_sub}
use raspbian_decnet.Nsp.Send.{
  dn_dontsend, allocates, asked, new_skb, xmit_queue, is_empty, set_persist,
}
use raspbian_decnet.Nsp.Receive.Segment.{enobufs}
use raspbian_decnet.Nsp.Queue.{dn_nsp_queue_xmit}
use raspbian_decnet.Nsp.Receive.Connect.{
  nsp_fc_mask, nsp_fc_none, nsp_fc_scmc, dn_max_nsp_data_header,
}

abbrev pub nsp_fc_src : ℕ
nsp_fc_src = 0x04

-- The device of a route, where there is one: the room it reserves, and `use_long`.
pub record Device : Type 0 where
  pub reserved : ℕ
  pub use_long : Bool

abbrev pub dn_rt_hdr_short : ℕ
dn_rt_hdr_short = 6

abbrev pub dn_rt_hdr_long : ℕ
dn_rt_hdr_long = 21

-- `mtu` is an `int`, but is compared with an `unsigned int`: a negative one passes for a large one.
abbrev pub larger_mss : ℕ → ℕ → ℕ
larger_mss mtu headers =
    let left = ulong_sub mtu headers in
    let mss = 230 - dn_max_nsp_data_header in if ltb mss left then left else mss

unfoldable pub dn_mss_from_pmtu : Option Device → ℕ → ℕ
dn_mss_from_pmtu none mtu = larger_mss mtu (dn_rt_hdr_long + dn_max_nsp_data_header + 16)
dn_mss_from_pmtu (some dev) mtu =
    let header = if dev.use_long then dn_rt_hdr_long else dn_rt_hdr_short in
    larger_mss mtu (dev.reserved + header + dn_max_nsp_data_header)

-- `min_t(int, a, b)` on 32 bits.
abbrev pub min_int : ℕ → ℕ → ℕ
min_int a b = if ltb (ulong (b + 2 ^ 31)) (ulong (a + 2 ^ 31)) then b else a

abbrev pub min : ℕ → ℕ → ℕ
min a b = if ltb b a then b else a

-- The route gives a device and its `dst_mtu`.
unfoldable pub dn_current_mss : Option (Option Device × ℕ) → Bool → DnScp → ℕ
dn_current_mss route true scp = 16
dn_current_mss none false scp = min scp.segsize_loc scp.segsize_rem
dn_current_mss (some (dev, mtu)) false scp =
    min_int (dn_mss_from_pmtu dev mtu) (min scp.segsize_loc scp.segsize_rem)

unfoldable pub dn_queue_too_long : Bool → DnScp → Bool
dn_queue_too_long true scp = scp.flowrem_oth == 0 || not (is_empty scp.other_xmit_queue)
dn_queue_too_long false scp =
    if leb scp.snd_window (length scp.data_xmit_queue)
    then true
    else if bit_and scp.services_rem nsp_fc_mask != nsp_fc_none
    then scp.flowrem_dat == 0
    else scp.flowrem_sw == dn_dontsend

-- One call: `MSG_OOB`, `MSG_EOR` (set for stream sockets), `decnet_dlyack_seq`, the segment size.
-- A signal may be pending, `sock_intr_errno` gives its error, and `memcpy_from_msg` may fail: by
-- the number of bytes that are left.
pub record Call : Type 0 where
  pub oob : Bool
  pub eor : Bool
  pub dlyack_seq : ℕ
  pub mss : ℕ
  pub signal_pending : ℕ → Bool
  pub intr_errno : ℕ
  pub faults : ℕ → Bool

abbrev pub decrement : ℕ → ℕ
decrement n = u16 (n + 65535)

-- The last segment of a message.
abbrev pub ends : Call → List ℕ → Bool
ends c rest = leb (length rest) c.mss && c.eor

-- The flags of the segment: 0x20 begins and 0x40 ends a message.
abbrev pub segment_flags : Call → List ℕ → DnScp → ℕ
segment_flags c rest scp =
    if c.oob
    then 0x30
    else bit_or (if scp.seg_total == 0 then 0x20 else 0) (if ends c rest then 0x40 else 0)

-- The counts of flow control and of the message.
unfoldable pub count_segment : Call → List ℕ → DnScp → DnScp
count_segment c rest scp =
    let fctype = bit_and scp.services_rem nsp_fc_mask in
    let len = length (take c.mss rest) in
    let by_message = if fctype == nsp_fc_scmc then decrement scp.flowrem_dat else scp.flowrem_dat in
    let after = if ends c rest then by_message else scp.flowrem_dat in
    if c.oob then record scp { flowrem_oth = decrement scp.flowrem_oth } else record scp {
      seg_total = if ends c rest then 0 else ulong (scp.seg_total + len);
      flowrem_dat = if fctype == nsp_fc_src then decrement after else after;
    }

-- Whether the acknowledgement of the segment may be delayed.
abbrev pub may_delay : Call → List ℕ → DnScp → Bool
may_delay c rest scp =
    not c.oob
    && (ltb (scp.delayedacks + 1) (min c.dlyack_seq scp.snd_window) && ltb c.mss (length rest))

abbrev pub count_delay : Call → List ℕ → DnScp → DnScp
count_delay c rest scp =
    if c.oob
    then scp
    else record scp { delayedacks = if may_delay c rest scp then scp.delayedacks + 1 else 0 }

-- A segment of the next bytes.
unfoldable pub next_segment : Call → List ℕ → DnScp → Skb
next_segment c rest scp =
    let blank = new_skb (take c.mss rest) in
    record blank {
      cb = record (blank.cb) {
        nsp_flags = segment_flags c rest scp;
        ack_delay = if may_delay c rest scp then 1 else 0;
      };
    }

unfoldable pub counted : Call → List ℕ → Sock → Sock
counted c rest s = record (asked s) { scp = count_delay c rest (count_segment c rest s.scp) }

unfoldable pub send_segment : Kernel → Call → List ℕ → Sock → Sock
send_segment k c rest s =
    set_persist k (dn_nsp_queue_xmit k (counted c rest s) (next_segment c rest s.scp) c.oob)

abbrev pub efault : ℕ
efault = 14

-- Why the loop stops: all is sent, an error, a queue that is too long, and no more fuel.
pub data Stop : Type 0 where
  finished : Stop
  failed : ℕ → Stop
  full : Stop
  out_of_fuel : Stop

-- The loop on what is left of the message: how it stops, what is left, and the socket. An
-- allocation that fails reports ENOBUFS. Where the queue is too long, the code ends the call with
-- MSG_DONTWAIT and else waits and goes round again; the model stops with `full`, and going on is
-- another run of the loop, on what is left and the socket as it is then.
unfoldable pub send_loop : Kernel → Call → ℕ → List ℕ → Sock → Stop × List ℕ × Sock
send_loop k c fuel [] s = (Stop.finished, [], s)
send_loop k c zero (b ∷ rest) s = (Stop.out_of_fuel, b ∷ rest, s)
send_loop k c (suc fuel) (b ∷ rest) s =
    let left = suc (length rest) in
    let again = send_loop k c fuel (drop c.mss (b ∷ rest)) (send_segment k c (b ∷ rest) s) in
    if s.sk_err != 0
    then (Stop.failed s.sk_err, b ∷ rest, record s { sk_err = 0 })
    else if c.signal_pending left
    then (Stop.failed c.intr_errno, b ∷ rest, s)
    else if dn_queue_too_long c.oob s.scp
    then (Stop.full, b ∷ rest, s)
    else if not (allocates k s)
    then (Stop.failed enobufs, b ∷ rest, asked s)
    else if c.faults left
    then (Stop.failed efault, b ∷ rest, asked s)
    else again
