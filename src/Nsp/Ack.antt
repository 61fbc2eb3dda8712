-- ===== src/Nsp/Ack.antt =====
-- Acknowledgements that arrive: `dn_nsp_check_xmit_queue` of kernel/net/decnet/dn_nsp_out.c, and
-- `dn_ack` and `dn_process_ack` of kernel/net/decnet/dn_nsp_in.c.
pub mod GoBackN
pub mod Sender
pub mod RoundTrip
pub mod Frame
pub mod Credit
use raspbian_decnet.Base.{
  ℕ, ◌+◌, ◌/◌, ◌^◌, Bool, true, false, ◌&&◌, ◌||◌, ltb, leb, ◌==◌, if◌then◌else◌, List, [], ◌∷◌,
  bit_and, bit_xor, length, drop,
}
use raspbian_decnet.Nsp.Seq.{nsp_sg_mask, dn_after, dn_equal, dn_before_or_equal}
use raspbian_decnet.Nsp.Socket.{Kernel, Sock, DnScp, Skb, ulong, ulong_sub}
use raspbian_decnet.Nsp.Timer.{dn_nsp_rtt}
use raspbian_decnet.Nsp.Send.{wake, xmit_queue, set_xmit_queue, dn_nsp_output}
use raspbian_decnet.Nsp.Header.{read_le16}
use raspbian_decnet.Nsp.Queue.{dn_pend_none, tests, dn_nsp_schedule_pending}

-- What one acknowledged packet does to the estimates: one that was sent once gives a round-trip
-- time, if it is the one that the number names, and opens the window by one.
pub credit : ℕ → ℕ → Skb → DnScp → DnScp
credit acknum reftime skb scp =
    let timed =
      if dn_equal skb.cb.segnum acknum
      then dn_nsp_rtt scp (ulong_sub skb.cb.stamp reftime)
      else scp in
    if skb.cb.xmit_count == 1
    then if ltb timed.snd_window timed.max_window
      then record timed { snd_window = ulong (timed.snd_window + 1) }
      else timed
    else scp

pub record Walk : Type 0 where
  pub kept : List Skb
  pub scp : DnScp
  pub wakeup : Bool
  pub try_retrans : Bool

-- The walk over the queue. A packet that is acknowledged is dropped at once, so the pointer `ack`
-- is null again before the next packet is looked at.
pub walk : ℕ → ℕ → List Skb → DnScp → Bool → Bool → Walk
walk acknum reftime [] scp wakeup try_retrans = record {
  kept = [];
  scp = scp;
  wakeup = wakeup;
  try_retrans = try_retrans;
}
walk acknum reftime (skb ∷ q) scp wakeup try_retrans =
    let acked = dn_before_or_equal skb.cb.segnum acknum in
    let rest =
      walk acknum reftime q (if acked then credit acknum reftime skb scp else scp) (wakeup || acked)
        (if acked then ltb 1 skb.cb.xmit_count else try_retrans) in
    record {
      kept = if acked then rest.kept else skb ∷ rest.kept;
      scp = rest.scp;
      wakeup = rest.wakeup;
      try_retrans = rest.try_retrans;
    }

-- The walk over the queue that `oth` names, as in both calls, with `wakeup` and `try_retrans`.
pub take_off : ℕ → ℕ → Bool → Sock → Sock × Bool × Bool
take_off acknum reftime oth s =
    let w = walk acknum reftime (xmit_queue oth s.scp) s.scp false false in
    (record s { scp = set_xmit_queue oth w.kept w.scp }, w.wakeup, w.try_retrans)

-- The second part of the result is `wakeup`.
unfoldable pub dn_nsp_check_xmit_queue : Kernel → Skb → ℕ → Bool → Sock → Sock × Bool
unfolding walk credit take_off
dn_nsp_check_xmit_queue k skb acknum oth s =
    let (s1, wakeup, try_retrans) = take_off acknum skb.cb.stamp oth s in
    let s2 = if oth then dn_nsp_schedule_pending k dn_pend_none s1 else s1 in
    (if try_retrans then dn_nsp_output k s2 else s2, wakeup)

-- `ack` has its cross-subchannel bit flipped already for the other subchannel.
unfoldable pub dn_ack : Kernel → Skb → ℕ → Sock → Sock
dn_ack k skb ack s =
    let type = bit_and (ack / 2 ^ 12) 3 in
    let dat = record s { scp = record (s.scp) { ackrcv_dat = bit_and ack nsp_sg_mask } } in
    let oth = record s { scp = record (s.scp) { ackrcv_oth = bit_and ack nsp_sg_mask } } in
    let (dat', dat_wakeup) = dn_nsp_check_xmit_queue k skb ack false dat in
    let (oth', oth_wakeup) = dn_nsp_check_xmit_queue k skb ack true oth in
    if type == 0 && dn_after ack s.scp.ackrcv_dat
    then if dat_wakeup then wake dat' else dat'
    else if type == 2 && dn_after ack s.scp.ackrcv_oth
    then if oth_wakeup then wake oth' else oth'
    else s

-- `skb_pull`
abbrev pub skb_pull : Skb → ℕ → Skb
skb_pull skb n = record skb { bytes = drop n skb.bytes }

-- `if ((ack & 0x4000) == 0) { if (oth) ack ^= 0x2000; dn_ack(sk, skb, ack); }`
take_ack : Kernel → Skb → ℕ → Bool → Sock → Sock
take_ack k skb ack oth s =
    if bit_and ack 0x4000 == 0 then dn_ack k skb (if oth then bit_xor ack 0x2000 else ack) s else s

-- One acknowledgement field at the front, if there is one: the flag tells.
ack_field : Kernel → Skb → Bool → Sock → Skb × Sock × Bool
unfolding take_ack
ack_field k skb oth s =
    let ack = read_le16 skb.bytes in
    let pulled = skb_pull skb 2 in
    if leb 2 (length skb.bytes) && tests ack 0x8000
    then (pulled, take_ack k pulled ack oth s, true)
    else (skb, s, false)

-- A second field is looked for only behind a first. The length that the C function returns has no
-- reader.
unfoldable pub dn_process_ack : Kernel → Skb → Bool → Sock → Skb × Sock
unfolding ack_field
dn_process_ack k skb oth s =
    let (skb1, s1, found) = ack_field k skb oth s in
    let (skb2, s2, found2) = ack_field k skb1 oth s1 in if found then (skb2, s2) else (skb1, s1)
