-- ===== src/Nsp/Queue.antt =====
-- Queueing packets for transmission: `dn_nsp_queue_xmit`, `dn_nsp_send_link`,
-- `dn_nsp_schedule_pending`, `dn_nsp_send_data_ack` and `dn_nsp_send_oth_ack` of
-- kernel/net/decnet/dn_nsp_out.c.
use raspbian_decnet.Base.{
  ℕ, ◌-◌, Bool, true, false, not, ◌&&◌, ltb, ◌!=◌, if◌then◌else◌, [], ◌∷◌, ◌++◌, bit_and, bit_or,
}
use raspbian_decnet.Nsp.Seq.{u8}
use raspbian_decnet.Nsp.Socket.{Kernel, Sock, Skb, PersistFxn, ulong_sub}
use raspbian_decnet.Nsp.Timer.{base_timeout, nsp_min_window}
use raspbian_decnet.Nsp.Send.{
  dn_send, dn_nochange, allocates, asked, new_skb, dn_nsp_send, dn_nsp_clone_and_send, set_persist,
  is_empty, set_xmit_queue, xmit_queue,
}
use raspbian_decnet.Nsp.Header.{dn_mk_ack_header, dn_nsp_mk_data_header}

-- `skb_queue_tail` on the queue that `oth` selects.
abbrev pub queue_tail : Sock → Skb → Bool → Sock
queue_tail s skb oth = record s {
  scp = set_xmit_queue oth (xmit_queue oth s.scp ++ (skb ∷ [])) s.scp;
}

-- The header, and slow start: a socket that was idle for more than one round trip starts again
-- from the least window.
unfoldable pub prepare : Kernel → Sock → Skb → Bool → Sock × Skb
prepare k s skb oth =
    let t = base_timeout s.scp in
    let cleared = record skb { cb = record (skb.cb) { xmit_count = 0 } } in
    let (scp, skb') = dn_nsp_mk_data_header s.scp cleared oth in
    let idle = ltb t (ulong_sub k.jiffies scp.stamp) in
    (record s { scp = if idle then record scp { snd_window = nsp_min_window } else scp }, skb')

-- The packet is put on its queue and then sent from there, so the queue holds its new counts.
unfoldable pub dn_nsp_queue_xmit : Kernel → Sock → Skb → Bool → Sock
unfolding prepare
dn_nsp_queue_xmit k s skb oth =
    let (s1, skb1) = prepare k s skb oth in
    let (skb2, s2, again) = dn_nsp_clone_and_send k skb1 s1 in
    if not oth && s1.scp.flowrem_sw != dn_send
    then queue_tail s1 skb1 oth
    else queue_tail s2 skb2 oth

-- The flag tells whether memory was found, so that the message was queued.
unfoldable pub dn_nsp_send_link : Kernel → ℕ → ℕ → Sock → Sock × Bool
dn_nsp_send_link k lsflags fcval s =
    let fresh = new_skb (u8 lsflags ∷ u8 fcval ∷ []) in
    let skb = record fresh { cb = record (fresh.cb) { nsp_flags = 0x10 } } in
    let queued = set_persist k (dn_nsp_queue_xmit k (asked s) skb true) in
    if allocates k s
    then (
      record queued { scp = record (queued.scp) { persist_fxn = PersistFxn.xmit_timeout } },
      true,
    )
    else (asked s, false)

abbrev pub dn_pend_intr : ℕ
dn_pend_intr = 0x80

abbrev pub dn_pend_sw : ℕ
dn_pend_sw = 0x40

abbrev pub dn_pend_idle : ℕ
dn_pend_idle = 0x20

abbrev pub dn_pend_none : ℕ
dn_pend_none = 0

abbrev pub dn_fcval_data : ℕ
dn_fcval_data = 0

abbrev pub dn_fcval_intr : ℕ
dn_fcval_intr = 4

abbrev pub tests : ℕ → ℕ → Bool
tests x mask = bit_and x mask != 0

-- `if (dn_nsp_send_link(...)) scp->pending &= ~bit;`
unfoldable pub send_pending : Kernel → ℕ → ℕ → ℕ → Sock → Sock
send_pending k bit lsflags fcval s =
    let (s', queued) = dn_nsp_send_link k lsflags fcval s in
    if queued
    then record s' { scp = record (s'.scp) { pending = bit_and s'.scp.pending (255 - bit) } }
    else s'

unfoldable pub dn_nsp_schedule_pending : Kernel → ℕ → Sock → Sock
unfolding send_pending
dn_nsp_schedule_pending k what s0 =
    let s = record s0 { scp = record (s0.scp) { pending = bit_or s0.scp.pending what } } in
    let pending = s.scp.pending in
    if pending != 0 && is_empty s.scp.other_xmit_queue
    then if tests pending dn_pend_intr
      then send_pending k dn_pend_intr dn_fcval_intr 1 s
      else if tests pending dn_pend_sw
      then send_pending k dn_pend_sw (bit_or dn_fcval_data s.scp.flowloc_sw) 0 s
      else if tests pending dn_pend_idle
      then send_pending k dn_pend_idle dn_nochange 0 s
      else s
    else s

-- An acknowledgement that carries no data.
unfoldable pub send_ack : Kernel → ℕ → Bool → Sock → Sock
send_ack k msgflag other s =
    let (scp, header) = dn_mk_ack_header s.scp msgflag other in
    if allocates k s
    then dn_nsp_send k (new_skb header) (record (asked s) { scp = scp })
    else asked s

unfoldable pub dn_nsp_send_data_ack : Kernel → Sock → Sock
unfolding send_ack
dn_nsp_send_data_ack k s = send_ack k 0x04 false s

unfoldable pub dn_nsp_send_oth_ack : Kernel → Sock → Sock
unfolding send_ack
dn_nsp_send_oth_ack k s = send_ack k 0x14 true s
