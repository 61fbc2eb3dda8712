-- ===== src/Nsp/Frame.antt =====
-- What sending leaves alone: all that the socket has received and decided. Every function that
-- sends keeps it (dn_nsp_out.c).
use raspbian_decnet.Base.{
  ℕ, ◌≡◌, ◌⊎◌, inl, inr, ◌||◌, ◌!=◌, Bool, true, false, Bool-cases, List, [], ◌∷◌, arith, bit_or,
}
use raspbian_decnet.Nsp.Socket.{Kernel, Sock, Skb}
use raspbian_decnet.Nsp.Timer.{dn_nsp_persist}
use raspbian_decnet.Nsp.Header.{dn_mk_ack_header, dn_nsp_mk_data_header}
use raspbian_decnet.Nsp.Send.{
  wake, dn_nsp_send, dn_nsp_clone_and_send, dn_nsp_output, set_persist, send_head, send_queue_head,
  recalc_window, dn_send, dn_nochange, new_skb, asked, allocates,
}
use raspbian_decnet.Nsp.Queue.{
  dn_nsp_queue_xmit, dn_nsp_send_link, dn_nsp_schedule_pending, dn_nsp_send_data_ack,
  dn_nsp_send_oth_ack, send_pending, send_ack, dn_pend_intr, dn_pend_sw, dn_pend_idle,
  dn_fcval_intr, dn_fcval_data,
}
use raspbian_decnet.Nsp.Seq.{u8}

pub record SameInput (s t : Sock) : Type 0 where
  pub state : t.scp.state ≡ s.scp.state
  pub numdat_rcv : t.scp.numdat_rcv ≡ s.scp.numdat_rcv
  pub numoth_rcv : t.scp.numoth_rcv ≡ s.scp.numoth_rcv
  pub other_receive_queue : t.scp.other_receive_queue ≡ s.scp.other_receive_queue
  pub receive_queue : t.sk_receive_queue ≡ s.sk_receive_queue
  pub tcp_state : t.sk_state ≡ s.sk_state
  pub dead : t.sk_dead ≡ s.sk_dead
  pub rmem_alloc : t.sk_rmem_alloc ≡ s.sk_rmem_alloc
  pub flowloc_sw : t.scp.flowloc_sw ≡ s.scp.flowloc_sw
  pub ackdelay : (t.scp.ackdelay ≡ s.scp.ackdelay) ⊎ (t.scp.ackdelay ≡ 0)

pub SameInput-refl : (s : Sock) → SameInput s s
SameInput-refl s = ground arith

pub SameInput-trans : (s t u : Sock) → SameInput s t → SameInput t u → SameInput s u
SameInput-trans s t u h k = ground arith

pub dn_nsp_send-SameInput : (k : Kernel) (skb : Skb) (s : Sock) → SameInput s (dn_nsp_send k skb s)
unfolding dn_nsp_send
dn_nsp_send-SameInput k skb s = ground arith

pub clone_and_send-SameInput :
    (k : Kernel) (skb : Skb) (s : Sock) → SameInput s (dn_nsp_clone_and_send k skb s).1
unfolding dn_nsp_clone_and_send dn_nsp_send
clone_and_send-SameInput k skb s = ground arith

send_head-SameInput : (k : Kernel) (q : List Skb) (s : Sock) → SameInput s (send_head k q s).1
unfolding send_head
send_head-SameInput k [] s = SameInput-refl s
send_head-SameInput k (skb ∷ q) s = clone_and_send-SameInput k skb s

send_queue_head-SameInput :
    (k : Kernel) (oth : Bool) (s : Sock) → SameInput s (send_queue_head k oth s).0
unfolding send_queue_head
send_queue_head-SameInput k true s = ground (arith, send_head-SameInput k s.scp.other_xmit_queue s)
send_queue_head-SameInput k false s = ground (arith, send_head-SameInput k s.scp.data_xmit_queue s)

recalc_window-SameInput : (n : ℕ) (s : Sock) → SameInput s (recalc_window n s)
unfolding recalc_window
recalc_window-SameInput n s = ground arith

pub dn_nsp_output-SameInput : (k : Kernel) (s : Sock) → SameInput s (dn_nsp_output k s)
unfolding dn_nsp_output
dn_nsp_output-SameInput k s =
    let s1 = (send_queue_head k true s).0 in
    let s2 = (send_queue_head k false s1).0 in
    let first = send_queue_head-SameInput k true s in
    let both = SameInput-trans s s1 s2 first (send_queue_head-SameInput k false s1) in
    elim (Bool-cases ((send_queue_head k true s).1 != 0 || s1.scp.flowrem_sw != dn_send)) [
      | inl early ↦ rw early (SameInput-trans s s1 _ first (recalc_window-SameInput _ s1))
      | inr late ↦ rw late (SameInput-trans s s2 _ both (recalc_window-SameInput _ s2))
    ]

pub set_persist-SameInput : (k : Kernel) (s : Sock) → SameInput s (set_persist k s)
unfolding dn_nsp_persist
set_persist-SameInput k s = ground arith

pub dn_nsp_queue_xmit-SameInput :
    (k : Kernel) (s : Sock) (skb : Skb) (oth : Bool) → SameInput s (dn_nsp_queue_xmit k s skb oth)
unfolding dn_nsp_queue_xmit dn_nsp_mk_data_header dn_mk_ack_header dn_nsp_clone_and_send dn_nsp_send
dn_nsp_queue_xmit-SameInput k s skb true = ground arith
dn_nsp_queue_xmit-SameInput k s skb false = ground arith

pub dn_nsp_send_link-SameInput :
    (k : Kernel) (lsflags fcval : ℕ) (s : Sock) → SameInput s (dn_nsp_send_link k lsflags fcval s).0
unfolding dn_nsp_send_link
dn_nsp_send_link-SameInput k lsflags fcval s =
    let fresh = new_skb (u8 lsflags ∷ u8 fcval ∷ []) in
    let skb = record fresh { cb = record (fresh.cb) { nsp_flags = 0x10 } } in
    let queued = dn_nsp_queue_xmit k (asked s) skb true in
    elim (Bool-cases (allocates k s)) [
      | inl found ↦ rw found (
          ground (
            arith,
            dn_nsp_queue_xmit-SameInput k (asked s) skb true,
            set_persist-SameInput k queued,
          ))
      | inr empty ↦ rw empty (ground arith)
    ]

send_pending-SameInput :
    (k : Kernel) (bit lsflags fcval : ℕ) (s : Sock)
    → SameInput s (send_pending k bit lsflags fcval s)
unfolding send_pending
send_pending-SameInput k bit lsflags fcval s =
    ground (arith, dn_nsp_send_link-SameInput k lsflags fcval s)

pub schedule_pending-SameInput :
    (k : Kernel) (what : ℕ) (s : Sock) → SameInput s (dn_nsp_schedule_pending k what s)
unfolding dn_nsp_schedule_pending
schedule_pending-SameInput k what s0 =
    let s = record s0 { scp = record (s0.scp) { pending = bit_or s0.scp.pending what } } in
    ground (
      arith,
      send_pending-SameInput k dn_pend_intr dn_fcval_intr 1 s,
      send_pending-SameInput k dn_pend_sw (bit_or dn_fcval_data s.scp.flowloc_sw) 0 s,
      send_pending-SameInput k dn_pend_idle dn_nochange 0 s,
    )

send_ack-SameInput :
    (k : Kernel) (msgflag : ℕ) (other : Bool) (s : Sock) → SameInput s (send_ack k msgflag other s)
unfolding send_ack dn_mk_ack_header dn_nsp_send
send_ack-SameInput k msgflag other s = ground arith

pub send_data_ack-SameInput : (k : Kernel) (s : Sock) → SameInput s (dn_nsp_send_data_ack k s)
unfolding dn_nsp_send_data_ack
send_data_ack-SameInput k s = send_ack-SameInput k 0x04 false s

pub send_oth_ack-SameInput : (k : Kernel) (s : Sock) → SameInput s (dn_nsp_send_oth_ack k s)
unfolding dn_nsp_send_oth_ack
send_oth_ack-SameInput k s = send_ack-SameInput k 0x14 true s

pub wake-SameInput : (s : Sock) → SameInput s (wake s)
wake-SameInput s = ground arith
