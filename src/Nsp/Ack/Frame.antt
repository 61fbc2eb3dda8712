-- ===== src/Nsp/Ack/Frame.antt =====
-- Acknowledgements that arrive leave alone what the socket has received and decided.
use raspbian_decnet.Base.{ℕ, Bool, true, false, arith, if◌then◌else◌, bit_and, bit_xor}
use raspbian_decnet.Nsp.Seq.{nsp_sg_mask}
use raspbian_decnet.Nsp.Socket.{Kernel, Sock, Skb}
use raspbian_decnet.Nsp.Send.{dn_nsp_output}
use raspbian_decnet.Nsp.Queue.{dn_nsp_schedule_pending, dn_pend_none}
use raspbian_decnet.Nsp.Header.{read_le16}
use raspbian_decnet.Nsp.Frame.{
  SameInput, SameInput-refl, SameInput-trans, dn_nsp_output-SameInput, schedule_pending-SameInput,
}
use raspbian_decnet.Nsp.Ack.{
  take_off, dn_nsp_check_xmit_queue, dn_ack, take_ack, ack_field, dn_process_ack, skb_pull,
}
use raspbian_decnet.Nsp.Ack.Credit.{walk-SameButWindow}

take_off-SameInput :
    (acknum reftime : ℕ) (oth : Bool) (s : Sock) → SameInput s (take_off acknum reftime oth s).0
unfolding take_off
take_off-SameInput acknum reftime true s =
    ground (arith, walk-SameButWindow acknum reftime s.scp.other_xmit_queue s.scp false false)
take_off-SameInput acknum reftime false s =
    ground (arith, walk-SameButWindow acknum reftime s.scp.data_xmit_queue s.scp false false)

retry-SameInput :
    (k : Kernel) (b : Bool) (s : Sock) → SameInput s (if b then dn_nsp_output k s else s)
retry-SameInput k true s = dn_nsp_output-SameInput k s
retry-SameInput k false s = SameInput-refl s

resume-SameInput :
    (k : Kernel) (oth : Bool) (s : Sock)
    → SameInput s (if oth then dn_nsp_schedule_pending k dn_pend_none s else s)
resume-SameInput k true s = schedule_pending-SameInput k dn_pend_none s
resume-SameInput k false s = SameInput-refl s

pub check_xmit_queue-SameInput :
    (k : Kernel) (skb : Skb) (acknum : ℕ) (oth : Bool) (s : Sock)
    → SameInput s (dn_nsp_check_xmit_queue k skb acknum oth s).0
unfolding dn_nsp_check_xmit_queue
check_xmit_queue-SameInput k skb acknum oth s =
    let (s1, woken, again) = take_off acknum skb.cb.stamp oth s in
    let s2 = if oth then dn_nsp_schedule_pending k dn_pend_none s1 else s1 in
    SameInput-trans s s1 _ (take_off-SameInput acknum skb.cb.stamp oth s)
      (SameInput-trans s1 s2 _ (resume-SameInput k oth s1) (retry-SameInput k again s2))

pub dn_ack-SameInput :
    (k : Kernel) (skb : Skb) (ack : ℕ) (s : Sock) → SameInput s (dn_ack k skb ack s)
unfolding dn_ack
dn_ack-SameInput k skb ack s =
    let dat = record s { scp = record (s.scp) { ackrcv_dat = bit_and ack nsp_sg_mask } } in
    let oth = record s { scp = record (s.scp) { ackrcv_oth = bit_and ack nsp_sg_mask } } in
    ground (
      arith,
      check_xmit_queue-SameInput k skb ack false dat,
      check_xmit_queue-SameInput k skb ack true oth,
    )

take_ack-SameInput :
    (k : Kernel) (skb : Skb) (ack : ℕ) (oth : Bool) (s : Sock)
    → SameInput s (take_ack k skb ack oth s)
unfolding take_ack
take_ack-SameInput k skb ack oth s =
    ground (arith, dn_ack-SameInput k skb (if oth then bit_xor ack 0x2000 else ack) s)

ack_field-SameInput :
    (k : Kernel) (skb : Skb) (oth : Bool) (s : Sock) → SameInput s (ack_field k skb oth s).1
unfolding ack_field
ack_field-SameInput k skb oth s =
    ground (arith, take_ack-SameInput k (skb_pull skb 2) (read_le16 skb.bytes) oth s)

pub process_ack-SameInput :
    (k : Kernel) (skb : Skb) (oth : Bool) (s : Sock) → SameInput s (dn_process_ack k skb oth s).1
unfolding dn_process_ack
process_ack-SameInput k skb oth s =
    let (skb1, s1, found) = ack_field k skb oth s in
    ground (arith, ack_field-SameInput k skb oth s, ack_field-SameInput k skb1 oth s1)
