-- ===== src/Session/Stream/Send/Window.antt =====
-- The send window and the loop of `dn_sendmsg`.
use raspbian_decnet.Base.{
  not, ℕ, zero, suc, ◌+◌, ◌≤◌, ◌<◌, ◌≡◌, sym, ap, subst, ◌∙◌, inl, inr, false, Bool-cases, ◌!=◌,
  if◌then◌else◌, List, [], ◌∷◌, ◌++◌, length, drop, arith, length-append, if-both,
}
use raspbian_decnet.Nsp.Socket.{Kernel, Sock, Skb}
use raspbian_decnet.Nsp.Send.{allocates, asked, set_persist}
use raspbian_decnet.Nsp.Send.Window.{scp-clone_and_send}
use raspbian_decnet.Nsp.Header.{dn_mk_ack_header, dn_nsp_mk_data_header}
use raspbian_decnet.Nsp.Timer.{dn_nsp_persist}
use raspbian_decnet.Nsp.Receive.Segment.{enobufs}
use raspbian_decnet.Nsp.Queue.{prepare, dn_nsp_queue_xmit}
use raspbian_decnet.Nsp.Ack.Sender.{made, queue_xmit-content, length-content}
use raspbian_decnet.Session.Stream.Send.{
  efault, Call, Stop, send_segment, send_loop, dn_queue_too_long, counted, next_segment,
  count_segment,
}
use raspbian_decnet.Session.Stream.Send.Segments.{after}

snd_window-queue_xmit :
    (k : Kernel) (s : Sock) (skb : Skb) (most : ℕ)
    → 1 ≤ most
    → s.scp.snd_window ≤ most
    → (dn_nsp_queue_xmit k s skb false).scp.snd_window ≤ most
unfolding dn_nsp_queue_xmit prepare dn_nsp_mk_data_header dn_mk_ack_header
snd_window-queue_xmit k s skb most some_window within =
    let s1 = (prepare k s skb false).0 in
    ground (arith, some_window, within, scp-clone_and_send k (made s skb) s1)

length-queue_xmit :
    (k : Kernel) (s : Sock) (skb : Skb)
    → length (dn_nsp_queue_xmit k s skb false).scp.data_xmit_queue
      ≡ length s.scp.data_xmit_queue + 1
length-queue_xmit k s skb =
    let same =
      length-content (dn_nsp_queue_xmit k s skb false).scp.data_xmit_queue
        (s.scp.data_xmit_queue ++ (made s skb ∷ [])) (queue_xmit-content k s skb) in
    omega (arith, same, length-append s.scp.data_xmit_queue (made s skb ∷ []))

-- No more than `most` segments wait, and no more are allowed to.
pub record IsBounded (most : ℕ) (s : Sock) : Type 0 where
  pub window : s.scp.snd_window ≤ most
  pub waiting : length s.scp.data_xmit_queue ≤ most

set_persist-IsBounded :
    (k : Kernel) (most : ℕ) (s : Sock) → IsBounded most s → IsBounded most (set_persist k s)
unfolding dn_nsp_persist
set_persist-IsBounded k most s b = ground (arith, b)

send_segment-IsBounded :
    (k : Kernel) (c : Call) (rest : List ℕ) (most : ℕ) (s : Sock)
    → c.oob ≡ false
    → 1 ≤ most
    → length s.scp.data_xmit_queue < most
    → s.scp.snd_window ≤ most
    → IsBounded most (send_segment k c rest s)
unfolding send_segment counted count_segment
send_segment-IsBounded k c rest most s plain some_window room within =
    let s1 = counted c rest s in
    let skb = next_segment c rest s.scp in
    let queue : s1.scp.data_xmit_queue ≡ s.scp.data_xmit_queue = ground arith in
    let window : s1.scp.snd_window ≤ most = ground (arith, within) in
    let one_more = length-queue_xmit k s1 skb in
    set_persist-IsBounded k most (dn_nsp_queue_xmit k s1 skb c.oob) (
      subst (λ oth. IsBounded most (dn_nsp_queue_xmit k s1 skb oth)) (sym plain)
        (record {
          window = snd_window-queue_xmit k s1 skb most some_window window;
          waiting = omega (arith, one_more, ap length queue, room);
        }))

below_window :
    (s : Sock)
    → dn_queue_too_long false s.scp ≡ false
    → length s.scp.data_xmit_queue < s.scp.snd_window
unfolding dn_queue_too_long
below_window s h = ground (arith, h)

-- However the loop stops in a call without MSG_OOB, a positive bound on the send window and on the
-- number of segments that wait, which holds before, holds after.
pub send_loop-IsBounded :
    (k : Kernel) (c : Call) (fuel most : ℕ) (rest : List ℕ) (s : Sock)
    → c.oob ≡ false
    → 1 ≤ most
    → IsBounded most s
    → IsBounded most (after (send_loop k c fuel rest s))
unfolding send_loop
send_loop-IsBounded k c fuel most [] s plain some_window b = b
send_loop-IsBounded k c zero most (x ∷ rest) s plain some_window b = b
send_loop-IsBounded k c (suc fuel) most (x ∷ rest) s plain some_window b =
    let s' = send_segment k c (x ∷ rest) s in
    let again = send_loop k c fuel (drop c.mss (x ∷ rest)) s' in
    let left = suc (length rest) in
    let fault = if c.faults left then (Stop.failed efault, x ∷ rest, asked s) else again in
    let memory = if not (allocates k s) then (Stop.failed enobufs, x ∷ rest, asked s) else fault in
    let room = if dn_queue_too_long c.oob s.scp then (Stop.full, x ∷ rest, s) else memory in
    let quiet = if c.signal_pending left then (Stop.failed c.intr_errno, x ∷ rest, s) else room in
    let same : IsBounded most (record s { sk_err = 0 }) = record {
      window = b.window;
      waiting = b.waiting;
    } in
    let tried : IsBounded most (asked s) = record { window = b.window; waiting = b.waiting } in
    let sends : dn_queue_too_long c.oob s.scp ≡ false → IsBounded most (after memory) = λ h.
      let below = below_window s (ap (λ oth. dn_queue_too_long oth s.scp) (sym plain) ∙ h) in
      let sent =
        send_segment-IsBounded k c (x ∷ rest) most s plain some_window
          (omega (arith, below, b.window)) b.window in
      if-both (λ r. IsBounded most (after r)) (not (allocates k s))
        (Stop.failed enobufs, x ∷ rest, asked s) fault tried
        (if-both (λ r. IsBounded most (after r)) (c.faults left)
          (Stop.failed efault, x ∷ rest, asked s) again tried
          (send_loop-IsBounded k c fuel most (drop c.mss (x ∷ rest)) s' plain some_window sent)) in
    if-both (λ r. IsBounded most (after r)) (s.sk_err != 0)
      (Stop.failed s.sk_err, x ∷ rest, record s { sk_err = 0 }) quiet same
      (if-both (λ r. IsBounded most (after r)) (c.signal_pending left)
        (Stop.failed c.intr_errno, x ∷ rest, s) room b
        (elim (Bool-cases (dn_queue_too_long c.oob s.scp)) [
          | inl e ↦ rw e b
          | inr e ↦ rw e (sends e)
        ]))
