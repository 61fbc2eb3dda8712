-- ===== src/Nsp/Ack/GoBackN.antt =====
-- The sender's window: the queue holds consecutive segments, and an acknowledgement takes off
-- exactly those up to its number.
use raspbian_decnet.Base.{
  ℕ, zero, suc, ◌+◌, ◌%◌, ◌≤◌, ◌<◌, ◌≡◌, refl, sym, ap, inl, inr, Bool-cases, ◌∙◌, List, [], ◌∷◌,
  map, arith, Bool, true, false, length, drop, ◌||◌, ltb,
}
use raspbian_decnet.Nsp.Seq.{dn_before_or_equal}
use raspbian_decnet.Nsp.Seq.Order.{dn_before_or_equal_lem}
use raspbian_decnet.Nsp.Socket.{Kernel, Sock, DnScp, Skb}
use raspbian_decnet.Nsp.Ack.{walk, credit, take_off, dn_nsp_check_xmit_queue}
use raspbian_decnet.Nsp.Ack.Credit.{walk-SameButWindow}
use raspbian_decnet.Nsp.Send.Window.{Keeps, Keeps-refl, content, dn_nsp_output-Keeps}

-- The segments of the queue are numbered from `first` on, modulo 4096.
abbrev pub Numbered : ℕ → List Skb → Type 0
Numbered first [] = Unit
Numbered first (skb ∷ q) = (skb.cb.segnum ≡ first % 4096) × Numbered (first + 1) q

or-false : (b : Bool) → (b || false) ≡ b
or-false true = refl
or-false false = refl

later_unacked :
    (segnum acknum first past : ℕ)
    → segnum ≡ first % 4096
    → (first % 4096) ≡ (acknum + 1 + past) % 4096
    → past < 2048
    → dn_before_or_equal segnum acknum ≡ false
later_unacked segnum acknum first past h at fits =
    ground (arith, dn_before_or_equal_lem segnum acknum)

earlier_acked :
    (segnum acknum first more : ℕ)
    → segnum ≡ first % 4096
    → (acknum % 4096) ≡ (first + more) % 4096
    → more < 2048
    → dn_before_or_equal segnum acknum ≡ true
earlier_acked segnum acknum first more h at fits =
    ground (arith, dn_before_or_equal_lem segnum acknum)

-- The first segment is `past + 1` ahead of the acknowledged number: nothing is taken off.
walk_kept_all :
    (acknum reftime first past : ℕ) (q : List Skb) (scp : DnScp) (w r : Bool)
    → Numbered first q
    → (first % 4096) ≡ (acknum + 1 + past) % 4096
    → past + length q ≤ 2048
    → walk acknum reftime q scp w r ≡ record { kept = q; scp = scp; wakeup = w; try_retrans = r }
unfolding walk
walk_kept_all acknum reftime first past [] scp w r h at fits = refl
walk_kept_all acknum reftime first past (skb ∷ q) scp w r h at fits =
    rw (later_unacked skb.cb.segnum acknum first past h.0 at (omega arith), or-false w)
      (rw (
        walk_kept_all acknum reftime (first + 1) (past + 1) q scp w r h.1 (omega arith)
          (omega arith)))

-- An acknowledgement of the first `n` segments takes off those, and no other.
walk_kept :
    (acknum reftime first n : ℕ) (q : List Skb) (scp : DnScp) (w r : Bool)
    → Numbered first q
    → ((acknum + 1) % 4096) ≡ (first + n) % 4096
    → n ≤ length q
    → length q ≤ 2048
    → ((walk acknum reftime q scp w r).kept ≡ drop n q)
      × ((walk acknum reftime q scp w r).wakeup ≡ (w || ltb 0 n))
unfolding walk
walk_kept acknum reftime first zero q scp w r h at some_queued fits =
    rw (walk_kept_all acknum reftime first 0 q scp w r h (omega arith) (omega arith))
      (refl, sym (or-false w))
walk_kept acknum reftime first (suc n) [] scp w r h at some_queued fits = absurd (omega arith)
walk_kept acknum reftime first (suc n) (skb ∷ q) scp w r h at some_queued fits =
    let acked = earlier_acked skb.cb.segnum acknum first n h.0 (omega arith) (omega arith) in
    let rest =
      walk_kept acknum reftime (first + 1) n q (credit acknum reftime skb scp) (w || true)
        (ltb 1 skb.cb.xmit_count) h.1 (omega arith) (omega arith) (omega arith) in
    rw acked (rest.0, rest.1 ∙ ground arith)

-- The data channel after the walk, and after what may be sent again.
check_xmit_queue-Keeps :
    (k : Kernel) (skb : Skb) (acknum : ℕ) (s : Sock)
    → Keeps
        (take_off acknum skb.cb.stamp false s).0.scp
        (dn_nsp_check_xmit_queue k skb acknum false s).0.scp
unfolding dn_nsp_check_xmit_queue
check_xmit_queue-Keeps k skb acknum s =
    let s1 = (take_off acknum skb.cb.stamp false s).0 in
    elim (Bool-cases (take_off acknum skb.cb.stamp false s).2) [
      | inl e ↦ rw e (dn_nsp_output-Keeps k s1)
      | inr e ↦ rw e (Keeps-refl s1.scp)
    ]

wakeup-check_xmit_queue :
    (k : Kernel) (skb : Skb) (acknum : ℕ) (oth : Bool) (s : Sock)
    → (dn_nsp_check_xmit_queue k skb acknum oth s).1 ≡ (take_off acknum skb.cb.stamp oth s).1
unfolding dn_nsp_check_xmit_queue
wakeup-check_xmit_queue k skb acknum oth s = refl

take_off_lem :
    (acknum reftime first n : ℕ) (s : Sock)
    → Numbered first s.scp.data_xmit_queue
    → ((acknum + 1) % 4096) ≡ (first + n) % 4096
    → n ≤ length s.scp.data_xmit_queue
    → length s.scp.data_xmit_queue ≤ 2048
    → let (t, wakeup, again) = take_off acknum reftime false s in
      (t.scp.data_xmit_queue ≡ drop n s.scp.data_xmit_queue)
      × (wakeup ≡ ltb 0 n)
      × (t.scp.numdat ≡ s.scp.numdat)
unfolding take_off
take_off_lem acknum reftime first n s h at queued fits =
    let w =
      walk_kept acknum reftime first n s.scp.data_xmit_queue s.scp false false h at queued fits in
    let same = walk-SameButWindow acknum reftime s.scp.data_xmit_queue s.scp false false in
    (w.0, w.1, ap (λ (c : DnScp). c.numdat) same)

-- When the data queue holds consecutive segments from `first` on, at most 2048 of them, an
-- acknowledgement whose number is that of the `n`-th leaves exactly the segments behind that one
-- on the queue, unchanged in content, wakes the sender exactly when `n` is positive, and leaves
-- the next segment number to send alone.
pub check_xmit_queue_go_back_n :
    (k : Kernel) (skb : Skb) (acknum first n : ℕ) (s : Sock)
    → Numbered first s.scp.data_xmit_queue
    → ((acknum + 1) % 4096) ≡ (first + n) % 4096
    → n ≤ length s.scp.data_xmit_queue
    → length s.scp.data_xmit_queue ≤ 2048
    → let (t, wakeup) = dn_nsp_check_xmit_queue k skb acknum false s in
      (map content t.scp.data_xmit_queue ≡ map content (drop n s.scp.data_xmit_queue))
      × (wakeup ≡ ltb 0 n)
      × (t.scp.numdat ≡ s.scp.numdat)
check_xmit_queue_go_back_n k skb acknum first n s h at queued fits =
    let (left, woken, num) = take_off_lem acknum skb.cb.stamp first n s h at queued fits in
    let keeps = check_xmit_queue-Keeps k skb acknum s in
    (
      keeps.data_content ∙ ap (map content) left,
      wakeup-check_xmit_queue k skb acknum false s ∙ woken,
      keeps.numdat ∙ num,
    )

-- A number that lies before the whole queue, by up to the distance that the circle tells apart,
-- takes nothing off and wakes nobody.
pub check_xmit_queue_stale :
    (k : Kernel) (skb : Skb) (acknum first past : ℕ) (s : Sock)
    → Numbered first s.scp.data_xmit_queue
    → (first % 4096) ≡ (acknum + 1 + past) % 4096
    → past + length s.scp.data_xmit_queue ≤ 2048
    → dn_nsp_check_xmit_queue k skb acknum false s ≡ (s, false)
unfolding dn_nsp_check_xmit_queue
check_xmit_queue_stale k skb acknum first past s h at fits =
    rw (
      walk_kept_all acknum skb.cb.stamp first past s.scp.data_xmit_queue s.scp false false h at
        fits)
