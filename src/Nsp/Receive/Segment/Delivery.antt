-- ===== src/Nsp/Receive/Segment/Delivery.antt =====
-- The data channel as the reader sees it: segments in order, each once.
use raspbian_decnet.Base.{
  ℕ, ◌+◌, ◌%◌, ◌≤◌, ◌≡◌, sym, ap, ◌∙◌, inl, inr, Bool, true, false, Bool-cases, arith,
  if◌then◌else◌, length, All, ◌&&◌, ◌==◌, List, [], ◌∷◌, ◌++◌,
}
use mathlib.Core.List.{append-nil, append_assoc}
use raspbian_decnet.Nsp.Seq.{seq_add, seq_next}
use raspbian_decnet.Nsp.Seq.Order.{seq_add_lem, seq_next_lem}
use raspbian_decnet.Nsp.Socket.{Kernel, Sock, Skb}
use raspbian_decnet.Nsp.Send.{dn_dontsend}
use raspbian_decnet.Nsp.Queue.{dn_pend_sw}
use raspbian_decnet.Nsp.Header.{read_le16}
use raspbian_decnet.Nsp.Frame.{schedule_pending-SameInput, send_data_ack-SameInput}
use raspbian_decnet.Nsp.Receive.Segment.{
  dn_nsp_data, accept_data, press_back, dn_queue_skb, open_segment,
}

-- What the reader of the socket depends on.
pub record SameReader (s t : Sock) : Type 0 where
  pub numdat_rcv : t.scp.numdat_rcv ≡ s.scp.numdat_rcv
  pub receive_queue : t.sk_receive_queue ≡ s.sk_receive_queue

press_back-SameReader : (k : Kernel) (next : Bool) (s : Sock) → SameReader s (press_back k next s)
unfolding press_back
press_back-SameReader k next s =
    let stopped = record s { scp = record (s.scp) { flowloc_sw = dn_dontsend } } in
    ground (arith, schedule_pending-SameInput k dn_pend_sw stopped)

queue_skb-SameReader : (k : Kernel) (skb : Skb) (s : Sock) → SameReader s (dn_queue_skb k skb s).2
unfolding dn_queue_skb
queue_skb-SameReader k skb s = ground arith

-- The segment is the next one, and the filter and the memory let it in.
abbrev pub taken : Kernel → Skb → Sock → Bool
taken k skb s =
    seq_next s.scp.numdat_rcv (read_le16 skb.bytes) && (dn_queue_skb k (open_segment skb) s).0 == 0

-- The packet as it is queued.
abbrev pub kept : Kernel → Skb → Sock → Skb
kept k skb s = (dn_queue_skb k (open_segment skb) s).1

reader-accept_data :
    (k : Kernel) (skb : Skb) (s : Sock)
    → let t = (accept_data k skb s).1 in
      (t.sk_receive_queue
        ≡ (if taken k skb s then s.sk_receive_queue ++ (kept k skb s ∷ []) else s.sk_receive_queue))
      × (t.scp.numdat_rcv
          ≡ (if taken k skb s then seq_add s.scp.numdat_rcv 1 else s.scp.numdat_rcv))
unfolding accept_data
reader-accept_data k skb s = ground (arith, queue_skb-SameReader k (open_segment skb) s)

reader-press_back-accept_data :
    (k : Kernel) (next : Bool) (skb : Skb) (s : Sock)
    → let t = press_back k next (accept_data k skb s).1 in
      (t.sk_receive_queue
        ≡ (if taken k skb s then s.sk_receive_queue ++ (kept k skb s ∷ []) else s.sk_receive_queue))
      × (t.scp.numdat_rcv
          ≡ (if taken k skb s then seq_add s.scp.numdat_rcv 1 else s.scp.numdat_rcv))
reader-press_back-accept_data k next skb s =
    let t = (accept_data k skb s).1 in
    let same = press_back-SameReader k next t in
    let (queue, number) = reader-accept_data k skb s in
    (same.receive_queue ∙ queue, same.numdat_rcv ∙ number)

SameReader-dn_nsp_data :
    (k : Kernel) (skb : Skb) (s : Sock)
    → 2 ≤ length skb.bytes
    → SameReader
        (press_back k (seq_next s.scp.numdat_rcv (read_le16 skb.bytes)) (accept_data k skb s).1)
        (dn_nsp_data k skb s)
unfolding dn_nsp_data
SameReader-dn_nsp_data k skb s long =
    let t =
      press_back k (seq_next s.scp.numdat_rcv (read_le16 skb.bytes)) (accept_data k skb s).1 in
    ground (arith, send_data_ack-SameInput k t)

-- A data segment reaches the reader, at the end of the queue, exactly when it carries the number
-- after the last one and the filter and the memory let it in; the number moves on with it.
pub reader-dn_nsp_data :
    (k : Kernel) (skb : Skb) (s : Sock)
    → 2 ≤ length skb.bytes
    → ((dn_nsp_data k skb s).sk_receive_queue
        ≡ (if taken k skb s then s.sk_receive_queue ++ (kept k skb s ∷ []) else s.sk_receive_queue))
      × ((dn_nsp_data k skb s).scp.numdat_rcv
          ≡ (if taken k skb s then seq_add s.scp.numdat_rcv 1 else s.scp.numdat_rcv))
reader-dn_nsp_data k skb s long =
    let next = seq_next s.scp.numdat_rcv (read_le16 skb.bytes) in
    let same = SameReader-dn_nsp_data k skb s long in
    let (queue, number) = reader-press_back-accept_data k next skb s in
    (same.receive_queue ∙ queue, same.numdat_rcv ∙ number)

-- The segments of the list carry the numbers from `n` on, modulo 4096.
abbrev pub InSequence : ℕ → List Skb → Type 0
InSequence n [] = Unit
InSequence n (skb ∷ q) = (skb.cb.segnum % 4096 ≡ n % 4096) × InSequence (n + 1) q

abbrev pub receive_data : List (Kernel × Skb) → Sock → Sock
receive_data [] s = s
receive_data ((k, skb) ∷ rest) s = receive_data rest (dn_nsp_data k skb s)

-- A packet with a segment number, under a filter that leaves the control block as it is.
pub record IsSegment (p : Kernel × Skb) : Type 0 where
  pub long : 2 ≤ length p.1.bytes
  pub cb_kept : (skb : Skb) → (p.0.filter skb).1.cb ≡ skb.cb

segnum-kept :
    (k : Kernel) (skb : Skb) (s : Sock)
    → IsSegment (k, skb)
    → (kept k skb s).cb.segnum ≡ read_le16 skb.bytes
unfolding dn_queue_skb
segnum-kept k skb s h = ground (arith, h.cb_kept (open_segment skb))

taken-next :
    (k : Kernel) (skb : Skb) (s : Sock)
    → taken k skb s ≡ true
    → (s.scp.numdat_rcv + 1) % 4096 ≡ read_le16 skb.bytes % 4096
taken-next k skb s e = ground (arith, seq_next_lem s.scp.numdat_rcv (read_le16 skb.bytes))

InSequence-cong : (m n : ℕ) (q : List Skb) → m % 4096 ≡ n % 4096 → InSequence m q → InSequence n q
InSequence-cong m n [] e h = tt
InSequence-cong m n (skb ∷ q) e h = (h.0 ∙ e, InSequence-cong (m + 1) (n + 1) q (omega arith) h.1)

-- What a run of data segments adds to the reader's queue.
pub record Delivers (s t : Sock) : Type 0 where
  pub new : List Skb
  pub queue : t.sk_receive_queue ≡ s.sk_receive_queue ++ new
  pub in_sequence : InSequence (s.scp.numdat_rcv + 1) new
  pub number : t.scp.numdat_rcv % 4096 ≡ (s.scp.numdat_rcv + length new) % 4096

take_next :
    (k : Kernel) (skb : Skb) (s t : Sock)
    → IsSegment (k, skb)
    → taken k skb s ≡ true
    → Delivers (dn_nsp_data k skb s) t
    → Delivers s t
take_next k skb s t seg e d =
    let (queue, number) = reader-dn_nsp_data k skb s seg.long in
    let u = dn_nsp_data k skb s in
    let item = kept k skb s in
    let number' : u.scp.numdat_rcv ≡ (s.scp.numdat_rcv + 1) % 4096 =
      ground (arith, number, e, seq_add_lem s.scp.numdat_rcv 1) in
    let queue' : u.sk_receive_queue ≡ s.sk_receive_queue ++ (item ∷ []) =
      ground (arith, queue, e) in
    record {
      new = item ∷ d.new;
      queue =
          d.queue
          ∙ ap (λ (q : List Skb). q ++ d.new) queue'
          ∙ append_assoc s.sk_receive_queue (item ∷ []) d.new;
      in_sequence = (
        ap (λ (n : ℕ). n % 4096) (segnum-kept k skb s seg) ∙ sym (taken-next k skb s e),
        InSequence-cong (u.scp.numdat_rcv + 1) (s.scp.numdat_rcv + 1 + 1) d.new (omega arith)
            d.in_sequence,
      );
      number = omega (arith, d.number);
    }

pass_over :
    (k : Kernel) (skb : Skb) (s t : Sock)
    → IsSegment (k, skb)
    → taken k skb s ≡ false
    → Delivers (dn_nsp_data k skb s) t
    → Delivers s t
pass_over k skb s t seg e d =
    let (queue, number) = reader-dn_nsp_data k skb s seg.long in
    let u = dn_nsp_data k skb s in
    let number' : u.scp.numdat_rcv ≡ s.scp.numdat_rcv = ground (arith, number, e) in
    let queue' : u.sk_receive_queue ≡ s.sk_receive_queue = ground (arith, queue, e) in
    record {
      new = d.new;
      queue = d.queue ∙ ap (λ (q : List Skb). q ++ d.new) queue';
      in_sequence =
          InSequence-cong (u.scp.numdat_rcv + 1) (s.scp.numdat_rcv + 1) d.new (omega arith)
            d.in_sequence;
      number = omega (arith, d.number);
    }

-- Whatever data segments arrive, in any order and with any repetitions and losses, what they add
-- to the reader's queue is a run of segments with consecutive numbers, starting with the one
-- after the last that was received before, and the receive number is that of the run's last.
pub receive_data-Delivers :
    (packets : List (Kernel × Skb)) (s : Sock)
    → All IsSegment packets
    → Delivers s (receive_data packets s)
receive_data-Delivers [] s h = record {
  new = [];
  queue = sym (append-nil s.sk_receive_queue);
  in_sequence = tt;
  number = omega arith;
}
receive_data-Delivers ((k, skb) ∷ rest) s h =
    let later = receive_data-Delivers rest (dn_nsp_data k skb s) h.1 in
    elim (Bool-cases (taken k skb s)) [
      | inl e ↦ take_next k skb s (receive_data rest (dn_nsp_data k skb s)) h.0 e later
      | inr e ↦ pass_over k skb s (receive_data rest (dn_nsp_data k skb s)) h.0 e later
    ]
