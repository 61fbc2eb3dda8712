-- ===== src/Nsp/Ack/Sender.antt =====
-- The sender's window over a history: data is queued by `dn_nsp_queue_xmit` and taken off by
-- `dn_nsp_check_xmit_queue`, and the queue holds consecutive segments up to the next number.
use raspbian_decnet.Base.{
  ℕ, zero, suc, ◌+◌, ◌%◌, ◌≤◌, ◌<◌, ◌≡◌, refl, ap, subst, ◌∙◌, inl, inr, false, Bool-cases, ◌!=◌,
  List, [], ◌∷◌, ◌++◌, map, arith, length, length-append, length-drop, drop,
}
use raspbian_decnet.Nsp.Seq.Order.{seq_add_lem}
use raspbian_decnet.Nsp.Socket.{Kernel, Sock, Skb, DnScp}
use raspbian_decnet.Nsp.Send.{dn_send, dn_nsp_send, dn_nsp_clone_and_send}
use raspbian_decnet.Nsp.Send.Window.{content, scp-clone_and_send, content-clone_and_send}
use raspbian_decnet.Nsp.Header.{dn_mk_ack_header, dn_nsp_mk_data_header}
use raspbian_decnet.Nsp.Queue.{prepare, dn_nsp_queue_xmit}
use raspbian_decnet.Nsp.Ack.{dn_nsp_check_xmit_queue}
use raspbian_decnet.Nsp.Ack.GoBackN.{Numbered, check_xmit_queue_go_back_n}

-- The data queue holds consecutive segments from `first` on, and the next number follows them.
pub record IsWindow (first : ℕ) (scp : DnScp) : Type 0 where
  pub numbered : Numbered first scp.data_xmit_queue
  pub next : scp.numdat ≡ (first + length scp.data_xmit_queue) % 4096

Numbered-append :
    (first : ℕ) (q : List Skb) (skb : Skb)
    → Numbered first q
    → skb.cb.segnum ≡ (first + length q) % 4096
    → Numbered first (q ++ (skb ∷ []))
Numbered-append first [] skb h e = (omega (arith, e), tt)
Numbered-append first (x ∷ q) skb h e =
    (h.0, Numbered-append (first + 1) q skb h.1 (omega (arith, e)))

Numbered-drop : (n first : ℕ) (q : List Skb) → Numbered first q → Numbered (first + n) (drop n q)
Numbered-drop zero first q h =
    let here : first ≡ first + 0 = omega arith in subst (λ m. Numbered m q) here h
Numbered-drop (suc n) first [] h = tt
Numbered-drop (suc n) first (x ∷ q) h =
    let there : first + 1 + n ≡ first + suc n = omega arith in
    subst (λ m. Numbered m (drop n q)) there (Numbered-drop n (first + 1) q h.1)

-- Being numbered is a matter of the contents.
Numbered-content :
    (first : ℕ) (p q : List Skb)
    → map content p ≡ map content q
    → Numbered first q
    → Numbered first p
Numbered-content first [] q e h = tt
Numbered-content first (x ∷ p) [] e h = cc
Numbered-content first (x ∷ p) (y ∷ q) e h =
    (ground (arith, e, h.0), Numbered-content (first + 1) p q (ground (arith, e)) h.1)

pub length-content : (p q : List Skb) → map content p ≡ map content q → length p ≡ length q
length-content [] [] e = refl
length-content [] (y ∷ q) e = cc
length-content (x ∷ p) [] e = cc
length-content (x ∷ p) (y ∷ q) e = ap suc (length-content p q (ground (arith, e)))

-- The segment that `dn_nsp_queue_xmit` makes.
abbrev pub made : Sock → Skb → Skb
made s skb =
    (dn_nsp_mk_data_header s.scp (record skb { cb = record (skb.cb) { xmit_count = 0 } }) false).1

segnum-made : (s : Sock) (skb : Skb) → (made s skb).cb.segnum ≡ s.scp.numdat
unfolding dn_nsp_mk_data_header dn_mk_ack_header
segnum-made s skb = refl

map-content-tail :
    (q : List Skb) (a b : Skb)
    → content a ≡ content b
    → map content (q ++ (a ∷ [])) ≡ map content (q ++ (b ∷ []))
map-content-tail [] a b e = ap (λ c. c ∷ []) e
map-content-tail (x ∷ q) a b e = ap (λ c. content x ∷ c) (map-content-tail q a b e)

-- Queuing data puts one segment behind the others.
pub queue_xmit-content :
    (k : Kernel) (s : Sock) (skb : Skb)
    → map content (dn_nsp_queue_xmit k s skb false).scp.data_xmit_queue
      ≡ map content (s.scp.data_xmit_queue ++ (made s skb ∷ []))
unfolding dn_nsp_queue_xmit prepare dn_nsp_mk_data_header dn_mk_ack_header
queue_xmit-content k s skb =
    let q = s.scp.data_xmit_queue in
    let s1 = (prepare k s skb false).0 in
    let (skb2, s2, again) = dn_nsp_clone_and_send k (made s skb) s1 in
    elim (Bool-cases (s1.scp.flowrem_sw != dn_send)) [
      | inl e ↦ rw e (ground arith)
      | inr e ↦
          let same : s2.scp.data_xmit_queue ≡ q =
            ground (arith, scp-clone_and_send k (made s skb) s1) in
          rw (e, same)
            (map-content-tail q skb2 (made s skb) (content-clone_and_send k (made s skb) s1))
    ]

numdat-queue_xmit :
    (k : Kernel) (s : Sock) (skb : Skb)
    → (dn_nsp_queue_xmit k s skb false).scp.numdat ≡ (s.scp.numdat + 1) % 4096
unfolding dn_nsp_queue_xmit dn_nsp_mk_data_header dn_mk_ack_header dn_nsp_clone_and_send dn_nsp_send
numdat-queue_xmit k s skb = ground (arith, seq_add_lem s.scp.numdat 1)

queue_xmit-IsWindow :
    (k : Kernel) (s : Sock) (skb : Skb) (first : ℕ)
    → IsWindow first s.scp
    → IsWindow first (dn_nsp_queue_xmit k s skb false).scp
queue_xmit-IsWindow k s skb first w =
    let q = s.scp.data_xmit_queue in
    let after = (dn_nsp_queue_xmit k s skb false).scp in
    let longer = q ++ (made s skb ∷ []) in
    let same = queue_xmit-content k s skb in
    let size = length-content after.data_xmit_queue longer same in
    record {
      numbered =
          Numbered-content first after.data_xmit_queue longer same
            (Numbered-append first q (made s skb) w.numbered (segnum-made s skb ∙ w.next));
      next =
          omega (arith, numdat-queue_xmit k s skb, w.next, size, length-append q (made s skb ∷ []));
    }

check_xmit_queue-IsWindow :
    (k : Kernel) (skb : Skb) (acknum first n : ℕ) (s : Sock)
    → IsWindow first s.scp
    → ((acknum + 1) % 4096) ≡ (first + n) % 4096
    → n ≤ length s.scp.data_xmit_queue
    → length s.scp.data_xmit_queue ≤ 2048
    → IsWindow (first + n) (dn_nsp_check_xmit_queue k skb acknum false s).0.scp
check_xmit_queue-IsWindow k skb acknum first n s w at queued fits =
    let q = s.scp.data_xmit_queue in
    let after = (dn_nsp_check_xmit_queue k skb acknum false s).0.scp in
    let (left, woken, num) =
      check_xmit_queue_go_back_n k skb acknum first n s w.numbered at queued fits in
    record {
      numbered =
          Numbered-content (first + n) after.data_xmit_queue (drop n q) left
            (Numbered-drop n first q w.numbered);
      next = omega (
        arith,
        num,
        w.next,
        length-content after.data_xmit_queue (drop n q) left,
        length-drop n q,
        queued,
      );
    }

-- The steps of a sender, whose oldest segment that is not acknowledged has the number `first`:
-- data is queued while fewer than 2048 segments wait, and an acknowledgement covers `n` of those
-- that wait.
pub data SenderStep : ℕ → Sock → ℕ → Sock → Type 0 where
  queues :
      (k : Kernel) (skb : Skb) (first : ℕ) (s : Sock)
      → length s.scp.data_xmit_queue < 2048
      → SenderStep first s first (dn_nsp_queue_xmit k s skb false)
  acknowledges :
      (k : Kernel) (skb : Skb) (acknum first n : ℕ) (s : Sock)
      → ((acknum + 1) % 4096) ≡ (first + n) % 4096
      → n ≤ length s.scp.data_xmit_queue
      → SenderStep first s (first + n) (dn_nsp_check_xmit_queue k skb acknum false s).0

pub data SenderRun : ℕ → Sock → ℕ → Sock → Type 0 where
  start : (first : ℕ) (s : Sock) → SenderRun first s first s
  then_step :
      (first middle last : ℕ) (s t u : Sock)
      → SenderRun first s middle t
      → SenderStep middle t last u
      → SenderRun first s last u

-- The window, with at most 2048 segments out.
pub record IsSender (first : ℕ) (s : Sock) : Type 0 where
  pub window : IsWindow first s.scp
  pub room : length s.scp.data_xmit_queue ≤ 2048

SenderStep-IsSender :
    (first last : ℕ) (s t : Sock) → SenderStep first s last t → IsSender first s → IsSender last t
SenderStep-IsSender first last s t (queues k skb _ _ few) ok =
    let after = (dn_nsp_queue_xmit k s skb false).scp in
    record {
      window = queue_xmit-IsWindow k s skb first ok.window;
      room = omega (
        arith,
        few,
        length-content after.data_xmit_queue (s.scp.data_xmit_queue ++ (made s skb ∷ []))
            (queue_xmit-content k s skb),
        length-append s.scp.data_xmit_queue (made s skb ∷ []),
      );
    }
SenderStep-IsSender first last s t (acknowledges k skb acknum _ n _ at queued) ok =
    let after = (dn_nsp_check_xmit_queue k skb acknum false s).0.scp in
    let left =
      check_xmit_queue_go_back_n k skb acknum first n s ok.window.numbered at queued ok.room in
    record {
      window = check_xmit_queue-IsWindow k skb acknum first n s ok.window at queued ok.room;
      room = omega (
        arith,
        ok.room,
        length-content after.data_xmit_queue (drop n s.scp.data_xmit_queue) left.0,
        length-drop n s.scp.data_xmit_queue,
      );
    }

-- Over every run of queuing data, below 2048 segments, and of acknowledgements that cover segments
-- that wait, the data queue keeps consecutive numbers from the first that is not acknowledged, at
-- most 2048 of them, and the next number follows them.
pub SenderRun-IsSender :
    (first last : ℕ) (s t : Sock) → SenderRun first s last t → IsSender first s → IsSender last t
SenderRun-IsSender first last s t (start _ _) ok = ok
SenderRun-IsSender first last s t (then_step _ middle _ _ u _ run step) ok =
    SenderStep-IsSender middle last u t step (SenderRun-IsSender first middle s u run ok)
