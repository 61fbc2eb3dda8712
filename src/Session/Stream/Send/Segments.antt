-- ===== src/Session/Stream/Send/Segments.antt =====
-- What the loop of `dn_sendmsg` puts on the data queue.
use raspbian_decnet.Base.{
  not, length, if-both, ℕ, zero, suc, ◌≡◌, refl, sym, ap, ap₂, ◌∙◌, false, ◌!=◌, if◌then◌else◌,
  List, [], ◌∷◌, ◌++◌, map, take, drop, arith,
}
use mathlib.Core.List.{append-nil, append_assoc}
use raspbian_decnet.Nsp.Socket.{Kernel, Sock, Skb, DnScp}
use raspbian_decnet.Nsp.Send.{allocates, asked, set_persist}
use raspbian_decnet.Nsp.Send.Window.{content}
use raspbian_decnet.Nsp.Header.{dn_mk_ack_header, dn_mk_common_header, dn_nsp_mk_data_header}
use raspbian_decnet.Nsp.Receive.Segment.{enobufs}
use raspbian_decnet.Nsp.Timer.{dn_nsp_persist}
use raspbian_decnet.Nsp.Queue.{dn_nsp_queue_xmit}
use raspbian_decnet.Nsp.Ack.Sender.{made, queue_xmit-content}
use raspbian_decnet.Session.Username.RoundTrip.{take-drop}
use raspbian_decnet.Session.Stream.Send.{
  efault, Call, Stop, send_segment, send_loop, dn_queue_too_long, count_segment, counted,
  next_segment,
}

-- What a segment carries, behind its header of 11 bytes.
abbrev pub payload : Skb → List ℕ
payload skb = drop 11 skb.bytes

-- What the segments of a queue carry, one behind the other.
abbrev pub payloads : List Skb → List ℕ
payloads [] = []
payloads (skb ∷ q) = payload skb ++ payloads q

payloads-append : (p q : List Skb) → payloads (p ++ q) ≡ payloads p ++ payloads q
payloads-append [] q = refl
payloads-append (skb ∷ p) q =
    rw (payloads-append p q) (sym (append_assoc (payload skb) (payloads p) (payloads q)))

payloads-content : (p q : List Skb) → map content p ≡ map content q → payloads p ≡ payloads q
payloads-content [] [] e = refl
payloads-content [] (y ∷ q) e = cc
payloads-content (x ∷ p) [] e = cc
payloads-content (x ∷ p) (y ∷ q) e =
    let bytes : x.bytes ≡ y.bytes = ground (arith, e) in
    ap₂ (λ a b. drop 11 a ++ b) bytes (payloads-content p q (ground (arith, e)))

payload-made : (s : Sock) (skb : Skb) → payload (made s skb) ≡ skb.bytes
unfolding dn_nsp_mk_data_header dn_mk_ack_header dn_mk_common_header
payload-made s skb = refl

payloads-queue_xmit :
    (k : Kernel) (s : Sock) (skb : Skb)
    → payloads (dn_nsp_queue_xmit k s skb false).scp.data_xmit_queue
      ≡ payloads s.scp.data_xmit_queue ++ skb.bytes
payloads-queue_xmit k s skb =
    payloads-content (dn_nsp_queue_xmit k s skb false).scp.data_xmit_queue
      (s.scp.data_xmit_queue ++ (made s skb ∷ [])) (queue_xmit-content k s skb)
    ∙ (payloads-append s.scp.data_xmit_queue (made s skb ∷ [])
        ∙ ap (λ tail. payloads s.scp.data_xmit_queue ++ tail)
            (append-nil (payload (made s skb)) ∙ payload-made s skb))

-- The data queue of a socket.
abbrev pub queued : Sock → List ℕ
queued s = payloads s.scp.data_xmit_queue

queued-set_persist : (k : Kernel) (s : Sock) → queued (set_persist k s) ≡ queued s
unfolding dn_nsp_persist
queued-set_persist k s = ground arith

queued-counted : (c : Call) (rest : List ℕ) (s : Sock) → queued (counted c rest s) ≡ queued s
unfolding counted count_segment
queued-counted c rest s = ground arith

bytes-next_segment :
    (c : Call) (rest : List ℕ) (scp : DnScp) → (next_segment c rest scp).bytes ≡ take c.mss rest
unfolding next_segment
bytes-next_segment c rest scp = refl

queued-send_segment :
    (k : Kernel) (c : Call) (rest : List ℕ) (s : Sock)
    → c.oob ≡ false
    → queued (send_segment k c rest s) ≡ queued s ++ take c.mss rest
unfolding send_segment
queued-send_segment k c rest s plain =
    let s1 = counted c rest s in
    let skb = next_segment c rest s.scp in
    let sent = dn_nsp_queue_xmit k s1 skb c.oob in
    queued-set_persist k sent
    ∙ (ap (λ oth. queued (dn_nsp_queue_xmit k s1 skb oth)) plain
        ∙ (payloads-queue_xmit k s1 skb
            ∙ ap₂ (λ a b. a ++ b) (queued-counted c rest s) (bytes-next_segment c rest s.scp)))

-- What is left of the message, and the socket, when the loop has stopped.
abbrev pub left_over : Stop × List ℕ × Sock → List ℕ
left_over (stop, rest, s) = rest

abbrev pub after : Stop × List ℕ × Sock → Sock
after (stop, rest, s) = s

-- What holds however the loop stops at a round holds of the round.
round {ℓ} :
    (P : Stop × List ℕ × Sock → Type ℓ) (k : Kernel) (c : Call) (fuel b : ℕ) (rest : List ℕ)
    (s : Sock)
    → P (Stop.failed s.sk_err, b ∷ rest, record s { sk_err = 0 })
    → ((stop : Stop) → P (stop, b ∷ rest, s))
    → ((err : ℕ) → P (Stop.failed err, b ∷ rest, asked s))
    → P (send_loop k c fuel (drop c.mss (b ∷ rest)) (send_segment k c (b ∷ rest) s))
    → P (send_loop k c (suc fuel) (b ∷ rest) s)
unfolding send_loop
round P k c fuel b rest s error untouched unsent sent =
    let left = suc (length rest) in
    let again = send_loop k c fuel (drop c.mss (b ∷ rest)) (send_segment k c (b ∷ rest) s) in
    let fault = if c.faults left then (Stop.failed efault, b ∷ rest, asked s) else again in
    let memory = if not (allocates k s) then (Stop.failed enobufs, b ∷ rest, asked s) else fault in
    let room = if dn_queue_too_long c.oob s.scp then (Stop.full, b ∷ rest, s) else memory in
    let quiet = if c.signal_pending left then (Stop.failed c.intr_errno, b ∷ rest, s) else room in
    if-both P (s.sk_err != 0) (Stop.failed s.sk_err, b ∷ rest, record s { sk_err = 0 }) quiet error
      (if-both P (c.signal_pending left) (Stop.failed c.intr_errno, b ∷ rest, s) room
        (untouched (Stop.failed c.intr_errno))
        (if-both P (dn_queue_too_long c.oob s.scp) (Stop.full, b ∷ rest, s) memory
          (untouched Stop.full)
          (if-both P (not (allocates k s)) (Stop.failed enobufs, b ∷ rest, asked s) fault
            (unsent enobufs)
            (if-both P (c.faults left) (Stop.failed efault, b ∷ rest, asked s) again (unsent efault)
              sent))))

-- The bytes that the data queue carries after the loop, followed by what is left of the message,
-- are those that it carried before, followed by the message: none is lost, repeated or moved,
-- however the loop stops, for a call without MSG_OOB.
pub send_loop-queued :
    (k : Kernel) (c : Call) (fuel : ℕ) (rest : List ℕ) (s : Sock)
    → c.oob ≡ false
    → queued (after (send_loop k c fuel rest s)) ++ left_over (send_loop k c fuel rest s)
      ≡ queued s ++ rest
unfolding send_loop
send_loop-queued k c fuel [] s plain = refl
send_loop-queued k c zero (b ∷ rest) s plain = refl
send_loop-queued k c (suc fuel) (b ∷ rest) s plain =
    let s' = send_segment k c (b ∷ rest) s in
    let again = send_loop-queued k c fuel (drop c.mss (b ∷ rest)) s' plain in
    let whole : queued s' ++ drop c.mss (b ∷ rest) ≡ queued s ++ (b ∷ rest) =
      ap (λ q. q ++ drop c.mss (b ∷ rest)) (queued-send_segment k c (b ∷ rest) s plain)
      ∙ (append_assoc (queued s) (take c.mss (b ∷ rest)) (drop c.mss (b ∷ rest))
          ∙ ap (λ tail. queued s ++ tail) (take-drop c.mss (b ∷ rest))) in
    round (λ r. queued (after r) ++ left_over r ≡ queued s ++ (b ∷ rest)) k c fuel b rest s refl
      (λ stop. refl) (λ err. refl) (again ∙ whole)

-- Where the segments are of no byte, the loop sends nothing of the message, however often it goes
-- round.
send_loop-empty :
    (k : Kernel) (c : Call) (fuel : ℕ) (rest : List ℕ) (s : Sock)
    → c.mss ≡ 0
    → left_over (send_loop k c fuel rest s) ≡ rest
unfolding send_loop
send_loop-empty k c fuel [] s empty = ground arith
send_loop-empty k c zero (b ∷ rest) s empty = refl
send_loop-empty k c (suc fuel) (b ∷ rest) s empty =
    let left = drop c.mss (b ∷ rest) in
    let again = send_loop-empty k c fuel left (send_segment k c (b ∷ rest) s) empty in
    round (λ r. left_over r ≡ b ∷ rest) k c fuel b rest s refl (λ stop. refl) (λ err. refl)
      (again ∙ ap (λ n. drop n (b ∷ rest)) empty)
