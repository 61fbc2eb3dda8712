-- ===== src/Session/Conninit/Retries.antt =====
-- How often a connect initiate is tried again (`dn_nsp_retrans_conninit`).
use raspbian_decnet.Base.{
  ℕ, ◌+◌, ◌^◌, ◌<◌, ◌≡◌, refl, ap, ◌∙◌, ◌⊎◌, inl, inr, ◌!=◌, Bool-cases, true, List, [], ◌∷◌,
  length, arith, ◌≢◌, ◌*◌, none, replicate, All, subst, zero, suc, ◌++◌,
}
use raspbian_decnet.Nsp.Socket.{Kernel, Sock, Skb, State, TcpState}
use raspbian_decnet.Nsp.Send.{ehostunreach, allocates, asked, new_skb, dn_nsp_send}
use raspbian_decnet.Nsp.Send.Window.{scp-dn_nsp_send}
use raspbian_decnet.Nsp.Message.{count_down}
use raspbian_decnet.Nsp.Receive.Connect.{is_connect_initiate}
use raspbian_decnet.Session.Conninit.{
  nsp_rci, dn_rt_f_rqr, conninit_message, dn_nsp_send_conninit, dn_nsp_retrans_conninit,
}

-- The timer runs out once for each kernel of the list.
abbrev pub timeouts : List Kernel → Sock → Sock
timeouts [] s = s
timeouts (k ∷ ks) s = timeouts ks (dn_nsp_retrans_conninit k s)

-- Sending the message changes nothing of the control block but the time of sending.
scp-send_conninit :
    (k : Kernel) (msgflg : ℕ) (s : Sock)
    → ((dn_nsp_send_conninit k msgflg s).scp ≡ s.scp)
      ⊎ ((dn_nsp_send_conninit k msgflg s).scp ≡ record (s.scp) { stamp = k.jiffies })
unfolding dn_nsp_send_conninit
scp-send_conninit k msgflg s =
    let blank = new_skb (conninit_message s.scp msgflg) in
    let skb = record blank { cb = record (blank.cb) { rt_flags = dn_rt_f_rqr } } in
    elim (Bool-cases (allocates k s)) [
      | inl e ↦ rw e (inr (scp-dn_nsp_send k skb (asked s)))
      | inr e ↦ rw e (inl refl)
    ]

pub state-send_conninit :
    (k : Kernel) (msgflg : ℕ) (s : Sock)
    → ((dn_nsp_send_conninit k msgflg s).scp.state ≡ s.scp.state)
      × ((dn_nsp_send_conninit k msgflg s).scp.persist_count ≡ s.scp.persist_count)
state-send_conninit k msgflg s = elim (scp-send_conninit k msgflg s) [
  | inl e ↦ rw e (refl, refl)
  | inr e ↦ rw e (refl, refl)
]

-- With a count of retries left, the message is sent again and the attempt goes on.
retrans_conninit-again :
    (k : Kernel) (s : Sock) (n : ℕ)
    → s.scp.state ≡ State.connect_initiate
    → s.scp.persist_count ≡ n + 1
    → n + 1 < 2 ^ 32
    → ((dn_nsp_retrans_conninit k s).scp.state ≡ State.connect_initiate)
      × ((dn_nsp_retrans_conninit k s).scp.persist_count ≡ n)
unfolding dn_nsp_retrans_conninit
retrans_conninit-again k s n at count small =
    let (state, counted) = state-send_conninit k nsp_rci (count_down s) in
    let left : (s.scp.persist_count != 0) ≡ true = ground (arith, count) in
    let ours : is_connect_initiate s.scp.state ≡ true = ap is_connect_initiate at in
    rw (ours, left) (state ∙ at, counted ∙ omega (arith, count))

retrans_conninit-last :
    (k : Kernel) (s : Sock)
    → s.scp.state ≡ State.connect_initiate
    → s.scp.persist_count ≡ 0
    → ((dn_nsp_retrans_conninit k s).sent ≡ s.sent)
      × ((dn_nsp_retrans_conninit k s).scp.state ≡ State.no_communication)
      × ((dn_nsp_retrans_conninit k s).sk_err ≡ ehostunreach)
      × ((dn_nsp_retrans_conninit k s).sk_state ≡ TcpState.tcp_close)
unfolding dn_nsp_retrans_conninit
retrans_conninit-last k s at count = rw at (ground arith)

-- Whatever the kernels have, the count alone decides when the attempt is given up.
timeouts-given_up :
    (ks : List Kernel) (last : Kernel) (s : Sock)
    → s.scp.state ≡ State.connect_initiate
    → s.scp.persist_count ≡ length ks
    → length ks < 2 ^ 32
    → let given_up = dn_nsp_retrans_conninit last (timeouts ks s) in
      (given_up.sent ≡ (timeouts ks s).sent)
      × (given_up.scp.state ≡ State.no_communication)
      × (given_up.sk_err ≡ ehostunreach)
      × (given_up.sk_state ≡ TcpState.tcp_close)
timeouts-given_up [] last s at count small = retrans_conninit-last last s at count
timeouts-given_up (k ∷ ks) last s at count small =
    let (at', count') =
      retrans_conninit-again k s (length ks) at (omega (arith, count)) (omega (arith, small)) in
    timeouts-given_up ks last (dn_nsp_retrans_conninit k s) at' count' (omega (arith, small))

-- The message that a timeout sends again.
abbrev pub retransmitted : Sock → Skb
retransmitted s =
    let blank = new_skb (conninit_message s.scp nsp_rci) in
    record blank { cb = record (blank.cb) { rt_flags = dn_rt_f_rqr } }

-- The kernel has memory for packets and a route to the peer.
pub record Sends (k : Kernel) : Type 0 where
  pub memory : (n : ℕ) → k.alloc n ≡ true
  pub routed : k.route ≢ none

-- Each timeout sends the message once, starts the timer again for two seconds, and leaves the
-- attempt going on.
abbrev pub IsRetried : Skb → List Kernel → Sock → Type 0
IsRetried m [] s = Unit {0}
IsRetried m (k ∷ ks) s =
    let s' = dn_nsp_retrans_conninit k s in
    (s'.sent ≡ m ∷ s.sent)
    × (s'.scp.persist ≡ 2 * k.hz)
    × (s'.scp.state ≡ State.connect_initiate)
    × IsRetried m ks s'

-- A message that is allocated and has a route is sent.
sent-dn_nsp_send :
    (k : Kernel) (skb : Skb) (s : Sock) → k.route ≢ none → (dn_nsp_send k skb s).sent ≡ skb ∷ s.sent
unfolding dn_nsp_send
sent-dn_nsp_send k skb s routed = ground (arith, routed)

sent-send_conninit :
    (k : Kernel) (s : Sock)
    → Sends k
    → ((dn_nsp_send_conninit k nsp_rci s).sent ≡ retransmitted s ∷ s.sent)
      × ((dn_nsp_send_conninit k nsp_rci s).scp ≡ record (s.scp) { stamp = k.jiffies })
unfolding dn_nsp_send_conninit
sent-send_conninit k s sends =
    let skb = retransmitted s in
    rw (sends.memory s.allocations)
      (sent-dn_nsp_send k skb (asked s) sends.routed, scp-dn_nsp_send k skb (asked s))

-- The message does not depend on what a timeout changes.
retransmitted-retrans :
    (k : Kernel) (s : Sock)
    → Sends k
    → s.scp.state ≡ State.connect_initiate
    → (s.scp.persist_count != 0) ≡ true
    → let s' = dn_nsp_retrans_conninit k s in
      (s'.sent ≡ retransmitted s ∷ s.sent)
      × (s'.scp.persist ≡ 2 * k.hz)
      × (retransmitted s' ≡ retransmitted s)
unfolding dn_nsp_retrans_conninit conninit_message
retransmitted-retrans k s sends at left =
    let (sent, scp) = sent-send_conninit k (count_down s) sends in
    let ours : is_connect_initiate s.scp.state ≡ true = ap is_connect_initiate at in
    rw (ours, left)
      (sent, refl, ap (λ scp. retransmitted (record s { scp = record scp { persist = 0 } })) scp)

timeouts-IsRetried :
    (ks : List Kernel) (s : Sock)
    → All Sends ks
    → s.scp.state ≡ State.connect_initiate
    → s.scp.persist_count ≡ length ks
    → length ks < 2 ^ 32
    → IsRetried (retransmitted s) ks s
timeouts-IsRetried [] s sends at count small = tt
timeouts-IsRetried (k ∷ ks) s (send, sends) at count small =
    let (at', count') =
      retrans_conninit-again k s (length ks) at (omega (arith, count)) (omega (arith, small)) in
    let (sent, armed, same) = retransmitted-retrans k s send at (ground (arith, count)) in
    let s' = dn_nsp_retrans_conninit k s in
    (
      sent,
      armed,
      at',
      subst (λ m. IsRetried m ks s') same
          (timeouts-IsRetried ks s' sends at' count' (omega (arith, small))),
    )

replicate-more {ℓ} :
    {A : Type ℓ} (n : ℕ) (x : A) (xs : List A)
    → replicate n x ++ (x ∷ xs) ≡ x ∷ (replicate n x ++ xs)
replicate-more zero x xs = refl
replicate-more (suc n) x xs = ap (λ r. x ∷ r) (replicate-more n x xs)

sent-timeouts :
    (m : Skb) (ks : List Kernel) (s : Sock)
    → IsRetried m ks s
    → (timeouts ks s).sent ≡ replicate (length ks) m ++ s.sent
sent-timeouts m [] s tried = refl
sent-timeouts m (k ∷ ks) s (sent, armed, at, tried) =
    sent-timeouts m ks (dn_nsp_retrans_conninit k s) tried
    ∙ (ap (λ r. replicate (length ks) m ++ r) sent ∙ replicate-more (length ks) m s.sent)

-- A connect initiate that nobody answers, while the kernel has memory and a route, is tried again
-- exactly as often as its count says. Each of that many timeouts sends the retransmitted connect
-- initiate once more, starts the timer again for two seconds, and leaves the attempt going on; so
-- many copies are what has been sent. The next timeout sends nothing: it closes the socket with no
-- communication and the error EHOSTUNREACH.
pub timeouts-resent :
    (ks : List Kernel) (last : Kernel) (s : Sock)
    → All Sends ks
    → s.scp.state ≡ State.connect_initiate
    → s.scp.persist_count ≡ length ks
    → length ks < 2 ^ 32
    → let given_up = dn_nsp_retrans_conninit last (timeouts ks s) in
      IsRetried (retransmitted s) ks s
      × ((timeouts ks s).sent ≡ replicate (length ks) (retransmitted s) ++ s.sent)
      × (given_up.sent ≡ (timeouts ks s).sent)
      × (given_up.scp.state ≡ State.no_communication)
      × (given_up.sk_err ≡ ehostunreach)
      × (given_up.sk_state ≡ TcpState.tcp_close)
timeouts-resent ks last s sends at count small =
    let tried = timeouts-IsRetried ks s sends at count small in
    let (quiet, state, error, closed) = timeouts-given_up ks last s at count small in
    (tried, sent-timeouts (retransmitted s) ks s tried, quiet, state, error, closed)
