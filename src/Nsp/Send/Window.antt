-- ===== src/Nsp/Send/Window.antt =====
-- What sending may change of a socket.
use raspbian_decnet.Base.{
  ℕ, ◌/◌, ◌≡◌, ◌⊎◌, refl, List, [], ◌∷◌, map, arith, if◌then◌else◌, Bool, true, false, not, ◌||◌,
  ◌&&◌, ltb, ◌==◌, ◌!=◌, inl, inr, Bool-cases,
}
use raspbian_decnet.Nsp.Socket.{Kernel, Sock, Skb, DnScp}
use raspbian_decnet.Nsp.Send.{
  dn_nsp_send, dn_nsp_clone_and_send, dn_nsp_output, send_head, send_queue_head, recalc_window,
  dn_send, allocates, xmit_queue,
}

-- What a packet says: its bytes and its segment number.
abbrev pub content : Skb → List ℕ × ℕ
content skb = (skb.bytes, skb.cb.segnum)

-- The link is where it was: its state, the numbers of both directions, flow control, and what
-- the packets say that wait for an acknowledgement.
pub record Keeps (a b : DnScp) : Type 0 where
  pub state : b.state ≡ a.state
  pub numdat : b.numdat ≡ a.numdat
  pub numoth : b.numoth ≡ a.numoth
  pub numdat_rcv : b.numdat_rcv ≡ a.numdat_rcv
  pub numoth_rcv : b.numoth_rcv ≡ a.numoth_rcv
  pub ackrcv_dat : b.ackrcv_dat ≡ a.ackrcv_dat
  pub ackrcv_oth : b.ackrcv_oth ≡ a.ackrcv_oth
  pub flowrem_sw : b.flowrem_sw ≡ a.flowrem_sw
  pub max_window : b.max_window ≡ a.max_window
  pub data_content : map content b.data_xmit_queue ≡ map content a.data_xmit_queue
  pub other_content : map content b.other_xmit_queue ≡ map content a.other_xmit_queue

pub Keeps-refl : (a : DnScp) → Keeps a a
Keeps-refl a = ground arith

pub Keeps-trans : (a b c : DnScp) → Keeps a b → Keeps b c → Keeps a c
Keeps-trans a b c h k = ground arith

pub scp-dn_nsp_send :
    (k : Kernel) (skb : Skb) (s : Sock)
    → (dn_nsp_send k skb s).scp ≡ record (s.scp) { stamp = k.jiffies }
unfolding dn_nsp_send
scp-dn_nsp_send k skb s = ground arith

pub scp-clone_and_send :
    (k : Kernel) (skb : Skb) (s : Sock)
    → (dn_nsp_clone_and_send k skb s).1.scp
      ≡ (if allocates k s then record (s.scp) { stamp = k.jiffies } else s.scp)
unfolding dn_nsp_clone_and_send dn_nsp_send
scp-clone_and_send k skb s = ground arith

pub content-clone_and_send :
    (k : Kernel) (skb : Skb) (s : Sock) → content (dn_nsp_clone_and_send k skb s).0 ≡ content skb
unfolding dn_nsp_clone_and_send
content-clone_and_send k skb s = ground arith

content-send_head :
    (k : Kernel) (q : List Skb) (s : Sock) → map content (send_head k q s).0 ≡ map content q
unfolding send_head
content-send_head k [] s = refl
content-send_head k (skb ∷ q) s = ground (arith, content-clone_and_send k skb s)

scp-send_head :
    (k : Kernel) (q : List Skb) (s : Sock)
    → ((send_head k q s).1.scp ≡ s.scp)
      ⊎ ((send_head k q s).1.scp ≡ record (s.scp) { stamp = k.jiffies })
unfolding send_head
scp-send_head k [] s = ground arith
scp-send_head k (skb ∷ q) s = ground (arith, scp-clone_and_send k skb s)

send_queue_head-Keeps :
    (k : Kernel) (oth : Bool) (s : Sock) → Keeps s.scp (send_queue_head k oth s).0.scp
unfolding send_queue_head
send_queue_head-Keeps k true s =
    ground (
      arith,
      content-send_head k s.scp.other_xmit_queue s,
      scp-send_head k s.scp.other_xmit_queue s,
    )
send_queue_head-Keeps k false s =
    ground
      (arith, content-send_head k s.scp.data_xmit_queue s, scp-send_head k s.scp.data_xmit_queue s)

recalc_window-Keeps : (n : ℕ) (s : Sock) → Keeps s.scp (recalc_window n s).scp
unfolding recalc_window
recalc_window-Keeps n s = ground arith

-- Trying to send moves no sequence number and takes nothing off a queue.
pub dn_nsp_output-Keeps : (k : Kernel) (s : Sock) → Keeps s.scp (dn_nsp_output k s).scp
unfolding dn_nsp_output
dn_nsp_output-Keeps k s =
    let s1 = (send_queue_head k true s).0 in
    let s2 = (send_queue_head k false s1).0 in
    let both =
      Keeps-trans s.scp s1.scp s2.scp (send_queue_head-Keeps k true s)
        (send_queue_head-Keeps k false s1) in
    elim (Bool-cases ((send_queue_head k true s).1 != 0 || s1.scp.flowrem_sw != dn_send)) [
      | inl early ↦
          rw early (Keeps-trans _ _ _ (send_queue_head-Keeps k true s) (recalc_window-Keeps _ s1))
      | inr late ↦ rw late (Keeps-trans _ _ _ both (recalc_window-Keeps _ s2))
    ]

-- How often the packet at the head was sent; 0 where there is none.
abbrev pub head_count : List Skb → ℕ
head_count [] = 0
head_count (skb ∷ q) = skb.cb.xmit_count

abbrev pub halved : ℕ → ℕ
halved w = if ltb (w / 2) 1 then 1 else w / 2

send_head_count :
    (k : Kernel) (q : List Skb) (s : Sock)
    → ((n : ℕ) → k.alloc n ≡ true)
    → (send_head k q s).2 ≡ head_count q
unfolding send_head dn_nsp_clone_and_send
send_head_count k [] s memory = refl
send_head_count k (skb ∷ q) s memory = ground (arith, memory s.allocations)

send_queue_head_count :
    (k : Kernel) (oth : Bool) (s : Sock)
    → ((n : ℕ) → k.alloc n ≡ true)
    → ((send_queue_head k oth s).1 ≡ head_count (xmit_queue oth s.scp))
      × ((send_queue_head k oth s).0.scp.snd_window ≡ s.scp.snd_window)
      × (xmit_queue (not oth) (send_queue_head k oth s).0.scp ≡ xmit_queue (not oth) s.scp)
unfolding send_queue_head
send_queue_head_count k true s memory = ground (
  arith,
  send_head_count k s.scp.other_xmit_queue s memory,
  scp-send_head k s.scp.other_xmit_queue s,
)
send_queue_head_count k false s memory = ground (
  arith,
  send_head_count k s.scp.data_xmit_queue s memory,
  scp-send_head k s.scp.data_xmit_queue s,
)

-- With memory at hand, the send window is halved, but not below 1, exactly when the packet at the
-- head of the other-data queue was sent before, or else data may flow and the packet at the head
-- of the data queue was sent before; otherwise the window stays.
pub snd_window-dn_nsp_output :
    (k : Kernel) (s : Sock)
    → ((n : ℕ) → k.alloc n ≡ true)
    → (dn_nsp_output k s).scp.snd_window ≡ (
        if head_count s.scp.other_xmit_queue != 0
          || (s.scp.flowrem_sw == dn_send && head_count s.scp.data_xmit_queue != 0)
        then halved s.scp.snd_window
        else s.scp.snd_window)
unfolding dn_nsp_output recalc_window
snd_window-dn_nsp_output k s memory = ground (
  arith,
  send_queue_head_count k true s memory,
  send_queue_head_count k false (send_queue_head k true s).0 memory,
  (send_queue_head-Keeps k true s).flowrem_sw,
)
