-- ===== src/Nsp/Receive/Segment/Link.antt =====
-- A segment does not decide over the link: it leaves `scp->state` and `sk->sk_state` alone.
use raspbian_decnet.Base.{ℕ, ◌≡◌, Bool, arith, get_or}
use raspbian_decnet.Nsp.Seq.{seq_add, seq_next}
use raspbian_decnet.Nsp.Socket.{Kernel, Sock, Skb}
use raspbian_decnet.Nsp.Send.{dn_send, dn_dontsend}
use raspbian_decnet.Nsp.Queue.{dn_pend_sw}
use raspbian_decnet.Nsp.Header.{read_le16}
use raspbian_decnet.Nsp.Frame.{
  SameInput, dn_nsp_output-SameInput, schedule_pending-SameInput, send_oth_ack-SameInput,
  send_data_ack-SameInput,
}
use raspbian_decnet.Nsp.Receive.Segment.{
  dn_nsp_linkservice, dn_nsp_otherdata, dn_nsp_data, normal_request, interrupt_request,
  next_request, accept_other, accept_data, press_back, dn_queue_skb, open_segment,
}

pub record SameLink (s t : Sock) : Type 0 where
  pub state : t.scp.state ≡ s.scp.state
  pub tcp_state : t.sk_state ≡ s.sk_state
  pub dead : t.sk_dead ≡ s.sk_dead

pub SameLink-refl : (s : Sock) → SameLink s s
SameLink-refl s = ground arith

pub SameLink-trans : (s t u : Sock) → SameLink s t → SameLink t u → SameLink s u
SameLink-trans s t u h k = ground arith

pub of_SameInput : (s t : Sock) → SameInput s t → SameLink s t
of_SameInput s t h = ground arith

normal_request-SameLink :
    (k : Kernel) (lsflags fcval : ℕ) (s : Sock) → SameLink s (normal_request k lsflags fcval s).0
unfolding normal_request
normal_request-SameLink k lsflags fcval s =
    let open_flow = record s { scp = record (s.scp) { flowrem_sw = dn_send } } in
    ground (arith, dn_nsp_output-SameInput k open_flow)

interrupt_request-SameLink : (fcval : ℕ) (s : Sock) → SameLink s (interrupt_request fcval s).0
unfolding interrupt_request
interrupt_request-SameLink fcval s = ground arith

next_request-SameLink :
    (k : Kernel) (lsflags fcval : ℕ) (s : Sock) → SameLink s (next_request k lsflags fcval s)
unfolding next_request
next_request-SameLink k lsflags fcval s =
    let s1 = record s { scp = record (s.scp) { numoth_rcv = seq_add s.scp.numoth_rcv 1 } } in
    ground (arith, normal_request-SameLink k lsflags fcval s1, interrupt_request-SameLink fcval s1)

pub linkservice-SameLink :
    (k : Kernel) (skb : Skb) (s : Sock) → SameLink s (dn_nsp_linkservice k skb s)
unfolding dn_nsp_linkservice
linkservice-SameLink k skb s =
    let s1 = next_request k (get_or skb.bytes 2 0) (get_or skb.bytes 3 0) s in
    ground (
      arith,
      next_request-SameLink k (get_or skb.bytes 2 0) (get_or skb.bytes 3 0) s,
      send_oth_ack-SameInput k s1,
      send_oth_ack-SameInput k s,
    )

queue_skb-SameLink : (k : Kernel) (skb : Skb) (s : Sock) → SameLink s (dn_queue_skb k skb s).2
unfolding dn_queue_skb
queue_skb-SameLink k skb s = ground arith

accept_other-SameLink : (k : Kernel) (skb : Skb) (s : Sock) → SameLink s (accept_other k skb s)
unfolding accept_other
accept_other-SameLink k skb s = ground (arith, queue_skb-SameLink k (open_segment skb) s)

pub otherdata-SameLink : (k : Kernel) (skb : Skb) (s : Sock) → SameLink s (dn_nsp_otherdata k skb s)
unfolding dn_nsp_otherdata
otherdata-SameLink k skb s =
    ground (arith, accept_other-SameLink k skb s, send_oth_ack-SameInput k (accept_other k skb s))

accept_data-SameLink : (k : Kernel) (skb : Skb) (s : Sock) → SameLink s (accept_data k skb s).1
unfolding accept_data
accept_data-SameLink k skb s = ground (arith, queue_skb-SameLink k (open_segment skb) s)

press_back-SameLink : (k : Kernel) (next : Bool) (s : Sock) → SameLink s (press_back k next s)
unfolding press_back
press_back-SameLink k next s =
    let stopped = record s { scp = record (s.scp) { flowloc_sw = dn_dontsend } } in
    ground (arith, schedule_pending-SameInput k dn_pend_sw stopped)

pub data-SameLink : (k : Kernel) (skb : Skb) (s : Sock) → SameLink s (dn_nsp_data k skb s)
unfolding dn_nsp_data
data-SameLink k skb s =
    let s1 = (accept_data k skb s).1 in
    let next = seq_next s.scp.numdat_rcv (read_le16 skb.bytes) in
    let s2 = press_back k next s1 in
    ground (
      arith,
      accept_data-SameLink k skb s,
      press_back-SameLink k next s1,
      send_data_ack-SameInput k s2,
    )
