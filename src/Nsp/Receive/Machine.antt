-- ===== src/Nsp/Receive/Machine.antt =====
-- The state machine of `dn_nsp_backlog_rcv`: every packet is at most one step of the diagram.
use raspbian_decnet.Base.{
  ◌≡◌, refl, inl, inr, ◌&&◌, not, ◌==◌, Bool, true, false, arith, if◌then◌else◌, bit_and, List, [],
  ◌∷◌,
}
use raspbian_decnet.Nsp.Socket.{
  Kernel, Sock, Skb, State, running, connect_confirm, connect_initiate, connect_delivery,
}
use raspbian_decnet.Nsp.Ack.{dn_process_ack}
use raspbian_decnet.Nsp.Ack.Frame.{process_ack-SameInput}
use raspbian_decnet.Nsp.Message.{is_connect_confirm}
use raspbian_decnet.Nsp.Receive.Connect.{dn_nsp_conn_init}
use raspbian_decnet.Nsp.Receive.States.{
  ◌⟶◌, Moves, delivered, answered, answered_late, confirmed_by_use, conn_ack-Moves, conn_conf-Moves,
  disc_init-Moves, disc_conf-Moves,
}
use raspbian_decnet.Nsp.Receive.Segment.Link.{
  SameLink, linkservice-SameLink, otherdata-SameLink, data-SameLink,
}
use raspbian_decnet.Nsp.Receive.{kick, deliver, control, dn_nsp_backlog_rcv}

conn_init-SameLink : (skb : Skb) (s : Sock) → SameLink s (dn_nsp_conn_init skb s)
unfolding dn_nsp_conn_init
conn_init-SameLink skb s = ground arith

deliver-SameLink : (k : Kernel) (skb : Skb) (s : Sock) → SameLink s (deliver k skb s)
unfolding deliver
deliver-SameLink k skb s =
    ground (arith, linkservice-SameLink k skb s, otherdata-SameLink k skb s, data-SameLink k skb s)

state-kick :
    (k : Kernel) (skb : Skb) (s : Sock)
    → (kick k skb s).scp.state
      ≡ (if is_connect_confirm s.scp.state && not s.sk_dead then running else s.scp.state)
unfolding kick
state-kick k skb s = ground arith

is_connect_confirm-⟶ : (a : State) → is_connect_confirm a ≡ true → a ⟶ running
is_connect_confirm-⟶ connect_confirm h = confirmed_by_use
is_connect_confirm-⟶ _ h = cc

kick-Moves : (k : Kernel) (skb : Skb) (s : Sock) → Moves s.scp.state (kick k skb s).scp.state
kick-Moves k skb s = grind (arith, state-kick k skb s, is_connect_confirm-⟶)

control-Moves : (k : Kernel) (skb : Skb) (s : Sock) → Moves s.scp.state (control k skb s).scp.state
unfolding control
control-Moves k skb s = ground (
  arith,
  conn_init-SameLink skb s,
  conn_conf-Moves k skb s,
  disc_init-Moves k skb s,
  disc_conf-Moves k skb s,
)

-- Whatever packet a socket receives, its state stays or moves along one edge of the diagram.
pub backlog_rcv-Moves :
    (k : Kernel) (skb : Skb) (s : Sock) → Moves s.scp.state (dn_nsp_backlog_rcv k skb s).scp.state
unfolding dn_nsp_backlog_rcv
backlog_rcv-Moves k skb s =
    let flags = skb.cb.nsp_flags in
    let other = not (bit_and flags 0x1c == 0) && not (flags == 0x04) in
    let (skb', s') = dn_process_ack k skb other (kick k skb s) in
    ground (
      arith,
      control-Moves k skb s,
      conn_ack-Moves k s,
      kick-Moves k skb s,
      process_ack-SameInput k skb other (kick k skb s),
      deliver-SameLink k skb' s',
    )

-- The packets of a history, each with what the kernel answers while it is handled.
abbrev pub receive_all : List (Kernel × Skb) → Sock → Sock
receive_all [] s = s
receive_all ((k, skb) ∷ rest) s = receive_all rest (dn_nsp_backlog_rcv k skb s)

-- The states from which the diagram leads to `running`.
abbrev pub may_run : State → Bool
may_run running = true
may_run connect_initiate = true
may_run connect_delivery = true
may_run connect_confirm = true
may_run _ = false

Moves-may_run : (a b : State) → Moves a b → may_run a ≡ false → may_run b ≡ false
Moves-may_run a b (inl e) h = rw e h
Moves-may_run a b (inr e) h = ⟶-may_run e h
  where
    ⟶-may_run : {c d : State} → c ⟶ d → may_run c ≡ false → may_run d ≡ false
    ⟶-may_run delivered g = cc
    ⟶-may_run answered g = cc
    ⟶-may_run answered_late g = cc
    ⟶-may_run confirmed_by_use g = cc
    ⟶-may_run _ g = refl

-- A link that is down, refused, given up or not yet asked for does not come into RUN by any
-- sequence of packets: only connect initiate, connect delivery and connect confirm lead there.
pub receive_all-may_run :
    (packets : List (Kernel × Skb)) (s : Sock)
    → may_run s.scp.state ≡ false
    → may_run (receive_all packets s).scp.state ≡ false
receive_all-may_run [] s h = h
receive_all-may_run ((k, skb) ∷ rest) s h =
    receive_all-may_run rest (dn_nsp_backlog_rcv k skb s)
      (Moves-may_run s.scp.state _ (backlog_rcv-Moves k skb s) h)
