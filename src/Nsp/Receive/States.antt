-- ===== src/Nsp/Receive/States.antt =====
-- The transitions of `scp->state` that a packet can cause.
use raspbian_decnet.Base.{
  ℕ, ◌≡◌, ◌⊎◌, refl, inl, inr, ◌&&◌, ◌!=◌, Bool, true, false, Bool-cases, arith, if◌then◌else◌,
  length, leb, ltb, ◌∙◌, ap,
}
use raspbian_decnet.Nsp.Socket.{
  Kernel, Sock, Skb, DnScp, State, disconnect_reject, disconnect_reject_complete, connect_confirm,
  connect_initiate, no_resources, no_communication, connect_delivery, rejected, running,
  disconnect_initiate, disconnect_complete, disconnect_notification, closed_notification, TcpState,
  PersistFxn,
}
use raspbian_decnet.Nsp.Frame.{
  SameInput, SameInput-refl, SameInput-trans, wake-SameInput, set_persist-SameInput,
  schedule_pending-SameInput,
}
use raspbian_decnet.Nsp.Queue.{dn_pend_idle, dn_nsp_schedule_pending}
use raspbian_decnet.Nsp.Send.{wake}
use raspbian_decnet.Nsp.Message.{dn_nsp_send_disc, nsp_discconf, nsp_reason_dc}
use raspbian_decnet.Nsp.Header.{read_le16}
use raspbian_decnet.Nsp.Receive.Connect.{
  dn_nsp_conn_conf, dn_nsp_conn_ack, confirmed, awaits_confirm,
}
use raspbian_decnet.Nsp.Receive.Disconnect.{
  dn_nsp_disc_init, dn_nsp_disc_conf, disc_init_state, disc_conf_state, tell_user,
  start_destroy_timer, read_discdata,
}

infix 40 ◌⟶◌
-- The edges of the diagram: a connection is answered, refused, lost, confirmed or taken down.
pub data ◌⟶◌ : State → State → Type 0 where
  delivered : connect_initiate ⟶ connect_delivery
  answered : connect_initiate ⟶ running
  answered_late : connect_delivery ⟶ running
  confirmed_by_use : connect_confirm ⟶ running
  refused : connect_initiate ⟶ rejected
  refused_late : connect_delivery ⟶ rejected
  no_room : connect_initiate ⟶ no_resources
  unreachable : connect_initiate ⟶ no_communication
  peer_left : running ⟶ disconnect_notification
  crossed : disconnect_initiate ⟶ disconnect_complete
  reject_done : disconnect_reject ⟶ disconnect_reject_complete
  reject_lost : disconnect_reject ⟶ closed_notification
  link_lost : running ⟶ closed_notification
  confirm_lost : connect_confirm ⟶ closed_notification

ruleset edges = (
  delivered, answered, answered_late, confirmed_by_use, refused, refused_late, no_room, unreachable,
  peer_left, crossed, reject_done, reject_lost, link_lost, confirm_lost,
)

-- The state stays, or moves along one edge.
abbrev pub Moves : State → State → Type 0
Moves a b = (b ≡ a) ⊎ (a ⟶ b)

pub conn_ack-Moves : (k : Kernel) (s : Sock) → Moves s.scp.state (dn_nsp_conn_ack k s).scp.state
unfolding dn_nsp_conn_ack
conn_ack-Moves k s = grind (arith, edges)

awaits_confirm-⟶ : (a : State) → awaits_confirm a ≡ true → a ⟶ running
awaits_confirm-⟶ connect_initiate h = answered
awaits_confirm-⟶ connect_delivery h = answered_late
awaits_confirm-⟶ _ h = cc

state-conn_conf :
    (k : Kernel) (skb : Skb) (s : Sock)
    → (dn_nsp_conn_conf k skb s).scp.state
      ≡ (if leb 4 (length skb.bytes) && awaits_confirm s.scp.state then running else s.scp.state)
unfolding dn_nsp_conn_conf
state-conn_conf k skb s =
    let sent = dn_nsp_schedule_pending k dn_pend_idle (confirmed k skb s) in
    elim (Bool-cases (leb 4 (length skb.bytes) && awaits_confirm s.scp.state)) [
      | inl e ↦
          rw e
            (SameInput-trans (confirmed k skb s) sent (wake sent)
              (schedule_pending-SameInput k dn_pend_idle (confirmed k skb s))
              (wake-SameInput sent)).state
      | inr e ↦ rw e refl
    ]

pub conn_conf-Moves :
    (k : Kernel) (skb : Skb) (s : Sock) → Moves s.scp.state (dn_nsp_conn_conf k skb s).scp.state
conn_conf-Moves k skb s = grind (arith, state-conn_conf k skb s, awaits_confirm-⟶)

-- The two disconnect messages: the switch decides, and what follows keeps the state.
disc_init_state-Moves :
    (a : State) (s : Sock) → s.scp.state ≡ a → Moves a (disc_init_state a s).scp.state
unfolding disc_init_state
disc_init_state-Moves connect_initiate s e = inr refused
disc_init_state-Moves connect_delivery s e = inr refused_late
disc_init_state-Moves running s e = inr peer_left
disc_init_state-Moves disconnect_initiate s e = inr crossed
disc_init_state-Moves _ s e = inl e

disc_conf_state-Moves :
    (a : State) (reason : ℕ) (s : Sock)
    → s.scp.state ≡ a
    → Moves a (disc_conf_state a reason s).scp.state
unfolding disc_conf_state
disc_conf_state-Moves connect_initiate reason s e = inr no_room
disc_conf_state-Moves disconnect_reject reason s e = grind (arith, edges)
disc_conf_state-Moves disconnect_initiate reason s e = inr crossed
disc_conf_state-Moves running reason s e = inr link_lost
disc_conf_state-Moves connect_confirm reason s e = inr confirm_lost
disc_conf_state-Moves _ reason s e = inl e

state-send_disc :
    (k : Kernel) (msgflg reason : ℕ) (s : Sock) → SameInput s (dn_nsp_send_disc k msgflg reason s)
unfolding dn_nsp_send_disc
state-send_disc k msgflg reason s = ground arith

tell_user-state : (s : Sock) → (tell_user s).scp ≡ s.scp
tell_user-state s = ground arith

start_destroy_timer-SameInput : (k : Kernel) (s : Sock) → SameInput s (start_destroy_timer k s)
start_destroy_timer-SameInput k s = ground (
  arith,
  set_persist-SameInput k
      (record s { scp = record (s.scp) { persist_fxn = PersistFxn.destroy_timer } }),
)

reply-SameInput :
    (k : Kernel) (b : Bool) (s : Sock)
    → SameInput s (if b then dn_nsp_send_disc k nsp_discconf nsp_reason_dc s else s)
reply-SameInput k true s = state-send_disc k nsp_discconf nsp_reason_dc s
reply-SameInput k false s = SameInput-refl s

pub disc_init-Moves :
    (k : Kernel) (skb : Skb) (s : Sock) → Moves s.scp.state (dn_nsp_disc_init k skb s).scp.state
unfolding dn_nsp_disc_init
disc_init-Moves k skb s =
    let s1 = record s {
      scp = record (s.scp) { discdata_in = read_discdata k skb; addrrem = skb.cb.src_port };
      sk_state = TcpState.tcp_close;
    } in
    let d = disc_init_state s.scp.state s1 in
    let s2 = tell_user d in
    let s4 = if s2.scp.addrrem != 0 then dn_nsp_send_disc k nsp_discconf nsp_reason_dc s2 else s2 in
    let moved = disc_init_state-Moves s.scp.state s1 refl in
    let kept =
      SameInput-trans s2 s4 (start_destroy_timer k s4) (reply-SameInput k (s2.scp.addrrem != 0) s2)
        (start_destroy_timer-SameInput k s4) in
    let last : (start_destroy_timer k s4).scp.state ≡ d.scp.state =
      kept.state ∙ ap (λ (c : DnScp). c.state) (tell_user-state d) in
    elim (Bool-cases (ltb (length skb.bytes) 2)) [
      | inl e ↦ rw e (inl refl)
      | inr e ↦ rw e (rw last moved)
    ]

pub disc_conf-Moves :
    (k : Kernel) (skb : Skb) (s : Sock) → Moves s.scp.state (dn_nsp_disc_conf k skb s).scp.state
unfolding dn_nsp_disc_conf
disc_conf-Moves k skb s =
    let s1 = record s { sk_state = TcpState.tcp_close } in
    let d = disc_conf_state s.scp.state (read_le16 skb.bytes) s1 in
    let s2 = tell_user d in
    let moved = disc_conf_state-Moves s.scp.state (read_le16 skb.bytes) s1 refl in
    let kept = start_destroy_timer-SameInput k s2 in
    let last : (start_destroy_timer k s2).scp.state ≡ d.scp.state =
      kept.state ∙ ap (λ (c : DnScp). c.state) (tell_user-state d) in
    elim (Bool-cases (length skb.bytes != 2)) [
      | inl e ↦ rw e (inl refl)
      | inr e ↦ rw e (rw last moved)
    ]
