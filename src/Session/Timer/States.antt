-- ===== src/Session/Timer/States.antt =====
-- The transitions of `scp->state` that the slow timer can cause.
use raspbian_decnet.Base.{
  ℕ, ◌≡◌, refl, sym, subst, ◌∙◌, ◌⊎◌, inl, inr, Bool, true, false, Bool-cases, arith,
}
use raspbian_decnet.Nsp.Socket.{
  Kernel, Sock, State, PersistFxn, connect_initiate, connect_confirm, connect_delivery,
  no_communication, disconnect_initiate, disconnect_reject, disconnect_reject_complete,
  closed_notification, opened, connect_receive, no_resources, rejected, running,
  disconnect_complete, disconnect_notification, closed,
}
use raspbian_decnet.Nsp.Send.{set_persist, dn_nsp_output, dn_nsp_xmit_timeout, dn_nochange}
use raspbian_decnet.Nsp.Send.Window.{scp-dn_nsp_send}
use raspbian_decnet.Nsp.Frame.{
  dn_nsp_output-SameInput, set_persist-SameInput, dn_nsp_send_link-SameInput,
  send_data_ack-SameInput,
}
use raspbian_decnet.Nsp.Message.{
  nsp_discinit, dn_nsp_send_disc, dn_send_conn_conf, count_down, is_connect_confirm,
  dn_nsp_retrans_conn_conf,
}
use raspbian_decnet.Nsp.Receive.Connect.{is_connect_initiate}
use raspbian_decnet.Session.Conninit.{nsp_rci, dn_nsp_retrans_conninit}
use raspbian_decnet.Session.Conninit.Retries.{state-send_conninit}
use raspbian_decnet.Session.Timer.{
  is_connect_delivery, disconnect_again, linger, destroy_by_state, dn_destroy_timer,
  call_persist_fxn, set_persist_to, persist_tick, conntimer_tick, keepalive_tick, ackdelay_tick,
  dn_keepalive, dn_slow_timer,
}

infix 40 ◌⇝◌
-- What the passing of time ends: an attempt to connect or to disconnect.
pub data ◌⇝◌ : State → State → Type 0 where
  unanswered : connect_initiate ⇝ no_communication
  undelivered : connect_delivery ⇝ no_communication
  unconfirmed : connect_confirm ⇝ no_communication
  gave_up : disconnect_initiate ⇝ closed_notification
  gave_up_reject : disconnect_reject ⇝ disconnect_reject_complete

-- The state stays, or moves along one edge.
abbrev pub Passes : State → State → Type 0
Passes a b = (b ≡ a) ⊎ (a ⇝ b)

is_attempt : State → Bool
is_attempt connect_initiate = true
is_attempt connect_delivery = true
is_attempt connect_confirm = true
is_attempt disconnect_initiate = true
is_attempt disconnect_reject = true
is_attempt _ = false

attempt-⇝ : {a b : State} → a ⇝ b → (is_attempt a ≡ true) × (is_attempt b ≡ false)
unfolding is_attempt
attempt-⇝ unanswered = (refl, refl)
attempt-⇝ undelivered = (refl, refl)
attempt-⇝ unconfirmed = (refl, refl)
attempt-⇝ gave_up = (refl, refl)
attempt-⇝ gave_up_reject = (refl, refl)

-- No edge starts where another ends.
Passes-trans : (a b c : State) → Passes a b → Passes b c → Passes a c
Passes-trans a b c (inl e) q = rw (sym e) q
Passes-trans a b c (inr p) (inl e) = rw e (inr p)
Passes-trans a b c (inr p) (inr q) =
    let ended = (attempt-⇝ p).1 in let begun = (attempt-⇝ q).0 in cc

pub scp-send_disc :
    (k : Kernel) (msgflg reason : ℕ) (s : Sock) → (dn_nsp_send_disc k msgflg reason s).scp ≡ s.scp
unfolding dn_nsp_send_disc
scp-send_disc k msgflg reason s = ground arith

disconnect_again-Passes :
    (k : Kernel) (limit : ℕ) (over : State) (s : Sock)
    → s.scp.state ⇝ over
    → Passes s.scp.state (disconnect_again k limit over s).scp.state
unfolding disconnect_again
disconnect_again-Passes k limit over s edge = ground (arith, scp-send_disc k nsp_discinit 0 s, edge)

linger-Passes : (k : Kernel) (s : Sock) → Passes s.scp.state (linger k s).0.scp.state
unfolding linger
linger-Passes k s = inl refl

destroy_by_state-Passes :
    (k : Kernel) (st : State) (s : Sock)
    → s.scp.state ≡ st
    → Passes st (destroy_by_state k st s).0.scp.state
unfolding destroy_by_state linger
destroy_by_state-Passes k disconnect_initiate s e =
    subst (λ a. Passes a (disconnect_again k k.di_count closed_notification s).scp.state) e
      (disconnect_again-Passes k k.di_count closed_notification s (rw e gave_up))
destroy_by_state-Passes k disconnect_reject s e =
    subst (λ a. Passes a (disconnect_again k k.dr_count disconnect_reject_complete s).scp.state) e
      (disconnect_again-Passes k k.dr_count disconnect_reject_complete s (rw e gave_up_reject))
destroy_by_state-Passes k opened s e = inl e
destroy_by_state-Passes k connect_receive s e = inl e
destroy_by_state-Passes k disconnect_reject_complete s e = inl e
destroy_by_state-Passes k connect_confirm s e = inl e
destroy_by_state-Passes k connect_initiate s e = inl e
destroy_by_state-Passes k no_resources s e = inl e
destroy_by_state-Passes k no_communication s e = inl e
destroy_by_state-Passes k connect_delivery s e = inl e
destroy_by_state-Passes k rejected s e = inl e
destroy_by_state-Passes k running s e = inl e
destroy_by_state-Passes k disconnect_complete s e = inl e
destroy_by_state-Passes k disconnect_notification s e = inl e
destroy_by_state-Passes k closed s e = inl e
destroy_by_state-Passes k closed_notification s e = inl e

destroy_timer-Passes :
    (k : Kernel) (s : Sock) → Passes s.scp.state (dn_destroy_timer k s).0.scp.state
unfolding dn_destroy_timer
destroy_timer-Passes k s =
    destroy_by_state-Passes k s.scp.state (set_persist k s) (set_persist-SameInput k s).state

xmit_timeout-Passes :
    (k : Kernel) (s : Sock) → Passes s.scp.state (dn_nsp_xmit_timeout k s).scp.state
unfolding dn_nsp_xmit_timeout
xmit_timeout-Passes k s =
    let s' = dn_nsp_output k s in
    ground (arith, dn_nsp_output-SameInput k s, set_persist-SameInput k s')

confirm-⇝ : (a : State) → is_connect_confirm a ≡ true → a ⇝ no_communication
confirm-⇝ connect_confirm h = unconfirmed
confirm-⇝ _ h = cc

initiate-⇝ : (a : State) → is_connect_initiate a ≡ true → a ⇝ no_communication
initiate-⇝ connect_initiate h = unanswered
initiate-⇝ _ h = cc

state-send_conn_conf : (k : Kernel) (s : Sock) → (dn_send_conn_conf k s).scp.state ≡ s.scp.state
unfolding dn_send_conn_conf
state-send_conn_conf k s = grind (arith, scp-dn_nsp_send)

retrans_conn_conf-Passes :
    (k : Kernel) (s : Sock) → Passes s.scp.state (dn_nsp_retrans_conn_conf k s).scp.state
unfolding dn_nsp_retrans_conn_conf
retrans_conn_conf-Passes k s = elim (Bool-cases (is_connect_confirm s.scp.state)) [
  | inl e ↦ ground (arith, e, confirm-⇝ s.scp.state e, state-send_conn_conf k (count_down s))
  | inr e ↦ rw e (inl refl)
]

retrans_conninit-Passes :
    (k : Kernel) (s : Sock) → Passes s.scp.state (dn_nsp_retrans_conninit k s).scp.state
unfolding dn_nsp_retrans_conninit
retrans_conninit-Passes k s = elim (Bool-cases (is_connect_initiate s.scp.state)) [
  | inl e ↦
      ground (arith, e, initiate-⇝ s.scp.state e, state-send_conninit k nsp_rci (count_down s))
  | inr e ↦ rw e (inl refl)
]

call_persist_fxn-Passes :
    (k : Kernel) (f : PersistFxn) (s : Sock)
    → Passes s.scp.state (call_persist_fxn k f s).0.scp.state
unfolding call_persist_fxn
call_persist_fxn-Passes k PersistFxn.null s = inl refl
call_persist_fxn-Passes k PersistFxn.destroy_timer s = destroy_timer-Passes k s
call_persist_fxn-Passes k PersistFxn.xmit_timeout s = xmit_timeout-Passes k s
call_persist_fxn-Passes k PersistFxn.retrans_conn_conf s = retrans_conn_conf-Passes k s
call_persist_fxn-Passes k PersistFxn.retrans_conninit s = retrans_conninit-Passes k s

persist_tick-Passes : (k : Kernel) (s : Sock) → Passes s.scp.state (persist_tick k s).0.scp.state
unfolding persist_tick
persist_tick-Passes k s =
    ground (arith, call_persist_fxn-Passes k s.scp.persist_fxn (set_persist_to 0 s))

delivery-⇝ : (a : State) → is_connect_delivery a ≡ true → a ⇝ no_communication
delivery-⇝ connect_delivery h = undelivered
delivery-⇝ _ h = cc

conntimer_tick-Passes : (k : Kernel) (s : Sock) → Passes s.scp.state (conntimer_tick k s).scp.state
unfolding conntimer_tick
conntimer_tick-Passes k s = elim (Bool-cases (is_connect_delivery s.scp.state)) [
  | inl e ↦ ground (arith, e, delivery-⇝ s.scp.state e)
  | inr e ↦ ground (arith, e)
]

state-keepalive_tick : (k : Kernel) (s : Sock) → (keepalive_tick k s).scp.state ≡ s.scp.state
unfolding keepalive_tick dn_keepalive
state-keepalive_tick k s = ground (arith, dn_nsp_send_link-SameInput k dn_nochange 0 s)

state-ackdelay_tick : (k : Kernel) (s : Sock) → (ackdelay_tick k s).scp.state ≡ s.scp.state
unfolding ackdelay_tick
state-ackdelay_tick k s =
    ground (arith, send_data_ack-SameInput k (record s { scp = record (s.scp) { ackdelay = 0 } }))

-- Whenever the slow timer runs, the link state stays, or an attempt to connect or to disconnect is
-- given up: CI, CD and CC become NC, DI becomes CN and DR becomes DRC. There is no other change.
pub slow_timer-Passes :
    (k : Kernel) (owned : Bool) (s : Sock)
    → Passes s.scp.state (dn_slow_timer k owned s).0.scp.state
unfolding dn_slow_timer
slow_timer-Passes k true s = inl refl
slow_timer-Passes k false s =
    let (s1, removed) = persist_tick k s in
    let s2 = conntimer_tick k s1 in
    let s3 = keepalive_tick k s2 in
    let both =
      Passes-trans s.scp.state s1.scp.state s2.scp.state (persist_tick-Passes k s)
        (conntimer_tick-Passes k s1) in
    let kept = state-ackdelay_tick k s3 ∙ state-keepalive_tick k s2 in
    elim (Bool-cases removed) [
      | inl e ↦ rw e (persist_tick-Passes k s)
      | inr e ↦ rw e (subst (Passes s.scp.state) (sym kept) both)
    ]
