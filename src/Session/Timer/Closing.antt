-- ===== src/Session/Timer/Closing.antt =====
-- What becomes of a socket that has been closed, as its slow timer runs.
use raspbian_decnet.Base.{
  ℕ, ◌*◌, ◌<◌, ◌≡◌, refl, ap, sym, subst, Bool, true, false, ◌&&◌, ◌!=◌, Option, none, some, List,
  [], ◌∷◌, All, if◌then◌else◌, arith,
}
use raspbian_decnet.Nsp.Socket.{Kernel, Sock, State, PersistFxn, disconnect_initiate}
use raspbian_decnet.Nsp.Timer.{is_running, dn_nsp_persist}
use raspbian_decnet.Nsp.Send.{set_persist}
use raspbian_decnet.Nsp.Message.{nsp_discinit}
use raspbian_decnet.Session.Timer.{
  slow_interval, disconnect_again, destroy_by_state, dn_destroy_timer, call_persist_fxn,
  persist_tick, conntimer_tick, keepalive_tick, ackdelay_tick, is_connect_delivery, set_persist_to,
  rearm, dn_slow_timer,
}
use raspbian_decnet.Session.Timer.States.{scp-send_disc}

abbrev is_gone : Option ℕ → Bool
is_gone none = true
is_gone (some jiffies) = false

-- The socket as the timer runs once for each kernel of the list, until it is removed; the flag
-- tells whether it has been.
abbrev pub ticks : List Kernel → Sock → Sock × Bool
ticks [] s = (s, false)
ticks (k ∷ ks) s =
    let (s', next) = dn_slow_timer k false s in
    let rest = ticks ks s' in if is_gone next then (s', true) else rest

-- A link that the user closed, whose disconnect initiate has not been answered.
pub record IsClosing (tries : ℕ) (s : Sock) : Type 0 where
  pub state : s.scp.state ≡ disconnect_initiate
  pub fxn : s.scp.persist_fxn ≡ PersistFxn.destroy_timer
  pub shift : s.scp.nsp_rxtshift ≡ tries

and-false : (b : Bool) → (b && false) ≡ false
and-false true = refl
and-false false = refl

again-IsClosing :
    (k : Kernel) (shift : ℕ) (s : Sock)
    → IsClosing shift s
    → shift < k.di_count
    → IsClosing shift (disconnect_again k k.di_count State.closed_notification s)
unfolding disconnect_again
again-IsClosing k shift s c few = ground (arith, scp-send_disc k nsp_discinit 0 s, c, few)

set_persist-idle :
    (k : Kernel) (s : Sock)
    → is_running s.scp.state ≡ false
    → set_persist k s ≡ set_persist_to (2 * k.hz) s
unfolding dn_nsp_persist
set_persist-idle k s idle = rw idle refl

destroy_timer-IsClosing :
    (k : Kernel) (shift : ℕ) (s : Sock)
    → IsClosing shift s
    → shift < k.di_count
    → IsClosing shift (dn_destroy_timer k s).0 × ((dn_destroy_timer k s).1 ≡ false)
unfolding dn_destroy_timer destroy_by_state
destroy_timer-IsClosing k shift s c few =
    let idle : is_running s.scp.state ≡ false = rw c.state refl in
    let waits : IsClosing shift (set_persist_to (2 * k.hz) s) = record {
      state = c.state;
      fxn = c.fxn;
      shift = c.shift;
    } in
    let s' = set_persist_to (2 * k.hz) s in
    rw (set_persist-idle k s idle) (
      subst
        (λ st.
          IsClosing shift (destroy_by_state k st s').0 × ((destroy_by_state k st s').1 ≡ false))
        (sym c.state) (again-IsClosing k shift s' waits few, refl))

persist_tick-IsClosing :
    (k : Kernel) (shift : ℕ) (s : Sock)
    → IsClosing shift s
    → shift < k.di_count
    → IsClosing shift (persist_tick k s).0 × ((persist_tick k s).1 ≡ false)
unfolding persist_tick call_persist_fxn
persist_tick-IsClosing k shift s c few =
    let zeroed : IsClosing shift (set_persist_to 0 s) = record {
      state = c.state;
      fxn = c.fxn;
      shift = c.shift;
    } in
    let called = destroy_timer-IsClosing k shift (set_persist_to 0 s) zeroed few in
    rw c.fxn (ground (arith, called, c))

-- A socket that is not running has no keepalive and no delayed acknowledgement.
later_ticks-idle :
    (k : Kernel) (s : Sock)
    → is_running s.scp.state ≡ false
    → ackdelay_tick k (keepalive_tick k s) ≡ s
unfolding keepalive_tick ackdelay_tick
later_ticks-idle k s idle =
    rw (idle, and-false (s.scp.keepalive != 0), idle, and-false (s.scp.ackdelay != 0)) refl

conntimer_tick-IsClosing :
    (k : Kernel) (shift : ℕ) (s : Sock) → IsClosing shift s → IsClosing shift (conntimer_tick k s)
unfolding conntimer_tick
conntimer_tick-IsClosing k shift s c =
    let early : is_connect_delivery s.scp.state ≡ false = rw c.state refl in
    ground (arith, early, c)

slow_timer-IsClosing :
    (k : Kernel) (shift : ℕ) (s : Sock)
    → IsClosing shift s
    → shift < k.di_count
    → IsClosing shift (dn_slow_timer k false s).0
      × ((dn_slow_timer k false s).1 ≡ rearm k (slow_interval k))
unfolding dn_slow_timer
slow_timer-IsClosing k shift s c few =
    let (c1, here) = persist_tick-IsClosing k shift s c few in
    let s2 = conntimer_tick k (persist_tick k s).0 in
    let c2 = conntimer_tick-IsClosing k shift (persist_tick k s).0 c1 in
    let idle : is_running s2.scp.state ≡ false = rw c2.state refl in
    rw (here, later_ticks-idle k s2 idle) (c2, refl)

-- A link that the user has closed stays in DI for as long as nothing is received, however often its
-- timer runs, and is never removed, where the limit on disconnect initiates is above the count that
-- the socket had when it was closed: the count is not raised outside of RUN.
pub ticks-IsClosing :
    (ks : List Kernel) (tries : ℕ) (s : Sock)
    → All (λ k. tries < k.di_count) ks
    → IsClosing tries s
    → IsClosing tries (ticks ks s).0 × ((ticks ks s).1 ≡ false)
ticks-IsClosing [] tries s few c = (c, refl)
ticks-IsClosing (k ∷ ks) tries s few c =
    let (c', on) = slow_timer-IsClosing k tries s c few.0 in
    let stays : is_gone (dn_slow_timer k false s).1 ≡ false = ap is_gone on in
    rw stays (ticks-IsClosing ks tries (dn_slow_timer k false s).0 few.1 c')
