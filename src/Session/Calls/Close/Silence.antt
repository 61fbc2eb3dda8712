-- ===== src/Session/Calls/Close/Silence.antt =====
-- A link that is closed while its other end is silent.
use raspbian_decnet.Base.{◌<◌, ◌≡◌, refl, ap, sym, subst, false, List, All, arith}
use raspbian_decnet.Nsp.Socket.{Kernel, Sock, State, disconnect_initiate, running}
use raspbian_decnet.Nsp.Timer.{is_running, dn_nsp_persist}
use raspbian_decnet.Nsp.Message.{nsp_discinit, dn_nsp_send_disc}
use raspbian_decnet.Nsp.Receive.Disconnect.{with_state}
use raspbian_decnet.Session.Timer.States.{scp-send_disc}
use raspbian_decnet.Session.Timer.Closing.{IsClosing, ticks, ticks-IsClosing}
use raspbian_decnet.Session.Calls.Close.{disconnect, closing, destroy_in_state, destroy_sock}

disconnect-IsClosing :
    (k : Kernel) (s : Sock)
    → s.scp.state ≡ disconnect_initiate
    → s.scp.nsp_rxtshift ≡ 0
    → IsClosing 0 (disconnect k s)
unfolding dn_nsp_persist
disconnect-IsClosing k s state fresh =
    let idle : is_running (dn_nsp_send_disc k nsp_discinit 0 s).scp.state ≡ false =
      rw (ap (λ scp. scp.state) (scp-send_disc k nsp_discinit 0 s), state) refl in
    rw idle (ground (arith, scp-send_disc k nsp_discinit 0 s, state, fresh))

closed-IsClosing :
    (k : Kernel) (s : Sock)
    → s.scp.state ≡ running
    → IsClosing 0 (destroy_sock k s).0 × ((destroy_sock k s).1 ≡ false)
unfolding destroy_sock destroy_in_state
closed-IsClosing k s up =
    subst
      (λ st.
        IsClosing 0 (destroy_in_state k st (closing s)).0
        × ((destroy_in_state k st (closing s)).1 ≡ false))
      (sym up)
      (disconnect-IsClosing k (with_state State.disconnect_initiate (closing s)) refl refl, refl)

-- A running link that the user closes waits in DI, and its socket is never removed, however often
-- its timer runs while nothing is received, where the limit on disconnect initiates is positive.
pub destroy_sock-silence :
    (k : Kernel) (ks : List Kernel) (s : Sock)
    → s.scp.state ≡ running
    → All (λ tick. 0 < tick.di_count) ks
    → IsClosing 0 (ticks ks (destroy_sock k s).0).0
      × ((destroy_sock k s).1 ≡ false)
      × ((ticks ks (destroy_sock k s).0).1 ≡ false)
destroy_sock-silence k ks s up limits =
    let (closed, kept) = closed-IsClosing k s up in
    let (waiting, stays) = ticks-IsClosing ks 0 (destroy_sock k s).0 limits closed in
    (waiting, kept, stays)
