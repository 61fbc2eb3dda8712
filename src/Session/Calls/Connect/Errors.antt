-- ===== src/Session/Calls/Connect/Errors.antt =====
-- How connecting ends: the errors that reach the user.
use raspbian_decnet.Base.{ℕ, ◌≡◌, refl, ap, true, false, none, ◌==◌, bit_and}
use raspbian_decnet.Nsp.Socket.{Kernel, SocketState, opened}
use raspbian_decnet.Session.Table.{Table}
use raspbian_decnet.Session.Calls.Open.{Host, Uaddr, is_opened, dn_auto_bind}
use raspbian_decnet.Session.Calls.Connect.{
  Reply, bad_peer, full_address, connect_bound, connect_first, dn_connect,
}

-- The address of an area and no node.
full_address-area :
    (own dst : ℕ)
    → (dst == 0) ≡ false
    → (bit_and dst 0xfc00 == 0) ≡ false
    → bit_and dst 0x3ff ≡ 0
    → full_address own dst ≡ none
unfolding full_address
full_address-area own dst some_area area node = rw (some_area, area, node) refl

connect_bound-none :
    (k : Kernel) (h : Host) (err : ℕ) (t : Table) (sk : ℕ) (u : Uaddr) (timeo : ℕ)
    → full_address h.decnet_address u.name.sdn_nodeaddr ≡ none
    → connect_bound k h err t sk u timeo ≡ (Reply.done err, t)
unfolding connect_bound
connect_bound-none k h err t sk u timeo area = rw area refl

-- A first call with the well-formed address of an area and no node, on an opened socket that is not
-- bound yet, reports success where the socket could be bound, and has done nothing but bind it.
pub connect-area :
    (k : Kernel) (h : Host) (t : Table) (sk : ℕ) (u : Uaddr) (timeo : ℕ)
    → (t.socks sk).scp.state ≡ opened
    → (t.socks sk).sk_zapped ≡ true
    → bad_peer u ≡ false
    → (dn_auto_bind h t sk).0 ≡ 0
    → (u.name.sdn_nodeaddr == 0) ≡ false
    → (bit_and u.name.sdn_nodeaddr 0xfc00 == 0) ≡ false
    → bit_and u.name.sdn_nodeaddr 0x3ff ≡ 0
    → dn_connect k h t sk SocketState.unconnected u timeo ≡ (Reply.done 0, (dn_auto_bind h t sk).1)
unfolding dn_connect connect_first
connect-area k h t sk u timeo state zapped good bound some_area area node =
    let ready : is_opened (t.socks sk).scp.state ≡ true = ap is_opened state in
    rw
      (
        ready,
        good,
        zapped,
        bound,
        connect_bound-none k h 0 (dn_auto_bind h t sk).1 sk u timeo
            (full_address-area h.decnet_address u.name.sdn_nodeaddr some_area area node),
      )
      refl
