-- ===== src/Session/Rx/States.antt =====
-- The sockets' states over whole histories of arriving packets, and packets that come back.
use raspbian_decnet.Base.{
  ℕ, ◌≡◌, refl, sym, subst, inl, inr, true, not, Bool-cases, ◌&&◌, ◌||◌, ◌==◌, ◌-◌, if◌then◌else◌,
  Option, none, some, [], arith, bit_and, get_or, length, ltb, leb, drop,
}
use raspbian_decnet.Nsp.Socket.{Kernel, Sock, Skb}
use raspbian_decnet.Nsp.Header.{read_le16}
use raspbian_decnet.Nsp.Queue.{tests}
use raspbian_decnet.Nsp.Ack.{skb_pull}
use raspbian_decnet.Nsp.Message.{nsp_reason_nl}
use raspbian_decnet.Nsp.Receive.{dn_nsp_backlog_rcv}
use raspbian_decnet.Nsp.Receive.Connect.{dn_rt_f_rts, dn_returned_conn_init}
use raspbian_decnet.Nsp.Receive.States.{Moves, unreachable}
use raspbian_decnet.Nsp.Receive.Machine.{backlog_rcv-Moves}
use raspbian_decnet.Session.Table.{Table, set_sock, dn_check_returned_conn, dn_find_by_skb}
use raspbian_decnet.Session.Listener.{dn_find_listener}
use raspbian_decnet.Session.Rx.{
  Arrival, Rx, heard, dn_nsp_no_socket, got_it, returned, returned_conn, port_packet, receive_skb,
  dn_nsp_rx_packet, dn_nsp_rx,
}
use raspbian_decnet.Session.Rx.Safety.{is_conn_init}
use raspbian_decnet.Session.Table.Lookup.{same_sock}

-- Each socket's state stays or moves along one edge.
abbrev pub Steps : Table → Table → Type 0
Steps t t' = (sk : ℕ) → Moves (t.socks sk).scp.state (t'.socks sk).scp.state

set_sock-Steps :
    (t : Table) (sk : ℕ) (s : Sock)
    → Moves (t.socks sk).scp.state s.scp.state
    → Steps t (set_sock sk s t)
set_sock-Steps t sk s moves other = elim (Bool-cases (other == sk)) [
  | inl e ↦
      let same : other ≡ sk = ground (arith, e) in
      rw e (subst (λ o. Moves (t.socks o).scp.state s.scp.state) (sym same) moves)
  | inr e ↦ rw e (inl refl)
]

set_sock_twice-Steps :
    (t : Table) (sk : ℕ) (s s' : Sock)
    → Moves (t.socks sk).scp.state s'.scp.state
    → Steps t (set_sock sk s' (set_sock sk s t))
set_sock_twice-Steps t sk s s' moves other = elim (Bool-cases (other == sk)) [
  | inl e ↦
      let same : other ≡ sk = ground (arith, e) in
      rw e (subst (λ o. Moves (t.socks o).scp.state s'.scp.state) (sym same) moves)
  | inr e ↦ rw e (inl refl)
]

returned_conn_init-Moves : (s : Sock) → Moves s.scp.state (dn_returned_conn_init s).scp.state
unfolding dn_returned_conn_init
returned_conn_init-Moves s = grind (arith, unreachable)

returned-Steps : (t : Table) (found : Option ℕ) → Steps t (returned t found)
returned-Steps t none = λ sk. inl refl
returned-Steps t (some sk) =
    set_sock-Steps t sk (dn_returned_conn_init (t.socks sk)) (returned_conn_init-Moves (t.socks sk))

-- The sockets when the packet has been dealt with.
abbrev Ends : Kernel → Table → Rx → Type 0
Ends k t r = Steps t (receive_skb k r.outcome r.table)

no_socket-Ends :
    (k : Kernel) (a : Arrival) (skb : Skb) (reason : ℕ) (t : Table)
    → receive_skb k
        (dn_nsp_no_socket k a skb reason t).outcome
        (dn_nsp_no_socket k a skb reason t).table
      ≡ t
unfolding dn_nsp_no_socket
no_socket-Ends k a skb reason t = ground arith

got_it-Ends :
    (k : Kernel) (a : Arrival) (skb : Skb) (reason : ℕ) (t : Table) (found : Option ℕ)
    → Ends k t (got_it k a skb reason t found)
unfolding got_it
got_it-Ends k a skb reason t none = λ sk. rw (no_socket-Ends k a skb reason t) (inl refl)
got_it-Ends k a skb reason t (some sk) =
    let s = heard k a (t.socks sk) in
    let t' = set_sock sk s t in
    elim (Bool-cases (tests skb.cb.nsp_flags (255 - 0x60) && not a.linearizes)) [
      | inl e ↦ rw e (set_sock-Steps t sk s (inl refl))
      | inr e ↦
          rw (e, same_sock sk)
            (set_sock_twice-Steps t sk s (dn_nsp_backlog_rcv k skb s) (backlog_rcv-Moves k skb s))
    ]

port_packet-Ends :
    (k : Kernel) (a : Arrival) (skb : Skb) (t : Table) → Ends k t (port_packet k a skb t)
unfolding port_packet
port_packet-Ends k a skb t =
    let short = record skb {
      cb = record (skb.cb) { dst_port = read_le16 (drop 1 skb.bytes); src_port = 0 };
    } in
    let whole =
      skb_pull (record short { cb = record (short.cb) { src_port = read_le16 (drop 3 skb.bytes) } })
        5 in
    let skb' = if leb 5 (length skb.bytes) then whole else short in
    elim (Bool-cases (tests skb.cb.rt_flags dn_rt_f_rts || ltb (length skb.bytes) 3)) [
      | inl e ↦ rw e (λ sk. inl refl)
      | inr e ↦ rw e (got_it-Ends k a skb' nsp_reason_nl t (dn_find_by_skb t skb'.cb))
    ]

returned_conn-Ends : (k : Kernel) (skb : Skb) (t : Table) → Ends k t (returned_conn skb t)
unfolding returned_conn
returned_conn-Ends k skb t =
    let cb = record (skb.cb) {
      dst_port = read_le16 (drop 1 skb.bytes);
      src_port = read_le16 (drop 3 skb.bytes);
    } in
    elim (Bool-cases (leb 4 (length skb.bytes))) [
      | inl e ↦ rw e (returned-Steps t (dn_check_returned_conn t cb))
      | inr e ↦ rw e (λ sk. inl refl)
    ]

-- Whatever packet arrives for the module, each socket's state stays or moves along one edge of the
-- diagram of the packets' transitions.
pub nsp_rx-Steps : (k : Kernel) (a : Arrival) (t : Table) → Steps t (dn_nsp_rx k a t)
unfolding dn_nsp_rx dn_nsp_rx_packet
nsp_rx-Steps k a t =
    let flags = get_or a.skb.bytes 0 0 in
    let skb = record (a.skb) { cb = record (a.skb.cb) { nsp_flags = flags } } in
    let kind = bit_and flags 0x70 in
    let (sk, reason, skb') = dn_find_listener t skb nsp_reason_nl in
    elim (Bool-cases (ltb (length skb.bytes) 2 || tests flags 0x83)) [
      | inl e ↦ rw e (λ o. inl refl)
      | inr e ↦
          rw e
            (elim (Bool-cases
              (bit_and flags 0x0c == 0x08 && (kind == 0 || kind == 0x70 || kind == 0x50))) [
                | inl useless ↦ rw useless (λ o. inl refl)
                | inr useful ↦ rw useful (elim (Bool-cases (is_conn_init flags)) [
                  | inl init ↦ rw init (elim (Bool-cases (tests skb.cb.rt_flags dn_rt_f_rts)) [
                    | inl back ↦ rw back (returned_conn-Ends k skb t)
                    | inr fresh ↦ rw fresh (got_it-Ends k a skb' reason t sk)
                  ])
                  | inr other ↦ rw other (port_packet-Ends k a skb t)
                ])
              ])
    ]

-- A packet that comes back to its sender is never answered.
pub rx_packet-silent :
    (k : Kernel) (a : Arrival) (t : Table)
    → tests a.skb.cb.rt_flags dn_rt_f_rts ≡ true
    → (dn_nsp_rx_packet k a t).replies ≡ []
unfolding dn_nsp_rx_packet returned_conn port_packet
rx_packet-silent k a t back = ground (arith, back)
