-- ===== src/Session/Rx/Safety.antt =====
-- Which socket gets a packet, what may be answered, and what the packet does to the sockets' states.
use raspbian_decnet.Base.{
  ℕ, ◌≡◌, refl, ap, ◌∙◌, ◌⊎◌, inl, inr, Bool, true, false, not, Bool-cases, ◌&&◌, ◌||◌, ◌==◌,
  if◌then◌else◌, Option, none, some, arith, bit_and, get_or, drop, length, ltb, leb, ◌-◌,
}
use raspbian_decnet.Nsp.Socket.{Kernel, Skb, SockaddrDn}
use raspbian_decnet.Nsp.Queue.{tests}
use raspbian_decnet.Nsp.Message.{nsp_reason_nl}
use raspbian_decnet.Nsp.Receive.Connect.{dn_rt_f_rts}
use raspbian_decnet.Session.Table.{Table, is_listening, receives, dn_find_by_skb}
use raspbian_decnet.Session.Table.Lookup.{find_by_skb-receives, sklist_find_listener-listening}
use raspbian_decnet.Nsp.Header.{read_le16}
use raspbian_decnet.Nsp.Ack.{skb_pull}
use raspbian_decnet.Session.Listener.{
  size_of_conn_init_msg, read_conn_init, check_conn_init, dn_find_listener, found_listener,
}
use raspbian_decnet.Session.Rx.{
  Arrival, Outcome, dn_nsp_no_socket, got_it, returned_conn, port_packet, dn_nsp_rx_packet,
}

-- A connect initiate, or a retransmitted one.
abbrev pub is_conn_init : ℕ → Bool
is_conn_init flags =
    bit_and flags 0x0c == 0x08 && (bit_and flags 0x70 == 0x10 || bit_and flags 0x70 == 0x60)

-- The socket may have the packet: where that is a connect initiate, the socket listens; where it
-- is not, the socket's port, peer and remote port are the packet's.
abbrev pub MayHave : Table → ℕ → Skb → Type 0
MayHave t sk skb =
    ((is_conn_init skb.cb.nsp_flags ≡ true) × (is_listening (t.socks sk) ≡ true))
    ⊎ ((is_conn_init skb.cb.nsp_flags ≡ false) × (receives (t.socks sk).scp skb.cb ≡ true))

abbrev pub Rightful : Table → Outcome → Type 0
Rightful t Outcome.dropped = Unit
Rightful t Outcome.consumed = Unit
Rightful t (Outcome.handed sk skb) = MayHave t sk skb

-- The packet has been freed.
abbrev Freed : Outcome → Type 0
Freed o = (o ≡ Outcome.dropped) ⊎ (o ≡ Outcome.consumed)

Freed-Rightful : (t : Table) (o : Outcome) → Freed o → Rightful t o
Freed-Rightful t o (inl e) = rw e tt
Freed-Rightful t o (inr e) = rw e tt

no_socket-Freed :
    (k : Kernel) (a : Arrival) (skb : Skb) (reason : ℕ) (t : Table)
    → Freed (dn_nsp_no_socket k a skb reason t).outcome
unfolding dn_nsp_no_socket
no_socket-Freed k a skb reason t = ground arith

got_it-Rightful :
    (k : Kernel) (a : Arrival) (skb : Skb) (reason : ℕ) (t : Table) (found : Option ℕ)
    → ((sk : ℕ) → found ≡ some sk → MayHave t sk skb)
    → Rightful t (got_it k a skb reason t found).outcome
unfolding got_it
got_it-Rightful k a skb reason t none may = Freed-Rightful t _ (no_socket-Freed k a skb reason t)
got_it-Rightful k a skb reason t (some sk) may =
    elim (Bool-cases (tests skb.cb.nsp_flags (255 - 0x60) && not a.linearizes)) [
      | inl e ↦ rw e tt
      | inr e ↦ rw e (may sk refl)
    ]

port_packet-Rightful :
    (k : Kernel) (a : Arrival) (skb : Skb) (t : Table)
    → is_conn_init skb.cb.nsp_flags ≡ false
    → Rightful t (port_packet k a skb t).outcome
unfolding port_packet
port_packet-Rightful k a skb t other =
    let short = record skb {
      cb = record (skb.cb) { dst_port = read_le16 (drop 1 skb.bytes); src_port = 0 };
    } in
    let whole =
      skb_pull (record short { cb = record (short.cb) { src_port = read_le16 (drop 3 skb.bytes) } })
        5 in
    let skb' = if leb 5 (length skb.bytes) then whole else short in
    let kept : skb'.cb.nsp_flags ≡ skb.cb.nsp_flags = ground arith in
    elim (Bool-cases (tests skb.cb.rt_flags dn_rt_f_rts || ltb (length skb.bytes) 3)) [
      | inl e ↦ rw e tt
      | inr e ↦ rw e (
          got_it-Rightful k a skb' nsp_reason_nl t (dn_find_by_skb t skb'.cb)
            (λ sk h. inr (ap is_conn_init kept ∙ other, find_by_skb-receives t skb'.cb sk h)))
    ]

found_listener-listening :
    (t : Table) (dstaddr : SockaddrDn) (reason sk : ℕ) (err : Option ℕ)
    → (found_listener t dstaddr reason err).0 ≡ some sk
    → is_listening (t.socks sk) ≡ true
found_listener-listening t dstaddr reason sk none h = sklist_find_listener-listening t dstaddr sk h
found_listener-listening t dstaddr reason sk (some err) h = cc

find_listener-listening :
    (t : Table) (skb : Skb) (reason sk : ℕ)
    → (dn_find_listener t skb reason).0 ≡ some sk
    → is_listening (t.socks sk) ≡ true
unfolding dn_find_listener
find_listener-listening t skb reason sk h =
    let (err, dstaddr) =
      check_conn_init (skb_pull (read_conn_init skb) size_of_conn_init_msg).bytes in
    elim (Bool-cases (ltb (length skb.bytes) size_of_conn_init_msg)) [
      | inl e ↦ ground (arith, e, h)
      | inr e ↦ found_listener-listening t dstaddr reason sk err (ground (arith, e, h))
    ]

nsp_flags-find_listener :
    (t : Table) (skb : Skb) (reason : ℕ)
    → (dn_find_listener t skb reason).2.cb.nsp_flags ≡ skb.cb.nsp_flags
unfolding dn_find_listener
nsp_flags-find_listener t skb reason = ground arith

-- A packet is given to no socket but one that may have it: if the packet is a connect initiate or
-- a retransmitted one, the socket listens; if it is any other packet, the socket has its
-- destination port, its source as the peer, and either no remote port yet or its source port.
pub rx_packet-Rightful :
    (k : Kernel) (a : Arrival) (t : Table) → Rightful t (dn_nsp_rx_packet k a t).outcome
unfolding dn_nsp_rx_packet returned_conn
rx_packet-Rightful k a t =
    let flags = get_or a.skb.bytes 0 0 in
    let skb = record (a.skb) { cb = record (a.skb.cb) { nsp_flags = flags } } in
    let kind = bit_and flags 0x70 in
    let (sk, reason, skb') = dn_find_listener t skb nsp_reason_nl in
    elim (Bool-cases (ltb (length skb.bytes) 2 || tests flags 0x83)) [
      | inl e ↦ rw e tt
      | inr e ↦
          rw e
            (elim (Bool-cases
              (bit_and flags 0x0c == 0x08 && (kind == 0 || kind == 0x70 || kind == 0x50))) [
                | inl useless ↦ rw useless tt
                | inr useful ↦ rw useful (elim (Bool-cases (is_conn_init flags)) [
                  | inl init ↦ rw init (elim (Bool-cases (tests skb.cb.rt_flags dn_rt_f_rts)) [
                    | inl back ↦ rw back tt
                    | inr fresh ↦ rw fresh (
                        got_it-Rightful k a skb' reason t sk (λ found h. inl (
                          ap is_conn_init (nsp_flags-find_listener t skb nsp_reason_nl) ∙ init,
                          find_listener-listening t skb nsp_reason_nl found h,
                        )))
                  ])
                  | inr other ↦ rw other (port_packet-Rightful k a skb t other)
                ])
              ])
    ]
