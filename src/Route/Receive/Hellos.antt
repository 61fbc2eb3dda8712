-- ===== src/Route/Receive/Hellos.antt =====
-- Which hello messages of routers get through `dn_route_rcv`.
use raspbian_decnet.Base.{
  ℕ, ◌/◌, ◌≡◌, refl, Bool, true, false, ◌==◌, ◌!=◌, if◌then◌else◌, List, arith, bit_and,
  bit_and_pow, and_low, Bool-cases, inl, inr, if-both,
}
use raspbian_decnet.Route.Receive.{
  Arrival, Inbound, Disposal, dn_route_rcv, trimmed, unpadded, entered, control_packet, routed,
  dn_route_rx_long, dn_route_rx_short,
}

reserved_ivp : (f : ℕ) → bit_and f 0x70 ≡ 0 → bit_and f 0x10 ≡ 0
reserved_ivp f h = ground (
  arith,
  h,
  and_low f 0x70,
  and_low (f / 2) 0x38,
  and_low (f / 4) 0x1c,
  and_low (f / 8) 0x0e,
  and_low (f / 16) 0x07,
  bit_and_pow 4 f,
)

abbrev pub is_router_hello : Disposal → Bool
is_router_hello (Disposal.to_router_hello p) = true
is_router_hello Disposal.dropped = false
is_router_hello (Disposal.to_ptp_hello p) = false
is_router_hello (Disposal.to_discard p) = false
is_router_hello (Disposal.to_endnode_hello p) = false
is_router_hello (Disposal.to_rx_packet p) = false

control-router_hello :
    (a : Arrival) (flags : ℕ) (p : Inbound)
    → a.dn_ivprime ≡ true
    → is_router_hello (control_packet a flags p) ≡ false
unfolding control_packet
control-router_hello a flags p prime = elim (Bool-cases (bit_and flags 0x70 == 0)) [
  | inl e ↦
      let none_set : bit_and flags 0x10 ≡ 0 = reserved_ivp flags (ground (arith, e)) in
      rw (e, prime, none_set) (ground arith)
  | inr e ↦ rw (e) refl
]

-- A packet of data is no hello message.
routed-router_hello :
    (a : Arrival) (flags : ℕ) (p : Inbound) → is_router_hello (routed a flags p) ≡ false
unfolding routed dn_route_rx_long dn_route_rx_short
routed-router_hello a flags p = ground arith

unpadded-router_hello :
    (a : Arrival) (flags : ℕ) (bytes : List ℕ)
    → a.dn_ivprime ≡ true
    → is_router_hello (unpadded a flags bytes) ≡ false
unfolding unpadded
unpadded-router_hello a flags bytes prime =
    let p = entered a flags bytes in
    let body = if bit_and flags 0x01 != 0 then control_packet a flags p else routed a flags p in
    if-both (λ o. is_router_hello o ≡ false) (bit_and flags 0x40 != 0) Disposal.dropped body refl
      (if-both (λ o. is_router_hello o ≡ false) (bit_and flags 0x01 != 0) (control_packet a flags p)
        (routed a flags p) (control-router_hello a flags p prime) (routed-router_hello a flags p))

trimmed-router_hello :
    (a : Arrival) (flags : ℕ) (bytes : List ℕ)
    → a.dn_ivprime ≡ true
    → is_router_hello (trimmed a flags bytes) ≡ false
unfolding trimmed
trimmed-router_hello a flags bytes prime = grind (arith, unpadded-router_hello)

-- A node that is set to Phase IV Prime hears no router: no packet gets to `dn_neigh_router_hello`.
pub rcv-router_hello :
    (a : Arrival) → a.dn_ivprime ≡ true → is_router_hello (dn_route_rcv a) ≡ false
unfolding dn_route_rcv
rcv-router_hello a prime = grind (arith, trimmed-router_hello)
