-- ===== src/Route/Source.antt =====
-- The source address of packets to a destination: `dn_match_addr` and `dnet_select_source` of
-- kernel/net/decnet/dn_route.c.
pub mod Choice
use raspbian_decnet.Base.{
  ℕ, zero, suc, ◌+◌, ◌-◌, ◌/◌, Bool, not, ◌&&◌, ltb, ◌==◌, if◌then◌else◌, List, [], ◌∷◌, bit_xor,
}

-- `struct dn_ifaddr`, as far as it is looked at.
pub record Ifaddr : Type 0 where
  pub ifa_local : ℕ
  pub ifa_scope : ℕ

-- The loop on `tmp`, which is 0 after as many shifts as it has bits.
unfoldable pub match_loop : ℕ → ℕ → ℕ → ℕ
match_loop zero tmp match_bits = match_bits
match_loop (suc fuel) tmp match_bits =
    let rest = match_loop fuel (tmp / 2) (match_bits - 1) in if tmp == 0 then match_bits else rest

-- How many of the 16 bits are the same from the top on.
unfoldable pub dn_match_addr : ℕ → ℕ → ℕ
dn_match_addr addr1 addr2 = match_loop 16 (bit_xor addr1 addr2) 16

-- The loop on the addresses of the device, where `saddr` is the choice so far.
unfoldable pub select_from : ℕ → ℕ → ℕ → ℕ → List Ifaddr → ℕ
select_from scope daddr best_match saddr [] = saddr
select_from scope daddr best_match saddr (ifa ∷ rest) =
    let passed_over = ltb scope ifa.ifa_scope in
    let ret = dn_match_addr daddr ifa.ifa_local in
    let closer = if ltb best_match ret then ifa.ifa_local else saddr in
    let chosen = if best_match == 0 then ifa.ifa_local else closer in
    let next = if passed_over then saddr else chosen in
    let later = select_from scope daddr best_match next rest in
    if not passed_over && daddr == 0 then ifa.ifa_local else later

unfoldable pub dnet_select_source : List Ifaddr → ℕ → ℕ → ℕ
dnet_select_source ifa_list daddr scope = select_from scope daddr 0 0 ifa_list
