-- ===== src/Route/Fib.antt =====
-- The routes that a forwarding table holds, kernel/net/decnet/dn_fib.c and
-- kernel/include/net/dn_fib.h: next hops, and `dn_fib_semantic_match`.
use raspbian_decnet.Base.{ℕ, suc, ◌||◌, leb, ◌==◌, ◌!=◌, if◌then◌else◌, List, [], ◌∷◌, bit_and}

pub record DnFibNh : Type 0 where
  pub nh_flags : ℕ
  pub nh_oif : ℕ
  pub nh_gw : ℕ

-- `fib_id` stands for the structure's address, by which the code compares two of them.
pub record DnFibInfo : Type 0 where
  pub fib_id : ℕ
  pub fib_flags : ℕ
  pub fib_protocol : ℕ
  pub fib_priority : ℕ
  pub fib_nh : List DnFibNh

-- What is looked for.
pub record Flowidn : Type 0 where
  pub daddr : ℕ
  pub flowidn_oif : ℕ
  pub flowidn_scope : ℕ

abbrev pub rtnh_f_dead : ℕ
rtnh_f_dead = 1

abbrev pub rtn_unicast : ℕ
rtn_unicast = 1

abbrev pub rtn_local : ℕ
rtn_local = 2

abbrev pub rtn_nat : ℕ
rtn_nat = 10

-- `error` of `dn_fib_props`, the number without its sign; 0 for none.
abbrev pub props_error : ℕ → ℕ
props_error type =
    if type == 7
    then 113
    else if type == 8
    then 13
    else if type == 9
    then 11
    else if leb type 2 || type == rtn_nat
    then 0
    else 22

-- What a route makes of a flow: the next hop that it selects, nothing, or an error.
pub data Matched : Type 0 where
  hit : ℕ → Matched
  miss : Matched
  refused : ℕ → Matched

-- The first next hop that is alive and on the interface asked for.
unfoldable pub select_nh : List DnFibNh → ℕ → ℕ → Matched
select_nh [] oif nhsel = miss
select_nh (nh ∷ nhs) oif nhsel =
    let rest = select_nh nhs oif (suc nhsel) in
    if bit_and nh.nh_flags rtnh_f_dead != 0
    then rest
    else if oif == 0 || oif == nh.nh_oif
    then hit nhsel
    else rest

unfoldable pub dn_fib_semantic_match : ℕ → DnFibInfo → Flowidn → Matched
unfolding select_nh
dn_fib_semantic_match type fi fld =
    let err = props_error type in
    if err != 0
    then refused err
    else if bit_and fi.fib_flags rtnh_f_dead != 0
    then miss
    else if type == rtn_nat
    then hit 0
    else if type == rtn_unicast || type == rtn_local
    then select_nh fi.fib_nh fld.flowidn_oif 0
    else refused 22
