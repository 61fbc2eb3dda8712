-- ===== src/Route/Table/Update.antt =====
-- Routes put in a forwarding table and taken out of it, kernel/net/decnet/dn_table.c. The route
-- that `dn_fib_create_info` makes, and whether memory is given, are arguments.
use raspbian_decnet.Base.{
  ℕ, ◌+◌, ◌-◌, ◌^◌, Bool, false, not, ◌&&◌, ◌||◌, ltb, leb, ◌==◌, ◌!=◌, if◌then◌else◌, Option, none,
  some, List, [], ◌∷◌, ◌++◌, bit_and, length,
}
use raspbian_decnet.Session.Calls.Open.{einval}
use raspbian_decnet.Nsp.Receive.Segment.{enobufs}
use raspbian_decnet.Route.Fib.{DnFibInfo, rtnh_f_dead}
use raspbian_decnet.Route.Table.{
  DnFibNode, DnZone, DnHash, dz_key, dz_chain, chain_set, zone_of, dn_new_zone, zone_there,
}

pub record RouteRequest : Type 0 where
  pub rtm_dst_len : ℕ
  pub rtm_type : ℕ
  pub rtm_scope : ℕ
  pub rtm_protocol : ℕ
  pub rta_dst : Option ℕ
  pub rta_priority : Option ℕ
  pub rta_oif : Option ℕ
  pub rta_gateway : Option ℕ
  pub excl : Bool
  pub replace : Bool
  pub append : Bool
  pub create : Bool

-- What becomes of a chain: an error, or the chain and the node that is freed.
pub data Placed : Type 0 where
  fails : ℕ → Placed
  placed : List DnFibNode → Option DnFibNode → Placed

-- A pointer into a chain: what was passed, and what it points to.
abbrev pub passing : (DnFibNode → Bool) → List DnFibNode → List DnFibNode × List DnFibNode
passing p [] = ([], [])
passing p (f ∷ fs) = let rest = passing p fs in if p f then (f ∷ rest.0, rest.1) else ([], f ∷ fs)

abbrev pub any : (DnFibNode → Bool) → List DnFibNode → Bool
any p [] = false
any p (f ∷ fs) = p f || any p fs

abbrev pub enoent : ℕ
enoent = 2

abbrev pub esrch : ℕ
esrch = 3

abbrev pub eexist : ℕ
eexist = 17

-- The labels `create` and `replace`.
abbrev pub creating : RouteRequest → Bool → Placed → Placed
creating r memory p = if not r.create then fails enoent else if memory then p else fails enobufs

-- At a node with the same key and priority.
abbrev pub same_priority :
    RouteRequest → Bool → DnFibNode → List DnFibNode → DnFibNode → List DnFibNode → Placed
same_priority r memory new before f more =
    let (same, rest) =
      passing (λ g. g.fn_key == new.fn_key && g.fn_info.fib_priority == new.fn_info.fib_priority)
        (f ∷ more) in
    let twin =
      any
        (λ g.
          g.fn_type == new.fn_type
          && (g.fn_scope == new.fn_scope && g.fn_info.fib_id == new.fn_info.fib_id))
        same in
    if r.excl
    then fails eexist
    else if r.replace
    then if memory then placed (before ++ (new ∷ more)) (some f) else fails enobufs
    else if twin
    then fails eexist
    else if r.append
    then creating r memory (placed (before ++ (same ++ (new ∷ rest))) none)
    else creating r memory (placed (before ++ (new ∷ (f ∷ more))) none)

abbrev pub at_priority : RouteRequest → Bool → DnFibNode → List DnFibNode → List DnFibNode → Placed
at_priority r memory new before [] = creating r memory (placed (before ++ (new ∷ [])) none)
at_priority r memory new before (f ∷ more) =
    if f.fn_key == new.fn_key && f.fn_info.fib_priority == new.fn_info.fib_priority
    then same_priority r memory new before f more
    else creating r memory (placed (before ++ (new ∷ (f ∷ more))) none)

abbrev pub at_key : RouteRequest → Bool → DnFibNode → List DnFibNode → List DnFibNode → Placed
at_key r memory new before [] = at_priority r memory new before []
at_key r memory new before (f ∷ more) =
    let (lower, rest) =
      passing
        (λ g. g.fn_key == new.fn_key && not (leb new.fn_info.fib_priority g.fn_info.fib_priority))
        (f ∷ more) in
    if f.zombie && f.fn_key == new.fn_key
    then creating r memory (placed (before ++ (new ∷ more)) (some f))
    else at_priority r memory new (before ++ lower) rest

-- A node put in its chain.
unfoldable pub insert_node : RouteRequest → Bool → DnFibNode → List DnFibNode → Placed
insert_node r memory new chain =
    let (before, rest) = passing (λ g. not (leb new.fn_key g.fn_key)) chain in
    at_key r memory new before rest

-- The zone with a chain that has changed; the new node is counted, and the freed one.
abbrev pub with_placed : ℕ → DnZone → Placed → (ℕ × DnZone)
with_placed key dz (fails err) = (err, dz)
with_placed key dz (placed chain none) =
    (0, record (chain_set key dz chain) { dz_nent = dz.dz_nent + 1 })
with_placed key dz (placed chain (some f)) = (0, chain_set key dz chain)

-- A zone of the list, changed.
abbrev pub at_zone : ℕ → (DnZone → ℕ × DnZone) → DnHash → ℕ × DnHash
at_zone z change [] = (0, [])
at_zone z change (dz ∷ t) =
    let here = change dz in
    let rest = at_zone z change t in
    if dz.dz_order == z then (here.0, here.1 ∷ t) else (rest.0, dz ∷ rest.1)

abbrev pub dst_of : Option ℕ → ℕ
dst_of none = 0
dst_of (some dst) = dst

-- The key, where the destination has no bit outside the zone's mask.
abbrev pub outside_mask : ℕ → DnZone → Bool
outside_mask dst dz = bit_and dst (2 ^ 16 - 1 - dz.dz_mask) != 0

abbrev pub new_node : RouteRequest → DnFibInfo → ℕ → DnFibNode
new_node r fi key = record {
  fn_info = fi;
  fn_key = key;
  fn_type = r.rtm_type;
  fn_scope = r.rtm_scope;
  zombie = false;
  accessed = false;
}

-- The rest of `dn_fib_table_insert` in its zone. `dn_rehash_zone` is never called: no zone has a
-- divisor above `DN_MAX_DIVISOR`.
unfoldable pub insert_zone : RouteRequest → Bool → Option DnFibInfo → ℕ → DnZone → ℕ × DnZone
unfolding dz_key dz_chain insert_node
insert_zone r memory none err dz =
    if outside_mask (dst_of r.rta_dst) dz then (einval, dz) else (err, dz)
insert_zone r memory (some fi) err dz =
    let key = dz_key (dst_of r.rta_dst) dz in
    if outside_mask (dst_of r.rta_dst) dz
    then (einval, dz)
    else with_placed key dz (insert_node r memory (new_node r fi key) (dz_chain key dz))

-- The error's number without its sign, or 0, and the table.
unfoldable pub dn_fib_table_insert :
    DnHash → RouteRequest → Bool → Bool → Option DnFibInfo → ℕ → ℕ × DnHash
unfolding insert_zone zone_of dn_new_zone
dn_fib_table_insert t r zone_memory memory fi err =
    let z = r.rtm_dst_len in
    let there = zone_there (zone_of z t) in
    let u = if there then t else dn_new_zone t z in
    if ltb 16 z
    then (einval, t)
    else if not there && not zone_memory
    then (enobufs, t)
    else at_zone z (insert_zone r memory fi err) u

-- `dn_flush_list` and `dn_fib_table_flush`: the dead nodes go.
unfoldable pub dn_flush_list : List DnFibNode → List DnFibNode
dn_flush_list [] = []
dn_flush_list (f ∷ fs) =
    let rest = dn_flush_list fs in
    if f.zombie || bit_and f.fn_info.fib_flags rtnh_f_dead != 0 then rest else f ∷ rest

unfoldable pub flush_chains : List (List DnFibNode) → List (List DnFibNode)
unfolding dn_flush_list
flush_chains [] = []
flush_chains (c ∷ cs) = dn_flush_list c ∷ flush_chains cs

abbrev pub nodes_in : List (List DnFibNode) → ℕ
nodes_in [] = 0
nodes_in (c ∷ cs) = length c + nodes_in cs

unfoldable pub dn_fib_table_flush : DnHash → DnHash
unfolding flush_chains
dn_fib_table_flush [] = []
dn_fib_table_flush (dz ∷ t) =
    let left = flush_chains dz.dz_hash in
    record dz { dz_hash = left; dz_nent = dz.dz_nent - (nodes_in dz.dz_hash - nodes_in left) }
    ∷ dn_fib_table_flush t
