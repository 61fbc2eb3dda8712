-- ===== src/Route/Table.antt =====
-- A forwarding table, kernel/net/decnet/dn_table.c: one zone for each length of prefix, in each
-- zone an array of chains. `dh_zones[z]` is the zone of order `z` in the list `dh_zone_list`,
-- where `dn_new_zone` puts each zone that it puts in the array. Addresses are the numbers that a
-- little-endian machine reads.
pub mod Update
pub mod Lookup
pub mod Chain
pub mod Insert
pub mod Delete
pub mod Zones
pub mod Order
pub mod Kept
pub mod Runs
pub mod Longest
use raspbian_decnet.Base.{
  ℕ, zero, suc, ◌+◌, ◌-◌, ◌*◌, ◌/◌, ◌%◌, ◌^◌, Bool, true, false, not, ◌&&◌, ◌||◌, ltb, leb, ◌==◌,
  ◌!=◌, if◌then◌else◌, Option, none, some, List, [], ◌∷◌, ◌++◌, length, replicate, bit_and, bit_xor,
  bit_or,
}
use raspbian_decnet.Route.Fib.{
  DnFibInfo, Flowidn, Matched, hit, miss, refused, dn_fib_semantic_match,
}

pub record DnFibNode : Type 0 where
  pub fn_info : DnFibInfo
  pub fn_key : ℕ
  pub fn_type : ℕ
  pub fn_scope : ℕ
  pub zombie : Bool
  pub accessed : Bool

pub record DnZone : Type 0 where
  pub dz_hash : List (List DnFibNode)
  pub dz_nent : ℕ
  pub dz_divisor : ℕ
  pub dz_hashmask : ℕ
  pub dz_order : ℕ
  pub dz_mask : ℕ

abbrev pub DnHash : Type 0
DnHash = List DnZone

unfoldable pub dnet_make_mask : ℕ → ℕ
dnet_make_mask n = if n == 0 then 0 else 2 ^ 16 - 2 ^ (16 - n)

unfoldable pub dn_hash : ℕ → DnZone → ℕ
dn_hash key dz =
    let h = key / 2 ^ (16 - dz.dz_order) in
    let h1 = bit_xor h (h / 2 ^ 10) in let h2 = bit_xor h1 (h1 / 2 ^ 6) in bit_and h2 dz.dz_hashmask

unfoldable pub dz_key : ℕ → DnZone → ℕ
dz_key dst dz = bit_and dst dz.dz_mask

-- The chain at an index of the array, and the array with another one there.
abbrev pub chain_at : ℕ → List (List DnFibNode) → List DnFibNode
chain_at i [] = []
chain_at zero (c ∷ cs) = c
chain_at (suc i) (c ∷ cs) = chain_at i cs

abbrev pub with_chain : ℕ → List DnFibNode → List (List DnFibNode) → List (List DnFibNode)
with_chain i c [] = []
with_chain zero c (d ∷ ds) = c ∷ ds
with_chain (suc i) c (d ∷ ds) = d ∷ with_chain i c ds

unfoldable pub dz_chain : ℕ → DnZone → List DnFibNode
unfolding dn_hash
dz_chain key dz = chain_at (dn_hash key dz) dz.dz_hash

abbrev pub chain_set : ℕ → DnZone → List DnFibNode → DnZone
chain_set key dz c = record dz { dz_hash = with_chain (dn_hash key dz) c dz.dz_hash }

unfoldable pub zone_of : ℕ → DnHash → Option DnZone
zone_of z [] = none
zone_of z (dz ∷ t) = let rest = zone_of z t in if dz.dz_order == z then some dz else rest

unfoldable pub empty_zone : ℕ → DnZone
unfolding dnet_make_mask
empty_zone z =
    let divisor = if z != 0 then 16 else 1 in
    record {
      dz_hash = replicate divisor [];
      dz_nent = 0;
      dz_divisor = divisor;
      dz_hashmask = if z != 0 then 0x0f else 0;
      dz_order = z;
      dz_mask = dnet_make_mask z;
    }

abbrev pub zone_there : Option DnZone → Bool
zone_there none = false
zone_there (some dz) = true

-- The first order from `i` on that has a zone, within so many.
unfoldable pub longer_zone : ℕ → ℕ → DnHash → Option ℕ
unfolding zone_of
longer_zone zero i t = none
longer_zone (suc n) i t =
    let rest = longer_zone n (suc i) t in if zone_there (zone_of i t) then some i else rest

-- The list with a zone behind the one of an order.
abbrev pub put_behind : ℕ → DnZone → DnHash → DnHash
put_behind i new [] = []
put_behind i new (dz ∷ t) =
    let rest = put_behind i new t in if dz.dz_order == i then dz ∷ (new ∷ t) else dz ∷ rest

abbrev pub put_zone : Option ℕ → DnZone → DnHash → DnHash
put_zone none new t = new ∷ t
put_zone (some i) new t = put_behind i new t

-- `dn_new_zone`, where memory is given to it.
unfoldable pub dn_new_zone : DnHash → ℕ → DnHash
unfolding empty_zone longer_zone
dn_new_zone t z = put_zone (longer_zone (16 - z) (z + 1) t) (empty_zone z) t

-- A lookup marks the nodes that it passes, and stops at the first that answers.
pub record Answer : Type 0 where
  pub verdict : Matched
  pub node : DnFibNode
  pub prefixlen : ℕ

-- Whether a node is left out for its state or its scope.
abbrev pub left_out : Flowidn → DnFibNode → Bool
left_out flp f = f.zombie || ltb f.fn_scope flp.flowidn_scope

abbrev pub answers : Flowidn → DnFibNode → Matched
answers flp f = dn_fib_semantic_match f.fn_type f.fn_info flp

-- What is done with the answer of a node: the rest of the chain is walked where there is none.
abbrev pub walk_on :
    Matched
    → ℕ
    → DnFibNode
    → List DnFibNode
    → List DnFibNode × Option Answer
    → List DnFibNode × Option Answer
walk_on (miss) order f fs (rest, found) = (f ∷ rest, found)
walk_on (hit nhsel) order f fs more =
    (f ∷ fs, some (record { verdict = hit nhsel; node = f; prefixlen = order }))
walk_on (refused err) order f fs more =
    (f ∷ fs, some (record { verdict = refused err; node = f; prefixlen = order }))

unfoldable pub walk_chain : ℕ → Flowidn → ℕ → List DnFibNode → List DnFibNode × Option Answer
walk_chain k flp order [] = ([], none)
walk_chain k flp order (f ∷ fs) =
    let rest = walk_chain k flp order fs in
    let marked : DnFibNode = record f { accessed = true } in
    let past : List DnFibNode × Option Answer = (marked ∷ rest.0, rest.1) in
    let found = walk_on (answers flp f) order marked fs rest in
    if k != f.fn_key
    then if leb k f.fn_key then (f ∷ fs, none) else (f ∷ rest.0, rest.1)
    else if left_out flp f
    then past
    else found

abbrev pub zones_on :
    DnZone → DnHash → DnHash × Option Answer → Option Answer → DnHash × Option Answer
zones_on dz t (rest, found) none = (dz ∷ rest, found)
zones_on dz t more (some a) = (dz ∷ t, some a)

unfoldable pub dn_fib_table_lookup : DnHash → Flowidn → DnHash × Option Answer
unfolding dz_key dz_chain walk_chain
dn_fib_table_lookup [] flp = ([], none)
dn_fib_table_lookup (dz ∷ t) flp =
    let k = dz_key flp.daddr dz in
    let (chain, found) = walk_chain k flp dz.dz_order (dz_chain k dz) in
    let rest = dn_fib_table_lookup t flp in zones_on (chain_set k dz chain) t rest found
