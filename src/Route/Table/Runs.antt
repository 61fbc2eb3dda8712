-- ===== src/Route/Table/Runs.antt =====
-- Every operation on a forwarding table keeps its order, kernel/net/decnet/dn_table.c.
use raspbian_decnet.Base.{
  ℕ, ◌-◌, ◌≤◌, ◌<◌, ◌≡◌, refl, Bool, not, ltb, if◌then◌else◌, if-both, Option, none, some, [], ◌∷◌,
  All,
}
use raspbian_decnet.Session.Calls.Open.{einval}
use raspbian_decnet.Route.Fib.{DnFibInfo, Flowidn}
use raspbian_decnet.Route.Table.{
  DnZone, DnHash, Answer, walk_chain, zones_on, chain_at, chain_set, dn_hash, dz_key, dz_chain,
  zone_of, zone_there, dn_fib_table_lookup,
}
use raspbian_decnet.Route.Table.Lookup.{IsZone, chain-IsSorted}
use raspbian_decnet.Route.Table.Update.{
  RouteRequest, esrch, dst_of, outside_mask, at_zone, dn_fib_table_insert, flush_chains,
  dn_fib_table_flush, nodes_in,
}
use raspbian_decnet.Route.Table.Delete.{
  Deleted, not_found, freed, buried, delete_node, with_deleted, delete_zone, dn_fib_table_delete,
}
use raspbian_decnet.Route.Table.Zones.{
  IsTable, IsDescending, at_zone-IsTable, chain_set-IsZone, counted-IsZone, hashed-chain,
}
use raspbian_decnet.Route.Table.Order.{insert-IsTable}
use raspbian_decnet.Route.Table.Kept.{DeletedKept, delete_node-Kept, walk-Kept, flush-chains}

zones_on-All :
    (P : DnZone → Type 0) (dz : DnZone) (t : DnHash) (more : DnHash × Option Answer)
    (a : Option Answer)
    → P dz
    → All P t
    → All P more.0
    → All P (zones_on dz t more a).0
zones_on-All P dz t more none h all rest = (h, rest)
zones_on-All P dz t more (some a) h all rest = (h, all)

walked-IsZone :
    (dz : DnZone) (flp : Flowidn) (k : ℕ)
    → IsZone dz
    → IsZone (chain_set k dz (walk_chain k flp dz.dz_order (dz_chain k dz)).0)
unfolding dz_chain
walked-IsZone dz flp k ok =
    let chain = chain_at (dn_hash k dz) dz.dz_hash in
    let kept =
      walk-Kept k flp dz.dz_order (λ x. dn_hash x dz ≡ dn_hash k dz) chain
        (chain-IsSorted (dn_hash k dz) dz.dz_hash ok.sorted, hashed-chain k dz ok) in
    chain_set-IsZone k dz (walk_chain k flp dz.dz_order chain).0 kept.0 kept.1 ok

-- A lookup changes zones, each in its place.
lookup-All :
    (P : DnZone → Type 0) (t : DnHash) (flp : Flowidn)
    → ((dz : DnZone) (k : ℕ)
        → P dz
        → P (chain_set k dz (walk_chain k flp dz.dz_order (dz_chain k dz)).0))
    → All P t
    → All P (dn_fib_table_lookup t flp).0
unfolding dn_fib_table_lookup
lookup-All P [] flp keeps all = tt
lookup-All P (dz ∷ t) flp keeps all =
    let k = dz_key flp.daddr dz in
    let walked = walk_chain k flp dz.dz_order (dz_chain k dz) in
    zones_on-All P (chain_set k dz walked.0) t (dn_fib_table_lookup t flp) walked.1
      (keeps dz k all.0) all.1 (lookup-All P t flp keeps all.1)

zones_on-IsDescending :
    (dz : DnZone) (t : DnHash) (more : DnHash × Option Answer) (a : Option Answer)
    → IsDescending (dz ∷ t)
    → IsDescending (dz ∷ more.0)
    → IsDescending (zones_on dz t more a).0
zones_on-IsDescending dz t more none h rest = rest
zones_on-IsDescending dz t more (some a) h rest = h

lookup-IsDescending :
    (t : DnHash) (flp : Flowidn) → IsDescending t → IsDescending (dn_fib_table_lookup t flp).0
unfolding dn_fib_table_lookup
lookup-IsDescending [] flp ok = tt
lookup-IsDescending (dz ∷ t) flp ok =
    let k = dz_key flp.daddr dz in
    let walked = walk_chain k flp dz.dz_order (dz_chain k dz) in
    zones_on-IsDescending (chain_set k dz walked.0) t (dn_fib_table_lookup t flp) walked.1 ok (
      lookup-All (λ d. d.dz_order < dz.dz_order) t flp (λ d n h. h) ok.0,
      lookup-IsDescending t flp ok.1,
    )

lookup-IsTable : (t : DnHash) (flp : Flowidn) → IsTable t → IsTable (dn_fib_table_lookup t flp).0
lookup-IsTable t flp ok = record {
  zones = lookup-All IsZone t flp (λ dz k h. walked-IsZone dz flp k h) ok.zones;
  descending = lookup-IsDescending t flp ok.descending;
  orders = lookup-All (λ d. d.dz_order ≤ 16) t flp (λ d n h. h) ok.orders;
}

flushed-IsZone :
    (dz : DnZone) (n : ℕ)
    → IsZone dz
    → IsZone (record dz { dz_hash = flush_chains dz.dz_hash; dz_nent = n })
unfolding dn_hash
flushed-IsZone dz n ok =
    let kept = flush-chains (λ x. dn_hash x dz) 0 dz.dz_hash ok.sorted ok.hashed in
    record { sorted = kept.0; hashed = kept.1 }

flush-orders :
    (L : ℕ → Type 0) (t : DnHash)
    → All (λ d. L d.dz_order) t
    → All (λ d. L d.dz_order) (dn_fib_table_flush t)
unfolding dn_fib_table_flush
flush-orders L [] all = tt
flush-orders L (dz ∷ t) all = (all.0, flush-orders L t all.1)

flush-IsDescending : (t : DnHash) → IsDescending t → IsDescending (dn_fib_table_flush t)
unfolding dn_fib_table_flush
flush-IsDescending [] ok = tt
flush-IsDescending (dz ∷ t) ok =
    (flush-orders (λ n. n < dz.dz_order) t ok.0, flush-IsDescending t ok.1)

flush-zones : (t : DnHash) → All IsZone t → All IsZone (dn_fib_table_flush t)
unfolding dn_fib_table_flush
flush-zones [] ok = tt
flush-zones (dz ∷ t) ok =
    let left = flush_chains dz.dz_hash in
    (
      flushed-IsZone dz (dz.dz_nent - (nodes_in dz.dz_hash - nodes_in left)) ok.0,
      flush-zones t ok.1,
    )

flush-IsTable : (t : DnHash) → IsTable t → IsTable (dn_fib_table_flush t)
flush-IsTable t ok = record {
  zones = flush-zones t ok.zones;
  descending = flush-IsDescending t ok.descending;
  orders = flush-orders (λ n. n ≤ 16) t ok.orders;
}

with_deleted-IsZone :
    (key : ℕ) (dz : DnZone) (p : Deleted)
    → DeletedKept (λ x. dn_hash x dz ≡ dn_hash key dz) p
    → IsZone dz
    → IsZone (with_deleted key dz p).1
with_deleted-IsZone key dz (not_found) kept ok = ok
with_deleted-IsZone key dz (freed c f) kept ok =
    counted-IsZone (chain_set key dz c) (dz.dz_nent - 1)
      (chain_set-IsZone key dz c kept.0 kept.1 ok)
with_deleted-IsZone key dz (buried c) kept ok = chain_set-IsZone key dz c kept.0 kept.1 ok

with_deleted-order :
    (key : ℕ) (dz : DnZone) (p : Deleted) → (with_deleted key dz p).1.dz_order ≡ dz.dz_order
with_deleted-order key dz (not_found) = refl
with_deleted-order key dz (freed c f) = refl
with_deleted-order key dz (buried c) = refl

delete_zone-IsZone : (r : RouteRequest) (dz : DnZone) → IsZone dz → IsZone (delete_zone r dz).1
unfolding delete_zone dz_chain
delete_zone-IsZone r dz ok =
    let key = dz_key (dst_of r.rta_dst) dz in
    let chain = chain_at (dn_hash key dz) dz.dz_hash in
    if-both (λ (o : ℕ × DnZone). IsZone o.1) (outside_mask (dst_of r.rta_dst) dz) (einval, dz)
      (with_deleted key dz (delete_node r key chain)) ok
      (with_deleted-IsZone key dz (delete_node r key chain)
        (delete_node-Kept (λ x. dn_hash x dz ≡ dn_hash key dz) r key chain
          (chain-IsSorted (dn_hash key dz) dz.dz_hash ok.sorted, hashed-chain key dz ok))
        ok)

delete_zone-order : (r : RouteRequest) (dz : DnZone) → (delete_zone r dz).1.dz_order ≡ dz.dz_order
unfolding delete_zone
delete_zone-order r dz =
    let key = dz_key (dst_of r.rta_dst) dz in
    let p = delete_node r key (dz_chain key dz) in
    if-both (λ (o : ℕ × DnZone). o.1.dz_order ≡ dz.dz_order) (outside_mask (dst_of r.rta_dst) dz)
      (einval, dz) (with_deleted key dz p) refl (with_deleted-order key dz p)

delete-IsTable : (t : DnHash) (r : RouteRequest) → IsTable t → IsTable (dn_fib_table_delete t r).1
unfolding dn_fib_table_delete
delete-IsTable t r ok =
    let z = r.rtm_dst_len in
    let P : ℕ × DnHash → Type 0 = λ o. IsTable o.1 in
    if-both P (ltb 16 z) (einval, t)
      (if not (zone_there (zone_of z t)) then (esrch, t) else at_zone z (delete_zone r) t) ok
      (if-both P (not (zone_there (zone_of z t))) (esrch, t) (at_zone z (delete_zone r) t) ok
        (at_zone-IsTable (delete_zone r) (delete_zone-order r) z t (delete_zone-IsZone r) ok))

-- A table and what one operation makes of it.
pub data Operation : DnHash → DnHash → Type 0 where
  inserts :
      (t : DnHash) (r : RouteRequest) (zone_memory memory : Bool) (fi : Option DnFibInfo) (err : ℕ)
      → Operation t (dn_fib_table_insert t r zone_memory memory fi err).1
  deletes : (t : DnHash) (r : RouteRequest) → Operation t (dn_fib_table_delete t r).1
  flushes : (t : DnHash) → Operation t (dn_fib_table_flush t)
  looks_up : (t : DnHash) (flp : Flowidn) → Operation t (dn_fib_table_lookup t flp).0

Operation-IsTable : (t u : DnHash) → Operation t u → IsTable t → IsTable u
Operation-IsTable t u (inserts _ r zone_memory memory fi err) ok =
    insert-IsTable t r zone_memory memory fi err ok
Operation-IsTable t u (deletes _ r) ok = delete-IsTable t r ok
Operation-IsTable t u (flushes _) ok = flush-IsTable t ok
Operation-IsTable t u (looks_up _ flp) ok = lookup-IsTable t flp ok

-- What can become of an empty table.
pub data Reachable : DnHash → Type 0 where
  empty : Reachable []
  operated : (t u : DnHash) → Reachable t → Operation t u → Reachable u

-- Over every history of insertions, taken or refused, deletions, flushes and lookups, from the
-- empty table on, the zones are in descending order of their prefixes' lengths, at most 16, and in
-- each the chains are sorted and hold their nodes where their keys hash.
pub Reachable-IsTable : (t : DnHash) → Reachable t → IsTable t
Reachable-IsTable t (empty) = record { zones = tt; descending = tt; orders = tt }
Reachable-IsTable u (operated t _ before operation) =
    Operation-IsTable t u operation (Reachable-IsTable t before)
