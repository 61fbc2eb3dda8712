-- ===== src/Route/Table/Delete.antt =====
-- Routes taken out of a forwarding table, kernel/net/decnet/dn_table.c. Requests with
-- RTA_MULTIPATH are not modelled.
use raspbian_decnet.Base.{
  ℕ, ◌-◌, Bool, true, false, not, ◌&&◌, ◌||◌, ltb, leb, ◌==◌, ◌!=◌, if◌then◌else◌, Option, none,
  some, List, [], ◌∷◌, ◌++◌, length,
}
use raspbian_decnet.Session.Calls.Open.{einval}
use raspbian_decnet.Route.Fib.{DnFibInfo, DnFibNh}
use raspbian_decnet.Route.Table.{
  DnFibNode, DnZone, DnHash, dz_key, dz_chain, chain_set, zone_of, zone_there,
}
use raspbian_decnet.Route.Table.Update.{
  RouteRequest, passing, any, esrch, dst_of, outside_mask, at_zone,
}

-- The first next hop, which the code reads whether there is one or not.
abbrev pub first_nh : List DnFibNh → DnFibNh
first_nh [] = record { nh_flags = 0; nh_oif = 0; nh_gw = 0 }
first_nh (nh ∷ nhs) = nh

abbrev pub differs : Option ℕ → ℕ → Bool
differs none n = false
differs (some m) n = m != n

abbrev pub given_attr : Option ℕ → Bool
given_attr none = false
given_attr (some m) = true

-- The test of the gateway matches where the gateways differ.
unfoldable pub dn_fib_nh_match : RouteRequest → DnFibInfo → ℕ
dn_fib_nh_match r fi =
    let nh = first_nh fi.fib_nh in
    let oif_matches = not (differs r.rta_oif nh.nh_oif) in
    let gateway_matches = not (given_attr r.rta_gateway) || differs r.rta_gateway nh.nh_gw in
    if differs r.rta_priority fi.fib_priority
    then 1
    else if given_attr r.rta_oif || given_attr r.rta_gateway
    then if oif_matches && gateway_matches then 0 else 1
    else 0

abbrev pub rt_scope_nowhere : ℕ
rt_scope_nowhere = 255

-- Whether a node is the one to delete.
unfoldable pub to_delete : RouteRequest → DnFibNode → Bool
unfolding dn_fib_nh_match
to_delete r f =
    (r.rtm_type == 0 || f.fn_type == r.rtm_type)
    && ((r.rtm_scope == rt_scope_nowhere || f.fn_scope == r.rtm_scope)
        && ((r.rtm_protocol == 0 || f.fn_info.fib_protocol == r.rtm_protocol)
            && dn_fib_nh_match r f.fn_info == 0))

-- What becomes of a chain: no such route, a node freed, or the last route of its key made a zombie.
pub data Deleted : Type 0 where
  not_found : Deleted
  freed : List DnFibNode → DnFibNode → Deleted
  buried : List DnFibNode → Deleted

abbrev pub as_zombie : DnFibNode → DnFibNode
as_zombie f = record f { zombie = true; accessed = false }

-- The node to delete stands first in `found`; the routes of other keys are behind.
abbrev pub delete_at : ℕ → List DnFibNode → List DnFibNode → List DnFibNode → Deleted
delete_at matched before [] rest = not_found
delete_at matched before (f ∷ more) rest =
    if matched != 1
    then freed (before ++ (more ++ rest)) f
    else buried (before ++ (as_zombie f ∷ (more ++ rest)))

-- The routes of the key are `same`, and `rest` is behind them.
abbrev pub delete_among : RouteRequest → List DnFibNode → List DnFibNode → List DnFibNode → Deleted
delete_among r before same rest =
    let (kept, found) = passing (λ g. not (to_delete r g)) same in
    if any (λ g. g.zombie) same
    then not_found
    else delete_at (length same) (before ++ kept) found rest

unfoldable pub delete_node : RouteRequest → ℕ → List DnFibNode → Deleted
unfolding to_delete
delete_node r key chain =
    let (before, rest) = passing (λ g. not (g.fn_key == key) && not (leb key g.fn_key)) chain in
    let (same, behind) = passing (λ g. g.fn_key == key) rest in delete_among r before same behind

-- The zone after it, and whether a zombie was made.
abbrev pub with_deleted : ℕ → DnZone → Deleted → ℕ × DnZone
with_deleted key dz (not_found) = (esrch, dz)
with_deleted key dz (freed chain f) =
    (0, record (chain_set key dz chain) { dz_nent = dz.dz_nent - 1 })
with_deleted key dz (buried chain) = (0, chain_set key dz chain)

unfoldable pub delete_zone : RouteRequest → DnZone → ℕ × DnZone
unfolding dz_key dz_chain delete_node
delete_zone r dz =
    let key = dz_key (dst_of r.rta_dst) dz in
    if outside_mask (dst_of r.rta_dst) dz
    then (einval, dz)
    else with_deleted key dz (delete_node r key (dz_chain key dz))

-- `dn_fib_table_delete` but for the count of zombies, of which the 129th has every table flushed.
unfoldable pub dn_fib_table_delete : DnHash → RouteRequest → ℕ × DnHash
unfolding delete_zone zone_of
dn_fib_table_delete t r =
    let z = r.rtm_dst_len in
    if ltb 16 z
    then (einval, t)
    else if not (zone_there (zone_of z t))
    then (esrch, t)
    else at_zone z (delete_zone r) t
