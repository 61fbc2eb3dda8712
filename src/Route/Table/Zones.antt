-- ===== src/Route/Table/Zones.antt =====
-- The zones of a forwarding table: the most specific first, each with its nodes where they hash,
-- kernel/net/decnet/dn_table.c.
use raspbian_decnet.Base.{
  ℕ, zero, suc, ◌+◌, ◌≤◌, ◌<◌, ◌≡◌, refl, sym, subst, Bool, ◌==◌, if-both, Bool-cases, inl, inr,
  Option, none, some, List, [], ◌∷◌, All, arith,
}
use raspbian_decnet.Session.Calls.Open.{einval}
use raspbian_decnet.Route.Fib.{DnFibInfo}
use raspbian_decnet.Route.Table.{
  DnFibNode, DnZone, DnHash, chain_at, with_chain, chain_set, dn_hash, dz_key, dz_chain,
}
use raspbian_decnet.Route.Table.Lookup.{IsSorted, IsHashed, IsZone, chain-IsSorted}
use raspbian_decnet.Route.Table.Update.{
  RouteRequest, Placed, fails, placed, new_node, insert_node, with_placed, at_zone, insert_zone,
  outside_mask, dst_of,
}
use raspbian_decnet.Route.Table.Insert.{Keeps, insert_node-Keeps}

abbrev pub IsDescending : DnHash → Type 0
IsDescending [] = Unit {0}
IsDescending (dz ∷ t) = All (λ d. d.dz_order < dz.dz_order) t × IsDescending t

pub record IsTable (t : DnHash) : Type 0 where
  pub zones : All IsZone t
  pub descending : IsDescending t
  pub orders : All (λ d. d.dz_order ≤ 16) t

with_chain-IsSorted :
    (j : ℕ) (c : List DnFibNode) (cs : List (List DnFibNode))
    → IsSorted c
    → All IsSorted cs
    → All IsSorted (with_chain j c cs)
with_chain-IsSorted j c [] h all = tt
with_chain-IsSorted zero c (d ∷ cs) h all = (h, all.1)
with_chain-IsSorted (suc j) c (d ∷ cs) h all = (all.0, with_chain-IsSorted j c cs h all.1)

module _ (h : ℕ → ℕ) where
  with_chain-IsHashed :
      (i j : ℕ) (c : List DnFibNode) (cs : List (List DnFibNode))
      → All (λ f. h f.fn_key ≡ i + j) c
      → IsHashed h i cs
      → IsHashed h i (with_chain j c cs)
  with_chain-IsHashed i j c [] all hashed = tt
  with_chain-IsHashed i zero c (d ∷ cs) all hashed =
      let here : i + 0 ≡ i = omega arith in
      (subst (λ k. All (λ f. h f.fn_key ≡ k) c) here all, hashed.1)
  with_chain-IsHashed i (suc j) c (d ∷ cs) all hashed =
      let next : i + suc j ≡ suc i + j = omega arith in
      (
        hashed.0,
        with_chain-IsHashed (suc i) j c cs (subst (λ k. All (λ f. h f.fn_key ≡ k) c) next all)
            hashed.1,
      )

  chain-hashed :
      (i j : ℕ) (cs : List (List DnFibNode))
      → IsHashed h i cs
      → All (λ f. h f.fn_key ≡ i + j) (chain_at j cs)
  chain-hashed i j [] hashed = tt
  chain-hashed i zero (c ∷ cs) hashed =
      let here : i ≡ i + 0 = omega arith in subst (λ k. All (λ f. h f.fn_key ≡ k) c) here hashed.0
  chain-hashed i (suc j) (c ∷ cs) hashed =
      let next : suc i + j ≡ i + suc j = omega arith in
      subst (λ k. All (λ f. h f.fn_key ≡ k) (chain_at j cs)) next
        (chain-hashed (suc i) j cs hashed.1)

nothing_added : (n : ℕ) → 0 + n ≡ n
nothing_added n = omega arith

-- A chain put at a key's hash.
pub chain_set-IsZone :
    (key : ℕ) (dz : DnZone) (c : List DnFibNode)
    → IsSorted c
    → All (λ f. dn_hash f.fn_key dz ≡ dn_hash key dz) c
    → IsZone dz
    → IsZone (chain_set key dz c)
unfolding dn_hash
chain_set-IsZone key dz c sorted all ok = record {
  sorted = with_chain-IsSorted (dn_hash key dz) c dz.dz_hash sorted ok.sorted;
  hashed =
      with_chain-IsHashed (λ x. dn_hash x dz) 0 (dn_hash key dz) c dz.dz_hash
        (subst (λ k. All (λ f. dn_hash f.fn_key dz ≡ k) c) (sym (nothing_added (dn_hash key dz)))
          all)
        ok.hashed;
}

pub counted-IsZone : (dz : DnZone) (n : ℕ) → IsZone dz → IsZone (record dz { dz_nent = n })
unfolding dn_hash
counted-IsZone dz n ok = record { sorted = ok.sorted; hashed = ok.hashed }

-- The chain of a key holds the nodes that hash as the key does.
pub hashed-chain :
    (key : ℕ) (dz : DnZone)
    → IsZone dz
    → All (λ f. dn_hash f.fn_key dz ≡ dn_hash key dz) (chain_at (dn_hash key dz) dz.dz_hash)
hashed-chain key dz ok =
    let chain = chain_at (dn_hash key dz) dz.dz_hash in
    subst (λ k. All (λ f. dn_hash f.fn_key dz ≡ k) chain) (nothing_added (dn_hash key dz))
      (chain-hashed (λ x. dn_hash x dz) 0 (dn_hash key dz) dz.dz_hash ok.hashed)

with_placed-IsZone :
    (key : ℕ) (dz : DnZone) (p : Placed)
    → Keeps (λ f. dn_hash f.fn_key dz ≡ dn_hash key dz) p
    → IsZone dz
    → IsZone (with_placed key dz p).1
with_placed-IsZone key dz (fails err) keeps ok = ok
with_placed-IsZone key dz (placed c none) keeps ok =
    counted-IsZone (chain_set key dz c) (dz.dz_nent + 1)
      (chain_set-IsZone key dz c keeps.0 keeps.1 ok)
with_placed-IsZone key dz (placed c (some f)) keeps ok =
    chain_set-IsZone key dz c keeps.0 keeps.1 ok

pub insert_zone-IsZone :
    (r : RouteRequest) (memory : Bool) (fi : Option DnFibInfo) (err : ℕ) (dz : DnZone)
    → IsZone dz
    → IsZone (insert_zone r memory fi err dz).1
unfolding insert_zone dz_chain
insert_zone-IsZone r memory none err dz ok =
    if-both (λ (o : ℕ × DnZone). IsZone o.1) (outside_mask (dst_of r.rta_dst) dz) (einval, dz)
      (err, dz) ok ok
insert_zone-IsZone r memory (some fi) err dz ok =
    let key = dz_key (dst_of r.rta_dst) dz in
    let chain = chain_at (dn_hash key dz) dz.dz_hash in
    let p = insert_node r memory (new_node r fi key) chain in
    if-both (λ (o : ℕ × DnZone). IsZone o.1) (outside_mask (dst_of r.rta_dst) dz) (einval, dz)
      (with_placed key dz p) ok
      (with_placed-IsZone key dz p
        (insert_node-Keeps (λ f. dn_hash f.fn_key dz ≡ dn_hash key dz) (new_node r fi key) refl r
          memory chain (chain-IsSorted (dn_hash key dz) dz.dz_hash ok.sorted)
          (hashed-chain key dz ok))
        ok)

-- A change within a zone keeps its place in the list.
with_placed-order :
    (key : ℕ) (dz : DnZone) (p : Placed) → (with_placed key dz p).1.dz_order ≡ dz.dz_order
with_placed-order key dz (fails err) = refl
with_placed-order key dz (placed c none) = refl
with_placed-order key dz (placed c (some f)) = refl

pub insert_zone-order :
    (r : RouteRequest) (memory : Bool) (fi : Option DnFibInfo) (err : ℕ) (dz : DnZone)
    → (insert_zone r memory fi err dz).1.dz_order ≡ dz.dz_order
unfolding insert_zone
insert_zone-order r memory none err dz =
    if-both (λ (o : ℕ × DnZone). o.1.dz_order ≡ dz.dz_order) (outside_mask (dst_of r.rta_dst) dz)
      (einval, dz) (err, dz) refl refl
insert_zone-order r memory (some fi) err dz =
    let key = dz_key (dst_of r.rta_dst) dz in
    let p = insert_node r memory (new_node r fi key) (dz_chain key dz) in
    if-both (λ (o : ℕ × DnZone). o.1.dz_order ≡ dz.dz_order) (outside_mask (dst_of r.rta_dst) dz)
      (einval, dz) (with_placed key dz p) refl (with_placed-order key dz p)

module _ (change : DnZone → ℕ × DnZone)
    (same : (dz : DnZone) → (change dz).1.dz_order ≡ dz.dz_order) where
  at_zone-All :
      (P : DnZone → Type 0) (z : ℕ) (t : DnHash)
      → ((dz : DnZone) → P dz → P (change dz).1)
      → All P t
      → All P (at_zone z change t).1
  at_zone-All P z [] keeps all = tt
  at_zone-All P z (dz ∷ t) keeps all = elim (Bool-cases (dz.dz_order == z)) [
    | inl e ↦ rw (e) (keeps dz all.0, all.1)
    | inr e ↦ rw (e) (all.0, at_zone-All P z t keeps all.1)
  ]

  at_zone-IsDescending : (z : ℕ) (t : DnHash) → IsDescending t → IsDescending (at_zone z change t).1
  at_zone-IsDescending z [] ok = tt
  at_zone-IsDescending z (dz ∷ t) ok = elim (Bool-cases (dz.dz_order == z)) [
    | inl e ↦ rw (e) (subst (λ n. All (λ d. d.dz_order < n) t) (sym (same dz)) ok.0, ok.1)
    | inr e ↦ rw (e) (
      at_zone-All (λ d. d.dz_order < dz.dz_order) z t (λ d h. omega (arith, same d, h)) ok.0,
      at_zone-IsDescending z t ok.1,
    )
  ]

  pub at_zone-IsTable :
      (z : ℕ) (t : DnHash)
      → ((dz : DnZone) → IsZone dz → IsZone (change dz).1)
      → IsTable t
      → IsTable (at_zone z change t).1
  at_zone-IsTable z t keeps ok = record {
    zones = at_zone-All IsZone z t keeps ok.zones;
    descending = at_zone-IsDescending z t ok.descending;
    orders = at_zone-All (λ d. d.dz_order ≤ 16) z t (λ d h. omega (arith, same d, h)) ok.orders;
  }
