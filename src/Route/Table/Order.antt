-- ===== src/Route/Table/Order.antt =====
-- Where a new zone stands in a forwarding table, kernel/net/decnet/dn_table.c.
use raspbian_decnet.Base.{
  ℕ, zero, suc, ◌+◌, ◌-◌, ◌≤◌, ◌<◌, ◌≡◌, ◌≢◌, ◌⊎◌, refl, subst, Bool, true, false, not, ltb, ◌==◌,
  ◌!=◌, replicate, if◌then◌else◌, if-both, Bool-cases, inl, inr, Option, none, some, [], ◌∷◌, All,
  arith,
}
use raspbian_decnet.Nsp.Receive.Segment.{enobufs}
use raspbian_decnet.Route.Fib.{DnFibInfo}
use raspbian_decnet.Route.Table.{
  DnZone, DnHash, zone_of, zone_there, empty_zone, longer_zone, put_behind, put_zone, dn_hash,
  dn_new_zone,
}
use raspbian_decnet.Route.Table.Lookup.{IsZone, IsSorted, IsHashed}
use raspbian_decnet.Route.Table.Update.{RouteRequest, insert_zone, at_zone, dn_fib_table_insert}
use raspbian_decnet.Route.Table.Zones.{
  IsTable, IsDescending, at_zone-IsTable, insert_zone-IsZone, insert_zone-order,
}

All-both :
    (P Q R : DnZone → Type 0) (t : DnHash)
    → ((d : DnZone) → P d → Q d → R d)
    → All P t
    → All Q t
    → All R t
All-both P Q R [] imp p q = tt
All-both P Q R (d ∷ t) imp p q = (imp d p.0 q.0, All-both P Q R t imp p.1 q.1)

All-each : (P Q : DnZone → Type 0) (t : DnHash) → ((d : DnZone) → P d → Q d) → All P t → All Q t
All-each P Q t imp p = All-both P P Q t (λ d x y. imp d x) p p

All-of : (P : DnZone → Type 0) (t : DnHash) → ((d : DnZone) → P d) → All P t
All-of P [] p = tt
All-of P (d ∷ t) p = (p d, All-of P t p)

side : (i j : ℕ) (d : DnZone) → j ≤ i → (d.dz_order < i) ⊎ (j ≤ d.dz_order)
side i j d h = elim (Bool-cases (ltb d.dz_order i)) [
  | inl e ↦ inl (ground (arith, e))
  | inr e ↦ inr (ground (arith, e, h))
]

absent : (z : ℕ) (t : DnHash) → zone_there (zone_of z t) ≡ false → All (λ d. d.dz_order ≢ z) t
unfolding zone_of
absent z [] e = tt
absent z (d ∷ t) e = elim (Bool-cases (d.dz_order == z)) [
  | inl same ↦ absurd (ground (arith, e, same))
  | inr other ↦ ((λ h. ground (arith, h, other)), absent z t (ground (arith, e, other)))
]

-- Zones in the gap between two orders.
abbrev Outside : ℕ → ℕ → DnZone → Type 0
Outside i n d = (d.dz_order < i) ⊎ (i + n ≤ d.dz_order)

Outside-more : (i n : ℕ) (d : DnZone) → d.dz_order ≢ i → Outside (suc i) n d → Outside i (suc n) d
Outside-more i n d other (inl h) = inl (omega (arith, other, h))
Outside-more i n d other (inr h) = inr (omega (arith, h))

none_longer : (n i : ℕ) (t : DnHash) → longer_zone n i t ≡ none → All (Outside i n) t
unfolding longer_zone
none_longer zero i t e = All-of (Outside i 0) t (λ d. side i (i + 0) d (omega arith))
none_longer (suc n) i t e = elim (Bool-cases (zone_there (zone_of i t))) [
  | inl there ↦ absurd (ground (arith, e, there))
  | inr gone ↦
      All-both (λ d. d.dz_order ≢ i) (Outside (suc i) n) (Outside i (suc n)) t (Outside-more i n)
        (absent i t gone) (none_longer n (suc i) t (ground (arith, e, gone)))
]

-- The zone found is there, at least as long as asked for, and no other is between.
record IsNext (i j : ℕ) (t : DnHash) : Type 0 where
  pub there : zone_there (zone_of j t) ≡ true
  pub from : i ≤ j
  pub between : All (λ d. (d.dz_order < i) ⊎ (j ≤ d.dz_order)) t

some_longer : (n i j : ℕ) (t : DnHash) → longer_zone n i t ≡ some j → IsNext i j t
unfolding longer_zone
some_longer zero i j t e = absurd (ground (arith, e))
some_longer (suc n) i j t e = elim (Bool-cases (zone_there (zone_of i t))) [
  | inl there ↦
      let same : i ≡ j = ground (arith, e, there) in
      subst (λ k. IsNext i k t) same
        (record {
          there = there;
          from = omega arith;
          between =
              All-of (λ d. (d.dz_order < i) ⊎ (i ≤ d.dz_order)) t (λ d. side i i d (omega arith));
        })
  | inr gone ↦
      let next = some_longer n (suc i) j t (ground (arith, e, gone)) in
      record {
        there = next.there;
        from = omega (arith, next.from);
        between =
            All-both (λ d. d.dz_order ≢ i) (λ d. (d.dz_order < suc i) ⊎ (j ≤ d.dz_order))
              (λ d. (d.dz_order < i) ⊎ (j ≤ d.dz_order)) t (λ d other h. ground (arith, other, h))
              (absent i t gone) next.between;
      }
]

-- A zone of the list is below what is above all of them.
there_below :
    (j m : ℕ) (t : DnHash) → zone_there (zone_of j t) ≡ true → All (λ d. d.dz_order < m) t → j < m
unfolding zone_of
there_below j m [] e all = cc
there_below j m (d ∷ t) e all = elim (Bool-cases (d.dz_order == j)) [
  | inl same ↦ ground (arith, same, all.0)
  | inr other ↦ there_below j m t (ground (arith, e, other)) all.1
]

module _ (j : ℕ) (new : DnZone) (below : new.dz_order < j) where
  put_behind-All : (P : DnZone → Type 0) (t : DnHash) → P new → All P t → All P (put_behind j new t)
  put_behind-All P [] has all = tt
  put_behind-All P (d ∷ t) has all =
      if-both (All P) (d.dz_order == j) (d ∷ (new ∷ t)) (d ∷ put_behind j new t)
        (all.0, (has, all.1)) (all.0, put_behind-All P t has all.1)

  put_behind-IsDescending :
      (t : DnHash)
      → zone_there (zone_of j t) ≡ true
      → All (λ d. (d.dz_order < new.dz_order) ⊎ (j ≤ d.dz_order)) t
      → IsDescending t
      → IsDescending (put_behind j new t)
  unfolding zone_of
  put_behind-IsDescending [] there between ok = tt
  put_behind-IsDescending (d ∷ t) there between ok = elim (Bool-cases (d.dz_order == j)) [
    | inl same ↦
        let here : d.dz_order ≡ j = ground (arith, same) in
        rw (same) (
          (omega (arith, here, below), ok.0),
          (
            All-both (λ e. (e.dz_order < new.dz_order) ⊎ (j ≤ e.dz_order))
                (λ e. e.dz_order < d.dz_order) (λ e. e.dz_order < new.dz_order) t
                (λ e b l. ground (arith, b, l, here)) between.1 ok.0,
            ok.1,
          ),
        )
    | inr other ↦
        let further : zone_there (zone_of j t) ≡ true = ground (arith, there, other) in
        let higher = there_below j d.dz_order t further ok.0 in
        rw (other) (
          put_behind-All (λ e. e.dz_order < d.dz_order) t (omega (arith, below, higher)) ok.0,
          put_behind-IsDescending t further between.1 ok.1,
        )
  ]

no_nodes-IsSorted : (n : ℕ) → All IsSorted (replicate n [])
no_nodes-IsSorted zero = tt
no_nodes-IsSorted (suc n) = (tt, no_nodes-IsSorted n)

no_nodes-IsHashed : (h : ℕ → ℕ) (n i : ℕ) → IsHashed h i (replicate n [])
no_nodes-IsHashed h zero i = tt
no_nodes-IsHashed h (suc n) i = (tt, no_nodes-IsHashed h n (suc i))

IsZone-empty : (z : ℕ) → IsZone (empty_zone z)
unfolding empty_zone
IsZone-empty z =
    let n = if z != 0 then 16 else 1 in
    record {
      sorted = no_nodes-IsSorted n;
      hashed = no_nodes-IsHashed (λ x. dn_hash x (empty_zone z)) n 0;
    }

order-empty : (z : ℕ) → (empty_zone z).dz_order ≡ z
unfolding empty_zone
order-empty z = refl

put_zone-IsTable :
    (z : ℕ) (t : DnHash) (o : Option ℕ)
    → longer_zone (16 - z) (z + 1) t ≡ o
    → z ≤ 16
    → zone_there (zone_of z t) ≡ false
    → IsTable t
    → IsTable (put_zone o (empty_zone z) t)
put_zone-IsTable z t none e fits gone ok =
    let new = order-empty z in
    record {
      zones = (IsZone-empty z, ok.zones);
      descending = (
        All-both (λ d. (d.dz_order < z + 1) ⊎ (z + 1 + (16 - z) ≤ d.dz_order))
            (λ d. (d.dz_order ≤ 16) × (d.dz_order ≢ z)) (λ d. d.dz_order < (empty_zone z).dz_order)
            t (λ d x y. ground (arith, x, y, new, fits)) (none_longer (16 - z) (z + 1) t e)
            (All-both (λ d. d.dz_order ≤ 16) (λ d. d.dz_order ≢ z)
              (λ d. (d.dz_order ≤ 16) × (d.dz_order ≢ z)) t (λ d x y. (x, y)) ok.orders
              (absent z t gone)),
        ok.descending,
      );
      orders = (omega (arith, new, fits), ok.orders);
    }
put_zone-IsTable z t (some j) e fits gone ok =
    let new = order-empty z in
    let next = some_longer (16 - z) (z + 1) j t e in
    let below : (empty_zone z).dz_order < j = omega (arith, new, next.from) in
    record {
      zones = put_behind-All j (empty_zone z) below IsZone t (IsZone-empty z) ok.zones;
      descending =
          put_behind-IsDescending j (empty_zone z) below t next.there
            (All-both (λ d. d.dz_order ≢ z) (λ d. (d.dz_order < z + 1) ⊎ (j ≤ d.dz_order))
              (λ d. (d.dz_order < (empty_zone z).dz_order) ⊎ (j ≤ d.dz_order)) t
              (λ d other h. ground (arith, other, h, new)) (absent z t gone) next.between)
            ok.descending;
      orders =
          put_behind-All j (empty_zone z) below (λ d. d.dz_order ≤ 16) t (omega (arith, new, fits))
            ok.orders;
    }

-- Whatever route is put in a table, and whether it is taken or refused, the zones stay in
-- descending order of their prefixes' lengths, at most 16, and in each the chains stay sorted and
-- hold their nodes where their keys hash.
pub insert-IsTable :
    (t : DnHash) (r : RouteRequest) (zone_memory memory : Bool) (fi : Option DnFibInfo) (err : ℕ)
    → IsTable t
    → IsTable (dn_fib_table_insert t r zone_memory memory fi err).1
unfolding dn_fib_table_insert dn_new_zone
insert-IsTable t r zone_memory memory fi err ok =
    let z = r.rtm_dst_len in
    let change = insert_zone r memory fi err in
    let inserted = λ (u : DnHash).
      at_zone-IsTable change (insert_zone-order r memory fi err) z u
        (insert_zone-IsZone r memory fi err) in
    elim (Bool-cases (ltb 16 z)) [
      | inl long ↦ rw (long) ok
      | inr short ↦ elim (Bool-cases (zone_there (zone_of z t))) [
        | inl there ↦ rw (short, there) (inserted t ok)
        | inr gone ↦
            let made =
              put_zone-IsTable z t (longer_zone (16 - z) (z + 1) t) refl (ground (arith, short))
                gone ok in
            let u = put_zone (longer_zone (16 - z) (z + 1) t) (empty_zone z) t in
            rw (short, gone)
              (if-both (λ (o : ℕ × DnHash). IsTable o.1) (not zone_memory) (enobufs, t)
                (at_zone z change u) ok (inserted u made))
      ]
    ]
