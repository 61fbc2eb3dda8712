-- ===== src/Route/Table/Insert.antt =====
-- A route put in its chain leaves the chain sorted, kernel/net/decnet/dn_table.c.
use raspbian_decnet.Base.{
  ℕ, ◌≤◌, ◌≡◌, sym, ap, subst, ◌∙◌, Bool, true, not, ◌&&◌, leb, ◌==◌, if◌then◌else◌, if-both,
  Bool-cases, inl, inr, Option, none, some, List, [], ◌∷◌, ◌++◌, All, All-append, arith,
}
use mathlib.Core.List.{append_assoc}
use raspbian_decnet.Nsp.Receive.Segment.{enobufs}
use raspbian_decnet.Route.Table.{DnFibNode}
use raspbian_decnet.Route.Table.Lookup.{IsSorted}
use raspbian_decnet.Route.Table.Update.{
  RouteRequest, Placed, fails, placed, passing, any, creating, same_priority, at_priority, at_key,
  insert_node, enoent,
}
use raspbian_decnet.Route.Table.Chain.{
  passing-append, passing-All, All-impl, drop-All, drop-IsSorted, All-behind,
}

-- A chain cut where a key belongs, each node of it with a property.
record IsCut (n : ℕ) (Q : DnFibNode → Type 0) (xs ys : List DnFibNode) : Type 0 where
  pub sorted : IsSorted (xs ++ ys)
  pub each : All Q (xs ++ ys)
  pub low : All (λ f. f.fn_key ≤ n) xs
  pub high : All (λ f. n ≤ f.fn_key) ys

-- What is placed is sorted, and each node has the property.
abbrev pub Keeps : (DnFibNode → Type 0) → Placed → Type 0
Keeps Q (fails err) = Unit {0}
Keeps Q (placed c freed) = IsSorted c × All Q c

module _ (Q : DnFibNode → Type 0) (new : DnFibNode) (has : Q new) where
  put_lower :
      (x : DnFibNode) (xs ys : List DnFibNode)
      → x.fn_key ≤ new.fn_key
      → All (λ g. x.fn_key ≤ g.fn_key) (xs ++ ys)
      → All (λ g. x.fn_key ≤ g.fn_key) (xs ++ (new ∷ ys))
  put_lower x [] ys h all = (h, all)
  put_lower x (y ∷ xs) ys h all = (all.0, put_lower x xs ys h all.1)

  put-IsSorted :
      (xs ys : List DnFibNode)
      → IsSorted (xs ++ ys)
      → All (λ f. f.fn_key ≤ new.fn_key) xs
      → All (λ f. new.fn_key ≤ f.fn_key) ys
      → IsSorted (xs ++ (new ∷ ys))
  put-IsSorted [] ys sorted low high = (high, sorted)
  put-IsSorted (x ∷ xs) ys sorted low high =
      (put_lower x xs ys low.0 sorted.0, put-IsSorted xs ys sorted.1 low.1 high)

  put-All : (xs ys : List DnFibNode) → All Q (xs ++ ys) → All Q (xs ++ (new ∷ ys))
  put-All [] ys all = (has, all)
  put-All (x ∷ xs) ys all = (all.0, put-All xs ys all.1)

  put-Keeps :
      (xs ys : List DnFibNode) (freed : Option DnFibNode)
      → IsCut new.fn_key Q xs ys
      → Keeps Q (placed (xs ++ (new ∷ ys)) freed)
  put-Keeps xs ys freed cut =
      (put-IsSorted xs ys cut.sorted cut.low cut.high, put-All xs ys cut.each)

  -- The node behind the cut is taken out.
  drop-IsCut :
      (f : DnFibNode) (xs ys : List DnFibNode)
      → IsCut new.fn_key Q xs (f ∷ ys)
      → IsCut new.fn_key Q xs ys
  drop-IsCut f xs ys cut = record {
    sorted = drop-IsSorted f xs ys cut.sorted;
    each = drop-All Q f xs ys cut.each;
    low = cut.low;
    high = cut.high.1;
  }

  -- The cut is moved on over nodes that are not above the key.
  move-IsCut :
      (xs ys zs rest : List DnFibNode)
      → ys ++ zs ≡ rest
      → All (λ f. f.fn_key ≤ new.fn_key) ys
      → IsCut new.fn_key Q xs rest
      → IsCut new.fn_key Q (xs ++ ys) zs
  move-IsCut xs ys zs rest e low cut =
      let same : xs ++ rest ≡ (xs ++ ys) ++ zs =
        ap (λ r. xs ++ r) (sym e) ∙ sym (append_assoc xs ys zs) in
      record {
        sorted = subst IsSorted same cut.sorted;
        each = subst (All Q) same cut.each;
        low = All-append (λ f. f.fn_key ≤ new.fn_key) xs ys cut.low low;
        high =
            All-behind (λ f. new.fn_key ≤ f.fn_key) ys zs
              (subst (All (λ f. new.fn_key ≤ f.fn_key)) (sym e) cut.high);
      }

  creating-Keeps :
      (r : RouteRequest) (memory : Bool) (p : Placed) → Keeps Q p → Keeps Q (creating r memory p)
  creating-Keeps r memory p keeps =
      if-both (Keeps Q) (not r.create) (fails enoent) (if memory then p else fails enobufs) tt
        (if-both (Keeps Q) memory p (fails enobufs) keeps tt)

  -- `p` lets the cut pass nodes that are not above the key.
  passed-IsCut :
      (p : DnFibNode → Bool) (xs rest : List DnFibNode)
      → ((f : DnFibNode) → p f ≡ true → f.fn_key ≤ new.fn_key)
      → IsCut new.fn_key Q xs rest
      → IsCut new.fn_key Q (xs ++ (passing p rest).0) (passing p rest).1
  passed-IsCut p xs rest imp cut =
      move-IsCut xs (passing p rest).0 (passing p rest).1 rest (passing-append p rest)
        (All-impl (λ f. p f ≡ true) (λ f. f.fn_key ≤ new.fn_key) (passing p rest).0 imp
          (passing-All p rest))
        cut

  same_priority-Keeps :
      (r : RouteRequest) (memory : Bool) (before : List DnFibNode) (f : DnFibNode)
      (more : List DnFibNode)
      → IsCut new.fn_key Q before (f ∷ more)
      → Keeps Q (same_priority r memory new before f more)
  same_priority-Keeps r memory before f more cut =
      let p : DnFibNode → Bool =
        λ g. g.fn_key == new.fn_key && g.fn_info.fib_priority == new.fn_info.fib_priority in
      let (same, rest) = passing p (f ∷ more) in
      let twin =
        any
          (λ g.
            g.fn_type == new.fn_type
            && (g.fn_scope == new.fn_scope && g.fn_info.fib_id == new.fn_info.fib_id))
          same in
      let behind : Keeps Q (placed (before ++ (same ++ (new ∷ rest))) none) =
        subst (λ c. Keeps Q (placed c none)) (append_assoc before same (new ∷ rest))
          (put-Keeps (before ++ same) rest none
            (passed-IsCut p before (f ∷ more) (λ g h. ground (arith, h)) cut)) in
      ground (
        arith,
        put-Keeps before more (some f) (drop-IsCut f before more cut),
        creating-Keeps r memory (placed (before ++ (same ++ (new ∷ rest))) none) behind,
        creating-Keeps r memory (placed (before ++ (new ∷ (f ∷ more))) none)
            (put-Keeps before (f ∷ more) none cut),
      )

  at_priority-Keeps :
      (r : RouteRequest) (memory : Bool) (before rest : List DnFibNode)
      → IsCut new.fn_key Q before rest
      → Keeps Q (at_priority r memory new before rest)
  at_priority-Keeps r memory before [] cut =
      creating-Keeps r memory (placed (before ++ (new ∷ [])) none) (put-Keeps before [] none cut)
  at_priority-Keeps r memory before (f ∷ more) cut =
      if-both (Keeps Q)
        (f.fn_key == new.fn_key && f.fn_info.fib_priority == new.fn_info.fib_priority)
        (same_priority r memory new before f more)
        (creating r memory (placed (before ++ (new ∷ (f ∷ more))) none))
        (same_priority-Keeps r memory before f more cut)
        (creating-Keeps r memory (placed (before ++ (new ∷ (f ∷ more))) none)
          (put-Keeps before (f ∷ more) none cut))

  at_key-Keeps :
      (r : RouteRequest) (memory : Bool) (before rest : List DnFibNode)
      → IsCut new.fn_key Q before rest
      → Keeps Q (at_key r memory new before rest)
  at_key-Keeps r memory before [] cut = at_priority-Keeps r memory before [] cut
  at_key-Keeps r memory before (f ∷ more) cut =
      let p : DnFibNode → Bool =
        λ g. g.fn_key == new.fn_key && not (leb new.fn_info.fib_priority g.fn_info.fib_priority) in
      let (lower, rest) = passing p (f ∷ more) in
      if-both (Keeps Q) (f.zombie && f.fn_key == new.fn_key)
        (creating r memory (placed (before ++ (new ∷ more)) (some f)))
        (at_priority r memory new (before ++ lower) rest)
        (creating-Keeps r memory (placed (before ++ (new ∷ more)) (some f))
          (put-Keeps before more (some f) (drop-IsCut f before more cut)))
        (at_priority-Keeps r memory (before ++ lower) rest
          (passed-IsCut p before (f ∷ more) (λ g h. ground (arith, h)) cut))

  least-high :
      (c : List DnFibNode)
      → IsSorted c
      → All (λ f. new.fn_key ≤ f.fn_key) (passing (λ g. not (leb new.fn_key g.fn_key)) c).1
  least-high [] sorted = tt
  least-high (f ∷ c) sorted = elim (Bool-cases (leb new.fn_key f.fn_key)) [
    | inl e ↦ rw (e) (
      ground (arith, e),
      All-impl (λ g. f.fn_key ≤ g.fn_key) (λ g. new.fn_key ≤ g.fn_key) c
          (λ g h. ground (arith, e, h)) sorted.0,
    )
    | inr e ↦ rw (e) (least-high c sorted.1)
  ]

  -- A node put in a sorted chain, on whichever way: the chain stays sorted, and what each of its
  -- nodes and the new one have, each node has afterwards.
  pub insert_node-Keeps :
      (r : RouteRequest) (memory : Bool) (c : List DnFibNode)
      → IsSorted c
      → All Q c
      → Keeps Q (insert_node r memory new c)
  unfolding insert_node
  insert_node-Keeps r memory c sorted each =
      let p : DnFibNode → Bool = λ g. not (leb new.fn_key g.fn_key) in
      let whole = passing-append p c in
      at_key-Keeps r memory (passing p c).0 (passing p c).1 (record {
        sorted = subst IsSorted (sym whole) sorted;
        each = subst (All Q) (sym whole) each;
        low =
            All-impl (λ f. p f ≡ true) (λ f. f.fn_key ≤ new.fn_key) (passing p c).0
              (λ f h. ground (arith, h)) (passing-All p c);
        high = least-high c sorted;
      })
