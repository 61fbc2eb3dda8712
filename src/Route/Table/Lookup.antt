-- ===== src/Route/Table/Lookup.antt =====
-- What a lookup finds in a forwarding table whose chains are in order, kernel/net/decnet/dn_table.c:
-- hashing, the order of the chains and the early end of the walk change nothing.
use raspbian_decnet.Base.{
  ℕ, zero, suc, ◌+◌, ◌≤◌, ◌<◌, ◌≡◌, ◌≢◌, refl, sym, ap, ap₂, ◌∙◌, true, false, not, ◌&&◌, leb, ◌==◌,
  if◌then◌else◌, Bool-cases, inl, inr, Option, none, some, List, [], ◌∷◌, ◌++◌, All, arith,
}
use raspbian_decnet.Route.Fib.{Flowidn, Matched, hit, miss, refused}
use raspbian_decnet.Route.Table.{
  DnFibNode, DnZone, DnHash, Answer, answers, left_out, walk_chain, walk_on, chain_set, zones_on,
  chain_at, dz_chain, dz_key, dn_hash, dn_fib_table_lookup,
}

abbrev pub IsSorted : List DnFibNode → Type 0
IsSorted [] = Unit {0}
IsSorted (f ∷ fs) = All (λ g. f.fn_key ≤ g.fn_key) fs × IsSorted fs

-- From the index `i` on, each node is in the chain of its hash.
abbrev pub IsHashed : (ℕ → ℕ) → ℕ → List (List DnFibNode) → Type 0
IsHashed h i [] = Unit {0}
IsHashed h i (c ∷ cs) = All (λ f. h f.fn_key ≡ i) c × IsHashed h (suc i) cs

pub record IsZone (dz : DnZone) : Type 0 where
  pub sorted : All IsSorted dz.dz_hash
  pub hashed : IsHashed (λ x. dn_hash x dz) 0 dz.dz_hash

-- The routes of a zone, whatever chain they are in.
abbrev pub routes : List (List DnFibNode) → List DnFibNode
routes [] = []
routes (c ∷ cs) = c ++ routes cs

abbrev pub or_else : Option Answer → Option Answer → Option Answer
or_else none b = b
or_else (some a) b = some a

-- The answer of one node: it has the key, may be used, and has something to say.
abbrev pub answer_of : Matched → ℕ → DnFibNode → Option Answer
answer_of (miss) order f = none
answer_of (hit nhsel) order f =
    some (record { verdict = hit nhsel; node = record f { accessed = true }; prefixlen = order })
answer_of (refused err) order f =
    some (record { verdict = refused err; node = record f { accessed = true }; prefixlen = order })

abbrev pub one_answer : ℕ → Flowidn → ℕ → DnFibNode → Option Answer
one_answer k flp order f =
    if k == f.fn_key && not (left_out flp f) then answer_of (answers flp f) order f else none

-- The first answer of a list of routes.
abbrev pub first_answer : ℕ → Flowidn → ℕ → List DnFibNode → Option Answer
first_answer k flp order [] = none
first_answer k flp order (f ∷ fs) = or_else (one_answer k flp order f) (first_answer k flp order fs)

-- The first answer of the zones, the most specific ones first.
abbrev pub best_answer : DnHash → Flowidn → Option Answer
best_answer [] flp = none
best_answer (dz ∷ t) flp =
    or_else (first_answer (dz_key flp.daddr dz) flp dz.dz_order (routes dz.dz_hash))
      (best_answer t flp)

module _ (k : ℕ) (flp : Flowidn) (order : ℕ) where
  first-append :
      (c d : List DnFibNode)
      → first_answer k flp order (c ++ d)
        ≡ or_else (first_answer k flp order c) (first_answer k flp order d)
  first-append [] d = refl
  first-append (f ∷ c) d =
      ap (λ x. or_else (one_answer k flp order f) x) (first-append c d)
      ∙ or_else_assoc (one_answer k flp order f) (first_answer k flp order c)
          (first_answer k flp order d)
    where
      or_else_assoc : (a b c : Option Answer) → or_else a (or_else b c) ≡ or_else (or_else a b) c
      or_else_assoc none b c = refl
      or_else_assoc (some a) b c = refl

  first-none : (c : List DnFibNode) → All (λ f. k ≢ f.fn_key) c → first_answer k flp order c ≡ none
  first-none [] others = refl
  first-none (f ∷ c) (other, others) =
      let no : (k == f.fn_key) ≡ false = ground (arith, other) in rw (no, first-none c others) refl

  above :
      (n : ℕ) (c : List DnFibNode) → k < n → All (λ g. n ≤ g.fn_key) c → All (λ g. k ≢ g.fn_key) c
  above n [] h all = tt
  above n (f ∷ c) h (here, all) = (λ e. omega (arith, e, here, h), above n c h all)

  answer-walk_on :
      (m : Matched) (f : DnFibNode) (fs : List DnFibNode) (more : List DnFibNode × Option Answer)
      → (walk_on m order (record f { accessed = true }) fs more).1
        ≡ or_else (answer_of m order f) more.1
  answer-walk_on (miss) f fs more = refl
  answer-walk_on (hit nhsel) f fs more = refl
  answer-walk_on (refused err) f fs more = refl

  walk-first :
      (c : List DnFibNode) → IsSorted c → (walk_chain k flp order c).1 ≡ first_answer k flp order c
  unfolding walk_chain
  walk-first [] sorted = refl
  walk-first (f ∷ fs) (least, sorted) =
      let rest = walk-first fs sorted in
      elim (Bool-cases (k == f.fn_key)) [
        | inl e ↦ elim (Bool-cases (left_out flp f)) [
          | inl out ↦ rw (e, out) rest
          | inr on ↦
              rw (e, on)
                (answer-walk_on (answers flp f) f fs (walk_chain k flp order fs)
                  ∙ ap (λ x. or_else (answer_of (answers flp f) order f) x) rest)
        ]
        | inr e ↦ elim (Bool-cases (leb k f.fn_key)) [
          | inl before ↦
              let none_left = first-none fs (above f.fn_key fs (ground (arith, e, before)) least) in
              rw (e, before) (sym none_left)
          | inr after ↦ rw (e, after) rest
        ]
      ]

  -- The chains of other hashes hold nothing with the key.
  others_differ :
      (dz : DnZone) (i : ℕ) (c : List DnFibNode)
      → dn_hash k dz ≢ i
      → All (λ f. dn_hash f.fn_key dz ≡ i) c
      → All (λ f. k ≢ f.fn_key) c
  others_differ dz i [] other all = tt
  others_differ dz i (f ∷ c) other (here, all) =
      (λ e. other (ap (λ x. dn_hash x dz) e ∙ here), others_differ dz i c other all)

  first-past :
      (dz : DnZone) (i : ℕ) (cs : List (List DnFibNode))
      → dn_hash k dz < i
      → IsHashed (λ x. dn_hash x dz) i cs
      → first_answer k flp order (routes cs) ≡ none
  first-past dz i [] past hashed = refl
  first-past dz i (c ∷ cs) past (here, more) =
      let nothing = first-none c (others_differ dz i c (λ e. omega (arith, e, past)) here) in
      first-append c (routes cs)
      ∙ rw (nothing) (first-past dz (suc i) cs (omega (arith, past)) more)

  or_else-none : (a : Option Answer) → or_else a none ≡ a
  or_else-none none = refl
  or_else-none (some a) = refl

  first-chain_at :
      (dz : DnZone) (i j : ℕ) (cs : List (List DnFibNode))
      → dn_hash k dz ≡ i + j
      → IsHashed (λ x. dn_hash x dz) i cs
      → first_answer k flp order (routes cs) ≡ first_answer k flp order (chain_at j cs)
  first-chain_at dz i j [] e hashed = refl
  first-chain_at dz i zero (c ∷ cs) e (here, more) =
      first-append c (routes cs)
      ∙ rw (first-past dz (suc i) cs (omega (arith, e)) more)
          (or_else-none (first_answer k flp order c))
  first-chain_at dz i (suc j) (c ∷ cs) e (here, more) =
      let nothing = first-none c (others_differ dz i c (λ h. omega (arith, h, e)) here) in
      first-append c (routes cs)
      ∙ rw (nothing) (first-chain_at dz (suc i) j cs (omega (arith, e)) more)

pub chain-IsSorted :
    (i : ℕ) (cs : List (List DnFibNode)) → All IsSorted cs → IsSorted (chain_at i cs)
chain-IsSorted i [] all = tt
chain-IsSorted zero (c ∷ cs) all = all.0
chain-IsSorted (suc i) (c ∷ cs) all = chain-IsSorted i cs all.1

zone-first :
    (dz : DnZone) (k : ℕ) (flp : Flowidn)
    → IsZone dz
    → (walk_chain k flp dz.dz_order (dz_chain k dz)).1
      ≡ first_answer k flp dz.dz_order (routes dz.dz_hash)
unfolding dz_chain
zone-first dz k flp ok =
    walk-first k flp dz.dz_order (chain_at (dn_hash k dz) dz.dz_hash)
      (chain-IsSorted (dn_hash k dz) dz.dz_hash ok.sorted)
    ∙ sym (first-chain_at k flp dz.dz_order dz 0 (dn_hash k dz) dz.dz_hash (omega arith) ok.hashed)

zones_on-answer :
    (dz : DnZone) (t : DnHash) (more : DnHash × Option Answer) (a : Option Answer)
    → (zones_on dz t more a).1 ≡ or_else a more.1
zones_on-answer dz t more none = refl
zones_on-answer dz t more (some a) = refl

-- In a table whose chains are sorted and hold their nodes where their keys hash, a lookup answers
-- as if there were no chains: it is the first answer, zone by zone, of a node of the zone that has
-- the masked address as its key, is no zombie, and has a scope no narrower than asked for.
pub lookup-best_answer :
    (t : DnHash) (flp : Flowidn) → All IsZone t → (dn_fib_table_lookup t flp).1 ≡ best_answer t flp
unfolding dn_fib_table_lookup
lookup-best_answer [] flp ok = refl
lookup-best_answer (dz ∷ t) flp ok =
    let k = dz_key flp.daddr dz in
    let walked = walk_chain k flp dz.dz_order (dz_chain k dz) in
    zones_on-answer (chain_set k dz walked.0) t (dn_fib_table_lookup t flp) walked.1
    ∙ ap₂ or_else (zone-first dz k flp ok.0) (lookup-best_answer t flp ok.1)
