-- ===== src/Route/Table/Longest.antt =====
-- A lookup finds the route of the longest prefix, kernel/net/decnet/dn_table.c.
use raspbian_decnet.Base.{
  ℕ, ◌<◌, ◌≡◌, sym, ◌∙◌, Option, none, some, List, [], ◌∷◌, All, arith, ap, subst, ◌==◌, ◌&&◌, not,
  Bool-cases, Option-cases, false, ◌⊎◌, inl, inr,
}
use raspbian_decnet.Route.Fib.{Flowidn, Matched, hit, miss, refused}
use raspbian_decnet.Route.Table.{
  DnFibNode, DnZone, DnHash, Answer, answers, left_out, dz_key, dn_fib_table_lookup,
}
use raspbian_decnet.Route.Table.Lookup.{
  routes, or_else, answer_of, one_answer, first_answer, best_answer, lookup-best_answer,
}
use raspbian_decnet.Route.Table.Zones.{IsTable, IsDescending}

-- A zone has no route that answers for the flow.
abbrev pub Silent : Flowidn → DnZone → Type 0
Silent flp dz = first_answer (dz_key flp.daddr dz) flp dz.dz_order (routes dz.dz_hash) ≡ none

prefixlen-answer_of :
    (m : Matched) (order : ℕ) (f : DnFibNode) (a : Answer)
    → answer_of m order f ≡ some a
    → a.prefixlen ≡ order
prefixlen-answer_of (miss) order f a e = cc
prefixlen-answer_of (hit nhsel) order f a e = ground (arith, e)
prefixlen-answer_of (refused err) order f a e = ground (arith, e)

prefixlen-one_answer :
    (k : ℕ) (flp : Flowidn) (order : ℕ) (f : DnFibNode) (a : Answer)
    → one_answer k flp order f ≡ some a
    → a.prefixlen ≡ order
prefixlen-one_answer k flp order f a e = elim (Bool-cases (k == f.fn_key && not (left_out flp f))) [
  | inl on ↦ prefixlen-answer_of (answers flp f) order f a (ground (arith, on, e))
  | inr off ↦ absurd (ground (arith, off, e))
]

prefixlen-first :
    (k : ℕ) (flp : Flowidn) (order : ℕ) (c : List DnFibNode) (a : Answer)
    → first_answer k flp order c ≡ some a
    → a.prefixlen ≡ order
prefixlen-first k flp order [] a e = cc
prefixlen-first k flp order (f ∷ c) a e = elim (Option-cases (one_answer k flp order f)) [
  | inl silent ↦ prefixlen-first k flp order c a (cc)
  | inr (b, found) ↦
      let same : b ≡ a = cc in
      sym (ap (λ (x : Answer). x.prefixlen) same) ∙ prefixlen-one_answer k flp order f b found
]

-- One of the nodes answers so: it has the key, may be used for the flow, and its route gives the
-- verdict.
abbrev pub HasNode : ℕ → Flowidn → ℕ → List DnFibNode → Answer → Type 0
HasNode k flp order [] a = ⊥
HasNode k flp order (f ∷ fs) a =
    ((f.fn_key ≡ k) × (left_out flp f ≡ false) × (answer_of (answers flp f) order f ≡ some a))
    ⊎ HasNode k flp order fs a

-- One of the zones, of the answer's prefix length, has a node that answers so for the bits of the
-- destination that are in the zone's mask.
abbrev pub HasZone : Flowidn → DnHash → Answer → Type 0
HasZone flp [] a = ⊥
HasZone flp (dz ∷ t) a =
    ((a.prefixlen ≡ dz.dz_order)
      × HasNode (dz_key flp.daddr dz) flp dz.dz_order (routes dz.dz_hash) a)
    ⊎ HasZone flp t a

-- The answer is one of the table's, and no zone with a longer prefix has an answer.
abbrev pub Longest : DnHash → Flowidn → Option Answer → Type 0
Longest t flp none = All (Silent flp) t
Longest t flp (some a) = HasZone flp t a × All (λ dz. a.prefixlen < dz.dz_order → Silent flp dz) t

first-HasNode :
    (k : ℕ) (flp : Flowidn) (order : ℕ) (c : List DnFibNode) (a : Answer)
    → first_answer k flp order c ≡ some a
    → HasNode k flp order c a
first-HasNode k flp order [] a e = absurd (cc)
first-HasNode k flp order (f ∷ c) a e = elim (Option-cases (one_answer k flp order f)) [
  | inl silent ↦ inr (first-HasNode k flp order c a (cc))
  | inr (b, found) ↦
      let here : one_answer k flp order f ≡ some a = cc in
      inl (elim (Bool-cases (k == f.fn_key && not (left_out flp f))) [
        | inl on ↦ (ground (arith, on), ground (arith, on), ground (arith, on, here))
        | inr off ↦ absurd (ground (arith, off, here))
      ])
]

none_longer_here :
    (flp : Flowidn) (n : ℕ) (t : DnHash)
    → All (λ d. d.dz_order < n) t
    → All (λ dz. n < dz.dz_order → Silent flp dz) t
none_longer_here flp n [] all = tt
none_longer_here flp n (d ∷ t) all =
    ((λ h. absurd (omega (arith, h, all.0))), none_longer_here flp n t all.1)

Longest-tail :
    (flp : Flowidn) (dz : DnZone) (t : DnHash) (o : Option Answer)
    → Silent flp dz
    → Longest t flp o
    → Longest (dz ∷ t) flp o
Longest-tail flp dz t none silent rest = (silent, rest)
Longest-tail flp dz t (some a) silent (held, rest) = (inr held, ((λ h. silent), rest))

best-Longest : (t : DnHash) (flp : Flowidn) → IsDescending t → Longest t flp (best_answer t flp)
best-Longest [] flp ok = tt
best-Longest (dz ∷ t) flp ok =
    let here = first_answer (dz_key flp.daddr dz) flp dz.dz_order (routes dz.dz_hash) in
    elim (Option-cases here) [
      | inl silent ↦
          subst (λ o. Longest (dz ∷ t) flp (or_else o (best_answer t flp))) (sym silent)
            (Longest-tail flp dz t (best_answer t flp) silent (best-Longest t flp ok.1))
      | inr (a, found) ↦
          let size =
            prefixlen-first (dz_key flp.daddr dz) flp dz.dz_order (routes dz.dz_hash) a found in
          subst (λ o. Longest (dz ∷ t) flp (or_else o (best_answer t flp))) (sym found)
            (
              inl (
                size,
                first-HasNode (dz_key flp.daddr dz) flp dz.dz_order (routes dz.dz_hash) a found,
              ),
              (
                (λ h. absurd (omega (arith, h, size))),
                subst (λ n. All (λ d. n < d.dz_order → Silent flp d) t) (sym size)
                    (none_longer_here flp dz.dz_order t ok.0),
              ),
            )
    ]

-- In a table whose zones are in descending order, and whose chains are sorted and hold their nodes
-- where their keys hash, a lookup gives an answer of the longest prefix: it is the answer of a node
-- in a zone of that prefix length whose key is the destination under the zone's mask, and no zone
-- with a longer prefix has any node that answers, in whatever chain. Where it gives none, no zone
-- has a node that answers.
pub lookup-Longest :
    (t : DnHash) (flp : Flowidn) → IsTable t → Longest t flp (dn_fib_table_lookup t flp).1
lookup-Longest t flp ok =
    subst (Longest t flp) (sym (lookup-best_answer t flp ok.zones))
      (best-Longest t flp ok.descending)
