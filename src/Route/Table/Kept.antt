-- ===== src/Route/Table/Kept.antt =====
-- What a deletion, a lookup and a flush leave of a chain, kernel/net/decnet/dn_table.c.
use raspbian_decnet.Base.{
  ℕ, suc, ◌≤◌, ◌≡◌, sym, ap, subst, ◌∙◌, Bool, true, not, ◌&&◌, ◌||◌, leb, ◌==◌, ◌!=◌,
  if◌then◌else◌, if-both, Option, none, List, [], ◌∷◌, ◌++◌, All, length, bit_and,
}
use mathlib.Core.List.{append_assoc}
use raspbian_decnet.Route.Fib.{Flowidn, Matched, hit, miss, refused, rtnh_f_dead}
use raspbian_decnet.Route.Table.{DnFibNode, Answer, walk_on, walk_chain, left_out, answers}
use raspbian_decnet.Route.Table.Lookup.{IsSorted, IsHashed}
use raspbian_decnet.Route.Table.Update.{RouteRequest, passing, any, dn_flush_list, flush_chains}
use raspbian_decnet.Route.Table.Delete.{
  Deleted, not_found, freed, buried, as_zombie, to_delete, delete_at, delete_among, delete_node,
}
use raspbian_decnet.Route.Table.Chain.{passing-append, drop-All, drop-IsSorted}

-- A chain that is sorted, with a property of each key.
abbrev pub Kept : (ℕ → Type 0) → List DnFibNode → Type 0
Kept K c = IsSorted c × All (λ f. K f.fn_key) c

module _ (K : ℕ → Type 0) where
  drop-Kept : (f : DnFibNode) (xs ys : List DnFibNode) → Kept K (xs ++ (f ∷ ys)) → Kept K (xs ++ ys)
  drop-Kept f xs ys ok = (drop-IsSorted f xs ys ok.0, drop-All (λ g. K g.fn_key) f xs ys ok.1)

  bury-All :
      (L : ℕ → Type 0) (f : DnFibNode) (xs ys : List DnFibNode)
      → All (λ g. L g.fn_key) (xs ++ (f ∷ ys))
      → All (λ g. L g.fn_key) (xs ++ (as_zombie f ∷ ys))
  bury-All L f [] ys all = (all.0, all.1)
  bury-All L f (x ∷ xs) ys all = (all.0, bury-All L f xs ys all.1)

  bury-IsSorted :
      (f : DnFibNode) (xs ys : List DnFibNode)
      → IsSorted (xs ++ (f ∷ ys))
      → IsSorted (xs ++ (as_zombie f ∷ ys))
  bury-IsSorted f [] ys ok = (ok.0, ok.1)
  bury-IsSorted f (x ∷ xs) ys ok =
      (bury-All (λ k. x.fn_key ≤ k) f xs ys ok.0, bury-IsSorted f xs ys ok.1)

  abbrev pub DeletedKept : Deleted → Type 0
  DeletedKept (not_found) = Unit {0}
  DeletedKept (freed c f) = Kept K c
  DeletedKept (buried c) = Kept K c

  delete_at-Kept :
      (matched : ℕ) (before found rest : List DnFibNode)
      → Kept K (before ++ (found ++ rest))
      → DeletedKept (delete_at matched before found rest)
  delete_at-Kept matched before [] rest ok = tt
  delete_at-Kept matched before (f ∷ more) rest ok =
      if-both DeletedKept (matched != 1) (freed (before ++ (more ++ rest)) f)
        (buried (before ++ (as_zombie f ∷ (more ++ rest)))) (drop-Kept f before (more ++ rest) ok)
        (bury-IsSorted f before (more ++ rest) ok.0, bury-All K f before (more ++ rest) ok.1)

  delete_among-Kept :
      (r : RouteRequest) (before same rest : List DnFibNode)
      → Kept K (before ++ (same ++ rest))
      → DeletedKept (delete_among r before same rest)
  delete_among-Kept r before same rest ok =
      let p : DnFibNode → Bool = λ g. not (to_delete r g) in
      let (kept, found) = passing p same in
      let whole : before ++ (same ++ rest) ≡ (before ++ kept) ++ (found ++ rest) =
        ap (λ s. before ++ (s ++ rest)) (sym (passing-append p same))
        ∙ (ap (λ s. before ++ s) (append_assoc kept found rest)
            ∙ sym (append_assoc before kept (found ++ rest))) in
      if-both DeletedKept (any (λ g. g.zombie) same) not_found
        (delete_at (length same) (before ++ kept) found rest) tt
        (delete_at-Kept (length same) (before ++ kept) found rest (subst (Kept K) whole ok))

  pub delete_node-Kept :
      (r : RouteRequest) (key : ℕ) (c : List DnFibNode)
      → Kept K c
      → DeletedKept (delete_node r key c)
  unfolding delete_node
  delete_node-Kept r key c ok =
      let p : DnFibNode → Bool = λ g. not (g.fn_key == key) && not (leb key g.fn_key) in
      let q : DnFibNode → Bool = λ g. g.fn_key == key in
      let (before, rest) = passing p c in
      let (same, behind) = passing q rest in
      let whole : c ≡ before ++ (same ++ behind) =
        sym (passing-append p c) ∙ ap (λ s. before ++ s) (sym (passing-append q rest)) in
      delete_among-Kept r before same behind (subst (Kept K) whole ok)

-- What a lookup leaves of a chain.
walk_on-Kept :
    (K : ℕ → Type 0) (m : Matched) (order : ℕ) (f : DnFibNode) (fs : List DnFibNode)
    (more : List DnFibNode × Option Answer)
    → Kept K (f ∷ fs)
    → Kept K (f ∷ more.0)
    → Kept K (walk_on m order f fs more).0
walk_on-Kept K (miss) order f fs more h rest = rest
walk_on-Kept K (hit n) order f fs more h rest = h
walk_on-Kept K (refused n) order f fs more h rest = h

module _ (k : ℕ) (flp : Flowidn) (order : ℕ) where
  pub walk-Kept :
      (K : ℕ → Type 0) (c : List DnFibNode) → Kept K c → Kept K (walk_chain k flp order c).0
  unfolding walk_chain
  walk-Kept K [] ok = ok
  walk-Kept K (f ∷ fs) (sorted, all) =
      let rest : List DnFibNode × Option Answer = walk_chain k flp order fs in
      let marked : DnFibNode = record f { accessed = true } in
      let P : List DnFibNode × Option Answer → Type 0 = λ o. Kept K o.0 in
      let below = walk-Kept (λ n. f.fn_key ≤ n) fs (sorted.1, sorted.0) in
      let more = walk-Kept K fs (sorted.1, all.1) in
      let past : Kept K (f ∷ rest.0) = ((below.1, more.0), (all.0, more.1)) in
      if-both P (k != f.fn_key) (if leb k f.fn_key then (f ∷ fs, none) else (f ∷ rest.0, rest.1))
        (if left_out flp f
          then (marked ∷ rest.0, rest.1)
          else walk_on (answers flp f) order marked fs rest)
        (if-both P (leb k f.fn_key) (f ∷ fs, none) (f ∷ rest.0, rest.1) (sorted, all) past)
        (if-both P (left_out flp f) (marked ∷ rest.0, rest.1)
          (walk_on (answers flp f) order marked fs rest) past
          (walk_on-Kept K (answers flp f) order marked fs rest (sorted, all) past))

flush-Kept : (K : ℕ → Type 0) (c : List DnFibNode) → Kept K c → Kept K (dn_flush_list c)
unfolding dn_flush_list
flush-Kept K [] ok = ok
flush-Kept K (f ∷ fs) (sorted, all) =
    let below = flush-Kept (λ n. f.fn_key ≤ n) fs (sorted.1, sorted.0) in
    let more = flush-Kept K fs (sorted.1, all.1) in
    if-both (Kept K) (f.zombie || bit_and f.fn_info.fib_flags rtnh_f_dead != 0) (dn_flush_list fs)
      (f ∷ dn_flush_list fs) more ((below.1, more.0), (all.0, more.1))

pub flush-chains :
    (h : ℕ → ℕ) (i : ℕ) (cs : List (List DnFibNode))
    → All IsSorted cs
    → IsHashed h i cs
    → All IsSorted (flush_chains cs) × IsHashed h i (flush_chains cs)
unfolding flush_chains
flush-chains h i [] sorted hashed = (tt, tt)
flush-chains h i (c ∷ cs) sorted hashed =
    let kept = flush-Kept (λ k. h k ≡ i) c (sorted.0, hashed.0) in
    let rest = flush-chains h (suc i) cs sorted.1 hashed.1 in ((kept.0, rest.0), (kept.1, rest.1))
