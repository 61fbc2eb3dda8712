-- ===== src/Route/Table/Chain.antt =====
-- Chains cut and shortened, kernel/net/decnet/dn_table.c.
use raspbian_decnet.Base.{
  ◌≤◌, ◌≡◌, refl, ap, Bool, true, Bool-cases, inl, inr, List, [], ◌∷◌, ◌++◌, All,
}
use raspbian_decnet.Route.Table.{DnFibNode}
use raspbian_decnet.Route.Table.Lookup.{IsSorted}
use raspbian_decnet.Route.Table.Update.{passing}

module _ (p : DnFibNode → Bool) where
  pub passing-append : (c : List DnFibNode) → (passing p c).0 ++ (passing p c).1 ≡ c
  passing-append [] = refl
  passing-append (f ∷ c) = elim (Bool-cases (p f)) [
    | inl e ↦ rw (e) (ap (λ r. f ∷ r) (passing-append c))
    | inr e ↦ rw (e) refl
  ]

  pub passing-All : (c : List DnFibNode) → All (λ f. p f ≡ true) (passing p c).0
  passing-All [] = tt
  passing-All (f ∷ c) = elim (Bool-cases (p f)) [
    | inl e ↦ rw (e) (e, passing-All c)
    | inr e ↦ rw (e) tt
  ]

pub All-impl {ℓ ℓ'} :
    (P : DnFibNode → Type ℓ) (Q : DnFibNode → Type ℓ') (c : List DnFibNode)
    → ((f : DnFibNode) → P f → Q f)
    → All P c
    → All Q c
All-impl P Q [] imp all = tt
All-impl P Q (f ∷ c) imp all = (imp f all.0, All-impl P Q c imp all.1)

pub drop-All {ℓ} :
    (P : DnFibNode → Type ℓ) (f : DnFibNode) (xs ys : List DnFibNode)
    → All P (xs ++ (f ∷ ys))
    → All P (xs ++ ys)
drop-All P f [] ys all = all.1
drop-All P f (x ∷ xs) ys all = (all.0, drop-All P f xs ys all.1)

pub drop-IsSorted :
    (f : DnFibNode) (xs ys : List DnFibNode) → IsSorted (xs ++ (f ∷ ys)) → IsSorted (xs ++ ys)
drop-IsSorted f [] ys sorted = sorted.1
drop-IsSorted f (x ∷ xs) ys sorted =
    (drop-All (λ g. x.fn_key ≤ g.fn_key) f xs ys sorted.0, drop-IsSorted f xs ys sorted.1)

pub All-behind {ℓ} : (P : DnFibNode → Type ℓ) (ys zs : List DnFibNode) → All P (ys ++ zs) → All P zs
All-behind P [] zs all = all
All-behind P (y ∷ ys) zs all = All-behind P ys zs all.1
