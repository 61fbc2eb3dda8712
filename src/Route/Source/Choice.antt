-- ===== src/Route/Source/Choice.antt =====
-- Which address is chosen.
use raspbian_decnet.Base.{
  ℕ, zero, suc, ◌-◌, ◌/◌, ◌^◌, ◌<◌, ◌≡◌, refl, ap, ◌∙◌, inl, inr, Bool-cases, ltb, ◌==◌,
  if◌then◌else◌, List, [], ◌∷◌, arith,
}
use native.Mathlib.Nat.{pow-suc}
use raspbian_decnet.Route.Source.{Ifaddr, match_loop, select_from, dnet_select_source}

-- 16 shifts are enough for 16 bits: one more changes nothing.
match_loop-enough :
    (fuel tmp match_bits : ℕ)
    → tmp < 2 ^ fuel
    → match_loop (suc fuel) tmp match_bits ≡ match_loop fuel tmp match_bits
unfolding match_loop
match_loop-enough zero tmp match_bits small = ground (arith, small)
match_loop-enough (suc fuel) tmp match_bits small =
    let half : tmp / 2 < 2 ^ fuel = omega (arith, small, pow-suc 2 fuel) in
    let again = match_loop-enough fuel (tmp / 2) (match_bits - 1) half in
    ap (λ rest. if tmp == 0 then match_bits else rest) again

-- The addresses that are in scope, in order.
abbrev pub locals : ℕ → List Ifaddr → List ℕ
locals scope [] = []
locals scope (ifa ∷ rest) =
    let later = locals scope rest in
    if ltb scope ifa.ifa_scope then later else ifa.ifa_local ∷ later

abbrev pub first_of : ℕ → List ℕ → ℕ
first_of d [] = d
first_of d (x ∷ xs) = x

abbrev pub last_of : ℕ → List ℕ → ℕ
last_of d [] = d
last_of d (x ∷ xs) = last_of x xs

select_from-last :
    (scope daddr saddr : ℕ) (ifas : List Ifaddr)
    → select_from scope daddr 0 saddr ifas ≡ (
        if daddr == 0
        then first_of saddr (locals scope ifas)
        else last_of saddr (locals scope ifas))
unfolding select_from
select_from-last scope daddr saddr [] = ground arith
select_from-last scope daddr saddr (ifa ∷ rest) = elim (Bool-cases (ltb scope ifa.ifa_scope)) [
  | inl over ↦ rw (over) (select_from-last scope daddr saddr rest)
  | inr within ↦ elim (Bool-cases (daddr == 0)) [
    | inl any ↦ rw (within, any) refl
    | inr known ↦
        rw (within, known) (select_from-last scope daddr ifa.ifa_local rest ∙ rw (known) refl)
  ]
]

-- The source for a destination is the last address in scope, and for no destination the first,
-- whatever the addresses have in common with the destination; 0 where none is in scope.
pub select_source-last :
    (ifas : List Ifaddr) (daddr scope : ℕ)
    → dnet_select_source ifas daddr scope
      ≡ (if daddr == 0 then first_of 0 (locals scope ifas) else last_of 0 (locals scope ifas))
unfolding dnet_select_source
select_source-last ifas daddr scope = select_from-last scope daddr 0 ifas
