-- ===== src/Session/Table/Ports.antt =====
-- `port_alloc` finds a free port whenever there is one, and ends.
use raspbian_decnet.Base.{
  ℕ, zero, suc, ◌+◌, ◌-◌, ◌%◌, ◌≤◌, ◌<◌, ◌≡◌, refl, sym, ap, subst, ◌∙◌, ◌≢◌, ◌↔◌, ◌⊎◌, inl, inr,
  Bool, true, false, Bool-cases, ◌==◌, Option, some, List, [], ◌∷◌, All, arith,
}
use raspbian_decnet.Nsp.Seq.{u16}
use raspbian_decnet.Session.Table.{
  Table, hash_of, first, is_some, check_port, next_port, port_alloc, take_port, set_addrloc,
}

-- The loop ends with a free port, or has found none free.
abbrev pub Search : Table → Option (Bool × ℕ) → Type 0
Search t result =
    ((q : ℕ) × ((result ≡ some (true, q)) × (check_port t q ≡ true) × (q < 65536)))
    ⊎ ((q : ℕ) × ((result ≡ some (false, q)) × ((p : ℕ) → p < 65536 → check_port t p ≡ false)))

-- The ports from the one after `i` on, `j` of them, are taken.
abbrev Taken : Table → ℕ → ℕ → Type 0
Taken t i j = (m : ℕ) → 1 ≤ m → m ≤ j → check_port t ((i + m) % 65536) ≡ false

no_port_left :
    (t : Table) (i j : ℕ)
    → i < 65536
    → j ≡ 65536
    → Taken t i j
    → (p : ℕ) → p < 65536
    → check_port t p ≡ false
no_port_left t i j small all taken p h = elim (Bool-cases (p == i)) [
  | inl e ↦
      let here : (i + j) % 65536 ≡ p = ground (arith, e) in
      rw (sym here) (taken j (omega arith) (omega arith))
  | inr e ↦
      let m = (p + 65536 - i) % 65536 in
      let here : (i + m) % 65536 ≡ p = ground (arith, e) in
      rw (sym here) (taken m (ground (arith, e)) (omega arith))
]

Taken-suc :
    (t : Table) (i j : ℕ)
    → Taken t i j
    → check_port t ((i + suc j) % 65536) ≡ false
    → Taken t i (suc j)
Taken-suc t i j taken last m pos below = elim (Bool-cases (m == suc j)) [
  | inl e ↦ let here : m ≡ suc j = ground (arith, e) in rw here last
  | inr e ↦ taken m pos (ground (arith, e))
]

next_port-Search :
    (t : Table) (i : ℕ)
    → i < 65536
    → (fuel j : ℕ) → Taken t i j
    → 0 < fuel
    → j + fuel ≡ 65536
    → Search t (next_port t i fuel ((i + j) % 65536))
unfolding next_port
next_port-Search t i small zero j taken pos e = absurd (omega arith)
next_port-Search t i small (suc fuel) j taken pos e =
    let next = u16 ((i + j) % 65536 + 1) in
    let next_lem : next ≡ (i + suc j) % 65536 = omega arith in
    elim (Bool-cases (check_port t next)) [
      | inl free ↦ rw free (inl (next, (refl, free, omega arith)))
      | inr busy ↦
          let taken' = Taken-suc t i j taken (ap (check_port t) (sym next_lem) ∙ busy) in
          elim (Bool-cases (next == i)) [
            | inl round ↦
                let all : suc j ≡ 65536 = ground (arith, round) in
                rw (busy, round) (inr (next, (refl, no_port_left t i (suc j) small all taken')))
            | inr on ↦
                rw (busy, on, next_lem)
                  (next_port-Search t i small fuel (suc j) taken' (ground (arith, on))
                    (omega arith))
          ]
    ]

-- The port is a port, and no socket on its chain holds it.
abbrev pub Free : Table → ℕ → Type 0
Free t p = (0 < p) × All (λ sk. (t.socks sk).scp.addrloc ≢ p) (t.sk_hash (hash_of p))

first-All :
    (t : Table) (p : ℕ) (chain : List ℕ)
    → (is_some (first (λ sk. (t.socks sk).scp.addrloc == p) chain) ≡ false)
      ↔ All (λ sk. (t.socks sk).scp.addrloc ≢ p) chain
unfolding first
first-All t p [] = ((λ h. tt), (λ h. refl))
first-All t p (sk ∷ rest) = elim (Bool-cases ((t.socks sk).scp.addrloc == p)) [
  | inl e ↦ rw e ((λ h. cc), (λ h. absurd (h.0 (ground (arith, e)))))
  | inr e ↦
      rw e ((λ h. (ground (arith, e), (first-All t p rest).0 h)), (λ h. (first-All t p rest).1 h.1))
]

pub check_port-Free : (t : Table) (p : ℕ) → (check_port t p ≡ true) ↔ Free t p
unfolding check_port
check_port-Free t p =
    let chain = t.sk_hash (hash_of p) in
    let seen = is_some (first (λ sk. (t.socks sk).scp.addrloc == p) chain) in
    (
      (λ h. (ground (arith, h), (first-All t p chain).0 (ground (arith, h)))),
      (λ h. ground (arith, h.0, (first-All t p chain).1 h.1)),
    )

-- What an allocation gives: a free port to the socket, or 0 where no port is free.
unfoldable pub Allocates : Table → ℕ → Bool × Table → Type 0
Allocates t sk (allocated, t') =
    ((allocated ≡ true)
      × Free t t'.port
      × (t'.port < 65536)
      × (t' ≡ set_addrloc sk t'.port (record t { port = t'.port })))
    ⊎ ((allocated ≡ false) × ((p : ℕ) → p < 65536 → ¬ Free t p) × (t'.socks ≡ t.socks))

take_port-Allocates :
    (t : Table) (sk : ℕ) (result : Option (Bool × ℕ))
    → Search t result
    → Allocates t sk (take_port sk t result)
unfolding Allocates
take_port-Allocates t sk result (inl (q, (e, free, small))) =
    rw e (inl (refl, (check_port-Free t q).0 free, small, refl))
take_port-Allocates t sk result (inr (q, (e, busy))) = rw e (
    inr (
      refl,
      (λ p h free. let held = busy p h in let vacant = (check_port-Free t p).1 free in cc),
      refl,
    ))

-- `port_alloc` ends, and either gives the socket a free port or, when it returns 0, no port is free
-- and the sockets are as they were. A port is free when it is not 0 and no socket on its chain
-- holds it.
pub port_alloc-Allocates : (t : Table) (sk : ℕ) → t.port < 65536 → Allocates t sk (port_alloc t sk)
unfolding port_alloc
port_alloc-Allocates t sk small =
    let start : (t.port + 0) % 65536 ≡ t.port = omega arith in
    take_port-Allocates t sk (next_port t t.port 65536 t.port) (
      subst (λ from. Search t (next_port t t.port 65536 from)) start
        (next_port-Search t t.port small 65536 0 (λ m pos none_yet. absurd (omega arith))
          (omega arith) (omega arith)))
