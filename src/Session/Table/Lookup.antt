-- ===== src/Session/Table/Lookup.antt =====
-- What hashing a socket changes for the packets that look for theirs (`dn_find_by_skb`).
use raspbian_decnet.Base.{
  ℕ, ◌<◌, ◌≡◌, ◌≢◌, refl, sym, ap, subst, ◌∙◌, ◌⊎◌, inl, inr, Bool, true, false, Bool-cases, ◌&&◌,
  ◌==◌, if◌then◌else◌, Option, none, some, List, [], ◌∷◌, All, arith,
}
use raspbian_decnet.Nsp.Socket.{DnScp, DnSkbCb, SockaddrDn}
use raspbian_decnet.Nsp.Queue.{tests}
use raspbian_decnet.Session.Table.{
  Table, is_listening, offers, wild_listener, or_else, listen_hash, dn_sklist_find_listener,
  hash_of, sdf_wild, first, port_alloc, set_addrloc, add_node, Chain, add_found, eusers,
  dn_find_list, dn_hash_sock, receives, dn_find_by_skb,
}
use raspbian_decnet.Session.Table.Ports.{Free, Allocates, port_alloc-Allocates}

-- The socket is on no chain.
abbrev pub Unhashed : Table → ℕ → Type 0
Unhashed t sk = (h : ℕ) → All (λ other. other ≢ sk) (t.sk_hash h)

first-test :
    (test : ℕ → Bool) (chain : List ℕ) (sk : ℕ) → first test chain ≡ some sk → test sk ≡ true
unfolding first
first-test test [] sk h = cc
first-test test (other ∷ rest) sk h = elim (Bool-cases (test other)) [
  | inl e ↦ ground (arith, e, h)
  | inr e ↦ first-test test rest sk (ground (arith, e, h))
]

pub find_by_skb-receives :
    (t : Table) (cb : DnSkbCb) (sk : ℕ)
    → dn_find_by_skb t cb ≡ some sk
    → receives (t.socks sk).scp cb ≡ true
unfolding dn_find_by_skb
find_by_skb-receives t cb sk h = first-test (λ other. receives (t.socks other).scp cb) _ sk h

wild_listener-listening :
    (t : Table) (chain : List ℕ) (sk : ℕ)
    → wild_listener t chain ≡ some sk
    → is_listening (t.socks sk) ≡ true
wild_listener-listening t [] sk h = cc
wild_listener-listening t (other ∷ rest) sk h = elim (Bool-cases (is_listening (t.socks other))) [
  | inl e ↦
      let same : other ≡ sk = ground (arith, e, h) in
      subst (λ o. is_listening (t.socks o) ≡ true) same e
  | inr e ↦ ground (arith, e, h)
]

or_else-cases : (a b : Option ℕ) (sk : ℕ) → or_else a b ≡ some sk → (a ≡ some sk) ⊎ (b ≡ some sk)
or_else-cases none b sk h = inr h
or_else-cases (some other) b sk h = inl h

-- A listener that is found is listening.
pub sklist_find_listener-listening :
    (t : Table) (addr : SockaddrDn) (sk : ℕ)
    → dn_sklist_find_listener t addr ≡ some sk
    → is_listening (t.socks sk) ≡ true
unfolding dn_sklist_find_listener
sklist_find_listener-listening t addr sk h =
    let fits =
      λ (other : ℕ). is_listening (t.socks other) && offers (t.socks other).scp.addr addr in
    let chain = t.sk_hash (listen_hash addr) in
    elim (or_else-cases (first fits chain) (wild_listener t t.wild_sk) sk h) [
      | inl e ↦ ground (arith, first-test fits chain sk e)
      | inr e ↦ wild_listener-listening t t.wild_sk sk e
    ]

-- Two tests that agree on all but one socket, which is not on the chain.
first-agree :
    (test test' : ℕ → Bool) (sk : ℕ) (chain : List ℕ)
    → ((other : ℕ) → other ≢ sk → test' other ≡ test other)
    → All (λ other. other ≢ sk) chain
    → first test' chain ≡ first test chain
unfolding first
first-agree test test' sk [] agree away = refl
first-agree test test' sk (other ∷ rest) agree away =
    rw (agree other away.0, first-agree test test' sk rest agree away.1) refl

-- The table when `port_alloc` has found `p` and the socket is on its chain.
abbrev placed : Table → ℕ → ℕ → Table
placed t sk p = add_node sk (Chain.hashed (hash_of p)) (set_addrloc sk p (record t { port = p }))

other_sock : (sk other : ℕ) → other ≢ sk → (other == sk) ≡ false
other_sock sk other h = ground arith

pub same_sock : (sk : ℕ) → (sk == sk) ≡ true
same_sock sk = ground arith

-- A packet whose port hashes elsewhere is not for the port.
elsewhere : (port p : ℕ) → (hash_of port == hash_of p) ≡ false → (port == p) ≡ false
elsewhere port p h = elim (Bool-cases (port == p)) [
  | inl e ↦
      let same : port ≡ p = ground (arith, e) in
      let hash : hash_of port ≡ hash_of p = ap hash_of same in ground (arith, h, hash)
  | inr e ↦ e
]

addrloc-placed : (t : Table) (sk p : ℕ) → ((placed t sk p).socks sk).scp.addrloc ≡ p
addrloc-placed t sk p = rw (same_sock sk) refl

receives-port :
    (scp : DnScp) (cb : DnSkbCb) (p : ℕ)
    → scp.addrloc ≡ p
    → (cb.dst_port == p) ≡ false
    → receives scp cb ≡ false
receives-port scp cb p e h = ground (arith, e, h)

find_by_skb-placed :
    (t : Table) (sk p : ℕ) (cb : DnSkbCb)
    → Unhashed t sk
    → dn_find_by_skb (placed t sk p) cb
      ≡ (if receives ((placed t sk p).socks sk).scp cb then some sk else dn_find_by_skb t cb)
unfolding dn_find_by_skb first
find_by_skb-placed t sk p cb away =
    let t' = placed t sk p in
    let test' : ℕ → Bool = λ other. receives (t'.socks other).scp cb in
    let test : ℕ → Bool = λ other. receives (t.socks other).scp cb in
    let chain = t.sk_hash (hash_of cb.dst_port) in
    let same =
      first-agree test test' sk chain (λ other h. rw (other_sock sk other h) refl)
        (away (hash_of cb.dst_port)) in
    elim (Bool-cases (hash_of cb.dst_port == hash_of p)) [
      | inl e ↦ rw (e, same) refl
      | inr e ↦
          let not_ours =
            receives-port (t'.socks sk).scp cb p (addrloc-placed t sk p)
              (elsewhere cb.dst_port p e) in
          rw (not_ours, e, same) refl
    ]

first-none :
    (t : Table) (cb : DnSkbCb) (chain : List ℕ)
    → All (λ sk. (t.socks sk).scp.addrloc ≢ cb.dst_port) chain
    → first (λ sk. receives (t.socks sk).scp cb) chain ≡ none
unfolding first
first-none t cb [] held = refl
first-none t cb (sk ∷ rest) held =
    let other : (cb.dst_port == (t.socks sk).scp.addrloc) ≡ false = ground (arith, held.0) in
    rw
      (
        receives-port (t.socks sk).scp cb (t.socks sk).scp.addrloc refl other,
        first-none t cb rest held.1,
      )
      refl

-- No packet finds a socket at a free port.
find_by_skb-Free : (t : Table) (cb : DnSkbCb) → Free t cb.dst_port → dn_find_by_skb t cb ≡ none
unfolding dn_find_by_skb
find_by_skb-Free t cb free = first-none t cb (t.sk_hash (hash_of cb.dst_port)) free.1

-- The lookups after a socket was given a port and hashed, for every packet.
abbrev pub Hashes : Table → ℕ → Table → Type 0
Hashes t sk t' =
    ((cb : DnSkbCb)
      → dn_find_by_skb t' cb
        ≡ (if receives (t'.socks sk).scp cb then some sk else dn_find_by_skb t cb))
    × ((cb : DnSkbCb) → cb.dst_port ≡ (t'.socks sk).scp.addrloc → dn_find_by_skb t cb ≡ none)

placed-Hashes : (t : Table) (sk p : ℕ) → Unhashed t sk → Free t p → Hashes t sk (placed t sk p)
placed-Hashes t sk p away free = (
  (λ cb. find_by_skb-placed t sk p cb away),
  (λ cb e.
      let port : cb.dst_port ≡ p = e ∙ addrloc-placed t sk p in
      find_by_skb-Free t cb (subst (Free t) (sym port) free)),
)

abbrev is_wild : Table → ℕ → Bool
is_wild t sk = tests (t.socks sk).scp.addr.sdn_flags sdf_wild

find_list-set_addrloc :
    (t : Table) (sk p : ℕ)
    → is_wild t sk ≡ false
    → dn_find_list (set_addrloc sk p (record t { port = p })) ((placed t sk p).socks sk)
      ≡ some (Chain.hashed (hash_of p))
unfolding dn_find_list
find_list-set_addrloc t sk p tame = rw (same_sock sk, tame) refl

hash_sock-found :
    (t : Table) (sk : ℕ)
    → (t.socks sk).scp.addrloc ≡ 0
    → (port_alloc t sk).0 ≡ true
    → dn_hash_sock t sk
      ≡ add_found sk
          (port_alloc t sk).1
          (dn_find_list (port_alloc t sk).1 ((port_alloc t sk).1.socks sk))
unfolding dn_hash_sock
hash_sock-found t sk no_port found = rw (no_port, found) refl

hash_sock-full :
    (t : Table) (sk : ℕ)
    → (t.socks sk).scp.addrloc ≡ 0
    → (port_alloc t sk).0 ≡ false
    → (dn_hash_sock t sk).0 ≡ eusers
unfolding dn_hash_sock
hash_sock-full t sk no_port full = rw (no_port, full) refl

hash_sock-placed :
    (t : Table) (sk p : ℕ)
    → (t.socks sk).scp.addrloc ≡ 0
    → is_wild t sk ≡ false
    → (port_alloc t sk).0 ≡ true
    → (port_alloc t sk).1 ≡ set_addrloc sk p (record t { port = p })
    → dn_hash_sock t sk ≡ (0, placed t sk p)
hash_sock-placed t sk p no_port tame found after =
    hash_sock-found t sk no_port found ∙ (rw (after, find_list-set_addrloc t sk p tame) refl)

-- When a socket without a port, which is on no chain and is not the wild card, is hashed with
-- success, then each packet that it may receive finds it, each other packet finds what it found
-- before, and before no packet to its new port found any socket.
pub hash_sock-Hashes :
    (t : Table) (sk : ℕ)
    → t.port < 65536
    → (t.socks sk).scp.addrloc ≡ 0
    → tests (t.socks sk).scp.addr.sdn_flags sdf_wild ≡ false
    → Unhashed t sk
    → (dn_hash_sock t sk).0 ≡ 0
    → Hashes t sk (dn_hash_sock t sk).1
unfolding Allocates
hash_sock-Hashes t sk small no_port tame away success = elim (port_alloc-Allocates t sk small) [
  | inl (found, free, range, after) ↦
      let p = (port_alloc t sk).1.port in
      let result = hash_sock-placed t sk p no_port tame found after in
      subst (λ r. Hashes t sk r.1) (sym result) (placed-Hashes t sk p away free)
  | inr (full, held, same) ↦ let error = hash_sock-full t sk no_port full in cc
]
