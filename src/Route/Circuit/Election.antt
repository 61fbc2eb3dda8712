-- ===== src/Route/Circuit/Election.antt =====
-- Which router a broadcast circuit has: the election, the loss of a router that is silent, and the
-- list of routers of a hello, kernel/net/decnet/dn_dev.c and dn_neigh.c.
use raspbian_decnet.Base.{
  ℕ, zero, suc, ◌+◌, ◌-◌, ◌*◌, ◌%◌, ◌^◌, ◌≤◌, ◌<◌, ◌≡◌, ◌≢◌, refl, sym, ap, subst, ◌∙◌, Bool, true,
  false, not, ◌||◌, leb, ◌==◌, if◌then◌else◌, Bool-cases, inl, inr, Option, none, some, List, [],
  ◌∷◌, ◌++◌, map, length, length-append, bit_and, arith,
}
use mathlib.Core.List.{append_assoc, append-nil}
use raspbian_decnet.Route.Header.{dn_eth2dn}
use raspbian_decnet.Route.Circuit.{
  DnNeigh, DnDev, RouterHello, dn_am_i_a_router, time_before, dn_dev_timer4_func,
  dn_neigh_router_hello, set_router, is_router, dn_neigh_elist, neigh_elist_cb, slot_of, in_slot,
  put_slot, dn_find_slot,
}

-- The device has been up for the delay of five seconds.
abbrev pub past_delay : ℕ → ℕ → DnDev → Bool
past_delay hz jiffies dev = not (time_before jiffies ((dev.uptime + 5 * hz) % 2 ^ 32))

-- What one router knows of another: its address and its priority.
pub record Knows (other : DnNeigh) (dev : DnDev) (local : ℕ) : Type 0 where
  pub addr : other.addr ≡ local
  pub priority : other.priority ≡ dev.parms_priority

-- Of two routers with different addresses that have heard each other's hello and have each other
-- as the device's router, both past the delay, exactly one takes itself for the designated router.
pub am_i_a_router-Knows :
    (hz j k a b : ℕ) (one two : DnDev) (other_one other_two : DnNeigh)
    → a ≢ b
    → Knows other_two two b
    → Knows other_one one a
    → past_delay hz j one ≡ true
    → past_delay hz k two ≡ true
    → dn_am_i_a_router hz j (some other_two) one a
      ≡ not (dn_am_i_a_router hz k (some other_one) two b)
unfolding dn_am_i_a_router
am_i_a_router-Knows hz j k a b one two other_one other_two differ two_known one_known late1 late2 =
    rw (late1, late2, two_known.addr, two_known.priority, one_known.addr, one_known.priority)
      (ground (arith, differ))

-- So many seconds with no hello.
abbrev pub ticks : ℕ → DnDev → DnDev
ticks zero dev = dev
ticks (suc n) dev = ticks n (dn_dev_timer4_func dev)

timer4-on :
    (dev : DnDev) → 1 < dev.dev_t4 → dn_dev_timer4_func dev ≡ record dev { dev_t4 = dev.dev_t4 - 1 }
unfolding dn_dev_timer4_func
timer4-on dev h = let on : leb dev.dev_t4 1 ≡ false = ground (arith, h) in rw (on) refl

timer4-out : (dev : DnDev) → dev.dev_t4 ≤ 1 → (dn_dev_timer4_func dev).router ≡ none
unfolding dn_dev_timer4_func
timer4-out dev h = let out : leb dev.dev_t4 1 ≡ true = ground (arith, h) in rw (out) refl

ticks-router : (n : ℕ) (dev : DnDev) → n < dev.dev_t4 → (ticks n dev).router ≡ dev.router
ticks-router zero dev h = refl
ticks-router (suc n) dev h =
    ap (λ (d : DnDev). (ticks n d).router) (timer4-on dev (omega (arith, h)))
    ∙ ticks-router n (record dev { dev_t4 = dev.dev_t4 - 1 }) (omega (arith, h))

ticks-none : (n : ℕ) (dev : DnDev) → dev.dev_t4 ≡ suc n → (ticks (suc n) dev).router ≡ none
ticks-none zero dev h = timer4-out dev (omega (arith, h))
ticks-none (suc n) dev h =
    ap (λ (d : DnDev). (ticks (suc n) d).router) (timer4-on dev (omega (arith, h)))
    ∙ ticks-none n (record dev { dev_t4 = dev.dev_t4 - 1 }) (omega (arith, h))

pub hello-router :
    (address : ℕ) (msg : RouterHello) (made : DnNeigh) (dev : DnDev)
    → address ≢ 0
    → bit_and (dn_eth2dn msg.id) 0xfc00 ≡ bit_and address 0xfc00
    → is_router dev.router (dn_eth2dn msg.id) ≡ false
    → ((dn_neigh_router_hello address msg made dev).router ≡ some (dn_eth2dn msg.id))
      × ((dn_neigh_router_hello address msg made dev).dev_t4 ≡ dev.multiplier * msg.timer % 2 ^ 32)
unfolding dn_neigh_router_hello set_router
hello-router address msg made dev set same other =
    let unset : (address == 0) ≡ false = ground (arith, set) in
    rw (unset, same, other) (ground arith)

-- A hello from a router of this node's area that is not yet the router of the device makes it that;
-- when nothing more is heard it stays that until the timer has run as many seconds as the
-- multiplier times the hello's timer, a positive number of 32 bits, and then there is none.
pub router_hello-ticks :
    (address n : ℕ) (msg : RouterHello) (made : DnNeigh) (dev : DnDev)
    → address ≢ 0
    → bit_and (dn_eth2dn msg.id) 0xfc00 ≡ bit_and address 0xfc00
    → is_router dev.router (dn_eth2dn msg.id) ≡ false
    → 0 < dev.multiplier * msg.timer
    → dev.multiplier * msg.timer < 2 ^ 32
    → (n < dev.multiplier * msg.timer
        → (ticks n (dn_neigh_router_hello address msg made dev)).router ≡ some (dn_eth2dn msg.id))
      × ((ticks (dev.multiplier * msg.timer) (dn_neigh_router_hello address msg made dev)).router
          ≡ none)
router_hello-ticks address n msg made dev set same other some_time small =
    let (router, t4) = hello-router address msg made dev set same other in
    let heard = dn_neigh_router_hello address msg made dev in
    let seconds = dev.multiplier * msg.timer in
    let whole : heard.dev_t4 ≡ seconds = omega (arith, t4, small) in
    let last : suc (seconds - 1) ≡ seconds = omega (arith, some_time) in
    (
      (λ h. ticks-router n heard (omega (arith, whole, h)) ∙ router),
      subst (λ k. (ticks k heard).router ≡ none) last
          (ticks-none (seconds - 1) heard (omega (arith, whole, last))),
    )

abbrev pub routers : List DnNeigh → List DnNeigh
routers [] = []
routers (d ∷ ds) = if d.ndflag_r1 || d.ndflag_r2 then d ∷ routers ds else routers ds

elist-fits :
    (n : ℕ) (ds : List DnNeigh) (slots : List (List ℕ))
    → length slots + length (routers ds) ≤ n
    → dn_neigh_elist n ds slots ≡ slots ++ map slot_of (routers ds)
unfolding dn_neigh_elist neigh_elist_cb
elist-fits n [] slots h = sym (append-nil slots)
elist-fits n (d ∷ ds) slots h = elim (Bool-cases (d.ndflag_r1 || d.ndflag_r2)) [
  | inl router ↦
      let room : (length slots == n) ≡ false = ground (arith, h, router) in
      let more : length (slots ++ (slot_of d ∷ [])) + length (routers ds) ≤ n =
        ground (arith, h, router, length-append slots (slot_of d ∷ [])) in
      rw (router, room)
        (elist-fits n ds (slots ++ (slot_of d ∷ [])) more
          ∙ append_assoc slots (slot_of d ∷ []) (map slot_of (routers ds)))
  | inr no_router ↦ rw (no_router) (elist-fits n ds slots (ground (arith, h, no_router)))
]

length-put_slot :
    (i : ℕ) (s : List ℕ) (slots : List (List ℕ)) → length (put_slot i s slots) ≡ length slots
length-put_slot i s [] = refl
length-put_slot zero s (t ∷ slots) = refl
length-put_slot (suc i) s (t ∷ slots) = ap suc (length-put_slot i s slots)

length-in_slot :
    (o : Option ℕ) (d : DnNeigh) (slots : List (List ℕ)) → length (in_slot o d slots) ≡ length slots
length-in_slot none d slots = refl
length-in_slot (some i) d slots = length-put_slot i (slot_of d) slots

length-elist :
    (n : ℕ) (ds : List DnNeigh) (slots : List (List ℕ))
    → length slots ≤ n
    → length (dn_neigh_elist n ds slots) ≤ n
unfolding dn_neigh_elist neigh_elist_cb
length-elist n [] slots h = h
length-elist n (d ∷ ds) slots h = length-elist n ds (neigh_elist_cb n d slots) (
    ground (
      arith,
      h,
      length-in_slot (dn_find_slot slots d.priority) d slots,
      length-append slots (slot_of d ∷ []),
    ))

-- The list of a router hello has no more slots than there is room for; where the routers among the
-- neighbours are no more than that, it is the list of exactly them, in order.
pub elist-routers :
    (n : ℕ) (ds : List DnNeigh)
    → (length (dn_neigh_elist n ds []) ≤ n)
      × (length (routers ds) ≤ n → dn_neigh_elist n ds [] ≡ map slot_of (routers ds))
elist-routers n ds =
    (length-elist n ds [] (omega arith), (λ h. elist-fits n ds [] (omega (arith, h))))
