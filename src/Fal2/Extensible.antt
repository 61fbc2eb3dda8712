-- ===== src/Fal2/Extensible.antt =====
-- The bits of an extensible field, `DAPexSetBit` against `DAPexGetBit` of dnprogs/fal2/dap.c.
mod Bytes
mod Bits
use raspbian_decnet.Base.{
  ℕ, zero, suc, ◌+◌, ◌-◌, ◌*◌, ◌<◌, ◌≤◌, ◌^◌, ◌%◌, ◌/◌, ◌≡◌, ◌⊎◌, inl, inr, refl, sym, ap, subst,
  ◌∙◌, Bool, true, false, ltb, ◌==◌, ◌!=◌, ◌&&◌, ◌||◌, not, if◌then◌else◌, Bool-cases, List, [],
  ◌∷◌, length, ◌++◌, if-both, replicate, length-append, length-replicate, get_or, drop, All,
  holds_below, below, bit_and, bit_or, bit_and_pow, arith,
}
use raspbian_decnet.Fal2.Get.{extended, dap_extend, head_byte, ex_skip, dap_ex_get_bit}
use raspbian_decnet.Fal2.Put.{BufDescr, ex_extend, ex_set, dap_ex_set_bit, dap_ex_init}
use raspbian_decnet.Fal2.Extensible.Bits.{
  bit_at, IsField, Zeros, either, bit_at-blank, bit_at-set, set-IsField,
}

length-ex_extend : (n mask : ℕ) (p : List ℕ) → length (ex_extend n mask p) ≡ length p
unfolding ex_extend
length-ex_extend n mask [] = refl
length-ex_extend zero mask (b ∷ p) = refl
length-ex_extend (suc n) mask (b ∷ p) = ap suc (length-ex_extend n mask p)

length-ex_set : (n mask : ℕ) (p : List ℕ) → length (ex_set n mask p) ≡ length p
unfolding ex_set
length-ex_set n mask [] = refl
length-ex_set zero mask (b ∷ p) = refl
length-ex_set (suc n) mask (b ∷ p) =
    if-both (λ q. length q ≡ suc (length p)) (extended b) (b ∷ ex_set n mask p)
      (ex_extend (suc n) mask (b ∷ p)) (ap suc (length-ex_set n mask p))
      (length-ex_extend (suc n) mask (b ∷ p))

same_digits : (i j : ℕ) → (j / 7 == i / 7 && j % 7 == i % 7) ≡ (j == i)
same_digits i j = ground arith

-- One bit more.
get_bit-set_bit :
    (d : BufDescr) (maxlen i j : ℕ)
    → IsField maxlen d.rest
    → i / 7 < maxlen
    → maxlen ≤ length d.rest
    → dap_ex_get_bit (dap_ex_set_bit d i).rest j ≡ (if j == i then 1 else dap_ex_get_bit d.rest j)
unfolding dap_ex_get_bit dap_ex_set_bit
get_bit-set_bit d maxlen i j field fits room =
    bit_at-set (i % 7) (j % 7) (omega arith) (omega arith) maxlen (i / 7) (j / 7) d.rest field fits
      (omega (arith, fits, room))
    ∙ ap (λ t. if t then 1 else bit_at (j / 7) (j % 7) d.rest) (same_digits i j)

still-IsField :
    (d : BufDescr) (maxlen i : ℕ)
    → IsField maxlen d.rest
    → maxlen ≤ length d.rest
    → i / 7 < maxlen
    → IsField maxlen (dap_ex_set_bit d i).rest × (maxlen ≤ length (dap_ex_set_bit d i).rest)
unfolding dap_ex_set_bit
still-IsField d maxlen i field room fits = (
  set-IsField (i % 7) 0 (omega arith) (omega arith) maxlen (i / 7) d.rest field fits,
  omega (arith, length-ex_set (i / 7) (2 ^ (i % 7)) d.rest, room),
)

-- A new field in which bits are set, one after the other.
abbrev pub bits_set : BufDescr → List ℕ → BufDescr
bits_set d [] = d
bits_set d (i ∷ is) = bits_set (dap_ex_set_bit d i) is

abbrev pub among : ℕ → List ℕ → Bool
among j [] = false
among j (i ∷ is) = j == i || among j is

bits_set-more :
    (d : BufDescr) (maxlen j : ℕ) (is : List ℕ)
    → IsField maxlen d.rest
    → maxlen ≤ length d.rest
    → All (λ i. i / 7 < maxlen) is
    → dap_ex_get_bit (bits_set d is).rest j ≡ (if among j is then 1 else dap_ex_get_bit d.rest j)
bits_set-more d maxlen j [] field room fits = refl
bits_set-more d maxlen j (i ∷ is) field room fits =
    let (after, long) = still-IsField d maxlen i field room fits.0 in
    bits_set-more (dap_ex_set_bit d i) maxlen j is after long fits.1
    ∙ ground (arith, get_bit-set_bit d maxlen i j field fits.0 room)

Zeros-init : (n : ℕ) (p : List ℕ) → Zeros n (replicate n 0 ++ p)
Zeros-init zero p = tt
Zeros-init (suc n) p = (refl, Zeros-init n p)

IsField-init : (n : ℕ) (p : List ℕ) → IsField n (replicate n 0 ++ p)
IsField-init zero p = tt
IsField-init (suc n) p = (omega arith, inr (refl, Zeros-init n p))

get_bit-blank : (n j : ℕ) (p : List ℕ) → 0 < n → dap_ex_get_bit (replicate n 0 ++ p) j ≡ 0
unfolding dap_ex_get_bit
get_bit-blank zero j p h = absurd (omega arith)
get_bit-blank (suc n) j p h = bit_at-blank (j / 7) (j % 7) 0 (replicate n 0 ++ p) refl

-- In a field of `maxlen` bytes that `DAPexInit` cleared, over whatever the buffer held, and in
-- which `DAPexSetBit` set bits below 7 * maxlen, `DAPexGetBit` gives 1 for exactly those bits, and
-- 0 for every other number.
pub get_bit-bits_set :
    (d : BufDescr) (maxlen j : ℕ) (is : List ℕ)
    → 0 < maxlen
    → All (λ i. i / 7 < maxlen) is
    → dap_ex_get_bit (bits_set (dap_ex_init d maxlen) is).rest j ≡ (if among j is then 1 else 0)
unfolding dap_ex_init
get_bit-bits_set d maxlen j is some_room fits =
    let p = drop maxlen d.rest in
    bits_set-more (dap_ex_init d maxlen) maxlen j is (IsField-init maxlen p)
      (omega (arith, length-append (replicate maxlen 0) p, length-replicate {A = ℕ} maxlen 0)) fits
    ∙ ap (λ k. if among j is then 1 else k) (get_bit-blank maxlen j p some_room)
