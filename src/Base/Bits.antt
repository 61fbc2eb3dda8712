-- ===== src/Base/Bits.antt =====
-- `&`, `|` and `^` on the native numbers as arithmetic: masks, disjoint fields, equality by xor.
use Prim.Native.Nat.{
  ℕ, zero, suc, ◌+◌, ◌-◌, ◌*◌, ◌/◌, ◌%◌, ◌^◌, ◌≤◌, ◌<◌, min, max, bit_and, bit_or, bit_xor, digits,
  differ, bitwise, bit_and-bitwise, bit_or-bitwise, bit_xor-bitwise,
}
use mathlib.Core.Path.{◌≡◌, refl, ap, sym, ◌∙◌}
use mathlib.Core.Logic.{◌↔◌}
use native.Mathlib.Nat.{
  pow-suc, one-le-pow, mul-add-mod_self_left, mod-eq_of_lt, mod-lt, div-add-mod, div-div-eq-div-mul,
}
use native.Mathlib.Omega.{arith}

-- The count of digits to go does not matter once it is large enough.
module _ (rest : ℕ → ℕ) (f : ℕ → ℕ → ℕ) where
  digits_enough : (j k a b : ℕ) → a ≤ j → a ≤ k → digits rest f j a b ≡ digits rest f k a b
  digits_enough zero zero a b p q = refl
  digits_enough zero (suc k) zero b p q = refl
  digits_enough (suc j) zero zero b p q = refl
  digits_enough (suc j) (suc k) zero b p q = refl
  digits_enough zero k (suc a) b p q = absurd (omega arith)
  digits_enough (suc j) zero (suc a) b p q = absurd (omega arith)
  digits_enough (suc j) (suc k) (suc a) b p q =
      ap (λ (d : ℕ). d * 2 + f (suc a % 2) (b % 2))
        (digits_enough j k (suc a / 2) (b / 2) (omega arith) (omega arith))

  lowest_digit :
      (a b : ℕ)
      → bitwise rest f (suc a) b ≡ bitwise rest f (suc a / 2) (b / 2) * 2 + f (suc a % 2) (b % 2)
  lowest_digit a b =
      ap (λ (d : ℕ). d * 2 + f (suc a % 2) (b % 2))
        (digits_enough a (suc a / 2) (suc a / 2) (b / 2) (omega arith) (omega arith))

pub and_low : (a b : ℕ) → bit_and a b ≡ bit_and (a / 2) (b / 2) * 2 + min (a % 2) (b % 2)
and_low zero b = simp bit_and-bitwise (omega arith)
and_low (suc a) b = simp bit_and-bitwise (lowest_digit (λ d. 0) min a b)

or_low : (a b : ℕ) → bit_or a b ≡ bit_or (a / 2) (b / 2) * 2 + max (a % 2) (b % 2)
or_low zero b = simp bit_or-bitwise (omega arith)
or_low (suc a) b = simp bit_or-bitwise (lowest_digit (λ d. d) max a b)

xor_low : (a b : ℕ) → bit_xor a b ≡ bit_xor (a / 2) (b / 2) * 2 + differ (a % 2) (b % 2)
xor_low zero b = simp bit_xor-bitwise (omega arith)
xor_low (suc a) b = simp bit_xor-bitwise (lowest_digit (λ d. d) differ a b)

and-zero_below : (n a : ℕ) → a ≤ n → bit_and a 0 ≡ 0
and-zero_below n zero h = refl
and-zero_below zero (suc a) h = absurd (omega arith)
and-zero_below (suc n) (suc a) h =
    omega (arith, and_low (suc a) 0, and-zero_below n (suc a / 2) (omega arith))

or-zero_below : (n a : ℕ) → a ≤ n → bit_or a 0 ≡ a
or-zero_below n zero h = refl
or-zero_below zero (suc a) h = absurd (omega arith)
or-zero_below (suc n) (suc a) h =
    omega (arith, or_low (suc a) 0, or-zero_below n (suc a / 2) (omega arith))

differ-zero : (d : ℕ) → differ d 0 ≡ d
differ-zero zero = refl
differ-zero (suc d) = refl

xor-zero_below : (n a : ℕ) → a ≤ n → bit_xor a 0 ≡ a
xor-zero_below n zero h = refl
xor-zero_below zero (suc a) h = absurd (omega arith)
xor-zero_below (suc n) (suc a) h =
    omega (
      arith,
      xor_low (suc a) 0,
      differ-zero (suc a % 2),
      xor-zero_below n (suc a / 2) (omega arith),
    )

pub bit_and-zero : (a : ℕ) → bit_and a 0 ≡ 0
bit_and-zero a = and-zero_below a a (omega arith)

pub bit_or-zero : (a : ℕ) → bit_or a 0 ≡ a
bit_or-zero a = or-zero_below a a (omega arith)

bit_xor-zero : (a : ℕ) → bit_xor a 0 ≡ a
bit_xor-zero a = xor-zero_below a a (omega arith)

double_split : (p b : ℕ) → 2 * b ≡ 2 * p * (b / p) + 2 * (b % p)
double_split p b = grind (arith, div-add-mod b p)

mod_double : (p a : ℕ) → 0 < p → a % (2 * p) ≡ a / 2 % p * 2 + a % 2
mod_double p a h =
    let q = a / 2 / p in
    let r = a / 2 % p * 2 + a % 2 in
    let split : a ≡ 2 * p * q + r = omega (arith, double_split p (a / 2)) in
    let small : r < 2 * p = omega (arith, mod-lt (a / 2) h) in
    ap (λ (t : ℕ). t % (2 * p)) split ∙ mul-add-mod_self_left (2 * p) q r ∙ mod-eq_of_lt small

two-pow-suc : (k : ℕ) → 2 ^ suc k ≡ 2 * 2 ^ k
two-pow-suc k = omega (arith, pow-suc 2 k)

two-pow-pos : (k : ℕ) → 1 ≤ 2 ^ k
two-pow-pos k = one-le-pow k 2 (omega arith)

div-two-pow-suc : (a k : ℕ) → a / 2 ^ suc k ≡ a / 2 / 2 ^ k
div-two-pow-suc a k = rw (two-pow-suc k) (sym (div-div-eq-div-mul a 2 (2 ^ k)))

-- `a & (2 ^ k - 1)` is the remainder by `2 ^ k`.
pub bit_and_mask : (k a : ℕ) → bit_and a (2 ^ k - 1) ≡ a % 2 ^ k
bit_and_mask zero a = ground (arith, bit_and-zero a)
bit_and_mask (suc k) a = ground (
  arith,
  and_low a (2 ^ suc k - 1),
  two-pow-suc k,
  two-pow-pos k,
  bit_and_mask k (a / 2),
  mod_double (2 ^ k) a (two-pow-pos k),
)

double_place : (d p : ℕ) → d * (2 * p) ≡ d * p * 2
double_place d p = omega arith

-- `a & 2 ^ k` is the digit `k` of `a`, in its place.
pub bit_and_pow : (k a : ℕ) → bit_and a (2 ^ k) ≡ a / 2 ^ k % 2 * 2 ^ k
bit_and_pow zero a = ground (arith, and_low a 1, bit_and-zero (a / 2))
bit_and_pow (suc k) a = ground (
  arith,
  and_low a (2 ^ suc k),
  two-pow-suc k,
  bit_and_pow k (a / 2),
  div-two-pow-suc a k,
  double_place (a / 2 / 2 ^ k % 2) (2 ^ k),
)

-- Setting a digit that is clear adds its place value.
pub bit_or_pow : (k a : ℕ) → a / 2 ^ k % 2 ≡ 0 → bit_or a (2 ^ k) ≡ a + 2 ^ k
bit_or_pow zero a h = ground (arith, or_low a 1, bit_or-zero (a / 2))
bit_or_pow (suc k) a h =
    ground (arith, or_low a (2 ^ suc k), two-pow-suc k, div-two-pow-suc a k, bit_or_pow k (a / 2))

-- So does exclusive or, which takes it away again where the digit is set.
pub bit_xor_pow_clear : (k a : ℕ) → a / 2 ^ k % 2 ≡ 0 → bit_xor a (2 ^ k) ≡ a + 2 ^ k
bit_xor_pow_clear zero a h = ground (arith, xor_low a 1, bit_xor-zero (a / 2))
bit_xor_pow_clear (suc k) a h = ground (
  arith,
  xor_low a (2 ^ suc k),
  differ-zero (a % 2),
  two-pow-suc k,
  div-two-pow-suc a k,
  bit_xor_pow_clear k (a / 2),
)

pub bit_xor_pow_set : (k a : ℕ) → a / 2 ^ k % 2 ≡ 1 → bit_xor a (2 ^ k) + 2 ^ k ≡ a
bit_xor_pow_set zero a h = ground (arith, xor_low a 1, bit_xor-zero (a / 2))
bit_xor_pow_set (suc k) a h = ground (
  arith,
  xor_low a (2 ^ suc k),
  differ-zero (a % 2),
  two-pow-suc k,
  div-two-pow-suc a k,
  bit_xor_pow_set k (a / 2),
)

digit_differ : (d e : ℕ) → d < 2 → e < 2 → (differ d e < 2) × ((differ d e ≡ 0) ↔ (d ≡ e))
digit_differ zero zero hd he = ground arith
digit_differ zero (suc zero) hd he = ground arith
digit_differ (suc zero) zero hd he = ground arith
digit_differ (suc zero) (suc zero) hd he = ground arith
digit_differ (suc (suc d)) e hd he = absurd (omega arith)
digit_differ zero (suc (suc e)) hd he = absurd (omega arith)
digit_differ (suc zero) (suc (suc e)) hd he = absurd (omega arith)

xor_halves :
    (a b : ℕ)
    → (bit_xor a b / 2 ≡ bit_xor (a / 2) (b / 2)) × (bit_xor a b % 2 ≡ differ (a % 2) (b % 2))
xor_halves a b =
    omega (arith, xor_low a b, digit_differ (a % 2) (b % 2) (omega arith) (omega arith))

-- The low digits of `a ^ b` are all clear exactly when those of `a` and `b` agree.
pub xor_mask_iff : (k a b : ℕ) → (bit_xor a b % 2 ^ k ≡ 0) ↔ (a % 2 ^ k ≡ b % 2 ^ k)
xor_mask_iff zero a b = ground arith
xor_mask_iff (suc k) a b = ground (
  arith,
  two-pow-suc k,
  mod_double (2 ^ k) a (two-pow-pos k),
  mod_double (2 ^ k) b (two-pow-pos k),
  mod_double (2 ^ k) (bit_xor a b) (two-pow-pos k),
  xor_halves a b,
  digit_differ (a % 2) (b % 2) (omega arith) (omega arith),
  xor_mask_iff k (a / 2) (b / 2),
)

-- A field above `k` bits beside a number of `k` bits.
pub bit_or_high : (k a n : ℕ) → n < 2 ^ k → bit_or (a * 2 ^ k) n ≡ a * 2 ^ k + n
bit_or_high zero a n h =
    let none_set : n ≡ 0 = omega (arith, h) in rw (none_set) (bit_or-zero (a * 1) ∙ omega arith)
bit_or_high (suc k) a n h =
    let twice : a * 2 ^ suc k ≡ 2 * (a * 2 ^ k) = ap (λ p. a * p) (two-pow-suc k) ∙ grind arith in
    let half : 2 * (a * 2 ^ k) / 2 ≡ a * 2 ^ k = omega arith in
    let low = or_low (2 * (a * 2 ^ k)) n in
    let small : n / 2 < 2 ^ k = omega (arith, h, two-pow-suc k) in
    let high = bit_or_high k a (n / 2) small in
    ap (λ x. bit_or x n) twice
    ∙ (low
        ∙ (ap (λ x. bit_or x (n / 2) * 2 + max (2 * (a * 2 ^ k) % 2) (n % 2)) half
            ∙ ground (arith, high, twice)))
