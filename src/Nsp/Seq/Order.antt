-- ===== src/Nsp/Seq/Order.antt =====
-- The order of sequence numbers on the circle of 4096.
use raspbian_decnet.Base.{
  ℕ, ◌+◌, ◌-◌, ◌/◌, ◌%◌, ◌<◌, ◌≡◌, ◌↔◌, true, false, ◌||◌, ltb, ◌==◌, arith, bit_and, bit_xor,
  bit_and_mask, bit_and_pow, xor_mask_iff,
}
use raspbian_decnet.Nsp.Seq.{
  u16, nsp_sg_mask, int_sub, dn_before, dn_after, dn_equal, dn_before_or_equal, seq_add, seq_next,
  sendack,
}

-- How many steps forward lead from `a` to `b` on the circle.
abbrev pub ahead : ℕ → ℕ → ℕ
ahead a b = (b % 4096 + 4096 - a % 4096) % 4096

sg_mask : (a : ℕ) → bit_and a nsp_sg_mask ≡ a % 4096
sg_mask = bit_and_mask 12

masked_difference :
    (a b : ℕ)
    → bit_and (int_sub (bit_and a nsp_sg_mask) (bit_and b nsp_sg_mask)) nsp_sg_mask ≡ ahead b a
masked_difference a b =
    ground (
      arith,
      sg_mask a,
      sg_mask b,
      sg_mask (int_sub (bit_and a nsp_sg_mask) (bit_and b nsp_sg_mask)),
    )

pub dn_before_lem : (a b : ℕ) → dn_before a b ≡ ltb 2048 (ahead b a)
unfolding dn_before
dn_before_lem a b = ground (arith, masked_difference a b)

pub dn_after_lem : (a b : ℕ) → dn_after a b ≡ ltb 2048 (ahead a b)
unfolding dn_after
dn_after_lem a b = ground (arith, masked_difference b a)

pub dn_equal_lem : (a b : ℕ) → dn_equal a b ≡ (a % 4096 == b % 4096)
unfolding dn_equal
dn_equal_lem a b = ground (arith, sg_mask (bit_xor a b), xor_mask_iff 12 a b)

pub dn_before_or_equal_lem :
    (a b : ℕ) → dn_before_or_equal a b ≡ (ltb 2048 (ahead b a) || a % 4096 == b % 4096)
unfolding dn_before_or_equal
dn_before_or_equal_lem a b = ground (arith, dn_before_lem a b, dn_equal_lem a b)

pub seq_add_lem : (a n : ℕ) → seq_add a n ≡ (a + n) % 4096
unfolding seq_add
seq_add_lem a n = ground (arith, sg_mask (u16 (a + n)))

pub seq_next_lem : (a b : ℕ) → seq_next a b ≡ ((a + 1) % 4096 == b % 4096)
unfolding seq_next
seq_next_lem a b = ground (arith, dn_equal_lem (u16 (a + 1)) b)

pub sendack_lem : (a : ℕ) → sendack a ≡ (a / 4096 % 2 == 0)
unfolding sendack
sendack_lem a = ground (arith, bit_and_pow 12 a)

-- Any two sequence numbers that are not 2048 apart stand in exactly one of the three relations
-- before, equal and after; two that are 2048 apart stand in none. `before` and `after` are
-- converse.
pub seq_trichotomy :
    (a b : ℕ)
    → (dn_after a b ≡ dn_before b a)
      × ((ahead a b ≡ 2048)
          ↔ ((dn_before a b ≡ false) × (dn_equal a b ≡ false) × (dn_after a b ≡ false)))
      × ¬ ((dn_before a b ≡ true) × (dn_equal a b ≡ true))
      × ¬ ((dn_before a b ≡ true) × (dn_after a b ≡ true))
      × ¬ ((dn_equal a b ≡ true) × (dn_after a b ≡ true))
seq_trichotomy a b =
    ground (arith, dn_before_lem a b, dn_after_lem a b, dn_before_lem b a, dn_equal_lem a b)

-- Adding to a sequence number steps forward, across the wrap: less than 2048 steps on it is
-- after the old number, and the number one step on is the one that `seq_next` accepts.
pub seq_add_forward :
    (a n : ℕ)
    → 0 < n
    → n < 2048
    → (dn_before a (seq_add a n) ≡ true)
      × (ahead a (seq_add a n) ≡ n)
      × ((seq_next a (seq_add a n) ≡ true) ↔ (n ≡ 1))
seq_add_forward a n pos small =
    ground (arith, seq_add_lem a n, dn_before_lem a (seq_add a n), seq_next_lem a (seq_add a n))
