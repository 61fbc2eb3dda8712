-- ===== src/Fal2/Extensible/Bytes.antt =====
-- The bytes of an extensible field when a bit is set in one, dnprogs/fal2/dap.c.
use raspbian_decnet.Base.{
  ℕ, ◌<◌, ◌^◌, ◌≡◌, refl, Bool, true, false, ltb, ◌==◌, ◌&&◌, ◌||◌, not, if◌then◌else◌, holds_below,
  below, bit_and, bit_or, arith,
}
use raspbian_decnet.Fal2.Get.{extended}

abbrev pub marked : ℕ → ℕ → Bool
marked b l = not (bit_and b (2 ^ l) == 0)

abbrev agree : Bool → Bool → Bool
agree a b = if a then b else not b

-- What setting the bit `k` does to a byte of the field, for the bit `l`.
abbrev set_works : ℕ → ℕ → ℕ → Bool
set_works b k l =
    agree (extended (bit_or b (2 ^ k))) (extended b)
    && (agree (marked (bit_or b (2 ^ k)) l) (k == l || marked b l) && ltb (bit_or b (2 ^ k)) 256)

abbrev set_works_all : ℕ → Bool
set_works_all b = holds_below 7 (λ k. holds_below 7 (λ l. set_works b k l))

set_works-all : holds_below 256 set_works_all ≡ true
set_works-all = refl

abbrev extend_works : ℕ → ℕ → Bool
extend_works b l =
    extended (bit_or b 0x80)
    && (agree (marked (bit_or b 0x80) l) (marked b l) && ltb (bit_or b 0x80) 256)

extend_works-all : holds_below 256 (λ b. holds_below 7 (λ l. extend_works b l)) ≡ true
extend_works-all = refl

agree-eq : (a b : Bool) → agree a b ≡ true → a ≡ b
agree-eq true true h = refl
agree-eq true false h = cc
agree-eq false true h = cc
agree-eq false false h = refl

module _ (b k l : ℕ) (hb : b < 256) (hk : k < 7) (hl : l < 7) where
  set_fact : set_works b k l ≡ true
  set_fact =
      below 7 l (λ l. set_works b k l)
        (below 7 k (λ k. holds_below 7 (λ l. set_works b k l))
          (below 256 b set_works_all set_works-all hb) hk)
        hl

  pub extended-set : extended (bit_or b (2 ^ k)) ≡ extended b
  extended-set = agree-eq _ (extended b) (ground (arith, set_fact))

  pub marked-set : marked (bit_or b (2 ^ k)) l ≡ (k == l || marked b l)
  marked-set = agree-eq _ (k == l || marked b l) (ground (arith, set_fact))

  pub set-below : bit_or b (2 ^ k) < 256
  set-below = ground (arith, set_fact)

  extend_fact : extend_works b l ≡ true
  extend_fact =
      below 7 l (λ l. extend_works b l)
        (below 256 b (λ b. holds_below 7 (λ l. extend_works b l)) extend_works-all hb) hl

  pub extended-extend : extended (bit_or b 0x80) ≡ true
  extended-extend = ground (arith, extend_fact)

  pub extend-below : bit_or b 0x80 < 256
  extend-below = ground (arith, extend_fact)

  pub marked-extend : marked (bit_or b 0x80) l ≡ marked b l
  marked-extend = agree-eq _ (marked b l) (ground (arith, extend_fact))
