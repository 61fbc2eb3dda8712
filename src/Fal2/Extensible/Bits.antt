-- ===== src/Fal2/Extensible/Bits.antt =====
-- The bits of an extensible field, where `DAPexSetBit` of dnprogs/fal2/dap.c sets one.
use raspbian_decnet.Base.{
  ℕ, zero, suc, ◌<◌, ◌≤◌, ◌^◌, ◌≡◌, ◌⊎◌, inl, inr, refl, ◌∙◌, Bool, true, false, ◌==◌, ◌!=◌, ◌&&◌,
  if◌then◌else◌, Bool-cases, List, [], ◌∷◌, length, bit_and, bit_or, bit_and_pow, arith,
}
use raspbian_decnet.Fal2.Get.{extended, head_byte, ex_skip}
use raspbian_decnet.Fal2.Put.{ex_extend, ex_set}
use raspbian_decnet.Fal2.Extensible.Bytes.{
  marked, extended-set, marked-set, set-below, extended-extend, marked-extend, extend-below,
}

-- The bit `l` of the byte `m` of a field.
abbrev pub bit_at : ℕ → ℕ → List ℕ → ℕ
bit_at m l p =
    let (offset, q) = ex_skip m p in
    if offset != 0 then 0 else if bit_and (head_byte q) (2 ^ l) == 0 then 0 else 1

abbrev digit : Bool → ℕ
digit t = if t then 1 else 0

bit_at-zero : (l b : ℕ) (p : List ℕ) → bit_at 0 l (b ∷ p) ≡ digit (marked b l)
unfolding ex_skip
bit_at-zero l b p = ground arith

bit_at-suc :
    (m l b : ℕ) (p : List ℕ) → bit_at (suc m) l (b ∷ p) ≡ (if extended b then bit_at m l p else 0)
unfolding ex_skip
bit_at-suc m l b p = elim (Bool-cases (extended b)) [
  | inl e ↦ rw (e) refl
  | inr e ↦ rw (e) (ground arith)
]

-- The next bytes are zeros.
abbrev pub Zeros : ℕ → List ℕ → Type 0
Zeros zero p = Unit {0}
Zeros (suc r) [] = Unit {0}
Zeros (suc r) (c ∷ p) = (c ≡ 0) × Zeros r p

-- A field of at most so many bytes, as `DAPexInit` and `DAPexSetBit` leave it: nothing but zeros
-- behind its last byte.
abbrev pub IsField : ℕ → List ℕ → Type 0
IsField zero p = Unit {0}
IsField (suc r) [] = Unit {0}
IsField (suc r) (b ∷ p) =
    (b < 256) × (((extended b ≡ true) × IsField r p) ⊎ ((extended b ≡ false) × Zeros r p))

nothing : (r : ℕ) → IsField r []
nothing zero = tt
nothing (suc r) = tt

-- The bit that is asked for is the one that was set, or was there before.
abbrev pub either : ℕ → ℕ → ℕ → ℕ → ℕ → ℕ
either m l n k old = if m == n && l == k then 1 else old

pub bit_at-blank : (m l c : ℕ) (p : List ℕ) → c ≡ 0 → bit_at m l (c ∷ p) ≡ 0
unfolding ex_skip
bit_at-blank zero l c p blank = ground (arith, blank, bit_and_pow l 0)
bit_at-blank (suc m) l c p blank = ground (arith, blank)

-- At the last byte of a field, the bytes up to the bit are appended.
module _ (k l : ℕ) (hk : k < 7) (hl : l < 7) where
  bit_at-extend :
      (r n m b : ℕ) (p : List ℕ)
      → b < 256
      → extended b ≡ false
      → n ≤ r
      → Zeros r p
      → n < length (b ∷ p)
      → bit_at m l (ex_extend n (2 ^ k) (b ∷ p)) ≡ either m l n k (bit_at m l (b ∷ p))
  unfolding ex_extend
  bit_at-extend r zero zero b p hb last fits blank room =
      bit_at-zero l (bit_or b (2 ^ k)) p
      ∙ ground (arith, marked-set b k l hb hk hl, bit_at-zero l b p)
  bit_at-extend r zero (suc m) b p hb last fits blank room =
      bit_at-suc m l (bit_or b (2 ^ k)) p
      ∙ ground (arith, extended-set b k l hb hk hl, last, bit_at-suc m l b p)
  bit_at-extend r (suc n) m b [] hb last fits blank room = absurd (omega (arith, room))
  bit_at-extend zero (suc n) m b (c ∷ p) hb last fits blank room = absurd (omega (arith, fits))
  bit_at-extend (suc r) (suc n) zero b (c ∷ p) hb last fits blank room =
      bit_at-zero l (bit_or b 0x80) (ex_extend n (2 ^ k) (c ∷ p))
      ∙ ground (arith, marked-extend b k l hb hk hl, bit_at-zero l b (c ∷ p))
  bit_at-extend (suc r) (suc n) (suc m) b (c ∷ p) hb last fits blank room =
      let here : c ≡ 0 = blank.0 in
      let more =
        bit_at-extend r n m c p (omega (arith, here)) (rw (here) refl) (omega (arith, fits)) blank.1
          (omega (arith, room)) in
      bit_at-suc m l (bit_or b 0x80) (ex_extend n (2 ^ k) (c ∷ p))
      ∙ rw (extended-extend b k l hb hk hl, more)
          (ground (arith, last, bit_at-suc m l b (c ∷ p), bit_at-blank m l c p here))

  ex_set-extend :
      (n mask b : ℕ) (p : List ℕ)
      → extended b ≡ false
      → ex_set n mask (b ∷ p) ≡ ex_extend n mask (b ∷ p)
  unfolding ex_set
  ex_set-extend zero mask b p last = refl
  ex_set-extend (suc n) mask b p last = rw (last) refl

  pub bit_at-set :
      (r n m : ℕ) (p : List ℕ)
      → IsField r p
      → n < r
      → n < length p
      → bit_at m l (ex_set n (2 ^ k) p) ≡ either m l n k (bit_at m l p)
  unfolding ex_set
  bit_at-set zero n m p field fits room = absurd (omega (arith, fits))
  bit_at-set (suc r) n m [] field fits room = absurd (omega (arith, room))
  bit_at-set (suc r) n m (b ∷ p) (hb, inr (last, blank)) fits room =
      rw (ex_set-extend n (2 ^ k) b p last)
        (bit_at-extend r n m b p hb last (omega (arith, fits)) blank room)
  bit_at-set (suc r) zero zero (b ∷ p) (hb, inl (more, field)) fits room =
      bit_at-zero l (bit_or b (2 ^ k)) p
      ∙ ground (arith, marked-set b k l hb hk hl, bit_at-zero l b p)
  bit_at-set (suc r) zero (suc m) (b ∷ p) (hb, inl (more, field)) fits room =
      bit_at-suc m l (bit_or b (2 ^ k)) p
      ∙ ground (arith, extended-set b k l hb hk hl, more, bit_at-suc m l b p)
  bit_at-set (suc r) (suc n) zero (b ∷ p) (hb, inl (more, field)) fits room =
      rw (more) (bit_at-zero l b (ex_set n (2 ^ k) p) ∙ ground (arith, bit_at-zero l b p))
  bit_at-set (suc r) (suc n) (suc m) (b ∷ p) (hb, inl (more, field)) fits room =
      let rest = bit_at-set r n m p field (omega (arith, fits)) (omega (arith, room)) in
      rw (more) (
        bit_at-suc m l b (ex_set n (2 ^ k) p)
        ∙ rw (more, rest) (ground (arith, more, bit_at-suc m l b p)))

  -- Setting a bit leaves a field.
  extend-IsField :
      (r n b : ℕ) (p : List ℕ)
      → b < 256
      → extended b ≡ false
      → n ≤ r
      → Zeros r p
      → IsField (suc r) (ex_extend n (2 ^ k) (b ∷ p))
  unfolding ex_extend
  extend-IsField r zero b p hb last fits blank =
      (set-below b k l hb hk hl, inr (extended-set b k l hb hk hl ∙ last, blank))
  extend-IsField r (suc n) b [] hb last fits blank =
      (extend-below b k l hb hk hl, inl (extended-extend b k l hb hk hl, nothing r))
  extend-IsField zero (suc n) b (c ∷ p) hb last fits blank = absurd (omega (arith, fits))
  extend-IsField (suc r) (suc n) b (c ∷ p) hb last fits blank =
      let here : c ≡ 0 = blank.0 in
      let more =
        extend-IsField r n c p (omega (arith, here)) (rw (here) refl) (omega (arith, fits))
          blank.1 in
      (extend-below b k l hb hk hl, inl (extended-extend b k l hb hk hl, more))

  pub set-IsField : (r n : ℕ) (p : List ℕ) → IsField r p → n < r → IsField r (ex_set n (2 ^ k) p)
  unfolding ex_set
  set-IsField zero n p field fits = tt
  set-IsField (suc r) n [] field fits = tt
  set-IsField (suc r) n (b ∷ p) (hb, inr (last, blank)) fits =
      rw (ex_set-extend n (2 ^ k) b p last)
        (extend-IsField r n b p hb last (omega (arith, fits)) blank)
  set-IsField (suc r) zero (b ∷ p) (hb, inl (more, field)) fits =
      (set-below b k l hb hk hl, inl (extended-set b k l hb hk hl ∙ more, field))
  set-IsField (suc r) (suc n) (b ∷ p) (hb, inl (more, field)) fits =
      rw (more) (hb, inl (more, set-IsField r n p field (omega (arith, fits))))
