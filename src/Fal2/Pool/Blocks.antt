-- ===== src/Fal2/Pool/Blocks.antt =====
-- How much `DAPwrite` and `DAPflushBuffers` of dnprogs/fal2/dap.c give to one call of `writev`.
use raspbian_decnet.Base.{
  ℕ, zero, suc, ◌+◌, ◌<◌, ◌≤◌, ◌^◌, ◌%◌, ◌≡◌, ◌⊎◌, inl, inr, refl, sym, ap, subst, ◌∙◌, true, ltb,
  Bool-cases, List, [], ◌∷◌, ◌++◌, map, take, length, All, All-append, arith,
}
use raspbian_decnet.Fal2.Put.{BufDescr}
use raspbian_decnet.Fal2.Pool.{
  Transmit, dap_init, iov, size_of, contents, completed, length_field, none_free, room_made,
  chain_length, dap_release_buf, dap_flush_buffers, dap_write,
}
use raspbian_decnet.Fal2.Pool.Uses.{
  IsMessage, Use, alloc, fill, write, release, flush, Uses, none_yet, then_use,
}
use raspbian_decnet.Fal2.Pool.Stream.{write-both, room_made-both, chained, Taken, alloc-both}

abbrev pub total : List (List ℕ) → ℕ
total [] = 0
total (m ∷ ms) = length m + total ms

abbrev pub sizes : List BufDescr → ℕ
sizes [] = 0
sizes (d ∷ ds) = size_of d + sizes ds

-- A message alone, or messages that fit in the negotiated size together.
abbrev pub IsBlock : ℕ → List (List ℕ) → Type 0
IsBlock n b = (length b ≤ 1) ⊎ (total b ≤ n)

abbrev IsChain : ℕ → List BufDescr → Type 0
IsChain n ds = (length ds ≤ 1) ⊎ (sizes ds ≤ n)

abbrev IsSmall : BufDescr → Type 0
IsSmall d = size_of d ≤ 8192

record IsBlocked (n : ℕ) (t : Transmit) : Type 0 where
  pub limit : t.buffer_size ≡ n
  pub blocks : All (IsBlock n) t.sent
  pub chain : IsChain n t.pending
  pub small : All IsSmall t.pending

length-take_le {ℓ} : {A : Type ℓ} (n : ℕ) (xs : List A) → length (take n xs) ≤ n
length-take_le zero xs = omega arith
length-take_le (suc n) [] = omega arith
length-take_le (suc n) (x ∷ xs) = omega (arith, length-take_le n xs)

total_le : (ds : List BufDescr) → total (map iov ds) ≤ sizes ds
total_le [] = omega arith
total_le (d ∷ ds) = omega (arith, total_le ds, length-take_le (size_of d) (contents d))

length-map : (ds : List BufDescr) → length (map iov ds) ≡ length ds
length-map [] = refl
length-map (d ∷ ds) = ap suc (length-map ds)

IsChain-IsBlock : (n : ℕ) (ds : List BufDescr) → IsChain n ds → IsBlock n (map iov ds)
IsChain-IsBlock n ds (inl h) = inl (omega (arith, length-map ds, h))
IsChain-IsBlock n ds (inr h) = inr (omega (arith, total_le ds, h))

flush-IsBlocked : (n : ℕ) (t : Transmit) → IsBlocked n t → IsBlocked n (dap_flush_buffers t)
unfolding dap_flush_buffers
flush-IsBlocked n t ok = record {
  limit = ok.limit;
  blocks =
      All-append (IsBlock n) t.sent (map iov t.pending ∷ []) ok.blocks
        (IsChain-IsBlock n t.pending ok.chain, tt);
  chain = inl (omega arith);
  small = tt;
}

-- The sum does not wrap.
chain_length-sizes :
    (ds : List BufDescr) (len : ℕ) → len + sizes ds < 2 ^ 16 → chain_length ds len ≡ len + sizes ds
unfolding chain_length
chain_length-sizes [] len h = omega arith
chain_length-sizes (d ∷ ds) len h =
    let whole : (len + size_of d) % 2 ^ 16 ≡ len + size_of d = omega (arith, h) in
    rw (whole) (chain_length-sizes ds (len + size_of d) (omega (arith, h)) ∙ omega arith)

sizes-append : (ds es : List BufDescr) → sizes (ds ++ es) ≡ sizes ds + sizes es
sizes-append [] es = omega arith
sizes-append (d ∷ ds) es = omega (arith, sizes-append ds es)

sizes_short : (ds : List BufDescr) → length ds ≤ 1 → All IsSmall ds → sizes ds ≤ 8192
sizes_short [] h small = omega arith
sizes_short (d ∷ []) h small = omega (arith, small.0)
sizes_short (d ∷ e ∷ ds) h small = omega (arith, h)

-- The chain that waits is short enough for the sum of 16 bits.
sizes_below :
    (n : ℕ) (ds : List BufDescr) → n < 2 ^ 16 → IsChain n ds → All IsSmall ds → sizes ds < 2 ^ 16
sizes_below n ds h (inl one) small = omega (arith, sizes_short ds one small)
sizes_below n ds h (inr few) small = omega (arith, h, few)

alone : (ds : List BufDescr) (d : BufDescr) → none_free ds ≡ true → length (ds ++ (d ∷ [])) ≤ 1
alone [] d e = omega arith
alone (b ∷ ds) d e = cc

room-IsChain :
    (n : ℕ) (t : Transmit) (d : BufDescr)
    → n < 2 ^ 16
    → IsBlocked n t
    → IsChain n ((room_made t d).pending ++ (d ∷ []))
unfolding room_made dap_flush_buffers
room-IsChain n t d h ok = elim (Bool-cases (none_free t.pending)) [
  | inl e ↦ inl (rw (e) (alone t.pending d e))
  | inr e ↦
      let sum : chain_length t.pending 0 ≡ sizes t.pending =
        chain_length-sizes t.pending 0 (omega (arith, sizes_below n t.pending h ok.chain ok.small))
        ∙ omega arith in
      elim (Bool-cases (ltb t.buffer_size (chain_length t.pending 0 + size_of d))) [
        | inl over ↦ inl (rw (e, over) (omega arith))
        | inr under ↦
            inr (
              rw (e, under) (ground (arith, under, sum, ok.limit, sizes-append t.pending (d ∷ []))))
      ]
]

room-IsBlocked : (n : ℕ) (t : Transmit) (d : BufDescr) → IsBlocked n t → IsBlocked n (room_made t d)
room-IsBlocked n t d ok = room_made-both (IsBlocked n) t d ok (flush-IsBlocked n t ok)

size-completed : (d : BufDescr) → IsMessage d → size_of (completed d) ≤ 8192
unfolding completed length_field
size-completed d ok = ground (arith, ok.header, ok.fits)

write-IsBlocked :
    (n : ℕ) (t : Transmit) (d : BufDescr)
    → n < 2 ^ 16
    → IsMessage d
    → IsBlocked n t
    → IsBlocked n (dap_write t d)
write-IsBlocked n t d h message ok =
    let c = completed d in
    let u = room_made t c in
    let made : IsBlocked n u = room-IsBlocked n t c ok in
    let appended : IsBlocked n (chained u c) = record {
      limit = made.limit;
      blocks = made.blocks;
      chain = room-IsChain n t c h ok;
      small = All-append IsSmall u.pending (c ∷ []) made.small (size-completed d message, tt);
    } in
    write-both (IsBlocked n) t d appended (flush-IsBlocked n (chained u c) appended)

Taken-IsBlocked :
    (n : ℕ) (t v : Transmit) (bs : List BufDescr) → Taken t bs v → IsBlocked n t → IsBlocked n v
Taken-IsBlocked n t v bs h ok = record {
  limit = h.size ∙ ok.limit;
  blocks = subst (λ s. All (IsBlock n) s) (sym h.log) ok.blocks;
  chain = subst (λ s. IsChain n s) (sym h.chain) ok.chain;
  small = subst (λ s. All IsSmall s) (sym h.chain) ok.small;
}

Use-IsBlocked :
    (n : ℕ) (t u : Transmit) (held left : List BufDescr) (ms : List (List ℕ))
    → n < 2 ^ 16
    → Use t held u left ms
    → IsBlocked n t
    → IsBlocked n u
unfolding dap_release_buf
Use-IsBlocked n t u held left ms h (alloc _ _ d _ e) ok =
    alloc-both (IsBlocked n) t d u e (λ k. Taken-IsBlocked n t u t.buffers k ok)
      (λ k.
        Taken-IsBlocked n (dap_flush_buffers t) u (dap_flush_buffers t).buffers k
          (flush-IsBlocked n t ok))
Use-IsBlocked n t u held left ms h (fill _ _ d e) ok = ok
Use-IsBlocked n t u held left ms h (write _ _ d message) ok = write-IsBlocked n t d h message ok
Use-IsBlocked n t u held left ms h (release _ _ d) ok = record {
  limit = ok.limit;
  blocks = ok.blocks;
  chain = ok.chain;
  small = ok.small;
}
Use-IsBlocked n t u held left ms h (flush _ _) ok = flush-IsBlocked n t ok

Uses-IsBlocked :
    (n : ℕ) (t u : Transmit) (held left : List BufDescr) (ms : List (List ℕ))
    → n < 2 ^ 16
    → Uses t held u left ms
    → IsBlocked n t
    → IsBlocked n u
Uses-IsBlocked n t u held left ms h (none_yet _ _) ok = ok
Uses-IsBlocked n t v held left _ h (then_use _ u _ _ kept _ ms ns before call) ok =
    Use-IsBlocked n u v kept left ns h call (Uses-IsBlocked n t u held kept ms h before ok)

-- From `DAPinit` on, whatever is written, in messages that fit their buffers: each call of
-- `writev` is given one message at most, or messages whose bytes fit in the negotiated buffer size
-- together, a number of 16 bits.
pub Uses-IsBlock :
    (bufsiz buffer_size : ℕ) (u : Transmit) (held : List BufDescr) (ms : List (List ℕ))
    → buffer_size < 2 ^ 16
    → Uses (dap_init bufsiz buffer_size) [] u held ms
    → All (IsBlock buffer_size) u.sent
unfolding dap_init
Uses-IsBlock bufsiz buffer_size u held ms h run =
    let start : IsBlocked buffer_size (dap_init bufsiz buffer_size) = record {
      limit = refl;
      blocks = tt;
      chain = inl (omega arith);
      small = tt;
    } in
    let ended = Uses-IsBlocked buffer_size (dap_init bufsiz buffer_size) u [] held ms h run start in
    ended.blocks
