-- ===== src/Fal2/Pool/Stream.antt =====
-- The pool keeps what its callers rely on: the messages leave in the order in which they were
-- written, whole, and no buffer is lost.
use raspbian_decnet.Base.{
  ℕ, suc, ◌+◌, ◌≡◌, refl, sym, ap, ap₂, ◌∙◌, ◌||◌, not, ltb, if◌then◌else◌, if-both, Bool-cases,
  inl, inr, subst, some, List, [], ◌∷◌, ◌++◌, map, length, length-append, arith,
}
use mathlib.Core.List.{append_assoc, append-nil}
use raspbian_decnet.Fal2.Put.{BufDescr}
use raspbian_decnet.Fal2.Pool.{
  Transmit, iov, completed, none_free, taken_off, given_back, room_made, chain_length, size_of,
  flag_set, dap_alloc_buf, handed_out, dap_release_buf, dap_flush_buffers, dap_write,
}
use raspbian_decnet.Fal2.Receive.{dap_flags_length}
use raspbian_decnet.Fal2.Pool.Uses.{
  Use, alloc, fill, write, release, flush, Uses, none_yet, then_use,
}

abbrev pub flat : List (List (List ℕ)) → List (List ℕ)
flat [] = []
flat (b ∷ bs) = b ++ flat bs

-- What has been given to the socket, and what waits behind it.
abbrev pub stream : Transmit → List (List ℕ)
stream t = flat t.sent ++ map iov t.pending

flat-append : (bs cs : List (List (List ℕ))) → flat (bs ++ cs) ≡ flat bs ++ flat cs
flat-append [] cs = refl
flat-append (b ∷ bs) cs =
    ap (λ r. b ++ r) (flat-append bs cs) ∙ sym (append_assoc b (flat bs) (flat cs))

map-append : (ds es : List BufDescr) → map iov (ds ++ es) ≡ map iov ds ++ map iov es
map-append [] es = refl
map-append (d ∷ ds) es = ap (λ r. iov d ∷ r) (map-append ds es)

pub stream-flush : (t : Transmit) → stream (dap_flush_buffers t) ≡ stream t
unfolding dap_flush_buffers
stream-flush t =
    append-nil (flat (t.sent ++ (map iov t.pending ∷ [])))
    ∙ (flat-append t.sent (map iov t.pending ∷ [])
        ∙ ap (λ r. flat t.sent ++ r) (append-nil (map iov t.pending)))

-- What holds with a flush and without one holds after room is made.
pub room_made-both {ℓ} :
    (P : Transmit → Type ℓ) (t : Transmit) (d : BufDescr)
    → P t
    → P (dap_flush_buffers t)
    → P (room_made t d)
unfolding room_made
room_made-both P t d pt pf =
    if-both P (none_free t.pending) t
      (if ltb t.buffer_size (chain_length t.pending 0 + size_of d) then dap_flush_buffers t else t)
      pt
      (if-both P (ltb t.buffer_size (chain_length t.pending 0 + size_of d)) (dap_flush_buffers t) t
        pf pt)

-- The chain with one more message.
abbrev pub chained : Transmit → BufDescr → Transmit
chained t d = record t { pending = t.pending ++ (d ∷ []) }

pub write-both {ℓ} :
    (P : Transmit → Type ℓ) (t : Transmit) (d : BufDescr)
    → P (chained (room_made t (completed d)) (completed d))
    → P (dap_flush_buffers (chained (room_made t (completed d)) (completed d)))
    → P (dap_write t d)
unfolding dap_write
write-both P t d pc pf =
    let c = chained (room_made t (completed d)) (completed d) in
    if-both P (not (flag_set (completed d) dap_flags_length) || none_free c.buffers)
      (dap_flush_buffers c) c pf pc

stream-room : (t : Transmit) (d : BufDescr) → stream (room_made t d) ≡ stream t
stream-room t d = room_made-both (λ u. stream u ≡ stream t) t d refl (stream-flush t)

stream-chained : (t : Transmit) (d : BufDescr) → stream (chained t d) ≡ stream t ++ (iov d ∷ [])
stream-chained t d =
    ap (λ r. flat t.sent ++ r) (map-append t.pending (d ∷ []))
    ∙ sym (append_assoc (flat t.sent) (map iov t.pending) (iov d ∷ []))

pub stream-write :
    (t : Transmit) (d : BufDescr) → stream (dap_write t d) ≡ stream t ++ (iov (completed d) ∷ [])
stream-write t d =
    let u = room_made t (completed d) in
    let appended =
      stream-chained u (completed d)
      ∙ ap (λ r. r ++ (iov (completed d) ∷ [])) (stream-room t (completed d)) in
    write-both (λ v. stream v ≡ stream t ++ (iov (completed d) ∷ [])) t d appended
      (stream-flush (chained u (completed d)) ∙ appended)

-- How many buffers the pool knows of.
abbrev pub known : Transmit → ℕ
known t = length t.buffers + length t.pending

pub length-given_back :
    (ds pool : List BufDescr) → length (given_back ds pool) ≡ length ds + length pool
length-given_back [] pool = omega arith
length-given_back (d ∷ ds) pool = omega (arith, length-given_back ds (d ∷ pool))

known-flush : (t : Transmit) → known (dap_flush_buffers t) ≡ known t
unfolding dap_flush_buffers
known-flush t = omega (arith, length-given_back t.pending t.buffers)

-- A buffer that is handed out leaves the pool, and nothing else changes.
pub record Taken (t : Transmit) (bs : List BufDescr) (v : Transmit) : Type 0 where
  pub chain : v.pending ≡ t.pending
  pub log : v.sent ≡ t.sent
  pub size : v.buffer_size ≡ t.buffer_size
  pub pool : suc (length v.buffers) ≡ length bs

pub handed :
    (t : Transmit) (bs : List BufDescr) (d : BufDescr) (v : Transmit)
    → handed_out t (taken_off bs) ≡ some (d, v)
    → Taken t bs v
handed t [] d v e = cc
handed t (b ∷ bs) d v e =
    let same : record t { buffers = bs } ≡ v = cc in
    subst (λ (w : Transmit). Taken t (b ∷ bs) w) same
      (record { chain = refl; log = refl; size = refl; pool = refl })

stream-Taken : (t v : Transmit) (bs : List BufDescr) → Taken t bs v → stream v ≡ stream t
stream-Taken t v bs h = ap₂ (λ s p. flat s ++ map iov p) h.log h.chain

known-Taken : (t v : Transmit) → Taken t t.buffers v → suc (known v) ≡ known t
known-Taken t v h = omega (arith, h.pool, ap length h.chain)

-- A new buffer is taken off the pool, as it is or after a flush.
pub alloc-both {ℓ} :
    (P : Transmit → Type ℓ) (t : Transmit) (d : BufDescr) (v : Transmit)
    → dap_alloc_buf t ≡ some (d, v)
    → (Taken t t.buffers v → P v)
    → (Taken (dap_flush_buffers t) (dap_flush_buffers t).buffers v → P v)
    → P v
unfolding dap_alloc_buf
alloc-both P t d v e direct flushed = elim (Bool-cases (none_free t.buffers)) [
  | inl none_left ↦ let u = dap_flush_buffers t in flushed (handed u u.buffers d v (cc))
  | inr left ↦ direct (handed t t.buffers d v (cc))
]

alloc-kept :
    (t : Transmit) (d : BufDescr) (v : Transmit)
    → dap_alloc_buf t ≡ some (d, v)
    → (stream v ≡ stream t) × (suc (known v) ≡ known t)
alloc-kept t d v e =
    let u = dap_flush_buffers t in
    alloc-both (λ w. (stream w ≡ stream t) × (suc (known w) ≡ known t)) t d v e
      (λ h. (stream-Taken t v t.buffers h, known-Taken t v h))
      (λ h. (stream-Taken u v u.buffers h ∙ stream-flush t, known-Taken u v h ∙ known-flush t))

known-room : (t : Transmit) (d : BufDescr) → known (room_made t d) ≡ known t
known-room t d = room_made-both (λ u. known u ≡ known t) t d refl (known-flush t)

known-write : (t : Transmit) (d : BufDescr) → known (dap_write t d) ≡ suc (known t)
known-write t d =
    let u = room_made t (completed d) in
    let longer : known (chained u (completed d)) ≡ suc (known t) =
      omega (arith, known-room t (completed d), length-append u.pending (completed d ∷ [])) in
    write-both (λ v. known v ≡ suc (known t)) t d longer
      (known-flush (chained u (completed d)) ∙ longer)

-- One call.
use_kept :
    (t u : Transmit) (held left : List BufDescr) (ms : List (List ℕ))
    → Use t held u left ms
    → (stream u ≡ stream t ++ ms) × (known u + length left ≡ known t + length held)
unfolding dap_release_buf
use_kept t u held left ms (alloc _ _ d _ e) =
    let kept = alloc-kept t d u e in (kept.0 ∙ sym (append-nil (stream t)), omega (arith, kept.1))
use_kept t u held left ms (fill _ h d e) = (sym (append-nil (stream t)), refl)
use_kept t u held left ms (write _ _ d _) = (stream-write t d, omega (arith, known-write t d))
use_kept t u held left ms (release _ _ d) = (sym (append-nil (stream t)), omega arith)
use_kept t u held left ms (flush _ _) =
    (stream-flush t ∙ sym (append-nil (stream t)), omega (arith, known-flush t))

-- Over every run of calls, the messages given to the socket, followed by those that still wait,
-- are those of before followed by the ones that were written, in order.
pub Uses-stream :
    (t u : Transmit) (held left : List BufDescr) (ms : List (List ℕ))
    → Uses t held u left ms
    → stream u ≡ stream t ++ ms
Uses-stream t u held left ms (none_yet _ _) = sym (append-nil (stream t))
Uses-stream t v held left _ (then_use _ u _ _ kept _ ms ns before call) =
    (use_kept u v kept left ns call).0
    ∙ (ap (λ r. r ++ ns) (Uses-stream t u held kept ms before) ∙ append_assoc (stream t) ms ns)

pub Uses-known :
    (t u : Transmit) (held left : List BufDescr) (ms : List (List ℕ))
    → Uses t held u left ms
    → known u + length left ≡ known t + length held
Uses-known t u held left ms (none_yet _ _) = refl
Uses-known t v held left _ (then_use _ u _ _ kept _ ms ns before call) =
    (use_kept u v kept left ns call).1 ∙ Uses-known t u held kept ms before
