-- ===== src/Fal2/Blocked/Apart.antt =====
-- Where `DAPwrite` ends a block: only the last message of a block can be without a length,
-- dnprogs/fal2/dap.c.
use raspbian_decnet.Base.{
  ℕ, zero, suc, ◌-◌, ◌/◌, ◌^◌, ◌≤◌, ◌≡◌, refl, sym, ap, subst, Bool, true, false, not, ◌||◌, ◌!=◌,
  Bool-cases, inl, inr, List, [], ◌∷◌, ◌++◌, map, length, take, get_or, bit_and, All, All-append,
  arith, if◌then◌else◌,
}
use raspbian_decnet.Fal2.Receive.{dap_flags_length, dap_flags_streamid}
use raspbian_decnet.Fal2.Put.{BufDescr, set_at}
use raspbian_decnet.Fal2.Pool.{
  Transmit, iov, size_of, completed, length_field, flag_set, none_free, room_made, dap_init,
  dap_release_buf, dap_flush_buffers, dap_write,
}
use raspbian_decnet.Fal2.Pool.Uses.{
  IsMessage, Use, alloc, fill, write, release, flush, Uses, none_yet, then_use,
}
use raspbian_decnet.Fal2.Pool.Stream.{write-both, room_made-both, chained, Taken, alloc-both}

-- A message says how long it is.
abbrev pub is_counted : List ℕ → Bool
is_counted m = bit_and (get_or m 1 0) dap_flags_length != 0

-- All messages but the last say how long they are.
abbrev pub IsCut : List (List ℕ) → Type 0
IsCut [] = Unit {0}
IsCut (m ∷ []) = Unit {0}
IsCut (m ∷ n ∷ ms) = (is_counted m ≡ true) × IsCut (n ∷ ms)

-- So is every block that was sent, and in the chain that waits all messages say it.
pub record IsApart (t : Transmit) : Type 0 where
  pub blocks : All IsCut t.sent
  pub chain : All (λ d. is_counted (iov d) ≡ true) t.pending

chain-IsCut : (ds : List BufDescr) → All (λ d. is_counted (iov d) ≡ true) ds → IsCut (map iov ds)
chain-IsCut [] all = tt
chain-IsCut (d ∷ []) all = tt
chain-IsCut (d ∷ e ∷ ds) (here, all) = (here, chain-IsCut (e ∷ ds) all)

-- A last message need not say it.
last-IsCut :
    (ds : List BufDescr) (d : BufDescr)
    → All (λ d. is_counted (iov d) ≡ true) ds
    → IsCut (map iov (ds ++ (d ∷ [])))
last-IsCut [] d all = tt
last-IsCut (c ∷ []) d (here, all) = (here, tt)
last-IsCut (c ∷ e ∷ ds) d (here, all) = (here, last-IsCut (e ∷ ds) d all)

flushed :
    (t : Transmit) → All IsCut t.sent → IsCut (map iov t.pending) → IsApart (dap_flush_buffers t)
unfolding dap_flush_buffers
flushed t blocks last = record {
  blocks = All-append IsCut t.sent (map iov t.pending ∷ []) blocks (last, tt);
  chain = tt;
}

pub flush-IsApart : (t : Transmit) → IsApart t → IsApart (dap_flush_buffers t)
flush-IsApart t ok = flushed t ok.blocks (chain-IsCut t.pending ok.chain)

-- A message that is complete says how long it is where its descriptor has the flag.
counted_in_front :
    (front rest : List ℕ) (n : ℕ)
    → length front ≤ n
    → (bit_and (get_or front 1 0) dap_flags_length != 0) ≡ true
    → is_counted (take n (front ++ rest)) ≡ true
counted_in_front [] rest n h e = absurd (ground (arith, e))
counted_in_front (x ∷ []) rest n h e = absurd (ground (arith, e))
counted_in_front (x ∷ y ∷ front) rest zero h e = absurd (omega (arith, h))
counted_in_front (x ∷ y ∷ front) rest (suc zero) h e = absurd (omega (arith, h))
counted_in_front (x ∷ y ∷ front) rest (suc (suc n)) h e = e

length-set_at : (i v : ℕ) (xs : List ℕ) → length (set_at i v xs) ≡ length xs
length-set_at i v [] = refl
length-set_at zero v (x ∷ xs) = refl
length-set_at (suc i) v (x ∷ xs) = ap suc (length-set_at i v xs)

-- The length field takes no room.
length-length_field :
    (d : BufDescr)
    → (length (length_field d).front ≡ length d.front) × (size_of (length_field d) ≡ size_of d)
unfolding length_field
length-length_field d =
    let idx = if flag_set d dap_flags_streamid then 3 else 2 in
    let low = set_at idx (bit_and d.datalength 0xff) d.front in
    ground (
      arith,
      length-set_at idx (bit_and d.datalength 0xff) d.front,
      length-set_at (suc idx) (bit_and (d.datalength / 2 ^ 8) 0xff) low,
    )

length-completed : (d : BufDescr) → IsMessage d → length (completed d).front ≤ size_of (completed d)
unfolding completed
length-completed d ok =
    let whole : BufDescr = record d { datalength = length d.front - d.hdrlength } in
    let (kept, size) = length-length_field whole in omega (arith, kept, size, ok.header)

counted-completed :
    (d : BufDescr)
    → IsMessage d
    → flag_set (completed d) dap_flags_length ≡ true
    → is_counted (iov (completed d)) ≡ true
counted-completed d ok e =
    let c = completed d in counted_in_front c.front c.rest (size_of c) (length-completed d ok) e

if_off {ℓ} : {A : Type ℓ} (b c : Bool) (x y : A) → b ≡ false → (if not b || c then x else y) ≡ x
if_off b c x y e = rw (e) refl

-- A message that does not say how long it is ends its block.
write-flush :
    (t : Transmit) (d : BufDescr)
    → flag_set (completed d) dap_flags_length ≡ false
    → dap_write t d ≡ dap_flush_buffers (chained (room_made t (completed d)) (completed d))
unfolding dap_write
write-flush t d e =
    let u = chained (room_made t (completed d)) (completed d) in
    if_off (flag_set (completed d) dap_flags_length) (none_free u.buffers) (dap_flush_buffers u) u e

write-IsApart : (t : Transmit) (d : BufDescr) → IsMessage d → IsApart t → IsApart (dap_write t d)
write-IsApart t d message ok =
    let c = completed d in
    let u = room_made t c in
    let made : IsApart u = room_made-both IsApart t c ok (flush-IsApart t ok) in
    elim (Bool-cases (flag_set c dap_flags_length)) [
      | inl counted ↦
          let longer : IsApart (chained u c) = record {
            blocks = made.blocks;
            chain =
                All-append (λ d. is_counted (iov d) ≡ true) u.pending (c ∷ []) made.chain
                  (counted-completed d message counted, tt);
          } in
          write-both IsApart t d longer (flush-IsApart (chained u c) longer)
      | inr open_ended ↦
          subst IsApart (sym (write-flush t d open_ended))
            (flushed (chained u c) made.blocks (last-IsCut u.pending c made.chain))
    ]

Taken-IsApart : (t v : Transmit) (bs : List BufDescr) → Taken t bs v → IsApart t → IsApart v
Taken-IsApart t v bs h ok = record {
  blocks = subst (λ s. All IsCut s) (sym h.log) ok.blocks;
  chain = subst (λ s. All (λ d. is_counted (iov d) ≡ true) s) (sym h.chain) ok.chain;
}

Use-IsApart :
    (t u : Transmit) (held left : List BufDescr) (ms : List (List ℕ))
    → Use t held u left ms
    → IsApart t
    → IsApart u
unfolding dap_release_buf
Use-IsApart t u held left ms (alloc _ _ d _ e) ok =
    alloc-both IsApart t d u e (λ k. Taken-IsApart t u t.buffers k ok)
      (λ k.
        Taken-IsApart (dap_flush_buffers t) u (dap_flush_buffers t).buffers k (flush-IsApart t ok))
Use-IsApart t u held left ms (fill _ _ d e) ok = ok
Use-IsApart t u held left ms (write _ _ d message) ok = write-IsApart t d message ok
Use-IsApart t u held left ms (release _ _ d) ok = record { blocks = ok.blocks; chain = ok.chain }
Use-IsApart t u held left ms (flush _ _) ok = flush-IsApart t ok

pub Uses-IsApart :
    (t u : Transmit) (held left : List BufDescr) (ms : List (List ℕ))
    → Uses t held u left ms
    → IsApart t
    → IsApart u
Uses-IsApart t u held left ms (none_yet _ _) ok = ok
Uses-IsApart t v held left _ (then_use _ u _ _ kept _ ms ns before call) ok =
    Use-IsApart u v kept left ns call (Uses-IsApart t u held kept ms before ok)

pub init-IsApart : (bufsiz buffer_size : ℕ) → IsApart (dap_init bufsiz buffer_size)
unfolding dap_init
init-IsApart bufsiz buffer_size = record { blocks = tt; chain = tt }
