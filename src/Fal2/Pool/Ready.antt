-- ===== src/Fal2/Pool/Ready.antt =====
-- A caller of `DAPallocBuf` is given a buffer, dnprogs/fal2/dap.c.
use raspbian_decnet.Base.{
  ℕ, ◌<◌, ◌≡◌, refl, true, false, Bool-cases, inl, inr, some, List, [], ◌∷◌, length, arith,
}
use raspbian_decnet.Fal2.Put.{BufDescr, seek}
use raspbian_decnet.Fal2.Pool.{
  Transmit, dap_init, none_free, taken_off, dap_alloc_buf, handed_out, dap_flush_buffers,
}
use raspbian_decnet.Fal2.Pool.Uses.{Uses}
use raspbian_decnet.Fal2.Pool.Stream.{known, length-given_back, Uses-known}

hand :
    (t : Transmit) (bs : List BufDescr)
    → 0 < length bs
    → (d : BufDescr) × (v : Transmit) × (handed_out t (taken_off bs) ≡ some (d, v))
hand t [] h = absurd (omega arith)
hand t (b ∷ bs) h =
    (record (seek 0 b) { hdrlength = 0; datalength = 0 }, record t { buffers = bs }, refl)

left_over : (bs : List BufDescr) → none_free bs ≡ false → 0 < length bs
left_over [] e = cc
left_over (b ∷ bs) e = omega arith

all_back :
    (t : Transmit)
    → none_free t.buffers ≡ true
    → 0 < known t
    → 0 < length (dap_flush_buffers t).buffers
unfolding dap_flush_buffers
all_back t e h = omega (arith, h, length-given_back t.pending t.buffers)

alloc-ready :
    (t : Transmit) → 0 < known t → (d : BufDescr) × (v : Transmit) × (dap_alloc_buf t ≡ some (d, v))
unfolding dap_alloc_buf
alloc-ready t h = elim (Bool-cases (none_free t.buffers)) [
  | inl none_left ↦
      let u = dap_flush_buffers t in
      let full : 0 < length u.buffers = all_back t none_left h in
      let (d, v, e) = hand u u.buffers full in (d, v, rw (none_left) e)
  | inr left ↦ let (d, v, e) = hand t t.buffers (left_over t.buffers left) in (d, v, rw (left) e)
]

-- Over every run of calls from `DAPinit` on, a caller is given a buffer while fewer than eight are
-- held, if need be after a flush.
pub alloc-init :
    (bufsiz buffer_size : ℕ) (u : Transmit) (held : List BufDescr) (ms : List (List ℕ))
    → Uses (dap_init bufsiz buffer_size) [] u held ms
    → length held < 8
    → (d : BufDescr) × (v : Transmit) × (dap_alloc_buf u ≡ some (d, v))
unfolding dap_init
alloc-init bufsiz buffer_size u held ms run few =
    alloc-ready u (omega (arith, Uses-known (dap_init bufsiz buffer_size) u [] held ms run, few))
