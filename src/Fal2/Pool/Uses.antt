-- ===== src/Fal2/Pool/Uses.antt =====
-- How the callers of dnprogs/fal2/dap.c use the buffers: each use is one call, and a run of them
-- gives the messages that were written, in order.
use raspbian_decnet.Base.{◌≡◌, some, List, [], ◌∷◌, ◌++◌, ℕ, ◌≤◌, length}
use raspbian_decnet.Fal2.Put.{BufDescr}
use raspbian_decnet.Fal2.Pool.{
  Transmit, iov, completed, dap_alloc_buf, dap_release_buf, dap_flush_buffers, dap_write,
}

-- A message that fits in its buffer of BUFSIZ bytes, 8192 in the C library that the program is
-- built with.
pub record IsMessage (d : BufDescr) : Type 0 where
  pub header : d.hdrlength ≤ length d.front
  pub fits : length d.front ≤ 8192

-- A state of the pool and the buffers that callers hold, the state after the call, and the
-- messages that it wrote.
pub data Use : Transmit → List BufDescr → Transmit → List BufDescr → List (List ℕ) → Type 0 where
  alloc :
      (t : Transmit) (held : List BufDescr) (d : BufDescr) (u : Transmit)
      → dap_alloc_buf t ≡ some (d, u)
      → Use t held u (d ∷ held) []
  fill : (t : Transmit) (held : List BufDescr) (d e : BufDescr) → Use t (d ∷ held) t (e ∷ held) []
  write :
      (t : Transmit) (held : List BufDescr) (d : BufDescr)
      → IsMessage d
      → Use t (d ∷ held) (dap_write t d) held (iov (completed d) ∷ [])
  release :
      (t : Transmit) (held : List BufDescr) (d : BufDescr)
      → Use t (d ∷ held) (dap_release_buf t d) held []
  flush : (t : Transmit) (held : List BufDescr) → Use t held (dap_flush_buffers t) held []

pub data Uses : Transmit → List BufDescr → Transmit → List BufDescr → List (List ℕ) → Type 0 where
  none_yet : (t : Transmit) (held : List BufDescr) → Uses t held t held []
  then_use :
      (t u v : Transmit) (held kept left : List BufDescr) (ms ns : List (List ℕ))
      → Uses t held u kept ms
      → Use u kept v left ns
      → Uses t held v left (ms ++ ns)
