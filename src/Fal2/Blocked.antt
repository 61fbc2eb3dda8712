-- ===== src/Fal2/Blocked.antt =====
-- What one end of a DAP link blocks into a packet, the other end takes apart: `DAPwrite` against
-- `DAPnextMessage`, dnprogs/fal2/dap.c.
pub mod Cut
pub mod RoundTrip
pub mod Apart
pub mod Written
use raspbian_decnet.Base.{
  ℕ, zero, suc, ◌+◌, ◌-◌, ◌*◌, ◌<◌, ◌≤◌, ◌^◌, ◌%◌, ◌/◌, ◌≡◌, ◌≢◌, refl, sym, ap, ap₂, ◌∙◌, Bool,
  true, false, ltb, ◌==◌, ◌!=◌, if◌then◌else◌, Option, none, some, List, [], ◌∷◌, ◌++◌, map, length,
  length-append, get_or, take, drop, take-append_length, drop-append_length, bit_and, bit_and_mask,
  arith,
}
use mathlib.Core.List.{append_assoc}
use raspbian_decnet.Fal2.Receive.{
  Rcv, Reading, failed, bytes, dap_read, dap_next_message, parse_message, exhausted,
}
use raspbian_decnet.Fal2.Receive.Frames.{
  next_start, at_message, parse_plain, parse_length, parse_length256,
}
use raspbian_decnet.Fal2.Put.{BufDescr, stored, dap_b_put, dap_2b_put, dap_hdr_done}
use raspbian_decnet.Fal2.Pool.{completed, length_field, iov}
use raspbian_decnet.Fal2.Build.{plain_header, length_header, length256_header}

-- The three headers that the code builds.
pub data Framing : Type 0 where
  plain : Framing
  one_byte : Framing
  two_bytes : Framing

pub record Message : Type 0 where
  pub framing : Framing
  pub type : ℕ
  pub payload : List ℕ

abbrev pub header_of : Framing → ℕ → BufDescr → BufDescr
header_of (plain) = plain_header
header_of (one_byte) = length_header
header_of (two_bytes) = length256_header

-- The message in a buffer that has been used before: its header, and its fields put behind it.
abbrev pub built : Message → List ℕ → BufDescr
built m old =
    let d : BufDescr = record { front = []; rest = old; hdrlength = 0; datalength = 0 } in
    stored (header_of m.framing m.type d) m.payload

-- The header as it leaves, for a payload of `n` bytes.
abbrev pub header_bytes : Framing → ℕ → ℕ → List ℕ
header_bytes (plain) type n = type ∷ 0 ∷ []
header_bytes (one_byte) type n = type ∷ 2 ∷ bit_and n 0xff ∷ []
header_bytes (two_bytes) type n = type ∷ 6 ∷ bit_and n 0xff ∷ bit_and (n / 2 ^ 8) 0xff ∷ []

abbrev pub frame : Message → List ℕ
frame m = header_bytes m.framing m.type (length m.payload) ++ m.payload

-- A buffer in which the fields end where the data's length says.
iov-whole : (d : BufDescr) → d.hdrlength + d.datalength ≡ length d.front → iov d ≡ d.front
iov-whole d e = rw (e) (take-append_length d.front d.rest)

iov-plain :
    (type : ℕ) (payload old : List ℕ)
    → iov (completed (built (record { framing = plain; type = type; payload = payload }) old))
      ≡ type ∷ (0 ∷ payload)
unfolding completed length_field plain_header dap_b_put dap_hdr_done
iov-plain type payload old =
    iov-whole (completed (built (record { framing = plain; type = type; payload = payload }) old))
      (omega arith)

iov-one_byte :
    (type : ℕ) (payload old : List ℕ)
    → iov (completed (built (record { framing = one_byte; type = type; payload = payload }) old))
      ≡ type ∷ (2 ∷ (bit_and (length payload) 0xff ∷ payload))
unfolding completed length_field length_header dap_b_put dap_hdr_done
iov-one_byte type payload old =
    let behind : suc (suc (suc (length payload))) - 3 ≡ length payload = omega arith in
    iov-whole
      (completed (built (record { framing = one_byte; type = type; payload = payload }) old))
      (omega arith)
    ∙ ap (λ n. type ∷ (2 ∷ (bit_and n 0xff ∷ payload))) behind

iov-two_bytes :
    (type : ℕ) (payload old : List ℕ)
    → iov (completed (built (record { framing = two_bytes; type = type; payload = payload }) old))
      ≡ type
        ∷ (6 ∷ (bit_and (length payload) 0xff ∷ (bit_and (length payload / 2 ^ 8) 0xff ∷ payload)))
unfolding completed length_field length256_header dap_b_put dap_2b_put dap_hdr_done
iov-two_bytes type payload old =
    let behind : suc (suc (suc (suc (length payload)))) - 4 ≡ length payload = omega arith in
    iov-whole
      (completed (built (record { framing = two_bytes; type = type; payload = payload }) old))
      (omega arith)
    ∙ ap (λ n. type ∷ (6 ∷ (bit_and n 0xff ∷ (bit_and (n / 2 ^ 8) 0xff ∷ payload)))) behind

pub iov-built : (m : Message) (old : List ℕ) → iov (completed (built m old)) ≡ frame m
iov-built m old = by_framing m.framing m.type m.payload old
  where
    by_framing :
        (f : Framing) (type : ℕ) (payload old : List ℕ)
        → iov (completed (built (record { framing = f; type = type; payload = payload }) old))
          ≡ header_bytes f type (length payload) ++ payload
    by_framing (plain) type payload old = iov-plain type payload old
    by_framing (one_byte) type payload old = iov-one_byte type payload old
    by_framing (two_bytes) type payload old = iov-two_bytes type payload old
