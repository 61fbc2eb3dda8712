-- ===== src/Fal2/Pool.antt =====
-- The pool of transmit buffers and the chain of those that wait, dnprogs/fal2/dap.c. What `writev`
-- is given is kept in `sent`, a list of buffers for each call.
pub mod Uses
pub mod Stream
pub mod Ready
pub mod Blocks
use raspbian_decnet.Base.{
  ℕ, zero, suc, ◌+◌, ◌-◌, ◌*◌, ◌/◌, ◌%◌, ◌^◌, Bool, true, false, not, ◌&&◌, ◌||◌, ltb, leb, ◌==◌,
  ◌!=◌, if◌then◌else◌, Option, none, some, List, [], ◌∷◌, ◌++◌, take, length, get_or, drop, map,
  replicate, bit_and, bit_or,
}
use raspbian_decnet.Fal2.Receive.{dap_flags_streamid, dap_flags_length, dap_flags_len256}
use raspbian_decnet.Fal2.Put.{BufDescr, set_at, seek}

pub record Transmit : Type 0 where
  pub buffers : List BufDescr
  pub pending : List BufDescr
  pub sent : List (List (List ℕ))
  pub buffer_size : ℕ

abbrev pub contents : BufDescr → List ℕ
contents d = d.front ++ d.rest

abbrev pub size_of : BufDescr → ℕ
size_of d = d.hdrlength + d.datalength

-- The bytes that an element of the vector names.
abbrev pub iov : BufDescr → List ℕ
iov d = take (size_of d) (contents d)

-- Buffers pushed on the pool, one after the other.
abbrev pub given_back : List BufDescr → List BufDescr → List BufDescr
given_back [] pool = pool
given_back (d ∷ ds) pool = given_back ds (d ∷ pool)

unfoldable pub dap_flush_buffers : Transmit → Transmit
dap_flush_buffers t = record t {
  buffers = given_back t.pending t.buffers;
  pending = [];
  sent = t.sent ++ (map iov t.pending ∷ []);
}

-- The first buffer of the pool, emptied; without one the code follows a null pointer.
abbrev pub taken_off : List BufDescr → Option (BufDescr × List BufDescr)
taken_off [] = none
taken_off (d ∷ ds) = some (record (seek 0 d) { hdrlength = 0; datalength = 0 }, ds)

abbrev pub handed_out : Transmit → Option (BufDescr × List BufDescr) → Option (BufDescr × Transmit)
handed_out t none = none
handed_out t (some (d, ds)) = some (d, record t { buffers = ds })

abbrev pub none_free : List BufDescr → Bool
none_free [] = true
none_free (d ∷ ds) = false

unfoldable pub dap_alloc_buf : Transmit → Option (BufDescr × Transmit)
unfolding dap_flush_buffers
dap_alloc_buf t =
    let u = if none_free t.buffers then dap_flush_buffers t else t in
    handed_out u (taken_off u.buffers)

unfoldable pub dap_release_buf : Transmit → BufDescr → Transmit
dap_release_buf t d = record t { buffers = d ∷ t.buffers }

-- The two loops over the chain: its length, a uint16_t, and its end.
unfoldable pub chain_length : List BufDescr → ℕ → ℕ
chain_length [] len = len
chain_length (d ∷ ds) len = chain_length ds ((len + size_of d) % 2 ^ 16)

-- A byte of the header, which stands before the offset.
abbrev pub flag_set : BufDescr → ℕ → Bool
flag_set d flag = bit_and (get_or d.front 1 0) flag != 0

-- The length field, where the header has one.
unfoldable pub length_field : BufDescr → BufDescr
length_field d =
    let idx = if flag_set d dap_flags_streamid then 3 else 2 in
    let low = set_at idx (bit_and d.datalength 0xff) d.front in
    let high = set_at (suc idx) (bit_and (d.datalength / 2 ^ 8) 0xff) low in
    if flag_set d dap_flags_length
    then record d { front = if flag_set d dap_flags_len256 then high else low }
    else d

unfoldable pub completed : BufDescr → BufDescr
unfolding length_field
completed d = length_field (record d { datalength = length d.front - d.hdrlength })

unfoldable pub room_made : Transmit → BufDescr → Transmit
unfolding dap_flush_buffers chain_length
room_made t d =
    if none_free t.pending
    then t
    else if ltb t.buffer_size (chain_length t.pending 0 + size_of d)
    then dap_flush_buffers t
    else t

unfoldable pub dap_write : Transmit → BufDescr → Transmit
unfolding completed room_made dap_flush_buffers
dap_write t d =
    let desc = completed d in
    let u = room_made t desc in
    let chained = record u { pending = u.pending ++ (desc ∷ []) } in
    if not (flag_set desc dap_flags_length) || none_free chained.buffers
    then dap_flush_buffers chained
    else chained

-- The eight buffers of `DAPinit`, each the last one's successor.
unfoldable pub dap_init : ℕ → ℕ → Transmit
dap_init bufsiz buffer_size = record {
  buffers =
      replicate 8 (record { front = []; rest = replicate bufsiz 0; hdrlength = 0; datalength = 0 });
  pending = [];
  sent = [];
  buffer_size = buffer_size;
}
