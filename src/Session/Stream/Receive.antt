-- ===== src/Session/Stream/Receive.antt =====
-- Receiving: `dn_data_ready` and the loop of `dn_recvmsg` that copies from a queue, of
-- kernel/net/decnet/af_decnet.c.
pub mod Bytes
use raspbian_decnet.Base.{
  ℕ, zero, suc, ◌+◌, ◌-◌, ◌≤◌, Bool, true, false, not, ◌&&◌, ◌||◌, ltb, leb, ◌==◌, ◌!=◌,
  if◌then◌else◌, List, [], ◌∷◌, ◌++◌, length, take, drop, bit_and,
}
use raspbian_decnet.Nsp.Socket.{Skb}

-- One call: the size of the buffer, the flags MSG_OOB, MSG_PEEK and MSG_WAITALL, whether the
-- socket has the type SOCK_SEQPACKET, and whether `memcpy_to_msg` fails, by the place in the
-- buffer and the number of bytes.
pub record Request : Type 0 where
  pub size : ℕ
  pub oob : Bool
  pub peek : Bool
  pub waitall : Bool
  pub seqpacket : Bool
  pub faults : ℕ → ℕ → Bool

-- How many bytes are waited for.
unfoldable pub target : Request → ℕ
target r = if r.waitall then r.size else if ltb 1 r.size then 1 else 0

-- A segment that ends a message also ends the reading of it.
abbrev pub ends_message : Request → Skb → Bool
ends_message r skb = bit_and skb.cb.nsp_flags 0x40 != 0 && (r.seqpacket || not r.waitall)

-- The walk of `dn_data_ready`, where `len` bytes have been seen.
unfoldable pub ready_walk : Request → ℕ → List Skb → Bool
ready_walk r len [] = false
ready_walk r len (skb ∷ q) =
    let rest = ready_walk r (len + length skb.bytes) q in
    ends_message r skb || (leb (target r) (len + length skb.bytes) || rest)

unfoldable pub dn_data_ready : Request → List Skb → Bool
dn_data_ready r [] = if r.oob then false else ready_walk r 0 []
dn_data_ready r (skb ∷ q) = if r.oob then true else ready_walk r 0 (skb ∷ q)

-- What the loop leaves: the bytes it copied, the queue, how many segments it unlinked, and the
-- flag 0x40 of the segment it saw last (`eor`).
pub record Copied : Type 0 where
  pub bytes : List ℕ
  pub queue : List Skb
  pub unlinked : ℕ
  pub eor : Bool

-- How much of a segment is read, where `copied` bytes have been.
abbrev pub chunk : Request → ℕ → Skb → ℕ
chunk r copied skb =
    if ltb r.size (length skb.bytes + copied) then r.size - copied else length skb.bytes

-- A segment after the reading, with what `skb_pull` leaves.
abbrev pub pulled : Request → ℕ → Skb → Skb
pulled r copied skb =
    if r.peek then skb else record skb { bytes = drop (chunk r copied skb) skb.bytes }

-- Whether the loop stops after a segment.
abbrev pub stops : Request → ℕ → Skb → Bool
stops r copied skb = ends_message r skb || (r.oob || leb (target r) (copied + chunk r copied skb))

-- A segment of no byte is unlinked, one that has bytes stays in front.
abbrev pub relinked : Skb → List Skb → List Skb
relinked skb q = if length skb.bytes == 0 then q else skb ∷ q

-- The loop on a queue, where `copied` bytes have been copied and `eor` is what it last saw. Where
-- a copy fails, the loop ends with the segment as it was; the -EFAULT is then overwritten by the
-- number of bytes copied.
unfoldable pub copy_loop : Request → ℕ → Bool → List Skb → Copied
copy_loop r copied eor [] = record { bytes = []; queue = []; unlinked = 0; eor = eor }
copy_loop r copied eor (skb ∷ q) =
    let n = chunk r copied skb in
    let here = bit_and skb.cb.nsp_flags 0x40 != 0 in
    let left = pulled r copied skb in
    let gone = if length left.bytes == 0 then 1 else 0 in
    let rest = copy_loop r (copied + n) here q in
    if r.faults copied n
    then record { bytes = []; queue = skb ∷ q; unlinked = 0; eor = eor }
    else if stops r copied skb
    then record { bytes = take n skb.bytes; queue = relinked left q; unlinked = gone; eor = here }
    else record {
      bytes = take n skb.bytes ++ rest.bytes;
      queue = relinked left rest.queue;
      unlinked = gone + rest.unlinked;
      eor = rest.eor;
    }
