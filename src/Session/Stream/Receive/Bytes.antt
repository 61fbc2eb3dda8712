-- ===== src/Session/Stream/Receive/Bytes.antt =====
-- What `dn_recvmsg` copies from a queue and what it leaves there.
use raspbian_decnet.Base.{
  take-length, inl, inr, Bool-cases, ℕ, ◌+◌, ◌≤◌, ◌≡◌, refl, sym, ap, ap₂, ◌∙◌, Bool, true, false,
  ◌==◌, ◌!=◌, List, [], ◌∷◌, ◌++◌, length, length-append, ◌⊎◌, take, drop, arith, subst, bit_and,
}
use mathlib.Core.List.{append_assoc}
use raspbian_decnet.Nsp.Socket.{Skb}
use raspbian_decnet.Session.Username.RoundTrip.{take-drop, length-take}
use raspbian_decnet.Session.Stream.Receive.{
  Request, copy_loop, chunk, relinked, pulled, stops, target, dn_data_ready, ready_walk,
}

-- The bytes of a queue, in order.
abbrev pub all_bytes : List Skb → List ℕ
all_bytes [] = []
all_bytes (skb ∷ q) = skb.bytes ++ all_bytes q

no_bytes : (xs : List ℕ) → length xs ≡ 0 → xs ≡ []
no_bytes [] e = refl
no_bytes (x ∷ xs) e = cc

all_bytes-relinked :
    (skb : Skb) (q : List Skb) → all_bytes (relinked skb q) ≡ skb.bytes ++ all_bytes q
all_bytes-relinked skb q = elim (Bool-cases (length skb.bytes == 0)) [
  | inl e ↦ rw (e, no_bytes skb.bytes (ground (arith, e))) refl
  | inr e ↦ rw (e) refl
]

-- One segment, and what follows of it where the call takes bytes.
taken :
    (r : Request) (copied : ℕ) (skb : Skb)
    → r.peek ≡ false
    → take (chunk r copied skb) skb.bytes ++ (pulled r copied skb).bytes ≡ skb.bytes
taken r copied skb takes = rw (takes) (take-drop (chunk r copied skb) skb.bytes)

all_left :
    (r : Request) (copied : ℕ) (skb : Skb) (q : List Skb)
    → r.peek ≡ false
    → take (chunk r copied skb) skb.bytes ++ all_bytes (relinked (pulled r copied skb) q)
      ≡ skb.bytes ++ all_bytes q
all_left r copied skb q takes =
    let n = chunk r copied skb in
    let left = pulled r copied skb in
    ap (λ tail. take n skb.bytes ++ tail) (all_bytes-relinked left q)
    ∙ (sym (append_assoc (take n skb.bytes) left.bytes (all_bytes q))
        ∙ ap (λ b. b ++ all_bytes q) (taken r copied skb takes))

none_left : (xs : List ℕ) → drop (length xs) xs ≡ []
none_left [] = refl
none_left (x ∷ xs) = none_left xs

-- A segment of which bytes are left stops the loop.
whole_segment :
    (r : Request) (copied : ℕ) (skb : Skb)
    → stops r copied skb ≡ false
    → chunk r copied skb ≡ length skb.bytes
unfolding target
whole_segment r copied skb on = ground (arith, on)

-- Where a segment is read as a whole, the bytes of it and of what follows are in order.
in_order :
    (r : Request) (copied : ℕ) (skb : Skb) (copy : List ℕ) (q rest : List Skb)
    → r.peek ≡ false
    → chunk r copied skb ≡ length skb.bytes
    → copy ++ all_bytes q ≡ all_bytes rest
    → (take (chunk r copied skb) skb.bytes ++ copy) ++ all_bytes (relinked (pulled r copied skb) q)
      ≡ skb.bytes ++ all_bytes rest
in_order r copied skb copy q rest takes whole again =
    let n = chunk r copied skb in
    let left = pulled r copied skb in
    let empty : left.bytes ≡ [] = rw (takes, whole) (none_left skb.bytes) in
    let full : take n skb.bytes ≡ skb.bytes =
      ap (λ n. take n skb.bytes) whole ∙ take-length skb.bytes in
    let behind : all_bytes (relinked left q) ≡ all_bytes q =
      all_bytes-relinked left q ∙ ap (λ b. b ++ all_bytes q) empty in
    append_assoc (take n skb.bytes) copy (all_bytes (relinked left q))
    ∙ ap₂ (λ a b. a ++ b) full (ap (λ b. copy ++ b) behind ∙ again)

-- A call without MSG_PEEK takes bytes from the front of the queue: those it copies, followed by
-- those it leaves, are those that were there, also where a copy to the caller fails.
pub copy_loop-bytes :
    (r : Request) (copied : ℕ) (eor : Bool) (q : List Skb)
    → r.peek ≡ false
    → (copy_loop r copied eor q).bytes ++ all_bytes (copy_loop r copied eor q).queue ≡ all_bytes q
unfolding copy_loop
copy_loop-bytes r copied eor [] takes = refl
copy_loop-bytes r copied eor (skb ∷ q) takes =
    let n = chunk r copied skb in
    let here = bit_and skb.cb.nsp_flags 0x40 != 0 in
    let rest = copy_loop r (copied + n) here q in
    let again = copy_loop-bytes r (copied + n) here q takes in
    elim (Bool-cases (r.faults copied n)) [
      | inl fault ↦ rw (fault) refl
      | inr fine ↦ elim (Bool-cases (stops r copied skb)) [
        | inl e ↦ rw (fine, e) (all_left r copied skb q takes)
        | inr e ↦
            rw (fine, e)
              (in_order r copied skb rest.bytes rest.queue q takes (whole_segment r copied skb e)
                again)
      ]
    ]

length-chunk :
    (r : Request) (copied : ℕ) (skb : Skb)
    → length (take (chunk r copied skb) skb.bytes) ≡ chunk r copied skb
length-chunk r copied skb = length-take (chunk r copied skb) skb.bytes (ground arith)

-- A call copies no more bytes than the buffer has room for.
pub copy_loop-size :
    (r : Request) (copied : ℕ) (eor : Bool) (q : List Skb)
    → copied ≤ r.size
    → copied + length (copy_loop r copied eor q).bytes ≤ r.size
unfolding copy_loop
copy_loop-size r copied eor [] fits = ground (arith, fits)
copy_loop-size r copied eor (skb ∷ q) fits =
    let n = chunk r copied skb in
    let here = bit_and skb.cb.nsp_flags 0x40 != 0 in
    let rest = copy_loop r (copied + n) here q in
    let room : copied + n ≤ r.size = ground (arith, fits) in
    let again = copy_loop-size r (copied + n) here q room in
    let first = length-chunk r copied skb in
    elim (Bool-cases (r.faults copied n)) [
      | inl fault ↦ rw (fault) (omega (arith, fits))
      | inr fine ↦ elim (Bool-cases (stops r copied skb)) [
        | inl e ↦ rw (fine, e) (omega (arith, room, first))
        | inr e ↦
            rw (fine, e) (omega (arith, again, first, length-append (take n skb.bytes) rest.bytes))
      ]
    ]

stop_reason :
    (r : Request) (copied : ℕ) (skb : Skb)
    → r.oob ≡ false
    → stops r copied skb ≡ true
    → (target r ≤ copied + chunk r copied skb) ⊎ ((bit_and skb.cb.nsp_flags 0x40 != 0) ≡ true)
stop_reason r copied skb normal e = elim (Bool-cases (bit_and skb.cb.nsp_flags 0x40 != 0)) [
  | inl here ↦ inr here
  | inr more ↦ inl (ground (arith, normal, e, more))
]

still_ready :
    (r : Request) (copied : ℕ) (skb : Skb) (q : List Skb)
    → stops r copied skb ≡ false
    → ready_walk r copied (skb ∷ q) ≡ true
    → ready_walk r (copied + chunk r copied skb) q ≡ true
unfolding ready_walk
still_ready r copied skb q on ready =
    let whole = whole_segment r copied skb on in
    let rest = ready_walk r (copied + length skb.bytes) q in
    let later : rest ≡ true = ground (arith, on, ready, whole) in
    subst (λ n. ready_walk r (copied + n) q ≡ true) (sym whole) later

ready_walk-copy_loop :
    (r : Request) (copied : ℕ) (eor : Bool) (q : List Skb)
    → r.oob ≡ false
    → ((place n : ℕ) → r.faults place n ≡ false)
    → copied ≤ r.size
    → ready_walk r copied q ≡ true
    → (target r ≤ copied + length (copy_loop r copied eor q).bytes)
      ⊎ ((copy_loop r copied eor q).eor ≡ true)
unfolding copy_loop ready_walk
ready_walk-copy_loop r copied eor [] normal fine fits ready = ground (arith, ready)
ready_walk-copy_loop r copied eor (skb ∷ q) normal fine fits ready =
    let n = chunk r copied skb in
    let here = bit_and skb.cb.nsp_flags 0x40 != 0 in
    let rest = copy_loop r (copied + n) here q in
    let room : copied + n ≤ r.size = ground (arith, fits) in
    let first = length-chunk r copied skb in
    elim (Bool-cases (stops r copied skb)) [
      | inl e ↦ rw (fine copied n, e, first) (stop_reason r copied skb normal e)
      | inr e ↦
          let again =
            ready_walk-copy_loop r (copied + n) here q normal fine room
              (still_ready r copied skb q e ready) in
          rw (fine copied n, e, length-append (take n skb.bytes) rest.bytes, first)
            (elim again [ inl h ↦ inl (omega (arith, h)) | inr h ↦ inr h ])
    ]

-- A call without MSG_OOB that `dn_data_ready` lets go on, and whose buffer takes every copy
-- without a fault, copies as many bytes as it waits for, or it has come to the end of a message.
pub data_ready-copy_loop :
    (r : Request) (q : List Skb)
    → r.oob ≡ false
    → ((place n : ℕ) → r.faults place n ≡ false)
    → dn_data_ready r q ≡ true
    → (target r ≤ length (copy_loop r 0 false q).bytes) ⊎ ((copy_loop r 0 false q).eor ≡ true)
unfolding dn_data_ready ready_walk
data_ready-copy_loop r [] normal fine ready = ground (arith, normal, ready)
data_ready-copy_loop r (skb ∷ q) normal fine ready =
    let walk : ready_walk r 0 (skb ∷ q) ≡ true = ground (arith, normal, ready) in
    let found = ready_walk-copy_loop r 0 false (skb ∷ q) normal fine (omega arith) walk in
    elim found [ inl h ↦ inl (omega (arith, h)) | inr h ↦ inr h ]
