-- ===== src/Fal2/Blocked/Written.antt =====
-- What is written with `DAPwrite`, the other end reads: its blocks against `DAPnextMessage`,
-- dnprogs/fal2/dap.c.
use raspbian_decnet.Base.{
  ℕ, zero, suc, ◌≡◌, refl, sym, ap, ap₂, subst, ◌∙◌, true, List, [], ◌∷◌, ◌++◌, map, length, All,
  arith,
}
use mathlib.Core.List.{append-nil}
use raspbian_decnet.Fal2.Receive.{Rcv, failed, bytes, dap_read, dap_next_message}
use raspbian_decnet.Fal2.Put.{BufDescr}
use raspbian_decnet.Fal2.Pool.{Transmit, iov, completed, dap_init, dap_flush_buffers}
use raspbian_decnet.Fal2.Pool.Uses.{Uses}
use raspbian_decnet.Fal2.Pool.Stream.{flat, stream-flush, Uses-stream}
use raspbian_decnet.Fal2.Blocked.{
  Framing, plain, one_byte, two_bytes, Message, frame, built, iov-built,
}
use raspbian_decnet.Fal2.Blocked.Cut.{FitsField, has_length, blocked}
use raspbian_decnet.Fal2.Blocked.RoundTrip.{IsBlockable, collect, viewed, collect-blocked}
use raspbian_decnet.Fal2.Blocked.Apart.{
  is_counted, IsCut, flush-IsApart, Uses-IsApart, init-IsApart,
}

-- A payload that its length field can hold, and that is not empty where there is such a field.
abbrev pub IsFitting : Message → Type 0
IsFitting m = FitsField m.framing (length m.payload)

-- Bytes in a packet.
abbrev pub packed : List (List ℕ) → List ℕ
packed [] = []
packed (m ∷ ms) = m ++ packed ms

packed-blocked : (ms : List Message) → packed (map frame ms) ≡ blocked ms
packed-blocked [] = refl
packed-blocked (m ∷ ms) = ap (λ b. frame m ++ b) (packed-blocked ms)

has_length-counted : (m : Message) → is_counted (frame m) ≡ true → has_length m.framing ≡ true
has_length-counted m e = by_framing m.framing m.type m.payload e
  where
    by_framing :
        (f : Framing) (type : ℕ) (p : List ℕ)
        → is_counted (frame (record { framing = f; type = type; payload = p })) ≡ true
        → has_length f ≡ true
    by_framing (plain) type p e = absurd (ground (arith, e))
    by_framing (one_byte) type p e = refl
    by_framing (two_bytes) type p e = refl

IsCut-IsBlockable : (ms : List Message) → All IsFitting ms → IsCut (map frame ms) → IsBlockable ms
IsCut-IsBlockable [] fits cut = tt
IsCut-IsBlockable (m ∷ []) fits cut = fits.0
IsCut-IsBlockable (m ∷ n ∷ ms) fits cut =
    (fits.0, has_length-counted m cut.0, IsCut-IsBlockable (n ∷ ms) fits.1 cut.1)

-- The receiver after so many calls of `DAPnextMessage`.
abbrev pub served : ℕ → Rcv → Rcv
served zero r = r
served (suc n) r = served n (dap_next_message r failed).0

-- The blocks are read one after the other, each as one packet, and from each as many messages are
-- taken as were put into it.
abbrev pub read_all : Rcv → List (List (List ℕ)) → List (ℕ × List ℕ)
read_all r [] = []
read_all r (b ∷ bs) =
    let s = (dap_read r (bytes (packed b))).0 in
    collect (length b) s ++ read_all (served (length b) s) bs

-- A list of messages, cut where a block ends.
split_block :
    (b rest : List (List ℕ)) (ms : List Message)
    → b ++ rest ≡ map frame ms
    → (ns : List Message) × (os : List Message) × (ms ≡ ns ++ os)
      × (b ≡ map frame ns)
      × (rest ≡ map frame os)
split_block [] rest ms e = ([], ms, refl, refl, e)
split_block (x ∷ b) rest [] e = absurd (cc)
split_block (x ∷ b) rest (m ∷ ms) e =
    let first : x ≡ frame m = cc in
    let (ns, os, whole, front, back) = split_block b rest ms (cc) in
    (m ∷ ns, os, ap (λ r. m ∷ r) whole, ap₂ (λ y ys. y ∷ ys) first front, back)

map-viewed-append : (ms ns : List Message) → map viewed (ms ++ ns) ≡ map viewed ms ++ map viewed ns
map-viewed-append [] ns = refl
map-viewed-append (m ∷ ms) ns = ap (λ r. viewed m ∷ r) (map-viewed-append ms ns)

length-map-frame : (ms : List Message) → length (map frame ms) ≡ length ms
length-map-frame [] = refl
length-map-frame (m ∷ ms) = ap suc (length-map-frame ms)

All-parts : (ms ns : List Message) → All IsFitting (ms ++ ns) → All IsFitting ms × All IsFitting ns
All-parts [] ns all = (tt, all)
All-parts (m ∷ ms) ns (here, all) = let (left, right) = All-parts ms ns all in ((here, left), right)

collect-packed :
    (r : Rcv) (b : List (List ℕ)) (ms : List Message)
    → All IsFitting ms
    → IsCut b
    → b ≡ map frame ms
    → collect (length b) (dap_read r (bytes (packed b))).0 ≡ map viewed ms
collect-packed r b ms fits cut e =
    let ok = IsCut-IsBlockable ms fits (subst IsCut e cut) in
    subst (λ c. collect (length c) (dap_read r (bytes (packed c))).0 ≡ map viewed ms) (sym e)
      (subst (λ n. collect n (dap_read r (bytes (packed (map frame ms)))).0 ≡ map viewed ms)
        (sym (length-map-frame ms))
        (subst (λ p. collect (length ms) (dap_read r (bytes p)).0 ≡ map viewed ms)
          (sym (packed-blocked ms)) (collect-blocked r ms ok)))

read_all-flat :
    (r : Rcv) (bs : List (List (List ℕ))) (ms : List Message)
    → All IsFitting ms
    → All IsCut bs
    → flat bs ≡ map frame ms
    → read_all r bs ≡ map viewed ms
read_all-flat r [] [] fits cut e = refl
read_all-flat r [] (m ∷ ms) fits cut e = absurd (cc)
read_all-flat r (b ∷ bs) ms fits (cut, cuts) e =
    let (ns, os, whole, front, back) = split_block b (flat bs) ms e in
    let (these, others) = All-parts ns os (subst (All IsFitting) whole fits) in
    let s = served (length b) (dap_read r (bytes (packed b))).0 in
    ap₂ (λ x y. x ++ y) (collect-packed r b ns these cut front)
      (read_all-flat s bs os others cuts back)
    ∙ (sym (map-viewed-append ns os) ∙ ap (map viewed) (sym whole))

-- What has been sent after a last flush is all that was written.
flat-flush :
    (bufsiz buffer_size : ℕ) (u : Transmit) (held : List BufDescr) (ms : List (List ℕ))
    → Uses (dap_init bufsiz buffer_size) [] u held ms
    → flat (dap_flush_buffers u).sent ≡ ms
unfolding dap_init dap_flush_buffers
flat-flush bufsiz buffer_size u held ms run =
    sym (append-nil (flat (dap_flush_buffers u).sent))
    ∙ (stream-flush u ∙ Uses-stream (dap_init bufsiz buffer_size) u [] held ms run)

-- Messages, each with what its buffer held before, and the bytes that `DAPwrite` gives to the
-- socket for them.
abbrev pub messages : List (Message × List ℕ) → List Message
messages [] = []
messages ((m, old) ∷ ms) = m ∷ messages ms

abbrev pub written : List (Message × List ℕ) → List (List ℕ)
written [] = []
written ((m, old) ∷ ms) = iov (completed (built m old)) ∷ written ms

written-frame : (ms : List (Message × List ℕ)) → written ms ≡ map frame (messages ms)
written-frame [] = refl
written-frame ((m, old) ∷ ms) = ap₂ (λ b bs. b ∷ bs) (iov-built m old) (written-frame ms)

-- Take any run of the calls on the transmit buffers from `DAPinit` on (`DAPallocBuf`, filling a
-- buffer, `DAPwrite`, `DAPreleaseBuf`, `DAPflushBuffers`), in which each message that is written
-- fits its buffer, has one of the three headers that the code builds, and has a payload that, where
-- the header has a length field, is not empty and fits that field. When the buffers are flushed at the end, a
-- receiver that reads each block as one packet, and calls `DAPnextMessage` as often as the block
-- has messages, gets the types and payloads of all the messages, in order, wherever `DAPwrite`
-- ended the blocks.
pub Uses-read_all :
    (bufsiz buffer_size : ℕ) (u : Transmit) (held : List BufDescr) (ms : List (Message × List ℕ))
    (r : Rcv)
    → All IsFitting (messages ms)
    → Uses (dap_init bufsiz buffer_size) [] u held (written ms)
    → read_all r (dap_flush_buffers u).sent ≡ map viewed (messages ms)
Uses-read_all bufsiz buffer_size u held ms r fits run =
    let ended =
      Uses-IsApart (dap_init bufsiz buffer_size) u [] held (written ms) run
        (init-IsApart bufsiz buffer_size) in
    read_all-flat r (dap_flush_buffers u).sent (messages ms) fits (flush-IsApart u ended).blocks
      (flat-flush bufsiz buffer_size u held (written ms) run ∙ written-frame ms)
