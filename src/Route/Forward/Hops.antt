-- ===== src/Route/Forward/Hops.antt =====
-- A packet on its way through routers: `dn_forward` at one, the wire, and `dn_route_rcv` at the
-- next.
use raspbian_decnet.Base.{
  below, ℕ, ◌+◌, ◌≤◌, ◌<◌, ◌≡◌, ◌≢◌, refl, sym, ap, subst, ◌∙◌, ◌⊎◌, inl, inr, Bool, true, false,
  ◌&&◌, ltb, if◌then◌else◌, Option, none, some, Option-cases, Bool-cases, List, [], ◌∷◌, length,
  All, arith, bit_and, bit_or, bit_and_mask,
}
use mathlib.Core.Option
use raspbian_decnet.Nsp.Socket.{Skb}
use raspbian_decnet.Route.Header.{dn_long_output, dn_short_output}
use raspbian_decnet.Route.Receive.{Arrival, Disposal, dn_route_rcv}
use raspbian_decnet.Route.Receive.RoundTrip.{
  Accepts, IsSendable, arrives, read_back, long_flags, short_flags, rcv-long_output,
  rcv-short_output,
}
use raspbian_decnet.Route.Forward.{Hop, dn_forward}

-- One leg of the way: what a router knows of the packet, the kind of its link, and the other end.
pub record Leg : Type 0 where
  pub hop : Hop
  pub use_long : Bool
  pub room : Bool
  pub other_end : Arrival

abbrev pub delivered : Disposal → Option Skb
delivered Disposal.dropped = none
delivered (Disposal.to_ptp_hello p) = none
delivered (Disposal.to_discard p) = none
delivered (Disposal.to_router_hello p) = none
delivered (Disposal.to_endnode_hello p) = none
delivered (Disposal.to_rx_packet p) = some p.skb

abbrev pub put_out : Leg → Skb → Option Skb
put_out l skb = if l.use_long then dn_long_output l.room skb else dn_short_output l.room skb

abbrev pub received : Leg → Option Skb → Option Skb
received l none = none
received l (some wire) = delivered (dn_route_rcv (arrives l.other_end wire))

abbrev pub sent_on : Leg → Option Skb → Option Skb
sent_on l none = none
sent_on l (some onward) = received l (put_out l onward)

abbrev pub pass : Leg → Skb → Option Skb
pass l skb = sent_on l (dn_forward l.hop skb)

abbrev pub passes : List Leg → Option Skb → Option Skb
passes legs none = none
passes [] (some skb) = some skb
passes (l ∷ legs) (some skb) = passes legs (pass l skb)

-- A packet that has come one hop further.
pub record Further (skb skb' : Skb) : Type 0 where
  pub hops : skb'.cb.hops ≡ skb.cb.hops + 1
  pub few : skb'.cb.hops ≤ 30
  pub bytes : skb'.bytes ≡ skb.bytes
  pub dst : skb'.cb.dst ≡ skb.cb.dst
  pub src : skb'.cb.src ≡ skb.cb.src
  pub rt_flags : skb'.cb.rt_flags < 256

onward_flags :
    (f : ℕ) → f < 256 → (ltb (bit_and f 0xdf) 256 && ltb (bit_or (bit_and f 0xdf) 0x20) 256) ≡ true
onward_flags f small =
    below 256 f (λ f. ltb (bit_and f 0xdf) 256 && ltb (bit_or (bit_and f 0xdf) 0x20) 256) refl small

forward-Further :
    (h : Hop) (skb onward : Skb)
    → IsSendable skb
    → skb.cb.hops < 256
    → dn_forward h skb ≡ some onward
    → Further skb onward
unfolding dn_forward
forward-Further h skb onward can hops e =
    ground (arith, can.rt_flags, hops, e, onward_flags skb.cb.rt_flags can.rt_flags)

wire_flags : (f : ℕ) → f < 256 → (ltb (long_flags f) 256 && ltb (short_flags f) 256) ≡ true
wire_flags f small = below 256 f (λ f. ltb (long_flags f) 256 && ltb (short_flags f) 256) refl small

Further-IsSendable : (skb skb' : Skb) → IsSendable skb → Further skb skb' → IsSendable skb'
Further-IsSendable skb skb' can f =
    let size = ap length f.bytes in
    record {
      dst = subst (λ n. n < 65536) (sym f.dst) can.dst;
      src = subst (λ n. n < 65536) (sym f.src) can.src;
      rt_flags = f.rt_flags;
      some_byte = omega (arith, size, can.some_byte);
      fits = omega (arith, size, can.fits);
    }

read_back-Further :
    (a : Arrival) (flags : ℕ) (skb onward : Skb)
    → Further skb onward
    → flags < 256
    → Further skb (read_back a flags onward)
read_back-Further a flags skb onward f small =
    let low = bit_and_mask 6 onward.cb.hops in
    record {
      hops = omega (arith, low, f.hops, f.few);
      few = omega (arith, low, f.few);
      bytes = f.bytes;
      dst = f.dst;
      src = f.src;
      rt_flags = small;
    }

-- What the other end is told by the flags.
abbrev pub leg_flags : Leg → Skb → ℕ
leg_flags l onward =
    if l.use_long then long_flags onward.cb.rt_flags else short_flags onward.cb.rt_flags

abbrev all_delivered : Option Disposal → Option Skb
all_delivered none = none
all_delivered (some outcome) = delivered outcome

received-map :
    (l : Leg) (o : Option Skb)
    → received l o ≡ all_delivered (Option.map (λ wire. dn_route_rcv (arrives l.other_end wire)) o)
received-map l none = refl
received-map l (some wire) = refl

output_received :
    (l : Leg) (onward : Skb)
    → Accepts l.other_end onward.cb.dst
    → IsSendable onward
    → l.room ≡ true
    → received l (put_out l onward) ≡ some (read_back l.other_end (leg_flags l onward) onward)
output_received l onward ok can room = elim (Bool-cases l.use_long) [
  | inl e ↦
      rw (e, room)
        (received-map l (dn_long_output true onward)
          ∙ ap all_delivered (rcv-long_output l.other_end onward ok can))
  | inr e ↦
      rw (e, room)
        (received-map l (dn_short_output true onward)
          ∙ ap all_delivered (rcv-short_output l.other_end onward ok can))
]

no_room : (l : Leg) (onward : Skb) → l.room ≡ false → received l (put_out l onward) ≡ none
unfolding dn_long_output dn_short_output
no_room l onward e = elim (Bool-cases l.use_long) [
  | inl long ↦ rw (e, long) refl
  | inr short ↦ rw (e, short) refl
]

-- A leg that forwards the packet brings it one hop further.
carried :
    (l : Leg) (skb onward : Skb)
    → Accepts l.other_end skb.cb.dst
    → IsSendable skb
    → skb.cb.hops < 256
    → l.room ≡ true
    → dn_forward l.hop skb ≡ some onward
    → (skb' : Skb) × (pass l skb ≡ some skb') × Further skb skb'
carried l skb onward ok can hops room e =
    let f = forward-Further l.hop skb onward can hops e in
    let can' = Further-IsSendable skb onward can f in
    let ok' = subst (λ n. Accepts l.other_end n) (sym f.dst) ok in
    (
      read_back l.other_end (leg_flags l onward) onward,
      ap (sent_on l) e ∙ output_received l onward ok' can' room,
      read_back-Further l.other_end (leg_flags l onward) skb onward f
          (ground (arith, wire_flags onward.cb.rt_flags f.rt_flags)),
    )

-- A leg loses the packet, or brings it one hop further.
pass-cases :
    (l : Leg) (skb : Skb)
    → Accepts l.other_end skb.cb.dst
    → IsSendable skb
    → skb.cb.hops < 256
    → (pass l skb ≡ none) ⊎ ((skb' : Skb) × (pass l skb ≡ some skb') × Further skb skb')
pass-cases l skb ok can hops = elim (Option-cases (dn_forward l.hop skb)) [
  | inl e ↦ inl (ap (sent_on l) e)
  | inr (onward, e) ↦ elim (Bool-cases l.room) [
    | inl room ↦ inr (carried l skb onward ok can hops room e)
    | inr full ↦ inl (ap (sent_on l) e ∙ no_room l onward full)
  ]
]

nothing : (legs : List Leg) → passes legs none ≡ none
nothing [] = refl
nothing (l ∷ legs) = refl

-- No packet comes through more than 30 routers: on a way where every other end takes it in, it is
-- lost at the latest where its hop count would be 31.
pub passes-none :
    (legs : List Leg) (skb : Skb)
    → All (λ l. Accepts l.other_end skb.cb.dst) legs
    → IsSendable skb
    → skb.cb.hops < 256
    → 0 < length legs
    → 30 < skb.cb.hops + length legs
    → passes legs (some skb) ≡ none
passes-none [] skb ok can hops some_leg far = absurd (omega arith)
passes-none (l ∷ legs) skb ok can hops some_leg far = elim (pass-cases l skb ok.0 can hops) [
  | inl e ↦ ap (passes legs) e ∙ nothing legs
  | inr (skb', e, f) ↦
      let ok' = subst (λ n. All (λ l. Accepts l.other_end n) legs) (sym f.dst) ok.1 in
      ap (passes legs) e
      ∙ passes-none legs skb' ok' (Further-IsSendable skb skb' can f) (omega (arith, f.few))
          (omega (arith, f.hops, f.few, far)) (omega (arith, f.hops, far))
]

-- A leg that takes the packet.
pub record Carries (dst : ℕ) (l : Leg) : Type 0 where
  pub accepts : Accepts l.other_end dst
  pub host : l.hop.host ≡ true
  pub makes_room : l.hop.room ≡ true
  pub room : l.room ≡ true

never_lost :
    (h : Hop) (skb : Skb)
    → h.host ≡ true
    → h.room ≡ true
    → skb.cb.hops < 30
    → dn_forward h skb ≢ none
unfolding dn_forward
never_lost h skb host room few = ground (arith, host, room, few)

forwards :
    (h : Hop) (skb : Skb)
    → h.host ≡ true
    → h.room ≡ true
    → skb.cb.hops < 30
    → (onward : Skb) × (dn_forward h skb ≡ some onward)
forwards h skb host room few = elim (Option-cases (dn_forward h skb)) [
  | inl e ↦ absurd (never_lost h skb host room few e)
  | inr found ↦ found
]

-- A packet that has come `n` hops further.
pub record Arrived (n : ℕ) (skb skb' : Skb) : Type 0 where
  pub hops : skb'.cb.hops ≡ skb.cb.hops + n
  pub bytes : skb'.bytes ≡ skb.bytes
  pub dst : skb'.cb.dst ≡ skb.cb.dst
  pub src : skb'.cb.src ≡ skb.cb.src

-- On a way of which every leg carries it, a packet whose hop count stays at 30 or below arrives:
-- with its bytes and addresses, and the hop count raised by the number of legs.
pub passes-Arrived :
    (legs : List Leg) (skb : Skb)
    → All (Carries skb.cb.dst) legs
    → IsSendable skb
    → skb.cb.hops + length legs ≤ 30
    → (skb' : Skb) × (passes legs (some skb) ≡ some skb') × Arrived (length legs) skb skb'
passes-Arrived [] skb ok can few =
    (skb, refl, record { hops = omega arith; bytes = refl; dst = refl; src = refl })
passes-Arrived (l ∷ legs) skb ok can few =
    let leg = ok.0 in
    let (onward, out) = forwards l.hop skb leg.host leg.makes_room (omega (arith, few)) in
    let (skb', e, f) = carried l skb onward leg.accepts can (omega (arith, few)) leg.room out in
    let ok' = subst (λ n. All (Carries n) legs) (sym f.dst) ok.1 in
    let can' = Further-IsSendable skb skb' can f in
    let (skb2, e2, r) = passes-Arrived legs skb' ok' can' (omega (arith, f.hops, few)) in
    (
      skb2,
      ap (passes legs) e ∙ e2,
      record {
        hops = omega (arith, f.hops, r.hops);
        bytes = r.bytes ∙ f.bytes;
        dst = r.dst ∙ f.dst;
        src = r.src ∙ f.src;
      },
    )
