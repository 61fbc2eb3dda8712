-- ===== src/Fal2/Blocked/RoundTrip.antt =====
-- A block of DAP messages is read as the messages that were written into it.
use raspbian_decnet.Base.{
  ℕ, zero, suc, ◌≤◌, ◌≡◌, ◌≢◌, ◌⊎◌, inl, inr, refl, ap, ◌∙◌, true, false, Option, none, some, List,
  [], ◌∷◌, map, length, take, drop, arith,
}
use raspbian_decnet.Fal2.Receive.{Rcv, failed, bytes, dap_read, dap_next_message, exhausted}
use raspbian_decnet.Fal2.Blocked.{Framing, plain, one_byte, two_bytes, Message, frame}
use raspbian_decnet.Fal2.Blocked.Cut.{
  IsAt, IsTaken, taken, message, limit_past, FitsField, has_length, blocked,
}

-- The rule of `DAPwrite`: only the last message of a block can be without a length.
abbrev pub IsBlockable : List Message → Type 0
IsBlockable [] = Unit {0}
IsBlockable (m ∷ []) = FitsField m.framing (length m.payload)
IsBlockable (m ∷ n ∷ ms) =
    FitsField m.framing (length m.payload) × (has_length m.framing ≡ true) × IsBlockable (n ∷ ms)

abbrev pub given : Rcv → Option ℕ × Option ℕ → List (ℕ × List ℕ) → List (ℕ × List ℕ)
given s (some len, some func) more = (func, take len (drop s.inptr s.inbuf)) ∷ more
given s (some len, none) more = []
given s (none, func) more = []

-- The types and payloads that so many calls of `DAPnextMessage` give, when nothing more arrives.
abbrev pub collect : ℕ → Rcv → List (ℕ × List ℕ)
collect zero r = []
collect (suc n) r = let (s, out) = dap_next_message r failed in given s out (collect n s)

abbrev pub viewed : Message → ℕ × List ℕ
viewed m = (m.type, m.payload)

length-frame : (m : Message) → 2 ≤ length (frame m)
length-frame m = by_framing m.framing m.type m.payload
  where
    by_framing : (f : Framing) (type : ℕ) (p : List ℕ) → 2 ≤ length (frame (message f type p))
    by_framing (plain) type p = omega arith
    by_framing (one_byte) type p = omega arith
    by_framing (two_bytes) type p = omega arith

-- While messages are left, no more is read.
not_exhausted :
    (r : Rcv) (m : Message) (ms : List Message)
    → IsAt r (m ∷ ms)
    → r.msglength ≢ 0
    → exhausted r ≡ false
not_exhausted r m ms at some_data = ground (arith, limit_past r m ms at, length-frame m, some_data)

collect-taken :
    (r s : Rcv) (m : Message) (ms : List Message) (n : ℕ)
    → exhausted r ≡ false
    → IsTaken r m ms s
    → collect (suc n) r ≡ viewed m ∷ collect n s
unfolding dap_next_message
collect-taken r s m ms n on t = rw (on, t.gives, t.value) refl

collected :
    (r : Rcv) (ms : List Message)
    → IsBlockable ms
    → IsAt r ms
    → (exhausted r ≡ false) ⊎ (ms ≡ [])
    → collect (length ms) r ≡ map viewed ms
collected r [] ok at on = refl
collected r (m ∷ []) ok at on =
    let (s, t) = taken r m.framing m.type m.payload [] ok (inr refl) at in
    collect-taken r s m [] 0 (ground (arith, on)) t
collected r (m ∷ n ∷ ms) ok at on =
    let (s, t) = taken r m.framing m.type m.payload (n ∷ ms) ok.0 (inl ok.1) at in
    let (next, some_data) = t.further ok.1 in
    collect-taken r s m (n ∷ ms) (suc (length ms)) (ground (arith, on)) t
    ∙ ap (λ more. viewed m ∷ more)
        (collected s (n ∷ ms) ok.2 next (inl (not_exhausted s n ms next some_data)))

-- A block that keeps to the rule, read in one piece: so many calls of `DAPnextMessage` give its
-- types and payloads, in order, and read no more.
pub collect-blocked :
    (r : Rcv) (ms : List Message)
    → IsBlockable ms
    → collect (length ms) (dap_read r (bytes (blocked ms))).0 ≡ map viewed ms
unfolding dap_read
collect-blocked r ms ok =
    collected (dap_read r (bytes (blocked ms))).0 ms ok
      (record {
        passed = [];
        stale = drop (length (blocked ms)) r.inbuf;
        split = refl;
        place = refl;
        limit = omega arith;
      })
      (inl refl)
