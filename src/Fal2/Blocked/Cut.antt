-- ===== src/Fal2/Blocked/Cut.antt =====
-- One message of a block, as `DAPnextMessage` takes it off.
use raspbian_decnet.Base.{
  ℕ, zero, suc, ◌+◌, ◌-◌, ◌*◌, ◌<◌, ◌^◌, ◌%◌, ◌/◌, ◌≡◌, ◌≢◌, ◌⊎◌, refl, sym, ap, subst, ◌∙◌, Bool,
  true, false, some, List, [], ◌∷◌, ◌++◌, length, length-append, get_or, take, drop,
  take-append_length, drop-append_length, bit_and, bit_and_mask, arith,
}
use mathlib.Core.List.{append_assoc}
use raspbian_decnet.Fal2.Receive.{Rcv, parse_message}
use raspbian_decnet.Fal2.Receive.Frames.{
  next_start, at_message, parse_plain, parse_length, parse_length256,
}
use raspbian_decnet.Fal2.Blocked.{Framing, plain, one_byte, two_bytes, Message, header_bytes, frame}

-- The payload has a length that its field can hold, and that does not read as an absent one.
abbrev pub FitsField : Framing → ℕ → Type 0
FitsField (plain) n = Unit {0}
FitsField (one_byte) n = (0 < n) × (n < 256)
FitsField (two_bytes) n = (0 < n) × (n < 65536)

abbrev pub has_length : Framing → Bool
has_length (plain) = false
has_length (one_byte) = true
has_length (two_bytes) = true

abbrev pub blocked : List Message → List ℕ
blocked [] = []
blocked (m ∷ ms) = frame m ++ blocked ms

get_or-append :
    (pre xs : List ℕ) (i k : ℕ) → k ≡ length pre + i → get_or (pre ++ xs) k 0 ≡ get_or xs i 0
get_or-append [] xs i k e = let same : k ≡ i = omega (arith, e) in ap (λ j. get_or xs j 0) same
get_or-append (x ∷ pre) xs i zero e = absurd (omega (arith, e))
get_or-append (x ∷ pre) xs i (suc k) e = get_or-append pre xs i k (omega (arith, e))

get_at :
    (pre xs buf : List ℕ) (p i k : ℕ)
    → buf ≡ pre ++ xs
    → length pre ≡ p
    → k ≡ p + i
    → get_or buf k 0 ≡ get_or xs i 0
get_at pre xs buf p i k e at here = rw (e) (get_or-append pre xs i k (omega (arith, here, at)))

drop_at : (pre xs buf : List ℕ) (p : ℕ) → buf ≡ pre ++ xs → length pre ≡ p → drop p buf ≡ xs
drop_at pre xs buf p e at = rw (e, sym at) (drop-append_length pre xs)

-- The buffer at a message: what was passed, the messages to come, and what is stale.
pub record IsAt (r : Rcv) (ms : List Message) : Type 0 where
  pub passed : List ℕ
  pub stale : List ℕ
  pub split : r.inbuf ≡ passed ++ (blocked ms ++ stale)
  pub place : length passed ≡ next_start r
  pub limit : r.inlen ≡ length passed + length (blocked ms)

-- One message taken off.
pub record IsTaken (r : Rcv) (m : Message) (ms : List Message) (s : Rcv) : Type 0 where
  pub gives : parse_message r ≡ (s, (some (length m.payload), some m.type))
  pub value : take (length m.payload) (drop s.inptr s.inbuf) ≡ m.payload
  pub further : has_length m.framing ≡ true → IsAt s ms × (s.msglength ≢ 0)

-- The header of a message, and what is behind it.
header_split :
    (r : Rcv) (m : Message) (ms : List Message) (at : IsAt r (m ∷ ms))
    → r.inbuf
      ≡ at.passed
        ++ (header_bytes m.framing m.type (length m.payload)
            ++ (m.payload ++ (blocked ms ++ at.stale)))
header_split r m ms at =
    let head = header_bytes m.framing m.type (length m.payload) in
    at.split
    ∙ ap (λ x. at.passed ++ x)
        (append_assoc (head ++ m.payload) (blocked ms) at.stale
          ∙ append_assoc head m.payload (blocked ms ++ at.stale))

-- The state behind a header of which the size is known.
after_header :
    (r : Rcv) (m : Message) (ms : List Message) (at : IsAt r (m ∷ ms)) (flags len hdr : ℕ)
    → length (header_bytes m.framing m.type (length m.payload)) ≡ hdr
    → parse_message r ≡ (
      at_message r (next_start r) m.type flags len hdr (length m.payload),
      (some (length m.payload), some m.type),
    )
    → (has_length m.framing ≡ true → (len ≡ length m.payload) × (0 < len))
    → IsTaken r m ms (at_message r (next_start r) m.type flags len hdr (length m.payload))
after_header r m ms at flags len hdr size gives counted =
    let head = header_bytes m.framing m.type (length m.payload) in
    let tail = m.payload ++ (blocked ms ++ at.stale) in
    let behind : drop (next_start r + hdr) r.inbuf ≡ tail =
      drop_at (at.passed ++ head) tail r.inbuf (next_start r + hdr)
        (header_split r m ms at ∙ sym (append_assoc at.passed head tail))
        (length-append at.passed head ∙ omega (arith, at.place, size)) in
    let passed = at.passed ++ frame m in
    let sized : length passed ≡ next_start r + hdr + length m.payload =
      length-append at.passed (frame m)
      ∙ omega (arith, length-append head m.payload, at.place, size) in
    record {
      gives = gives;
      value = rw (behind) (take-append_length m.payload (blocked ms ++ at.stale));
      further = λ has. (
        record {
          passed = passed;
          stale = at.stale;
          split =
              at.split
              ∙ (ap (λ x. at.passed ++ x) (append_assoc (frame m) (blocked ms) at.stale)
                  ∙ sym (append_assoc at.passed (frame m) (blocked ms ++ at.stale)));
          place = omega (arith, sized, (counted has).0);
          limit = omega (
            arith,
            at.limit,
            length-append (frame m) (blocked ms),
            length-append at.passed (frame m),
          );
        },
        omega (arith, (counted has).1),
      );
    }

abbrev pub message : Framing → ℕ → List ℕ → Message
message f type payload = record { framing = f; type = type; payload = payload }

-- A byte of the header.
header_byte_at :
    (r : Rcv) (m : Message) (ms : List Message) (at : IsAt r (m ∷ ms)) (i k : ℕ)
    → k ≡ next_start r + i
    → get_or r.inbuf k 0
      ≡ get_or
          (header_bytes m.framing m.type (length m.payload)
            ++ (m.payload ++ (blocked ms ++ at.stale)))
          i
          0
header_byte_at r m ms at i k here =
    get_at at.passed
      (header_bytes m.framing m.type (length m.payload) ++ (m.payload ++ (blocked ms ++ at.stale)))
      r.inbuf (next_start r) i k (header_split r m ms at) at.place here

pub limit_past :
    (r : Rcv) (m : Message) (ms : List Message) (at : IsAt r (m ∷ ms))
    → r.inlen ≡ next_start r + (length (frame m) + length (blocked ms))
limit_past r m ms at = omega (arith, at.limit, at.place, length-append (frame m) (blocked ms))

taken_plain :
    (r : Rcv) (type : ℕ) (payload : List ℕ)
    → IsAt r (message plain type payload ∷ [])
    → (s : Rcv) × IsTaken r (message plain type payload) [] s
taken_plain r type payload at =
    let m = message plain type payload in
    let p = next_start r in
    let left : r.inlen - (p + 2) ≡ length payload = omega (arith, limit_past r m [] at) in
    (
      at_message r p type 0 0 2 (length payload),
      after_header r m [] at 0 0 2 (omega arith)
          (subst (λ n. parse_message r ≡ (at_message r p type 0 0 2 n, (some n, some type))) left
            (parse_plain r p type refl (omega (arith, limit_past r m [] at))
              (header_byte_at r m [] at 0 p (omega arith))
              (header_byte_at r m [] at 1 (suc p) (omega arith))))
          (λ has. absurd (cc)),
    )

taken_one_byte :
    (r : Rcv) (type : ℕ) (payload : List ℕ) (ms : List Message)
    → 0 < length payload
    → length payload < 256
    → IsAt r (message one_byte type payload ∷ ms)
    → (s : Rcv) × IsTaken r (message one_byte type payload) ms s
taken_one_byte r type payload ms some_data few at =
    let m = message one_byte type payload in
    let p = next_start r in
    let n = length payload in
    let held : bit_and n 0xff ≡ n = omega (arith, bit_and_mask 8 n, few) in
    (
      at_message r p type 2 n 3 n,
      after_header r m ms at 2 n 3 (omega arith)
          (parse_length r p type n refl (omega (arith, limit_past r m ms at))
            (header_byte_at r m ms at 0 p (omega arith))
            (header_byte_at r m ms at 1 (suc p) (omega arith))
            (header_byte_at r m ms at 2 (suc (suc p)) (omega arith) ∙ held) some_data)
          (λ has. (refl, some_data)),
    )

taken_two_bytes :
    (r : Rcv) (type : ℕ) (payload : List ℕ) (ms : List Message)
    → 0 < length payload
    → length payload < 65536
    → IsAt r (message two_bytes type payload ∷ ms)
    → (s : Rcv) × IsTaken r (message two_bytes type payload) ms s
taken_two_bytes r type payload ms some_data few at =
    let m = message two_bytes type payload in
    let p = next_start r in
    let n = length payload in
    let low : bit_and n 0xff ≡ n % 256 = bit_and_mask 8 n in
    let high : bit_and (n / 2 ^ 8) 0xff ≡ n / 256 = omega (arith, bit_and_mask 8 (n / 256), few) in
    let whole : n / 256 * 256 + n % 256 ≡ n = omega arith in
    (
      at_message r p type 6 n 4 n,
      after_header r m ms at 6 n 4 (omega arith)
          (subst (λ k. parse_message r ≡ (at_message r p type 6 k 4 k, (some k, some type))) whole
            (parse_length256 r p type (n % 256) (n / 256) refl (omega (arith, limit_past r m ms at))
              (header_byte_at r m ms at 0 p (omega arith))
              (header_byte_at r m ms at 1 (suc p) (omega arith))
              (header_byte_at r m ms at 2 (suc (suc p)) (omega arith) ∙ low)
              (header_byte_at r m ms at 3 (suc (suc (suc p))) (omega arith) ∙ high) (omega arith)
              (omega (arith, some_data))))
          (λ has. (refl, some_data)),
    )

pub taken :
    (r : Rcv) (f : Framing) (type : ℕ) (payload : List ℕ) (ms : List Message)
    → FitsField f (length payload)
    → (has_length f ≡ true) ⊎ (ms ≡ [])
    → IsAt r (message f type payload ∷ ms)
    → (s : Rcv) × IsTaken r (message f type payload) ms s
taken r (plain) type payload [] fits rule at = taken_plain r type payload at
taken r (plain) type payload (n ∷ ms) fits rule at = absurd (ground (arith, rule))
taken r (one_byte) type payload ms fits rule at = taken_one_byte r type payload ms fits.0 fits.1 at
taken r (two_bytes) type payload ms fits rule at =
    taken_two_bytes r type payload ms fits.0 fits.1 at
