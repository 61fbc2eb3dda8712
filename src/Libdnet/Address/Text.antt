-- ===== src/Libdnet/Address/Text.antt =====
-- What `dnet_ntop` writes: the area without a zero in front, a dot, and the node likewise.
use raspbian_decnet.Base.{
  ℕ, ◌+◌, ◌-◌, ◌*◌, ◌/◌, ◌%◌, ◌≤◌, ◌<◌, ◌≡◌, refl, sym, ap, ap₂, ◌∙◌, inl, inr, Bool, true, false,
  ◌||◌, Bool-cases, ltb, ◌==◌, if◌then◌else◌, some, List, [], ◌∷◌, ◌++◌, length, arith,
  length-append, bit_and, bit_and_mask,
}
use mathlib.Core.List.{append-nil, append_assoc}
use raspbian_decnet.Nsp.Seq.{u8}
use raspbian_decnet.Nsp.Header.{le16, read_le16}
use raspbian_decnet.Libdnet.Address.{Writing, do_digit, do_digits, put, dnet_ntop1}

-- The digits of a number, without the zeros in front.
abbrev pub digits_of : List ℕ → ℕ → Bool → List ℕ
digits_of [] n started = []
digits_of (scale ∷ scales) n started =
    if ltb 0 (n / scale) || (started || scale == 1)
    then u8 (n / scale + 0x30) ∷ digits_of scales (n - n / scale * scale) true
    else digits_of scales n started

abbrev is_written : ℕ → ℕ → Bool → Bool
is_written scale n started = ltb 0 (n / scale) || (started || scale == 1)

-- A string that has a digit more.
abbrev longer : ℕ → Writing → Writing
longer scale w = record w {
  text = w.text ++ (u8 (w.addr / scale + 0x30) ∷ []);
  started = true;
  addr = w.addr - w.addr / scale * scale;
}

do_digit-longer :
    (len scale : ℕ) (w : Writing)
    → w.full ≡ false
    → length w.text < len
    → is_written scale w.addr w.started ≡ true
    → do_digit len scale w ≡ longer scale w
unfolding do_digit
do_digit-longer len scale w room fits e =
    let free : (length w.text == len) ≡ false = ground (arith, fits) in rw (room, free, e) refl

do_digit-same :
    (len scale : ℕ) (w : Writing)
    → w.full ≡ false
    → length w.text < len
    → is_written scale w.addr w.started ≡ false
    → do_digit len scale w ≡ w
unfolding do_digit
do_digit-same len scale w room fits e =
    let free : (length w.text == len) ≡ false = ground (arith, fits) in rw (room, free, e) refl

digits_of-written :
    (scale : ℕ) (scales : List ℕ) (n : ℕ) (started : Bool)
    → is_written scale n started ≡ true
    → digits_of (scale ∷ scales) n started
      ≡ u8 (n / scale + 0x30) ∷ digits_of scales (n - n / scale * scale) true
digits_of-written scale scales n started e = rw e refl

digits_of-skipped :
    (scale : ℕ) (scales : List ℕ) (n : ℕ) (started : Bool)
    → is_written scale n started ≡ false
    → digits_of (scale ∷ scales) n started ≡ digits_of scales n started
digits_of-skipped scale scales n started e = rw e refl

do_digits-text :
    (len : ℕ) (scales : List ℕ) (w : Writing)
    → w.full ≡ false
    → length w.text + length scales ≤ len
    → ((do_digits len scales w).text ≡ w.text ++ digits_of scales w.addr w.started)
      × ((do_digits len scales w).full ≡ false)
do_digits-text len [] w room fits = (sym (append-nil w.text), room)
do_digits-text len (scale ∷ scales) w room fits =
    elim (Bool-cases (is_written scale w.addr w.started)) [
      | inl e ↦
          let digit = u8 (w.addr / scale + 0x30) in
          let step = do_digit-longer len scale w room (omega (arith, fits)) e in
          let size = length-append w.text (digit ∷ []) in
          let (text, free) =
            do_digits-text len scales (longer scale w) room (omega (arith, fits, size)) in
          let rest = digits_of scales (w.addr - w.addr / scale * scale) true in
          (
            ap (λ w'. (do_digits len scales w').text) step
                ∙ (text
                    ∙ (append_assoc w.text (digit ∷ []) rest
                        ∙ ap (λ ds. w.text ++ ds)
                            (sym (digits_of-written scale scales w.addr w.started e)))),
            ap (λ w'. (do_digits len scales w').full) step ∙ free,
          )
      | inr e ↦
          let step = do_digit-same len scale w room (omega (arith, fits)) e in
          let (text, free) = do_digits-text len scales w room (omega (arith, fits)) in
          (
            ap (λ w'. (do_digits len scales w').text) step
                ∙ (text
                    ∙ ap (λ ds. w.text ++ ds)
                        (sym (digits_of-skipped scale scales w.addr w.started e))),
            ap (λ w'. (do_digits len scales w').full) step ∙ free,
          )
    ]

-- The text of an address.
abbrev pub area_text : ℕ → List ℕ
area_text area = digits_of (10 ∷ 1 ∷ []) area false

abbrev pub node_text : ℕ → List ℕ
node_text node = digits_of (1000 ∷ 100 ∷ 10 ∷ 1 ∷ []) node false

length-digits_of :
    (scales : List ℕ) (n : ℕ) (started : Bool) → length (digits_of scales n started) ≤ length scales
length-digits_of [] n started = omega arith
length-digits_of (scale ∷ scales) n started =
    ground (
      arith,
      length-digits_of scales (n - n / scale * scale) true,
      length-digits_of scales n started,
    )

put-text :
    (len c : ℕ) (w : Writing)
    → w.full ≡ false
    → length w.text < len
    → put len c w ≡ record w { text = w.text ++ (c ∷ []); started = false }
unfolding put
put-text len c w room fits =
    let free : (length w.text == len) ≡ false = ground (arith, fits) in rw (room, free) refl

-- Digits and a character behind them.
abbrev written : ℕ → List ℕ → ℕ → Writing → Writing
written len scales c w = put len c (do_digits len scales w)

written-text :
    (len c : ℕ) (scales : List ℕ) (w : Writing)
    → w.full ≡ false
    → length w.text + length scales < len
    → ((written len scales c w).text ≡ w.text ++ (digits_of scales w.addr w.started ++ (c ∷ [])))
      × ((written len scales c w).full ≡ false)
      × ((written len scales c w).started ≡ false)
written-text len c scales w room fits =
    let (text, free) = do_digits-text len scales w room (omega (arith, fits)) in
    let ds = digits_of scales w.addr w.started in
    let size : length (do_digits len scales w).text < len = omega (
      arith,
      ap length text,
      length-append w.text ds,
      length-digits_of scales w.addr w.started,
      fits,
    ) in
    let step = put-text len c (do_digits len scales w) free size in
    (
      ap (λ w'. w'.text) step ∙ (ap (λ s. s ++ (c ∷ [])) text ∙ append_assoc w.text ds (c ∷ [])),
      ap (λ w'. w'.full) step ∙ free,
      ap (λ w'. w'.started) step,
    )

-- The string for an address.
abbrev area_written : ℕ → ℕ → Writing
area_written len whole =
    written len (10 ∷ 1 ∷ []) 0x2e
      (record { text = []; addr = whole / 1024; started = false; full = false })

abbrev string_written : ℕ → ℕ → List ℕ
string_written len whole =
    (written len (1000 ∷ 100 ∷ 10 ∷ 1 ∷ []) 0
      (record (area_written len whole) { addr = bit_and whole 0x03ff })).text

pub ntop1-text :
    (addr len : ℕ)
    → addr < 65536
    → 8 ≤ len
    → dnet_ntop1 (record { a_len = 2; a_addr = le16 addr }) len
      ≡ some ((area_text (addr / 1024) ++ (0x2e ∷ [])) ++ (node_text (addr % 1024) ++ (0 ∷ [])))
unfolding dnet_ntop1
ntop1-text addr len fits room =
    let whole : read_le16 (le16 addr) ≡ addr = omega (arith, fits) in
    let start : Writing = record { text = []; addr = addr / 1024; started = false; full = false } in
    let scales : List ℕ = 1000 ∷ 100 ∷ 10 ∷ 1 ∷ [] in
    let (text, free, fresh) =
      written-text len 0x2e (10 ∷ 1 ∷ []) start refl (omega (arith, room)) in
    let area = area_text (addr / 1024) in
    let size : length (area_written len addr).text + 4 < len = omega (
      arith,
      ap length text,
      length-append area (0x2e ∷ []),
      length-digits_of (10 ∷ 1 ∷ []) (addr / 1024) false,
      room,
    ) in
    let second : Writing = record (area_written len addr) { addr = bit_and addr 0x03ff } in
    let ended = written-text len 0 scales second free size in
    let node = ap₂ (λ n started. digits_of scales n started) (bit_and_mask 10 addr) fresh in
    ap (λ n. some (string_written len n)) whole
    ∙ ap some (ended.0 ∙ ap₂ (λ s ds. s ++ (ds ++ (0 ∷ []))) text node)
