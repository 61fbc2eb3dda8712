-- ===== src/Libdnet/Address/Reading.antt =====
-- What `dnet_pton` reads of digits, and of an address that is printed.
use raspbian_decnet.Base.{
  ℕ, suc, ◌+◌, ◌-◌, ◌*◌, ◌<◌, ◌≡◌, refl, ap, ap₂, ◌∙◌, Bool, true, false, ◌&&◌, ltb, ◌==◌, some,
  List, [], ◌∷◌, ◌++◌, length, drop, get_or, arith, bit_or_high, below, holds_below,
}
use raspbian_decnet.Nsp.Seq.{u16}
use raspbian_decnet.Nsp.Header.{le16}
use raspbian_decnet.Libdnet.Address.{is_digit, dnet_num, read_node, read_area, dnet_pton1}
use raspbian_decnet.Libdnet.Address.Text.{digits_of, area_text, node_text}

-- Digits in front of something else are read as they are alone.
abbrev pub all_digits : List ℕ → Bool
all_digits [] = true
all_digits (c ∷ cs) = is_digit c && all_digits cs

dnet_num-append :
    (rv dst : ℕ) (ds rest : List ℕ)
    → all_digits ds ≡ true
    → dnet_num rv dst (ds ++ rest) ≡ dnet_num (dnet_num rv dst ds).0 (dnet_num rv dst ds).1 rest
unfolding dnet_num
dnet_num-append rv dst [] rest h = refl
dnet_num-append rv dst (c ∷ ds) rest h =
    let digit : is_digit c ≡ true = ground (arith, h) in
    let more : all_digits ds ≡ true = ground (arith, h) in
    rw (digit) (dnet_num-append (rv + 1) (u16 (u16 (dst * 10) + (c - 0x30))) ds rest more)

abbrev reads_back : List ℕ → ℕ → Bool
reads_back scales n =
    let ds = digits_of scales n false in
    all_digits ds
    && (ltb 0 (length ds) && ((dnet_num 0 0 ds).0 == length ds && (dnet_num 0 0 ds).1 == n))

area_reads : holds_below 64 (reads_back (10 ∷ 1 ∷ [])) ≡ true
unfolding dnet_num
area_reads = refl

node_reads : holds_below 1024 (reads_back (1000 ∷ 100 ∷ 10 ∷ 1 ∷ [])) ≡ true
unfolding dnet_num
node_reads = refl

abbrev pub Reads : List ℕ → ℕ → Type 0
Reads ds n =
    (all_digits ds ≡ true)
    × (0 < length ds)
    × ((dnet_num 0 0 ds).0 ≡ length ds)
    × ((dnet_num 0 0 ds).1 ≡ n)

reads :
    (ds : List ℕ) (n : ℕ)
    → (all_digits ds
        && (ltb 0 (length ds) && ((dnet_num 0 0 ds).0 == length ds && (dnet_num 0 0 ds).1 == n)))
      ≡ true
    → Reads ds n
reads ds n h = ground (arith, h)

pub area_text-Reads : (area : ℕ) → area < 64 → Reads (area_text area) area
area_text-Reads area small =
    reads (area_text area) area (below 64 area (reads_back (10 ∷ 1 ∷ [])) area_reads small)

pub node_text-Reads : (node : ℕ) → node < 1024 → Reads (node_text node) node
node_text-Reads node small =
    reads (node_text node) node
      (below 1024 node (reads_back (1000 ∷ 100 ∷ 10 ∷ 1 ∷ [])) node_reads small)

-- A string of an area, a dot and a node is the address.
get_or-length : (xs ys : List ℕ) (y : ℕ) → get_or (xs ++ (y ∷ ys)) (length xs) 0 ≡ y
get_or-length [] ys y = refl
get_or-length (x ∷ xs) ys y = get_or-length xs ys y

drop-past : (xs ys : List ℕ) (y : ℕ) → drop (length xs + 1) (xs ++ (y ∷ ys)) ≡ ys
drop-past [] ys y = refl
drop-past (x ∷ xs) ys y =
    let one_more : suc (length xs) + 1 ≡ suc (length xs + 1) = omega arith in
    ap (λ n. drop n (x ∷ (xs ++ (y ∷ ys)))) one_more ∙ drop-past xs ys y

at_dot : (rv dst : ℕ) (rest : List ℕ) → dnet_num rv dst (0x2e ∷ rest) ≡ (rv, dst)
unfolding dnet_num
at_dot rv dst rest = refl

front :
    (ds rest : List ℕ) (n : ℕ) → Reads ds n → dnet_num 0 0 (ds ++ (0x2e ∷ rest)) ≡ (length ds, n)
front ds rest n (digits, some_digit, count, value) =
    dnet_num-append 0 0 ds (0x2e ∷ rest) digits
    ∙ (at_dot (dnet_num 0 0 ds).0 (dnet_num 0 0 ds).1 rest ∙ ap₂ (λ a b. (a, b)) count value)

alone : (ds : List ℕ) (n : ℕ) → Reads ds n → dnet_num 0 0 ds ≡ (length ds, n)
alone ds n (digits, some_digit, count, value) = ap₂ (λ a b. (a, b)) count value

pub pton1-text :
    (area node : ℕ) (ds ns : List ℕ)
    → area < 64
    → node < 1024
    → Reads ds area
    → Reads ns node
    → dnet_pton1 (ds ++ (0x2e ∷ ns))
      ≡ some (record { a_len = 2; a_addr = le16 (area * 1024 + node) })
unfolding dnet_pton1 read_area read_node
pton1-text area node ds ns small few reads_area reads_node =
    let some_area : (length ds == 0) ≡ false = ground (arith, reads_area.1) in
    let some_node : (length ns == 0) ≡ false = ground (arith, reads_node.1) in
    let low : ltb 63 area ≡ false = ground (arith, small) in
    let low' : ltb 1023 node ≡ false = ground (arith, few) in
    rw
      (
        front ds ns area reads_area,
        some_area,
        low,
        get_or-length ds ns 0x2e,
        drop-past ds ns 0x2e,
        alone ns node reads_node,
        some_node,
        low',
        bit_or_high 10 area node few,
      )
      refl
