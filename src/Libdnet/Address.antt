-- ===== src/Libdnet/Address.antt =====
-- Addresses as text: `dnet_ntop` of dnprogs/libdnet/dnet_ntop.c and `dnet_pton` of
-- dnprogs/libdnet/dnet_pton.c. A string is the list of its characters without the final 0.
pub mod Text
pub mod Reading
pub mod RoundTrip
use raspbian_decnet.Base.{
  ℕ, zero, suc, ◌+◌, ◌-◌, ◌*◌, ◌/◌, Bool, true, false, not, ◌&&◌, ◌||◌, ltb, leb, ◌==◌, ◌!=◌,
  if◌then◌else◌, Option, none, some, List, [], ◌∷◌, ◌++◌, length, drop, get_or, bit_and, bit_or,
}
use raspbian_decnet.Nsp.Seq.{u8, u16}
use raspbian_decnet.Nsp.Header.{le16, read_le16}

-- `struct dn_naddr`.
pub record DnNaddr : Type 0 where
  pub a_len : ℕ
  pub a_addr : List ℕ

abbrev pub af_decnet : ℕ
af_decnet = 12

abbrev pub is_digit : ℕ → Bool
is_digit c = leb 0x30 c && leb c 0x39

-- How many digits there are in front, and their number: the loop, from `rv` and `dst` on.
unfoldable pub dnet_num : ℕ → ℕ → List ℕ → ℕ × ℕ
dnet_num rv dst [] = (rv, dst)
dnet_num rv dst (c ∷ src) =
    let rest = dnet_num (rv + 1) (u16 (u16 (dst * 10) + (c - 0x30))) src in
    if is_digit c then rest else (rv, dst)

-- The number behind the dot.
unfoldable pub read_node : ℕ → ℕ × ℕ → Option DnNaddr
read_node area (pos, node) =
    if pos == 0 || ltb 1023 node
    then none
    else some (record { a_len = 2; a_addr = le16 (bit_or (area * 1024) node) })

unfoldable pub read_area : List ℕ → ℕ × ℕ → Option DnNaddr
read_area src (pos, area) =
    if pos == 0 || (ltb 63 area || get_or src pos 0 != 0x2e)
    then none
    else read_node area (dnet_num 0 0 (drop (pos + 1) src))

-- The address that is written, where the string is one.
unfoldable pub dnet_pton1 : List ℕ → Option DnNaddr
dnet_pton1 src = read_area src (dnet_num 0 0 src)

-- What `dnet_pton` says: 1 and the address, 0, or -1 with EAFNOSUPPORT.
pub data Parsed : Type 0 where
  address : DnNaddr → Parsed
  no_address no_family : Parsed

abbrev pub parsed : Option DnNaddr → Parsed
parsed none = Parsed.no_address
parsed (some dna) = Parsed.address dna

unfoldable pub dnet_pton : ℕ → List ℕ → Parsed
dnet_pton af src = if af == af_decnet then parsed (dnet_pton1 src) else Parsed.no_family

-- The characters written so far, what is left of the number, whether a digit has been written, and
-- whether the string is full.
pub record Writing : Type 0 where
  pub text : List ℕ
  pub addr : ℕ
  pub started : Bool
  pub full : Bool

-- One call of `do_digit`, and nothing once the string is full.
unfoldable pub do_digit : ℕ → ℕ → Writing → Writing
do_digit len scale w =
    let tmp = w.addr / scale in
    let digit = record w {
      text = w.text ++ (u8 (tmp + 0x30) ∷ []);
      started = true;
      addr = w.addr - tmp * scale;
    } in
    if w.full
    then w
    else if length w.text == len
    then record w { full = true }
    else if ltb 0 tmp || (w.started || scale == 1)
    then digit
    else w

-- Calls of it for one scale after the other.
abbrev pub do_digits : ℕ → List ℕ → Writing → Writing
do_digits len [] w = w
do_digits len (scale ∷ scales) w = do_digits len scales (do_digit len scale w)

-- A character behind the digits, where there is room.
unfoldable pub put : ℕ → ℕ → Writing → Writing
put len c w =
    if w.full
    then w
    else if length w.text == len
    then record w { full = true }
    else record w { text = w.text ++ (c ∷ []); started = false }

-- What is written to the string; none for an address that has not two bytes.
unfoldable pub dnet_ntop1 : DnNaddr → ℕ → Option (List ℕ)
dnet_ntop1 dna len =
    let whole = read_le16 dna.a_addr in
    let start : Writing = record {
      text = [];
      addr = whole / 1024;
      started = false;
      full = false;
    } in
    let area = put len 0x2e (do_digits len (10 ∷ 1 ∷ []) start) in
    let node =
      do_digits len (1000 ∷ 100 ∷ 10 ∷ 1 ∷ []) (record area { addr = bit_and whole 0x03ff }) in
    if dna.a_len != 2 then none else some (put len 0 node).text

unfoldable pub dnet_ntop : ℕ → DnNaddr → ℕ → Option (List ℕ)
dnet_ntop af dna len = if af == af_decnet then dnet_ntop1 dna len else none
