-- ===== src/Libdnet/Address/RoundTrip.antt =====
-- An address that is printed is read back.
use raspbian_decnet.Base.{
  ℕ, ◌+◌, ◌*◌, ◌/◌, ◌%◌, ◌≤◌, ◌<◌, ◌≡◌, refl, ap, ◌∙◌, true, false, ◌==◌, if◌then◌else◌, some, List,
  [], ◌∷◌, ◌++◌, arith,
}
use mathlib.Core.Option
use mathlib.Core.List.{append-nil, append_assoc}
use raspbian_decnet.Nsp.Header.{le16}
use raspbian_decnet.Libdnet.Address.{dnet_pton1, dnet_pton, dnet_ntop, af_decnet, Parsed, parsed}
use raspbian_decnet.Libdnet.Address.Text.{area_text, node_text, ntop1-text}
use raspbian_decnet.Libdnet.Address.Reading.{
  all_digits, area_text-Reads, node_text-Reads, pton1-text,
}

-- The string in a buffer: what stands before the first 0.
abbrev pub c_string : List ℕ → List ℕ
c_string [] = []
c_string (c ∷ cs) = if c == 0 then [] else c ∷ c_string cs

c_string-digits :
    (ds rest : List ℕ) → all_digits ds ≡ true → c_string (ds ++ rest) ≡ ds ++ c_string rest
c_string-digits [] rest h = refl
c_string-digits (c ∷ ds) rest h =
    let char : (c == 0) ≡ false = ground (arith, h) in
    let more : all_digits ds ≡ true = ground (arith, h) in
    rw (char) (ap (λ s. c ∷ s) (c_string-digits ds rest more))

c_string-text :
    (area node : List ℕ)
    → all_digits area ≡ true
    → all_digits node ≡ true
    → c_string ((area ++ (0x2e ∷ [])) ++ (node ++ (0 ∷ []))) ≡ area ++ (0x2e ∷ node)
c_string-text area node h h' =
    ap c_string (append_assoc area (0x2e ∷ []) (node ++ (0 ∷ [])))
    ∙ (c_string-digits area (0x2e ∷ (node ++ (0 ∷ []))) h
        ∙ ap (λ s. area ++ (0x2e ∷ s)) (c_string-digits node (0 ∷ []) h' ∙ append-nil node))

-- An address of 16 bits that `dnet_ntop` prints into a buffer of at least 8 bytes is what
-- `dnet_pton` reads from there.
pub pton-ntop :
    (addr len : ℕ)
    → addr < 65536
    → 8 ≤ len
    → Option.map
        (λ buffer. dnet_pton af_decnet (c_string buffer))
        (dnet_ntop af_decnet (record { a_len = 2; a_addr = le16 addr }) len)
      ≡ some (Parsed.address record { a_len = 2; a_addr = le16 addr })
unfolding dnet_pton dnet_ntop
pton-ntop addr len fits room =
    let area = area_text (addr / 1024) in
    let node = node_text (addr % 1024) in
    let small : addr / 1024 < 64 = omega (arith, fits) in
    let few : addr % 1024 < 1024 = omega arith in
    let reads_area = area_text-Reads (addr / 1024) small in
    let reads_node = node_text-Reads (addr % 1024) few in
    let whole : addr / 1024 * 1024 + addr % 1024 ≡ addr = omega arith in
    let read = pton1-text (addr / 1024) (addr % 1024) area node small few reads_area reads_node in
    ap (Option.map (λ buffer. parsed (dnet_pton1 (c_string buffer))))
      (ntop1-text addr len fits room)
    ∙ (ap (λ s. some (parsed (dnet_pton1 s))) (c_string-text area node reads_area.0 reads_node.0)
        ∙ (ap (λ o. some (parsed o)) read
            ∙ ap (λ n. some (Parsed.address record { a_len = 2; a_addr = le16 n })) whole))
