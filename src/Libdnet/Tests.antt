-- ===== src/Libdnet/Tests.antt =====
-- The theorems on addresses as text, at concrete addresses.
use raspbian_decnet.Base.{◌≡◌, refl, some, arith, [], ◌∷◌}
use mathlib.Core.Option
use raspbian_decnet.Nsp.Header.{le16}
use raspbian_decnet.Libdnet.Address.{
  Parsed, af_decnet, dnet_num, dnet_ntop, dnet_pton, dnet_pton1, read_area, read_node,
}
use raspbian_decnet.Libdnet.Address.RoundTrip.{c_string, pton-ntop}

-- 63.1023, into a buffer that it fills.
pton-ntop_example :
    Option.map
      (λ buffer. dnet_pton af_decnet (c_string buffer))
      (dnet_ntop af_decnet (record { a_len = 2; a_addr = le16 65535 }) 8)
    ≡ some (Parsed.address record { a_len = 2; a_addr = le16 65535 })
pton-ntop_example = pton-ntop 65535 8 (omega arith) (omega arith)

-- "65537.1" is taken for 1.1: the area wraps.
area_wraps :
    dnet_pton af_decnet (0x36 ∷ 0x35 ∷ 0x35 ∷ 0x33 ∷ 0x37 ∷ 0x2e ∷ 0x31 ∷ [])
    ≡ Parsed.address record { a_len = 2; a_addr = le16 1025 }
unfolding dnet_pton dnet_pton1 read_area read_node dnet_num
area_wraps = refl
