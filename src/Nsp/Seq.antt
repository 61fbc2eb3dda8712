-- ===== src/Nsp/Seq.antt =====
-- The sequence numbers of NSP (kernel/include/net/dn_nsp.h): 12 bits in a `__u16`.
pub mod Order
use raspbian_decnet.Base.{ℕ, ◌+◌, ◌-◌, ◌*◌, ◌%◌, ◌^◌, Bool, not, ◌||◌, ltb, ◌==◌, bit_and, bit_xor}

abbrev pub u8 : ℕ → ℕ
u8 n = n % 256

abbrev pub u16 : ℕ → ℕ
u16 n = n % 65536

abbrev pub nsp_sg_mask : ℕ
nsp_sg_mask = 0xfff

abbrev pub nsp_ack_dly : ℕ
nsp_ack_dly = 0x1000

-- `a - b` on `int`, as the bit pattern of 32 bits that the mask is applied to.
abbrev pub int_sub : ℕ → ℕ → ℕ
int_sub a b = (a + 2 ^ 32 - b) % 2 ^ 32

unfoldable pub dn_before : ℕ → ℕ → Bool
dn_before seq1 seq2 =
    ltb 2048 (bit_and (int_sub (bit_and seq1 nsp_sg_mask) (bit_and seq2 nsp_sg_mask)) nsp_sg_mask)

unfoldable pub dn_after : ℕ → ℕ → Bool
dn_after seq1 seq2 =
    ltb 2048 (bit_and (int_sub (bit_and seq2 nsp_sg_mask) (bit_and seq1 nsp_sg_mask)) nsp_sg_mask)

unfoldable pub dn_equal : ℕ → ℕ → Bool
dn_equal seq1 seq2 = bit_and (bit_xor seq1 seq2) nsp_sg_mask == 0

unfoldable pub dn_before_or_equal : ℕ → ℕ → Bool
unfolding dn_before dn_equal
dn_before_or_equal seq1 seq2 = dn_before seq1 seq2 || dn_equal seq1 seq2

-- `seq_add` returns the number that it stores back.
unfoldable pub seq_add : ℕ → ℕ → ℕ
seq_add seq off = bit_and (u16 (seq + off)) nsp_sg_mask

-- The sum is passed as a `__u16`.
unfoldable pub seq_next : ℕ → ℕ → Bool
unfolding dn_equal
seq_next seq1 seq2 = dn_equal (u16 (seq1 + 1)) seq2

unfoldable pub sendack : ℕ → Bool
sendack seq = bit_and seq nsp_ack_dly == 0
