-- ===== src/Fal2/Get.antt =====
-- The fields of a DAP message as they are read, dnprogs/fal2/dap.c. `msgend - inptr` is an int; a
-- comparison with a `sizeof` makes it unsigned, so that a cursor past the end passes it.
use raspbian_decnet.Base.{
  ℕ, zero, suc, ◌+◌, ◌-◌, ◌*◌, ◌/◌, ◌%◌, ◌^◌, Bool, true, false, not, ◌&&◌, ◌||◌, ltb, leb, ◌==◌,
  ◌!=◌, if◌then◌else◌, Option, none, some, List, [], ◌∷◌, take, get_or, drop, bit_and, bit_or,
}
use raspbian_decnet.Fal2.Receive.{Rcv, byte_at}

abbrev pub dap_extend : ℕ
dap_extend = 0x80

abbrev pub extended : ℕ → Bool
extended b = bit_and b dap_extend != 0

unfoldable pub dap_eom : Rcv → Bool
dap_eom r = r.inptr == r.msgend

abbrev pub fits_size : Rcv → ℕ → Bool
fits_size r n = ltb r.msgend r.inptr || leb (r.inptr + n) r.msgend

abbrev pub fits_int : Rcv → ℕ → Bool
fits_int r n = leb (r.inptr + n) r.msgend

abbrev pub advance : Rcv → ℕ → Rcv
advance r n = record r { inptr = r.inptr + n }

unfoldable pub dap_b_get : Rcv → Rcv × Option ℕ
dap_b_get r = if fits_size r 1 then (advance r 1, some (byte_at r)) else (r, none)

unfoldable pub dap_2b_get : Rcv → Rcv × Option ℕ
dap_2b_get r =
    if fits_size r 2
    then (advance r 2, some (bit_or (byte_at (advance r 1) * 2 ^ 8) (byte_at r)))
    else (r, none)

-- The value is the bytes from the field on.
unfoldable pub dap_f_get : Rcv → ℕ → Rcv × Option (List ℕ)
dap_f_get r len = if fits_int r len then (advance r len, some (drop r.inptr r.inbuf)) else (r, none)

-- The value starts with the image's length.
unfoldable pub dap_i_get : Rcv → ℕ → Rcv × Option (List ℕ)
dap_i_get r maxlen =
    let len = byte_at r in
    if fits_int r 1 && leb len maxlen && (len == 0 || fits_int r (len + 1))
    then (advance r (len + 1), some (drop r.inptr r.inbuf))
    else (r, none)

-- The loop over the bytes of an extensible field; the first argument is `maxlen` less the bytes
-- already passed.
unfoldable pub ex_loop : ℕ → Rcv → Rcv × Bool
ex_loop zero r = (r, false)
ex_loop (suc room) r =
    let rest = ex_loop room (advance r 1) in
    if not (fits_int r 1)
    then (r, false)
    else if extended (byte_at r)
    then rest
    else (advance r 1, true)

unfoldable pub dap_ex_valid : Rcv → ℕ → Rcv × Option (List ℕ)
unfolding ex_loop
dap_ex_valid r maxlen =
    let (after, ended) = ex_loop maxlen r in
    if ended && leb after.inptr after.msgend
    then (after, some (drop r.inptr r.inbuf))
    else (after, none)

abbrev pub head_byte : List ℕ → ℕ
head_byte p = get_or p 0 0

unfoldable pub ex_skip : ℕ → List ℕ → ℕ × List ℕ
ex_skip zero p = (0, p)
ex_skip (suc offset) p =
    let rest = ex_skip offset (drop 1 p) in if extended (head_byte p) then rest else (suc offset, p)

unfoldable pub dap_ex_get_bit : List ℕ → ℕ → ℕ
unfolding ex_skip
dap_ex_get_bit ptr bit =
    let (offset, p) = ex_skip (bit / 7) ptr in
    if offset != 0 then 0 else if bit_and (head_byte p) (2 ^ (bit % 7)) == 0 then 0 else 1

-- The bytes that are written to `dst`; `len` is a size_t.
unfoldable pub dap_ex_copy : List ℕ → ℕ → List ℕ
dap_ex_copy [] len = []
dap_ex_copy (b ∷ ptr) len =
    let rest = dap_ex_copy ptr ((len + (2 ^ 64 - 1)) % 2 ^ 64) in
    if len == 1 then bit_and b 0x7f ∷ [] else if extended b then b ∷ rest else b ∷ []

unfoldable pub dap_get_filedata : Rcv → List ℕ × ℕ
dap_get_filedata r = (
  drop r.inptr r.inbuf,
  if leb r.inptr r.msgend
      then (r.msgend - r.inptr) % 2 ^ 16
      else (2 ^ 16 - (r.inptr - r.msgend) % 2 ^ 16) % 2 ^ 16,
)

-- `byte << shift` on an int, taken to 64 bits: C defines it where the result is below 2 ^ 31; what
-- the machine does otherwise is a parameter.
module _ (undefined_shift : ℕ → ℕ → ℕ) where
  unfoldable pub int_shl : ℕ → ℕ → ℕ
  int_shl b shift =
      if ltb shift 32 && ltb (b * 2 ^ shift) (2 ^ 31)
      then b * 2 ^ shift
      else undefined_shift b shift

  unfoldable pub i2int_loop : ℕ → List ℕ → ℕ → ℕ → ℕ
  unfolding int_shl
  i2int_loop zero p shift result = result
  i2int_loop (suc n) p shift result =
      i2int_loop n (drop 1 p) (shift + 8) (bit_or (int_shl (head_byte p) shift) result)

  unfoldable pub dap_i2int : List ℕ → ℕ
  unfolding i2int_loop
  dap_i2int ptr = i2int_loop (head_byte ptr) (drop 1 ptr) 0 0

  -- The loop ends at the first byte that is not extended; past the end of the buffer bytes are 0.
  unfoldable pub ex2int_loop : List ℕ → ℕ → ℕ → ℕ
  unfolding int_shl
  ex2int_loop [] shift result = result
  ex2int_loop (b ∷ p) shift result =
      let next = bit_or (int_shl (bit_and b 0x7f) shift) result in
      let rest = ex2int_loop p (shift + 7) next in if extended b then rest else next

  unfoldable pub dap_ex2int : List ℕ → ℕ
  unfolding ex2int_loop
  dap_ex2int ptr = ex2int_loop ptr 0 0

-- The strings that the conversions leave in `dst`, without the NUL.
unfoldable pub dap_i2string : List ℕ → List ℕ
dap_i2string ptr = take (head_byte ptr) (drop 1 ptr)

unfoldable pub dap_f2string : List ℕ → ℕ → List ℕ
dap_f2string ptr len = take len ptr
