-- ===== src/Fal2/Put.antt =====
-- A transmit buffer and the fields that are put into it, dnprogs/fal2/dap.c. A buffer is cut at
-- its `offset`: `front` is what stands before it, `rest` what an earlier use left behind it. The
-- code does not compare `offset` with the buffer's size, and neither does the model: the front
-- grows as far as the fields put into it.
use raspbian_decnet.Base.{
  ℕ, zero, suc, ◌+◌, ◌/◌, ◌%◌, ◌^◌, ltb, ◌==◌, if◌then◌else◌, Option, none, some, List, [], ◌∷◌,
  ◌++◌, take, length, drop, replicate, bit_and, bit_or,
}
use raspbian_decnet.Fal2.Get.{extended, dap_extend, head_byte}

pub record BufDescr : Type 0 where
  pub front : List ℕ
  pub rest : List ℕ
  pub hdrlength : ℕ
  pub datalength : ℕ

-- `data[i] = v`, where the buffer has such a byte.
abbrev pub set_at : ℕ → ℕ → List ℕ → List ℕ
set_at i v [] = []
set_at zero v (x ∷ xs) = v ∷ xs
set_at (suc i) v (x ∷ xs) = x ∷ set_at i v xs

abbrev pub stored : BufDescr → List ℕ → BufDescr
stored d bs = record d { front = d.front ++ bs; rest = drop (length bs) d.rest }

-- The offset moved back or on, over what stands there.
abbrev pub seek : ℕ → BufDescr → BufDescr
seek offset d =
    let contents = d.front ++ d.rest in
    record d { front = take offset contents; rest = drop offset contents }

unfoldable pub dap_b_put : BufDescr → ℕ → BufDescr
dap_b_put d value = stored d (value ∷ [])

unfoldable pub dap_2b_put : BufDescr → ℕ → BufDescr
dap_2b_put d value = stored d (bit_and value 0xff ∷ bit_and (value / 2 ^ 8) 0xff ∷ [])

-- An image of `len` bytes at `value`.
unfoldable pub dap_i_put : BufDescr → ℕ → List ℕ → BufDescr
dap_i_put d len value = stored d (len ∷ take len value)

-- The bytes of an extensible field at the offset.
unfoldable pub dap_ex_init : BufDescr → ℕ → BufDescr
dap_ex_init d maxlen = record d { rest = replicate maxlen 0 ++ drop maxlen d.rest }

unfoldable pub ex_length : List ℕ → ℕ
ex_length [] = 0
ex_length (b ∷ p) = let more = suc (ex_length p) in if extended b then more else 0

unfoldable pub dap_ex_done : BufDescr → BufDescr
unfolding ex_length
dap_ex_done d = let n = suc (ex_length d.rest) in stored d (take n d.rest)

unfoldable pub ex_extend : ℕ → ℕ → List ℕ → List ℕ
ex_extend bytes mask [] = []
ex_extend zero mask (b ∷ p) = bit_or b mask ∷ p
ex_extend (suc bytes) mask (b ∷ p) = bit_or b dap_extend ∷ ex_extend bytes mask p

unfoldable pub ex_set : ℕ → ℕ → List ℕ → List ℕ
unfolding ex_extend
ex_set bytes mask [] = []
ex_set zero mask (b ∷ p) = ex_extend zero mask (b ∷ p)
ex_set (suc bytes) mask (b ∷ p) =
    let passed = b ∷ ex_set bytes mask p in
    if extended b then passed else ex_extend (suc bytes) mask (b ∷ p)

unfoldable pub dap_ex_set_bit : BufDescr → ℕ → BufDescr
unfolding ex_set
dap_ex_set_bit d bit = record d { rest = ex_set (bit / 7) (2 ^ (bit % 7)) d.rest }

unfoldable pub dap_hdr_done : BufDescr → BufDescr
dap_hdr_done d = record d { hdrlength = length d.front }

-- The loop of `DAPint2i`, which gives up when the field's room is used up.
unfoldable pub int2i_loop : ℕ → BufDescr → ℕ → ℕ → Option (BufDescr × ℕ)
int2i_loop zero d value count = none
int2i_loop (suc room) d value count =
    let next = dap_b_put d (bit_and value 0xff) in
    let rest = int2i_loop room next (value / 2 ^ 8) (suc count) in
    if value / 2 ^ 8 == 0 then some (next, suc count) else rest

abbrev pub int2i_done : BufDescr → Option (BufDescr × ℕ) → BufDescr
int2i_done d none = dap_b_put (dap_b_put d 1) 0
int2i_done d (some (e, count)) = record e { front = set_at (length d.front) count e.front }

-- The byte of the length is skipped, and set at the end; where the value does not fit, what was
-- written stays behind the two bytes that take its place, and is stale there.
unfoldable pub dap_int2i : BufDescr → ℕ → ℕ → BufDescr
unfolding int2i_loop dap_b_put
dap_int2i d maxlen value =
    int2i_done d (int2i_loop maxlen (stored d (head_byte d.rest ∷ [])) value 0)

unfoldable pub dap_string2i : BufDescr → ℕ → List ℕ → BufDescr
dap_string2i d maxlen str =
    let len = if ltb maxlen (length str) then maxlen else length str in
    stored d (len ∷ take len str)

unfoldable pub dap_allocate_space : BufDescr → ℕ → BufDescr
dap_allocate_space d len = seek (length d.front + len) d
