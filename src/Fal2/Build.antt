-- ===== src/Fal2/Build.antt =====
-- The messages that dnprogs/fal2/dap.c builds itself: their headers, Acknowledge and Name.
-- `rem_len` tells which length fields the other end takes: 0 none, 1 one byte, 2 also two bytes.
use raspbian_decnet.Base.{
  ℕ, ltb, ◌==◌, ◌!=◌, if◌then◌else◌, Option, none, some, List, [], ◌∷◌, ◌++◌, take, length, bit_or,
}
use raspbian_decnet.Fal2.Receive.{dap_flags_length, dap_flags_len256}
use raspbian_decnet.Fal2.Put.{
  BufDescr, dap_b_put, dap_2b_put, dap_i_put, dap_ex_init, dap_ex_set_bit, dap_ex_done,
  dap_hdr_done,
}
use raspbian_decnet.Fal2.Pool.{Transmit, dap_alloc_buf, dap_write}

-- What is done with a new buffer, where there is one.
abbrev pub on_buffer :
    Option (BufDescr × Transmit) → (BufDescr → BufDescr) → Option (BufDescr × Transmit)
on_buffer none f = none
on_buffer (some (d, t)) f = some (f d, t)

unfoldable pub plain_header : ℕ → BufDescr → BufDescr
unfolding dap_b_put dap_hdr_done
plain_header msgtype d = dap_hdr_done (dap_b_put (dap_b_put d msgtype) 0)

unfoldable pub length_header : ℕ → BufDescr → BufDescr
unfolding dap_b_put dap_hdr_done
length_header msgtype d =
    dap_hdr_done (dap_b_put (dap_b_put (dap_b_put d msgtype) dap_flags_length) 0)

unfoldable pub length256_header : ℕ → BufDescr → BufDescr
unfolding dap_b_put dap_2b_put dap_hdr_done
length256_header msgtype d =
    dap_hdr_done
      (dap_2b_put (dap_b_put (dap_b_put d msgtype) (bit_or dap_flags_length dap_flags_len256)) 0)

unfoldable pub dap_build_header : Transmit → ℕ → Option (BufDescr × Transmit)
unfolding plain_header
dap_build_header t msgtype = on_buffer (dap_alloc_buf t) (plain_header msgtype)

unfoldable pub dap_build_header1_len : Transmit → ℕ → ℕ → Option (BufDescr × Transmit)
unfolding plain_header length_header
dap_build_header1_len t rem_len msgtype =
    on_buffer (dap_alloc_buf t)
      (if rem_len != 0 then length_header msgtype else plain_header msgtype)

unfoldable pub dap_build_header2_len : Transmit → ℕ → ℕ → Option (BufDescr × Transmit)
unfolding plain_header length256_header
dap_build_header2_len t rem_len msgtype =
    on_buffer (dap_alloc_buf t)
      (if rem_len == 2 then length256_header msgtype else plain_header msgtype)

abbrev pub dap_msg_acknowledge : ℕ
dap_msg_acknowledge = 6

abbrev pub dap_msg_name : ℕ
dap_msg_name = 15

abbrev pub dap_name_max_namespec : ℕ
dap_name_max_namespec = 200

abbrev pub sent_off : Option (BufDescr × Transmit) → (BufDescr → BufDescr) → Option Transmit
sent_off none f = none
sent_off (some (d, t)) f = some (dap_write t (f d))

unfoldable pub dap_send_acknowledge : Transmit → Option Transmit
unfolding dap_write
dap_send_acknowledge t = sent_off (dap_build_header t dap_msg_acknowledge) (λ d. d)

-- A long name is cut to five characters and three dots.
unfoldable pub cut_name : List ℕ → List ℕ
cut_name name =
    if ltb dap_name_max_namespec (length name)
    then take 5 name ++ (b'.' ∷ b'.' ∷ b'.' ∷ [])
    else name

unfoldable pub name_fields : ℕ → List ℕ → BufDescr → BufDescr
unfolding dap_ex_init dap_ex_set_bit dap_ex_done dap_i_put
name_fields nametype name d =
    dap_i_put (dap_ex_done (dap_ex_set_bit (dap_ex_init d 3) nametype)) (length name) name

unfoldable pub dap_send_name : Transmit → ℕ → ℕ → List ℕ → Option Transmit
unfolding cut_name name_fields dap_write
dap_send_name t rem_len nametype name =
    sent_off (dap_build_header1_len t rem_len dap_msg_name) (name_fields nametype (cut_name name))
