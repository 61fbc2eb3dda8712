-- ===== src/Fal2/Receive.antt =====
-- Reception of DAP messages, dnprogs/fal2/dap.c: the receive buffer, `DAPread` and
-- `DAPnextMessage`. A byte read past the end of the buffer is 0 here; a failed read leaves -1 in
-- `inlen`, which is 0 here, since every later test takes both alike. A pointer into the buffer is
-- the list of the bytes from there on.
pub mod Frames
use raspbian_decnet.Base.{
  ℕ, suc, ◌+◌, ◌-◌, ◌*◌, ◌%◌, ◌^◌, Bool, true, false, not, ◌&&◌, ◌||◌, ltb, leb, ◌==◌, ◌!=◌,
  if◌then◌else◌, Option, none, some, List, [], ◌++◌, length, get_or, drop, bit_and, bit_or,
}

pub record Rcv : Type 0 where
  pub inbuf : List ℕ
  pub inlen : ℕ
  pub inptr : ℕ
  pub msgtype : ℕ
  pub msgflags : ℕ
  pub msgstreamid : ℕ
  pub msgbitcnt : ℕ
  pub msgsysspec : Option (List ℕ)
  pub msglength : ℕ
  pub hdrlength : ℕ
  pub msgstart : ℕ
  pub msgend : ℕ
  pub datalength : ℕ

abbrev pub dap_flags_streamid : ℕ
dap_flags_streamid = 0x01

abbrev pub dap_flags_length : ℕ
dap_flags_length = 0x02

abbrev pub dap_flags_len256 : ℕ
dap_flags_len256 = 0x04

abbrev pub dap_flags_bitcnt : ℕ
dap_flags_bitcnt = 0x08

abbrev pub dap_flags_sysspec : ℕ
dap_flags_sysspec = 0x20

-- What the socket gives to a `read`: an error, or bytes, none at the end of the stream.
pub data Reading : Type 0 where
  failed : Reading
  bytes : List ℕ → Reading

-- The buffer after a read: what was there before stays behind the new bytes.
unfoldable pub dap_read : Rcv → Reading → Rcv × Option ℕ
dap_read r (failed) =
    (record r { inlen = 0; inptr = 0; msgstart = 0; msglength = 0; hdrlength = 0 }, none)
dap_read r (bytes new) = (
  record r {
    inbuf = new ++ drop (length new) r.inbuf;
    inlen = length new;
    inptr = 0;
    msgstart = 0;
    msglength = 0;
    hdrlength = 0;
  },
  some (length new),
)

abbrev pub byte_at : Rcv → ℕ
byte_at r = get_or r.inbuf r.inptr 0

-- A step of the header's parser goes on, or ends the routine with -1.
pub data Parse : Type 0 where
  malformed : Rcv → Parse
  parsed : Rcv → Parse

unfoldable pub and_then : Parse → (Rcv → Parse) → Parse
and_then (malformed r) f = malformed r
and_then (parsed r) f = f r

-- One byte of the header, where its flag says that it is there.
unfoldable pub header_byte : Bool → (ℕ → Rcv → Rcv) → Rcv → Parse
header_byte present store r =
    if not present
    then parsed r
    else if r.inlen - r.inptr == 0
    then malformed r
    else parsed (store (byte_at r) (record r { inptr = suc r.inptr }))

abbrev pub flagged : Rcv → ℕ → Bool
flagged r flag = bit_and r.msgflags flag != 0

unfoldable pub high_length : Rcv → Parse
unfolding header_byte
high_length r =
    if flagged r dap_flags_len256 && not (flagged r dap_flags_length)
    then malformed r
    else header_byte (flagged r dap_flags_len256)
        (λ (b : ℕ) (s : Rcv). record s { msglength = bit_or (b * 2 ^ 8) s.msglength }) r

unfoldable pub sysspec_field : Rcv → Parse
sysspec_field r =
    let len = byte_at r in
    if not (flagged r dap_flags_sysspec)
    then parsed r
    else if leb (r.inptr + 1) r.inlen && leb (r.inptr + (len + 1)) r.inlen
    then parsed (record r { msgsysspec = some (drop r.inptr r.inbuf); inptr = r.inptr + (len + 1) })
    else malformed r

-- The fields behind the flags, which are there where anything follows the type.
unfoldable pub optional_fields : Rcv → Parse
unfolding and_then header_byte high_length sysspec_field
optional_fields r =
    if r.inlen - r.inptr == 0
    then parsed r
    else let r1 = record r { msgflags = byte_at r; inptr = suc r.inptr } in
      and_then
        (header_byte (flagged r1 dap_flags_streamid) (λ b s. record s { msgstreamid = b }) r1)
        (λ r2.
          and_then
            (header_byte (flagged r2 dap_flags_length) (λ b s. record s { msglength = b }) r2)
            (λ r3. and_then (high_length r3) (λ r4.
              and_then
                (header_byte (flagged r4 dap_flags_bitcnt) (λ b s. record s { msgbitcnt = b }) r4)
                sysspec_field)))

unfoldable pub message_header : Rcv → Parse
unfolding optional_fields
message_header r =
    if r.inlen - r.inptr == 0
    then malformed r
    else optional_fields (record r {
      msgtype = byte_at r;
      inptr = suc r.inptr;
      msgflags = 0;
      msgstreamid = 0;
      msgbitcnt = 0;
      msglength = 0;
      msgsysspec = none;
    })

-- Where the header has been parsed: the data's length and the message's end.
unfoldable pub measured : Rcv → Rcv
measured r =
    let hdrlength = (r.inptr - r.msgstart) % 2 ^ 16 in
    let datalength = if r.msglength != 0 then r.msglength else r.inlen - (r.msgstart + hdrlength) in
    record r {
      hdrlength = hdrlength;
      datalength = datalength;
      msgend = r.msgstart + hdrlength + datalength;
    }

-- What `DAPnextMessage` returns: -1 is `none`; the function code is given with a message only.
unfoldable pub finish : Parse → Rcv × (Option ℕ × Option ℕ)
unfolding measured
finish (malformed r) = (r, (none, none))
finish (parsed r) = let m = measured r in (m, (some m.datalength, some m.msgtype))

unfoldable pub parse_message : Rcv → Rcv × (Option ℕ × Option ℕ)
unfolding message_header finish
parse_message r =
    let start = r.msgstart + r.hdrlength + r.msglength in
    finish (message_header (record r { inptr = start; msgstart = start }))

abbrev pub exhausted : Rcv → Bool
exhausted r =
    r.inptr != 0 && (r.msglength == 0 || r.msgstart + r.hdrlength + r.msglength == r.inlen)

unfoldable pub refilled : Rcv × Option ℕ → Rcv × (Option ℕ × Option ℕ)
unfolding parse_message
refilled (r, none) = (r, (none, none))
refilled (r, some len) = if len == 0 then (r, (some 0, none)) else parse_message r

unfoldable pub dap_next_message : Rcv → Reading → Rcv × (Option ℕ × Option ℕ)
unfolding refilled dap_read parse_message
dap_next_message r reading = if exhausted r then refilled (dap_read r reading) else parse_message r
