-- ===== src/Fal2/Receive/Frames.antt =====
-- What `DAPnextMessage` of dnprogs/fal2/dap.c makes of the three headers that the code builds.
use raspbian_decnet.Base.{
  ℕ, suc, ◌+◌, ◌-◌, ◌*◌, ◌<◌, ◌≤◌, ◌≡◌, false, ◌==◌, none, some, get_or, bit_or_high, arith,
}
use raspbian_decnet.Fal2.Receive.{
  Rcv, parse_message, message_header, optional_fields, header_byte, high_length, sysspec_field,
  and_then, finish, measured,
}

-- Where the next message starts.
abbrev pub next_start : Rcv → ℕ
next_start r = r.msgstart + r.hdrlength + r.msglength

-- The state at a message with no stream, bit count or system specific field.
abbrev pub at_message : Rcv → ℕ → ℕ → ℕ → ℕ → ℕ → ℕ → Rcv
at_message r p type flags len hdr size = record r {
  inptr = p + hdr;
  msgtype = type;
  msgflags = flags;
  msgstreamid = 0;
  msgbitcnt = 0;
  msgsysspec = none;
  msglength = len;
  hdrlength = hdr;
  msgstart = p;
  msgend = p + hdr + size;
  datalength = size;
}

abbrev byte : Rcv → ℕ → ℕ
byte r i = get_or r.inbuf i 0

pub parse_plain :
    (r : Rcv) (p type : ℕ)
    → next_start r ≡ p
    → p + 2 ≤ r.inlen
    → byte r p ≡ type
    → byte r (suc p) ≡ 0
    → parse_message r
      ≡ (at_message r p type 0 0 2 (r.inlen - (p + 2)), (some (r.inlen - (p + 2)), some type))
unfolding parse_message message_header optional_fields header_byte high_length sysspec_field
    and_then finish measured
parse_plain r p type start room e0 e1 = rw (start, e0, e1) (ground (arith, room))

pub parse_length :
    (r : Rcv) (p type len : ℕ)
    → next_start r ≡ p
    → p + 3 ≤ r.inlen
    → byte r p ≡ type
    → byte r (suc p) ≡ 2
    → byte r (suc (suc p)) ≡ len
    → 0 < len
    → parse_message r ≡ (at_message r p type 2 len 3 len, (some len, some type))
unfolding parse_message message_header optional_fields header_byte high_length sysspec_field
    and_then finish measured
parse_length r p type len start room e0 e1 e2 some_data =
    rw (start, e0, e1, e2) (ground (arith, room, some_data))

pub parse_length256 :
    (r : Rcv) (p type low high : ℕ)
    → next_start r ≡ p
    → p + 4 ≤ r.inlen
    → byte r p ≡ type
    → byte r (suc p) ≡ 6
    → byte r (suc (suc p)) ≡ low
    → byte r (suc (suc (suc p))) ≡ high
    → low < 256
    → 0 < high * 256 + low
    → parse_message r ≡ (
      at_message r p type 6 (high * 256 + low) 4 (high * 256 + low),
      (some (high * 256 + low), some type),
    )
unfolding parse_message message_header optional_fields header_byte high_length sysspec_field
    and_then finish measured
parse_length256 r p type low high start room e0 e1 e2 e3 small some_data =
    let t1 : (r.inlen - suc p == 0) ≡ false = ground (arith, room) in
    let t2 : (r.inlen - suc (suc p) == 0) ≡ false = ground (arith, room) in
    let t3 : (r.inlen - suc (suc (suc p)) == 0) ≡ false = ground (arith, room) in
    let whole = bit_or_high 8 high low small in
    rw (start, e0, e1, t1, t2, e2, t3, e3) (ground (arith, room, some_data, whole))
