-- ===== src/Fal2/Tests.antt =====
-- The results for the DAP message layer at concrete messages.
use mathlib.Core.List.{append-nil}
use raspbian_decnet.Base.{
  subst, ℕ, ◌≡◌, refl, if◌then◌else◌, none, some, List, [], ◌∷◌, ◌++◌, All, map, replicate, arith,
}
use raspbian_decnet.Fal2.Receive.{Rcv}
use raspbian_decnet.Fal2.Put.{BufDescr, dap_ex_init}
use raspbian_decnet.Fal2.Get.{dap_ex_get_bit}
use raspbian_decnet.Fal2.Pool.{
  Transmit, dap_init, iov, completed, dap_alloc_buf, dap_write, dap_flush_buffers,
}
use raspbian_decnet.Fal2.Pool.Uses.{IsMessage, Use, alloc, fill, write, Uses, none_yet, then_use}
use raspbian_decnet.Fal2.Pool.Stream.{stream, Uses-stream}
use raspbian_decnet.Fal2.Pool.Ready.{alloc-init}
use raspbian_decnet.Fal2.Pool.Blocks.{IsBlock, Uses-IsBlock}
use raspbian_decnet.Fal2.Blocked.{Message, plain, one_byte, built}
use raspbian_decnet.Fal2.Build.{plain_header, length_header}
use raspbian_decnet.Fal2.Blocked.RoundTrip.{viewed}
use raspbian_decnet.Fal2.Blocked.Written.{read_all, messages, written, Uses-read_all}
use raspbian_decnet.Fal2.Extensible.{bits_set, among, get_bit-bits_set}

abbrev acknowledge : Message
acknowledge = record { framing = one_byte; type = 6; payload = 1 ∷ 2 ∷ [] }

abbrev access : Message
access = record { framing = plain; type = 3; payload = [] }

abbrev blank : BufDescr
blank = record { front = []; rest = replicate 12 0; hdrlength = 0; datalength = 0 }

abbrev seven_left : Transmit
seven_left = record { buffers = replicate 7 blank; pending = []; sent = []; buffer_size = 1000 }

abbrev filled : BufDescr
filled = record {
  front = 6 ∷ 2 ∷ 0 ∷ 1 ∷ 2 ∷ [];
  rest = replicate 7 0;
  hdrlength = 3;
  datalength = 0;
}

-- A buffer is taken, filled and written.
one_message :
    Uses (dap_init 12 1000) [] (dap_write seven_left filled) [] (iov (completed filled) ∷ [])
unfolding dap_init dap_alloc_buf
one_message =
    let start = dap_init 12 1000 in
    let taken : Use start [] seven_left (blank ∷ []) [] = alloc start [] blank seven_left refl in
    then_use start seven_left (dap_write seven_left filled) [] (filled ∷ []) [] []
      (iov (completed filled) ∷ [])
      (then_use start seven_left seven_left [] (blank ∷ []) (filled ∷ []) [] []
        (then_use start start seven_left [] [] (blank ∷ []) [] [] (none_yet start []) taken)
        (fill seven_left [] blank filled))
      (write seven_left [] filled (record { header = omega arith; fits = omega arith }))

Uses-stream_example :
    stream (dap_write seven_left filled)
    ≡ stream (dap_init 12 1000) ++ (iov (completed filled) ∷ [])
Uses-stream_example =
    Uses-stream (dap_init 12 1000) (dap_write seven_left filled) [] [] (iov (completed filled) ∷ [])
      one_message

Uses-IsBlock_example : All (IsBlock 1000) (dap_write seven_left filled).sent
Uses-IsBlock_example =
    Uses-IsBlock 12 1000 (dap_write seven_left filled) [] (iov (completed filled) ∷ [])
      (omega arith) one_message

alloc-init_example :
    (d : BufDescr) × (v : Transmit) × (dap_alloc_buf (dap_write seven_left filled) ≡ some (d, v))
alloc-init_example =
    alloc-init 12 1000 (dap_write seven_left filled) [] (iov (completed filled) ∷ []) one_message
      (omega arith)

abbrev idle : Rcv
idle = record {
  inbuf = replicate 3 9;
  inlen = 0;
  inptr = 0;
  msgtype = 0;
  msgflags = 0;
  msgstreamid = 0;
  msgbitcnt = 0;
  msgsysspec = none;
  msglength = 0;
  hdrlength = 0;
  msgstart = 0;
  msgend = 0;
  datalength = 0;
}

-- A buffer is taken, a message is built in it and written.
one_more :
    (start t u : Transmit) (d : BufDescr) (ms : List (List ℕ)) (m : Message) (old : List ℕ)
    → Uses start [] t [] ms
    → dap_alloc_buf t ≡ some (d, u)
    → IsMessage (built m old)
    → Uses start [] (dap_write u (built m old)) [] (ms ++ (iov (completed (built m old)) ∷ []))
one_more start t u d ms m old run e fits =
    let v = dap_write u (built m old) in
    let alloc_run : Uses start [] u (d ∷ []) ms =
      subst (Uses start [] u (d ∷ [])) (append-nil ms)
        (then_use start t u [] [] (d ∷ []) ms [] run (alloc t [] d u e)) in
    let fill_run : Uses start [] u (built m old ∷ []) ms =
      subst (Uses start [] u (built m old ∷ [])) (append-nil ms) (
        then_use start u u [] (d ∷ []) (built m old ∷ []) ms [] alloc_run
          (fill u [] d (built m old))) in
    then_use start u v [] (built m old ∷ []) [] ms (iov (completed (built m old)) ∷ []) fill_run
      (write u [] (built m old) fits)

abbrev acknowledged : Transmit
acknowledged = dap_write seven_left (built acknowledge (replicate 12 0))

abbrev six_left : Transmit
six_left = record acknowledged { buffers = replicate 6 blank }

abbrev two_messages : List (Message × List ℕ)
two_messages = (acknowledge, replicate 12 0) ∷ ((access, replicate 12 0) ∷ [])

-- An acknowledgement, and a message without a length behind it.
both_written :
    Uses
      (dap_init 12 1000)
      []
      (dap_write six_left (built access (replicate 12 0)))
      []
      (written two_messages)
unfolding dap_init dap_alloc_buf dap_write length_header plain_header
both_written =
    let start = dap_init 12 1000 in
    let first =
      one_more start start seven_left blank [] acknowledge (replicate 12 0) (none_yet start []) refl
        (record { header = omega arith; fits = omega arith }) in
    one_more start acknowledged six_left blank
      (iov (completed (built acknowledge (replicate 12 0))) ∷ []) access (replicate 12 0) first refl
      (record { header = omega arith; fits = omega arith })

Uses-read_all_example :
    read_all idle (dap_flush_buffers (dap_write six_left (built access (replicate 12 0)))).sent
    ≡ map viewed (messages two_messages)
Uses-read_all_example =
    Uses-read_all 12 1000 (dap_write six_left (built access (replicate 12 0))) [] two_messages idle
      ((omega arith, omega arith), (tt, tt)) both_written

get_bit-bits_set_example :
    dap_ex_get_bit (bits_set (dap_ex_init blank 3) (2 ∷ 15 ∷ [])).rest 15
    ≡ (if among 15 (2 ∷ 15 ∷ []) then 1 else 0)
get_bit-bits_set_example =
    get_bit-bits_set blank 3 15 (2 ∷ 15 ∷ []) (omega arith) (omega arith, (omega arith, tt))
