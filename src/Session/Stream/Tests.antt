-- ===== src/Session/Stream/Tests.antt =====
-- The theorems on sending and receiving, at a concrete link.
use raspbian_decnet.Base.{ℕ, ◌≡◌, ◌≤◌, ◌⊎◌, refl, true, false, [], ◌∷◌, ◌++◌, length, List, arith}
use raspbian_decnet.Nsp.Socket.{Skb}
use raspbian_decnet.Nsp.Samples.{sample_kernel, sample_sock, packet}
use raspbian_decnet.Session.Stream.Send.{Call, send_loop}
use raspbian_decnet.Session.Stream.Send.Segments.{queued, after, left_over, send_loop-queued}
use raspbian_decnet.Session.Stream.Send.Window.{IsBounded, send_loop-IsBounded}
use raspbian_decnet.Session.Stream.Receive.{Request, target, ready_walk, dn_data_ready, copy_loop}
use raspbian_decnet.Session.Stream.Receive.Bytes.{all_bytes, copy_loop-bytes, data_ready-copy_loop}

-- Five bytes in segments of two.
abbrev by_twos : Call
by_twos = record {
  oob = false;
  eor = true;
  dlyack_seq = 4;
  mss = 2;
  signal_pending = λ left. false;
  intr_errno = 4;
  faults = λ left. false;
}

abbrev message : List ℕ
message = 1 ∷ 2 ∷ 3 ∷ 4 ∷ 5 ∷ []

send_loop-queued_example :
    queued (after (send_loop sample_kernel by_twos 3 message sample_sock))
      ++ left_over (send_loop sample_kernel by_twos 3 message sample_sock)
    ≡ queued sample_sock ++ message
send_loop-queued_example = send_loop-queued sample_kernel by_twos 3 message sample_sock refl

send_loop-IsBounded_example :
    IsBounded 4 (after (send_loop sample_kernel by_twos 5 message sample_sock))
send_loop-IsBounded_example =
    send_loop-IsBounded sample_kernel by_twos 5 4 message sample_sock refl (omega arith)
      (record { window = omega arith; waiting = omega arith })

-- Room for four bytes that can be written, and two segments of three, of which the second ends
-- the message.
abbrev four_bytes : Request
four_bytes = record {
  size = 4;
  oob = false;
  peek = false;
  waitall = true;
  seqpacket = true;
  faults = λ place n. false;
}

abbrev arrived : List Skb
arrived = packet 0x20 (1 ∷ 2 ∷ 3 ∷ []) ∷ packet 0x40 (4 ∷ 5 ∷ 6 ∷ []) ∷ []

copy_loop-bytes_example :
    (copy_loop four_bytes 0 false arrived).bytes
      ++ all_bytes (copy_loop four_bytes 0 false arrived).queue
    ≡ all_bytes arrived
copy_loop-bytes_example = copy_loop-bytes four_bytes 0 false arrived refl

ready : dn_data_ready four_bytes arrived ≡ true
unfolding dn_data_ready ready_walk target
ready = refl

data_ready-copy_loop_example :
    (target four_bytes ≤ length (copy_loop four_bytes 0 false arrived).bytes)
    ⊎ ((copy_loop four_bytes 0 false arrived).eor ≡ true)
data_ready-copy_loop_example = data_ready-copy_loop four_bytes arrived refl (λ place n. refl) ready
