-- ===== src/Nsp/Tests.antt =====
-- Runs of the NSP code, and its theorems at concrete inputs.
use raspbian_decnet.Base.{◌+◌, ◌≡◌, refl, true, false, arith, List, [], ◌∷◌, ◌++◌, map, length}
use raspbian_decnet.Nsp.Ack.Sender.{
  IsSender, SenderRun, start, then_step, queues, acknowledges, SenderRun-IsSender,
}
use raspbian_decnet.Nsp.Queue.{prepare, dn_nsp_queue_xmit}
use raspbian_decnet.Nsp.Socket.{Kernel, Sock, Skb, State}
use raspbian_decnet.Nsp.Send.{dn_nsp_send, dn_nsp_clone_and_send}
use raspbian_decnet.Nsp.Send.Window.{content}
use raspbian_decnet.Nsp.Header.{le16, dn_mk_ack_header, dn_nsp_mk_data_header}
use raspbian_decnet.Nsp.Ack.{dn_nsp_check_xmit_queue, dn_process_ack}
use raspbian_decnet.Nsp.Ack.GoBackN.{check_xmit_queue_go_back_n}
use raspbian_decnet.Nsp.Ack.RoundTrip.{
  process_ack-mk_ack_header, with_bytes, ack_bytes, ack_data, ack_other,
}
use raspbian_decnet.Nsp.Receive.{dn_nsp_backlog_rcv}
use raspbian_decnet.Nsp.Receive.States.{Moves}
use raspbian_decnet.Nsp.Receive.Machine.{
  backlog_rcv-Moves, receive_all, receive_all-may_run, may_run,
}
use raspbian_decnet.Nsp.Receive.Segment.Delivery.{
  Delivers, IsSegment, receive_data, receive_data-Delivers,
}
use raspbian_decnet.Nsp.Samples.{sample_kernel, sample_sock, sample_scp, segment, packet}

check_xmit_queue_go_back_n_example :
    let (t, wakeup) =
      dn_nsp_check_xmit_queue sample_kernel (packet 0x04 []) 0xcfff false sample_sock in
    (map content t.scp.data_xmit_queue ≡ map content (segment 0 1 ∷ []))
    × (wakeup ≡ true)
    × (t.scp.numdat ≡ 1)
check_xmit_queue_go_back_n_example =
    check_xmit_queue_go_back_n sample_kernel (packet 0x04 []) 0xcfff 4094 2 sample_sock
      (refl, (refl, (refl, tt))) refl (omega arith) (omega arith)

process_ack-mk_ack_header_example :
    dn_process_ack sample_kernel
      (with_bytes (packet 0x60 []) (ack_bytes sample_scp 0x60 false ++ (1 ∷ 2 ∷ [])))
      false
      sample_sock
    ≡ (
      with_bytes (packet 0x60 []) (1 ∷ 2 ∷ []),
      ack_other sample_kernel (with_bytes (packet 0x60 []) (1 ∷ 2 ∷ [])) 9 (
          ack_data sample_kernel
            (with_bytes (packet 0x60 []) (le16 (9 + 0xa000) ++ (1 ∷ 2 ∷ [])))
            4094
            sample_sock),
    )
process_ack-mk_ack_header_example =
    process_ack-mk_ack_header sample_kernel (packet 0x60 []) sample_scp 0x60 false (1 ∷ 2 ∷ [])
      sample_sock (omega arith) (omega arith)

-- A disconnect initiate with reason 3.
abbrev goodbye : Skb
goodbye = packet 0x38 (3 ∷ 0 ∷ [])

backlog_rcv-Moves_example :
    Moves State.running (dn_nsp_backlog_rcv sample_kernel goodbye sample_sock).scp.state
backlog_rcv-Moves_example = backlog_rcv-Moves sample_kernel goodbye sample_sock

abbrev refused_sock : Sock
refused_sock = record sample_sock { scp = record sample_scp { state = State.rejected } }

receive_all-may_run_example :
    may_run (receive_all ((sample_kernel, goodbye) ∷ []) refused_sock).scp.state ≡ false
receive_all-may_run_example = receive_all-may_run ((sample_kernel, goodbye) ∷ []) refused_sock refl

-- The next segment, an old one, and the one after.
abbrev arrivals : List (Kernel × Skb)
arrivals =
    (sample_kernel, packet 0x60 (0xff ∷ 0x0f ∷ 1 ∷ []))
    ∷ (sample_kernel, packet 0x60 (0xff ∷ 0x0f ∷ 1 ∷ []))
    ∷ (sample_kernel, packet 0x60 (0 ∷ 0x10 ∷ 2 ∷ []))
    ∷ []

arrival-IsSegment : IsSegment (sample_kernel, packet 0x60 (0xff ∷ 0x0f ∷ 1 ∷ []))
arrival-IsSegment = record { long = omega arith; cb_kept = λ skb. refl }

last-IsSegment : IsSegment (sample_kernel, packet 0x60 (0 ∷ 0x10 ∷ 2 ∷ []))
last-IsSegment = record { long = omega arith; cb_kept = λ skb. refl }

receive_data-Delivers_example : Delivers sample_sock (receive_data arrivals sample_sock)
receive_data-Delivers_example =
    receive_data-Delivers arrivals sample_sock
      (arrival-IsSegment, (arrival-IsSegment, (last-IsSegment, tt)))

sample-IsSender : IsSender 4094 sample_sock
sample-IsSender = record {
  window = record { numbered = (refl, (refl, (refl, tt))); next = omega arith };
  room = omega arith;
}

-- One more segment, and the acknowledgement of the first two.
abbrev fourth : Skb
fourth = packet 0x60 (9 ∷ [])

abbrev four_out : Sock
four_out = dn_nsp_queue_xmit sample_kernel sample_sock fourth false

four_wait : length four_out.scp.data_xmit_queue ≡ 4
unfolding dn_nsp_queue_xmit prepare dn_nsp_mk_data_header dn_mk_ack_header dn_nsp_clone_and_send
    dn_nsp_send
four_wait = refl

sender_run :
    SenderRun 4094 sample_sock 4096
      (dn_nsp_check_xmit_queue sample_kernel (packet 0x04 []) 4095 false four_out).0
sender_run =
    then_step 4094 4094 4096 sample_sock four_out _
      (then_step 4094 4094 4094 sample_sock sample_sock four_out (start 4094 sample_sock)
        (queues sample_kernel fourth 4094 sample_sock (omega arith)))
      (acknowledges sample_kernel (packet 0x04 []) 4095 4094 2 four_out refl
        (omega (arith, four_wait)))

SenderRun-IsSender_example :
    IsSender 4096 (dn_nsp_check_xmit_queue sample_kernel (packet 0x04 []) 4095 false four_out).0
SenderRun-IsSender_example =
    SenderRun-IsSender 4094 4096 sample_sock
      (dn_nsp_check_xmit_queue sample_kernel (packet 0x04 []) 4095 false four_out).0 sender_run
      sample-IsSender
