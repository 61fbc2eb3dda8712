-- ===== src/Nsp/Send.antt =====
-- Sending a packet and the heads of the transmit queues: `dn_nsp_send`, `dn_alloc_skb`,
-- `dn_nsp_clone_and_send`, `dn_nsp_output` and `dn_nsp_xmit_timeout` of
-- kernel/net/decnet/dn_nsp_out.c. The route lookup and the memory are the kernel's.
pub mod Window
use raspbian_decnet.Base.{
  ℕ, ◌+◌, ◌/◌, Bool, true, false, not, ◌||◌, ltb, ◌!=◌, if◌then◌else◌, Option, none, some, List, [],
  ◌∷◌,
}
use raspbian_decnet.Nsp.Seq.{u16}
use raspbian_decnet.Nsp.Socket.{Kernel, Sock, DnScp, DnSkbCb, Skb}
use raspbian_decnet.Nsp.Timer.{dn_nsp_persist, nsp_min_window}

abbrev pub ehostunreach : ℕ
ehostunreach = 113

-- The values of `flowrem_sw` and `flowloc_sw`.
abbrev pub dn_send : ℕ
dn_send = 2

abbrev pub dn_dontsend : ℕ
dn_dontsend = 1

abbrev pub dn_nochange : ℕ
dn_nochange = 0

-- `if (!sock_flag(sk, SOCK_DEAD)) sk->sk_state_change(sk);`
abbrev pub wake : Sock → Sock
wake s = if s.sk_dead then s else record s { state_changes = s.state_changes + 1 }

-- `alloc_skb` and `skb_clone`: whether memory was found.
abbrev pub allocates : Kernel → Sock → Bool
allocates k s = k.alloc s.allocations

abbrev pub asked : Sock → Sock
asked s = record s { allocations = s.allocations + 1 }

-- The control block of a fresh packet.
abbrev pub empty_cb : DnSkbCb
empty_cb = record {
  dst = 0;
  src = 0;
  hops = 0;
  dst_port = 0;
  src_port = 0;
  services = 0;
  info = 0;
  rt_flags = 0;
  nsp_flags = 0;
  ack_delay = 0;
  segsize = 0;
  segnum = 0;
  xmit_count = 0;
  stamp = 0;
  iif = 0;
}

-- A packet that was allocated with these bytes; transmit memory is not accounted for.
abbrev pub new_skb : List ℕ → Skb
new_skb bytes = record { bytes = bytes; cb = empty_cb; truesize = 0 }

abbrev pub sk_dst_check : Kernel → Sock → Option ℕ
sk_dst_check k s = elim s.dst_cache [
  | none ↦ none
  | some dst ↦ if k.dst_valid dst then some dst else none
]

unfoldable pub dn_nsp_send : Kernel → Skb → Sock → Sock
dn_nsp_send k skb s0 =
    let s = record s0 { scp = record (s0.scp) { stamp = k.jiffies } } in
    elim (sk_dst_check k s) [
      | some dst ↦ record s { sent = skb ∷ s.sent }
      | none ↦ elim k.route [
        | some dst ↦ record s { dst_cache = some dst; sent = skb ∷ s.sent }
        | none ↦ wake (record s { dst_cache = none; sk_err = ehostunreach })
      ]
    ]

-- The packet with its counts, the socket, and how often the packet was sent before. The clone is
-- made before the counts change.
unfoldable pub dn_nsp_clone_and_send : Kernel → Skb → Sock → Skb × Sock × ℕ
dn_nsp_clone_and_send k skb s =
    if allocates k s
    then (
      record skb {
        cb = record (skb.cb) {
          xmit_count = u16 (skb.cb.xmit_count + 1);
          stamp = k.jiffies;
          ack_delay = 0;
        };
      },
      dn_nsp_send k skb (asked s),
      skb.cb.xmit_count,
    )
    else (skb, asked s, 0)

-- `skb_peek`, and sending what it finds.
unfoldable pub send_head : Kernel → List Skb → Sock → List Skb × Sock × ℕ
send_head k [] s = ([], s, 0)
send_head k (skb ∷ rest) s =
    let (skb', s', again) = dn_nsp_clone_and_send k skb s in (skb' ∷ rest, s', again)

-- The queue for data, or for other data and link service messages.
abbrev pub xmit_queue : Bool → DnScp → List Skb
xmit_queue true scp = scp.other_xmit_queue
xmit_queue false scp = scp.data_xmit_queue

abbrev pub set_xmit_queue : Bool → List Skb → DnScp → DnScp
set_xmit_queue true q scp = record scp { other_xmit_queue = q }
set_xmit_queue false q scp = record scp { data_xmit_queue = q }

unfoldable pub send_queue_head : Kernel → Bool → Sock → Sock × ℕ
unfolding send_head
send_queue_head k oth s =
    let (q, s', again) = send_head k (xmit_queue oth s.scp) s in
    (record s' { scp = set_xmit_queue oth q s'.scp }, again)

-- The label `recalc_window`.
unfoldable pub recalc_window : ℕ → Sock → Sock
recalc_window reduce_win s =
    let half = s.scp.snd_window / 2 in
    if reduce_win != 0
    then record s {
      scp = record (s.scp) {
        snd_window = if ltb half nsp_min_window then nsp_min_window else half;
      };
    }
    else s

unfoldable pub dn_nsp_output : Kernel → Sock → Sock
unfolding send_queue_head recalc_window
dn_nsp_output k s =
    let (s1, again) = send_queue_head k true s in
    let (s2, again') = send_queue_head k false s1 in
    if again != 0 || s1.scp.flowrem_sw != dn_send
    then recalc_window again s1
    else recalc_window again' s2

-- `scp->persist = dn_nsp_persist(sk)`
abbrev pub set_persist : Kernel → Sock → Sock
set_persist k s =
    let (scp, t) = dn_nsp_persist k s.scp in record s { scp = record scp { persist = t } }

abbrev pub is_empty : List Skb → Bool
is_empty [] = true
is_empty (skb ∷ q) = false

unfoldable pub dn_nsp_xmit_timeout : Kernel → Sock → Sock
dn_nsp_xmit_timeout k s =
    let s' = dn_nsp_output k s in
    if not (is_empty s'.scp.data_xmit_queue) || not (is_empty s'.scp.other_xmit_queue)
    then set_persist k s'
    else s'
