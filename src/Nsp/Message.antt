-- ===== src/Nsp/Message.antt =====
-- The control messages without a queue: disconnects, connect confirm and connect acknowledgement
-- (`dn_nsp_do_disc`, `dn_nsp_send_disc`, `dn_send_conn_ack`, `dn_send_conn_conf` and
-- `dn_nsp_retrans_conn_conf` of kernel/net/decnet/dn_nsp_out.c).
use raspbian_decnet.Base.{
  ℕ, ◌*◌, Bool, true, false, ◌==◌, ◌!=◌, if◌then◌else◌, Option, none, some, List, [], ◌∷◌, ◌++◌,
  take,
}
use raspbian_decnet.Nsp.Seq.{u8}
use raspbian_decnet.Nsp.Socket.{Kernel, Sock, Skb, State, TcpState, ulong_sub}
use raspbian_decnet.Nsp.Send.{ehostunreach, wake, allocates, asked, new_skb, dn_nsp_send}
use raspbian_decnet.Nsp.Header.{le16}

abbrev pub nsp_discinit : ℕ
nsp_discinit = 0x38

abbrev pub nsp_discconf : ℕ
nsp_discconf = 0x48

abbrev pub nsp_reason_ok : ℕ
nsp_reason_ok = 0

abbrev pub nsp_reason_id : ℕ
nsp_reason_id = 4

abbrev pub nsp_reason_us : ℕ
nsp_reason_us = 7

abbrev pub nsp_reason_nl : ℕ
nsp_reason_nl = 41

abbrev pub nsp_reason_dc : ℕ
nsp_reason_dc = 42

abbrev pub nsp_reason_io : ℕ
nsp_reason_io = 43

-- The message of `dn_nsp_do_disc`; none where there is no route or no remote port to send it to.
unfoldable pub dn_nsp_do_disc : ℕ → ℕ → Option ℕ → ℕ → List ℕ → ℕ → ℕ → Option Skb
dn_nsp_do_disc msgflg reason none ddl dd rem loc = none
dn_nsp_do_disc msgflg reason (some dst) ddl dd rem loc =
    let length_byte = if msgflg == nsp_discinit then u8 ddl ∷ [] else [] in
    let header = msgflg ∷ (le16 rem ++ (le16 loc ++ (le16 reason ++ length_byte))) in
    if rem == 0 then none else some (new_skb (header ++ take ddl dd))

-- `dst_output`, past `dn_nsp_send`.
abbrev pub output : Kernel → Option Skb → Sock → Sock
output k none s = s
output k (some skb) s = if allocates k s then record (asked s) { sent = skb ∷ s.sent } else asked s

unfoldable pub dn_nsp_send_disc : Kernel → ℕ → ℕ → Sock → Sock
unfolding dn_nsp_do_disc
dn_nsp_send_disc k msgflg reason s =
    let out = s.scp.discdata_out in
    let ddl = if msgflg == nsp_discinit then out.opt_optl else 0 in
    let reason' = if reason == 0 then out.opt_status else reason in
    output k
      (dn_nsp_do_disc msgflg reason' s.dst_cache ddl out.opt_data s.scp.addrrem s.scp.addrloc) s

unfoldable pub dn_send_conn_ack : Kernel → Sock → Sock
dn_send_conn_ack k s =
    if allocates k s then dn_nsp_send k (new_skb (0x24 ∷ le16 s.scp.addrrem)) (asked s) else asked s

unfoldable pub dn_send_conn_conf : Kernel → Sock → Sock
dn_send_conn_conf k s =
    let len = u8 s.scp.conndata_out.opt_optl in
    let header =
      0x28
      ∷ (le16 s.scp.addrrem
          ++ (le16 s.scp.addrloc
              ++ (u8 s.scp.services_loc ∷ u8 s.scp.info_loc ∷ le16 s.scp.segsize_loc))) in
    let message = header ++ (len ∷ take len s.scp.conndata_out.opt_data) in
    if allocates k s then dn_nsp_send k (new_skb message) (asked s) else asked s

-- `persist_count-- != 0`: the count is an `unsigned long`, and falls also where the test fails.
abbrev pub count_down : Sock → Sock
count_down s = record s { scp = record (s.scp) { persist_count = ulong_sub s.scp.persist_count 1 } }

abbrev pub is_connect_confirm : State → Bool
is_connect_confirm State.connect_confirm = true
is_connect_confirm _ = false

-- The attempt is given up.
abbrev pub give_up : Sock → Sock
give_up s = wake (record s {
  scp = record (s.scp) { state = State.no_communication };
  sk_err = ehostunreach;
  sk_state = TcpState.tcp_close;
})

unfoldable pub dn_nsp_retrans_conn_conf : Kernel → Sock → Sock
dn_nsp_retrans_conn_conf k s =
    let s1 = count_down s in
    let s2 = dn_send_conn_conf k s1 in
    if is_connect_confirm s.scp.state
    then if s.scp.persist_count != 0
      then record s2 { scp = record (s2.scp) { persist = 2 * k.hz } }
      else give_up s1
    else s
