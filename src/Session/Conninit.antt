-- ===== src/Session/Conninit.antt =====
-- The connect initiate message as it is sent: `dn_nsp_send_conninit` and
-- `dn_nsp_retrans_conninit` of kernel/net/decnet/dn_nsp_out.c.
pub mod Retries
use raspbian_decnet.Base.{ℕ, ◌*◌, ◌!=◌, if◌then◌else◌, List, [], ◌∷◌, ◌++◌, take, bit_or}
use raspbian_decnet.Nsp.Seq.{u8}
use raspbian_decnet.Nsp.Socket.{Kernel, Sock, DnScp, SockaddrDn}
use raspbian_decnet.Nsp.Send.{allocates, asked, new_skb, dn_nsp_send}
use raspbian_decnet.Nsp.Header.{le16}
use raspbian_decnet.Nsp.Queue.{tests}
use raspbian_decnet.Nsp.Message.{count_down, give_up}
use raspbian_decnet.Nsp.Receive.Connect.{is_connect_initiate}
use raspbian_decnet.Session.Username.{dn_sockaddr2username}

abbrev pub nsp_ci : ℕ
nsp_ci = 0x18

abbrev pub nsp_rci : ℕ
nsp_rci = 0x68

abbrev pub sdf_proxy : ℕ
sdf_proxy = 2

abbrev pub sdf_uicproxy : ℕ
sdf_uicproxy = 4

abbrev pub dn_rt_f_rqr : ℕ
dn_rt_f_rqr = 0x08

-- The name "LINUX" for a socket without one.
abbrev pub dummyname : SockaddrDn
dummyname = record {
  sdn_flags = 0;
  sdn_objnum = 0;
  sdn_objnamel = 5;
  sdn_objname = 0x4c ∷ 0x49 ∷ 0x4e ∷ 0x55 ∷ 0x58 ∷ 0 ∷ 0 ∷ 0 ∷ 0 ∷ 0 ∷ 0 ∷ 0 ∷ 0 ∷ 0 ∷ 0 ∷ 0 ∷ [];
  sdn_nodeaddr = 0;
}

abbrev pub peer_type : SockaddrDn → ℕ
peer_type peer = if peer.sdn_objnum != 0 then 0 else 1

abbrev pub own_name : SockaddrDn → SockaddrDn
own_name addr = if addr.sdn_objnamel != 0 then addr else dummyname

abbrev pub menuver : ℕ → ℕ
menuver flags =
    let proxy = if tests flags sdf_proxy then 4 else 0 in
    let uic = if tests flags sdf_uicproxy then 8 else 0 in bit_or (bit_or 3 proxy) uic

-- A length byte and that many bytes of an array.
abbrev pub image_field : ℕ → List ℕ → List ℕ
image_field aux bytes = aux ∷ take aux bytes

-- What stands behind the user names.
abbrev pub menu : DnScp → List ℕ
menu scp =
    let access = scp.accessdata in
    menuver scp.peer.sdn_flags
    ∷ (image_field access.acc_userl access.acc_user
        ++ (image_field access.acc_passl access.acc_pass
            ++ (image_field access.acc_accl access.acc_acc
                ++ image_field (u8 scp.conndata_out.opt_optl) scp.conndata_out.opt_data)))

unfoldable pub conninit_message : DnScp → ℕ → List ℕ
conninit_message scp msgflg =
    msgflg
    ∷ (le16 0
        ++ (le16 scp.addrloc
            ++ (u8 scp.services_loc
                ∷ u8 scp.info_loc
                ∷ (le16 scp.segsize_loc
                    ++ ((dn_sockaddr2username scp.peer (peer_type scp.peer)).1
                        ++ ((dn_sockaddr2username (own_name scp.addr) 2).1 ++ menu scp))))))

unfoldable pub dn_nsp_send_conninit : Kernel → ℕ → Sock → Sock
unfolding conninit_message
dn_nsp_send_conninit k msgflg s =
    let blank = new_skb (conninit_message s.scp msgflg) in
    let skb = record blank { cb = record (blank.cb) { rt_flags = dn_rt_f_rqr } } in
    if allocates k s then dn_nsp_send k skb (asked s) else asked s

unfoldable pub dn_nsp_retrans_conninit : Kernel → Sock → Sock
dn_nsp_retrans_conninit k s =
    let s1 = count_down s in
    let s2 = dn_nsp_send_conninit k nsp_rci s1 in
    if is_connect_initiate s.scp.state
    then if s.scp.persist_count != 0
      then record s2 { scp = record (s2.scp) { persist = 2 * k.hz } }
      else give_up (record s1 { scp = record (s1.scp) { persist = 0 } })
    else s
