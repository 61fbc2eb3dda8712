-- ===== src/Session/Listener.antt =====
-- The connect initiate message as it is read: `dn_check_idf`, `ci_err_table` and
-- `dn_find_listener` of kernel/net/decnet/dn_nsp_in.c. A list of bytes stands for the pointer
-- `ptr` and the length `len` that go with it.
pub mod RoundTrip
use raspbian_decnet.Base.{
  ℕ, ◌+◌, ◌-◌, Bool, ◌&&◌, ltb, ◌==◌, if◌then◌else◌, Option, none, some, List, [], ◌∷◌, length,
  get_or, drop, replicate,
}
use raspbian_decnet.Nsp.Socket.{Skb, SockaddrDn}
use raspbian_decnet.Nsp.Header.{read_le16}
use raspbian_decnet.Nsp.Queue.{tests}
use raspbian_decnet.Nsp.Ack.{skb_pull}
use raspbian_decnet.Nsp.Message.{nsp_reason_id, nsp_reason_us, nsp_reason_io}
use raspbian_decnet.Session.Username.{dn_username2sockaddr}
use raspbian_decnet.Session.Table.{Table, dn_sklist_find_listener}

-- The bytes behind the field; none is -1.
unfoldable pub dn_check_idf : ℕ → List ℕ → Option (List ℕ)
dn_check_idf max [] = none
dn_check_idf max (flen ∷ ptr) =
    if ltb max flen then none else if ltb (length ptr) flen then none else some (drop flen ptr)

-- `dn_check_idf` on what an earlier call has left.
abbrev pub then_check : ℕ → Option (List ℕ) → Option (List ℕ)
then_check max none = none
then_check max (some bytes) = dn_check_idf max bytes

abbrev pub dn_menuver_acc : ℕ
dn_menuver_acc = 1

abbrev pub dn_menuver_usr : ℕ
dn_menuver_usr = 2

abbrev pub error_unless : ℕ → Option (List ℕ) → Option ℕ
error_unless err none = some err
error_unless err (some bytes) = none

-- The user data, behind the access data.
abbrev pub user_data_error : ℕ → Option (List ℕ) → Option ℕ
user_data_error menuver none = some 6
user_data_error menuver (some bytes) =
    if tests menuver dn_menuver_usr then error_unless 7 (dn_check_idf 16 bytes) else none

-- Steps 4 to 6: the index of the error, if any.
unfoldable pub menu_error : List ℕ → Option ℕ
menu_error [] = some 4
menu_error (menuver ∷ ptr) =
    let access =
      if tests menuver dn_menuver_acc
      then then_check 39 (then_check 39 (dn_check_idf 39 ptr))
      else some ptr in
    if tests menuver 3 && length ptr == 0 then some 5 else user_data_error menuver access

abbrev pub no_sockaddr : SockaddrDn
no_sockaddr = record {
  sdn_flags = 0;
  sdn_objnum = 0;
  sdn_objnamel = 0;
  sdn_objname = replicate 16 0;
  sdn_nodeaddr = 0;
}

abbrev pub behind_source : Option ℕ → List ℕ → Option ℕ
behind_source none ptr = some 3
behind_source (some srclen) ptr = menu_error (drop srclen ptr)

-- Step 3, on what is behind the destination's name.
abbrev pub source_error : ℕ → List ℕ → Option ℕ
source_error type ptr = behind_source (dn_username2sockaddr ptr no_sockaddr type).0 ptr

abbrev pub destination_error : Option ℕ → ℕ → List ℕ → Option ℕ
destination_error none type ptr = some 1
destination_error (some dstlen) type ptr =
    if ltb 1 type then some 2 else source_error type (drop dstlen ptr)

-- Steps 2 to 6, behind the header: the index of the error, if any, and `dstaddr`.
unfoldable pub check_conn_init : List ℕ → Option ℕ × SockaddrDn
check_conn_init ptr =
    let (dstlen, dstaddr, type) = dn_username2sockaddr ptr no_sockaddr 0 in
    (destination_error dstlen type ptr, dstaddr)

-- The reason codes of `ci_err_table`.
abbrev pub ci_err_table : List ℕ
ci_err_table =
    0 ∷ nsp_reason_id ∷ nsp_reason_id ∷ nsp_reason_us ∷ 0 ∷ 0 ∷ nsp_reason_io ∷ nsp_reason_io ∷ []

abbrev pub size_of_conn_init_msg : ℕ
size_of_conn_init_msg = 9

-- Step 1 for the control block.
abbrev pub read_conn_init : Skb → Skb
read_conn_init skb = record skb {
  cb = record (skb.cb) {
    dst_port = read_le16 (drop 1 skb.bytes);
    src_port = read_le16 (drop 3 skb.bytes);
    services = get_or skb.bytes 5 0;
    info = get_or skb.bytes 6 0;
    segsize = read_le16 (drop 7 skb.bytes);
  };
}

abbrev pub found_listener : Table → SockaddrDn → ℕ → Option ℕ → Option ℕ × ℕ
found_listener t dstaddr reason none = (dn_sklist_find_listener t dstaddr, reason)
found_listener t dstaddr reason (some err) = (none, get_or ci_err_table err 0)

-- The socket, `reason`, and the packet.
unfoldable pub dn_find_listener : Table → Skb → ℕ → Option ℕ × ℕ × Skb
dn_find_listener t skb reason =
    let skb1 = read_conn_init skb in
    let skb2 = skb_pull skb1 size_of_conn_init_msg in
    let (err, dstaddr) = check_conn_init skb2.bytes in
    let (sk, reason') = found_listener t dstaddr reason err in
    if ltb (length skb.bytes) size_of_conn_init_msg
    then (none, get_or ci_err_table 0 0, skb1)
    else (sk, reason', skb2)
