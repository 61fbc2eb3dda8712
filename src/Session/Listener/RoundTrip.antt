-- ===== src/Session/Listener/RoundTrip.antt =====
-- A connect initiate message that one node sends leads the other node to the listener of the name
-- that was asked for.
use raspbian_decnet.Base.{
  ℕ, ◌≤◌, ◌<◌, ◌≡◌, refl, sym, ap, subst, ◌∙◌, inl, inr, true, Bool-cases, ◌!=◌, none, some, List,
  [], ◌++◌, length, take, drop, arith, length-append, drop-append_length,
}
use mathlib.Core.List.{append-nil}
use raspbian_decnet.Nsp.Seq.{u8}
use raspbian_decnet.Nsp.Socket.{Skb, DnScp, SockaddrDn}
use raspbian_decnet.Nsp.Queue.{tests}
use raspbian_decnet.Nsp.Ack.RoundTrip.{with_bytes}
use raspbian_decnet.Session.Username.{dn_sockaddr2username}
use raspbian_decnet.Session.Username.RoundTrip.{
  IsName, length-take, max_name, received, username2sockaddr-sockaddr2username,
}
use raspbian_decnet.Session.Conninit.{
  sdf_proxy, sdf_uicproxy, peer_type, own_name, menuver, image_field, menu, conninit_message,
}
use raspbian_decnet.Session.Table.{Table, dn_sklist_find_listener}
use raspbian_decnet.Session.Listener.{
  dn_check_idf, menu_error, no_sockaddr, source_error, check_conn_init, dn_find_listener,
}

-- The array holds the bytes that the length byte counts, and the reader's limit is kept.
abbrev pub Fits : ℕ → ℕ → List ℕ → Type 0
Fits max n bytes = (n ≤ max) × (n ≤ length bytes)

check_idf-image_field :
    (max n : ℕ) (bytes rest : List ℕ)
    → Fits max n bytes
    → dn_check_idf max (image_field n bytes ++ rest) ≡ some rest
unfolding dn_check_idf
check_idf-image_field max n bytes rest fits =
    let size = length-take n bytes fits.1 in
    let whole = length-append (take n bytes) rest in
    let behind : drop n (take n bytes ++ rest) ≡ rest =
      subst (λ m. drop m (take n bytes ++ rest) ≡ rest) size
        (drop-append_length (take n bytes) rest) in
    rw behind (ground (arith, size, whole, fits))

check_idf-last :
    (max n : ℕ) (bytes : List ℕ)
    → Fits max n bytes
    → dn_check_idf max (image_field n bytes) ≡ some []
check_idf-last max n bytes fits =
    ap (dn_check_idf max) (sym (append-nil (image_field n bytes)))
    ∙ check_idf-image_field max n bytes [] fits

-- What the socket holds for the message.
pub record IsCaller (scp : DnScp) : Type 0 where
  pub peer : IsName scp.peer
  pub addr : IsName scp.addr
  pub addr_short : scp.addr.sdn_objnamel ≤ 12
  pub user : Fits 39 scp.accessdata.acc_userl scp.accessdata.acc_user
  pub password : Fits 39 scp.accessdata.acc_passl scp.accessdata.acc_pass
  pub account : Fits 39 scp.accessdata.acc_accl scp.accessdata.acc_acc
  pub optional : Fits 16 scp.conndata_out.opt_optl scp.conndata_out.opt_data

pub menuver-both :
    (flags : ℕ)
    → (tests (menuver flags) 1 ≡ true)
      × (tests (menuver flags) 2 ≡ true)
      × (tests (menuver flags) 3 ≡ true)
menuver-both flags = elim (Bool-cases (tests flags sdf_proxy)) [
  | inl p ↦ elim (Bool-cases (tests flags sdf_uicproxy)) [
    | inl u ↦ rw (p, u) (refl, refl, refl)
    | inr u ↦ rw (p, u) (refl, refl, refl)
  ]
  | inr p ↦ elim (Bool-cases (tests flags sdf_uicproxy)) [
    | inl u ↦ rw (p, u) (refl, refl, refl)
    | inr u ↦ rw (p, u) (refl, refl, refl)
  ]
]

menu_error-menu : (scp : DnScp) → IsCaller scp → menu_error (menu scp) ≡ none
unfolding menu_error
menu_error-menu scp ok =
    let access = scp.accessdata in
    let optional = image_field (u8 scp.conndata_out.opt_optl) scp.conndata_out.opt_data in
    let accounts = image_field access.acc_accl access.acc_acc ++ optional in
    let passwords = image_field access.acc_passl access.acc_pass ++ accounts in
    let (has_access, has_user, has_any) = menuver-both scp.peer.sdn_flags in
    let small : u8 scp.conndata_out.opt_optl ≡ scp.conndata_out.opt_optl =
      omega (arith, ok.optional) in
    rw
      (
        has_any,
        has_access,
        check_idf-image_field 39 access.acc_userl access.acc_user passwords ok.user,
        check_idf-image_field 39 access.acc_passl access.acc_pass accounts ok.password,
        check_idf-image_field 39 access.acc_accl access.acc_acc optional ok.account,
        has_user,
        small,
        check_idf-last 16 scp.conndata_out.opt_optl scp.conndata_out.opt_data ok.optional,
      )
      (ground arith)

sockaddr2username-length :
    (sdn : SockaddrDn) (type : ℕ)
    → IsName sdn
    → type ≤ 2
    → length (dn_sockaddr2username sdn type).1 ≡ (dn_sockaddr2username sdn type).0
unfolding dn_sockaddr2username
sockaddr2username-length sdn type ok known = ground (
  arith,
  ok.size,
  ok.short,
  length-take sdn.sdn_objnamel sdn.sdn_objname (omega (arith, ok.size, ok.short)),
)

-- The reader stands behind the name that it has read.
pub drop-sockaddr2username :
    (sdn : SockaddrDn) (type : ℕ) (rest : List ℕ)
    → IsName sdn
    → type ≤ 2
    → drop (dn_sockaddr2username sdn type).0 ((dn_sockaddr2username sdn type).1 ++ rest) ≡ rest
drop-sockaddr2username sdn type rest ok known =
    let written = (dn_sockaddr2username sdn type).1 in
    subst (λ m. drop m (written ++ rest) ≡ rest) (sockaddr2username-length sdn type ok known)
      (drop-append_length written rest)

pub own_name-IsName : (addr : SockaddrDn) → IsName addr → IsName (own_name addr)
own_name-IsName addr ok = elim (Bool-cases (addr.sdn_objnamel != 0)) [
  | inl e ↦ rw e ok
  | inr e ↦ rw e (record { size = refl; short = omega arith; padded = refl })
]

pub own_name-short :
    (addr : SockaddrDn) → addr.sdn_objnamel ≤ 12 → (own_name addr).sdn_objnamel ≤ 12
own_name-short addr short = ground arith

source_error-none :
    (scp : DnScp) (type : ℕ)
    → IsCaller scp
    → source_error type ((dn_sockaddr2username (own_name scp.addr) 2).1 ++ menu scp) ≡ none
source_error-none scp type ok =
    let own = own_name scp.addr in
    let name = own_name-IsName scp.addr ok.addr in
    let read =
      username2sockaddr-sockaddr2username own no_sockaddr 2 type (menu scp) name (omega arith)
        (own_name-short scp.addr ok.addr_short) in
    rw (ap (λ r. r.0) read, drop-sockaddr2username own 2 (menu scp) name (omega arith))
      (menu_error-menu scp ok)

-- What is behind the header of the message.
abbrev pub conninit_body : DnScp → List ℕ
conninit_body scp =
    (dn_sockaddr2username scp.peer (peer_type scp.peer)).1
    ++ ((dn_sockaddr2username (own_name scp.addr) 2).1 ++ menu scp)

pub peer_type-known : (peer : SockaddrDn) → peer_type peer ≤ 1
peer_type-known peer = ground arith

check_conn_init-conninit_body :
    (scp : DnScp)
    → IsCaller scp
    → check_conn_init (conninit_body scp)
      ≡ (none, received (peer_type scp.peer) scp.peer no_sockaddr)
unfolding check_conn_init
check_conn_init-conninit_body scp ok =
    let type = peer_type scp.peer in
    let rest = (dn_sockaddr2username (own_name scp.addr) 2).1 ++ menu scp in
    let known = peer_type-known scp.peer in
    let fits : scp.peer.sdn_objnamel ≤ max_name type = ground (arith, ok.peer.short, known) in
    let read =
      username2sockaddr-sockaddr2username scp.peer no_sockaddr type 0 rest ok.peer
        (omega (arith, known)) fits in
    rw read (
      rw (drop-sockaddr2username scp.peer type rest ok.peer (omega (arith, known)))
        (rw (source_error-none scp type ok) (ground (arith, known))))

-- A connect initiate message of a socket leads to the listener for the name of its peer, leaves
-- the reason code alone, and carries the socket's port, where names and access data keep to the
-- reader's limits: an own name of at most 12 bytes, access data of 39 and user data of 16.
pub find_listener-conninit :
    (t : Table) (scp : DnScp) (skb : Skb) (msgflg reason : ℕ)
    → IsCaller scp
    → scp.addrloc < 65536
    → let (sk, reason', skb') =
        dn_find_listener t (with_bytes skb (conninit_message scp msgflg)) reason in
      (sk ≡ dn_sklist_find_listener t (received (peer_type scp.peer) scp.peer no_sockaddr))
      × (reason' ≡ reason)
      × (skb'.cb.src_port ≡ scp.addrloc)
      × (skb'.bytes ≡ conninit_body scp)
unfolding dn_find_listener conninit_message
find_listener-conninit t scp skb msgflg reason ok port =
    let read = check_conn_init-conninit_body scp ok in rw read (ground arith)
