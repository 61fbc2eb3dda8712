-- ===== src/Session/Calls/Accept/RoundTrip.antt =====
-- What the caller says in a connect initiate is what the accepting socket holds.
use raspbian_decnet.Base.{
  ℕ, ◌≤◌, ◌≡◌, refl, sym, ap, subst, ◌∙◌, inl, inr, Bool-cases, if◌then◌else◌, List, [], ◌++◌, take,
  drop, arith, drop-append_length, bit_or,
}
use mathlib.Core.List.{append-nil}
use raspbian_decnet.Nsp.Seq.{u8}
use raspbian_decnet.Nsp.Socket.{DnScp, SockaddrDn, OptdataDn, AccessdataDn}
use raspbian_decnet.Nsp.Queue.{tests}
use raspbian_decnet.Session.Username.{dn_sockaddr2username}
use raspbian_decnet.Session.Username.RoundTrip.{
  length-take, take-append, max_name, received, username2sockaddr-sockaddr2username,
}
use raspbian_decnet.Session.Conninit.{
  peer_type, own_name, menuver, image_field, menu, sdf_proxy, sdf_uicproxy,
}
use raspbian_decnet.Session.Listener.RoundTrip.{
  Fits, IsCaller, conninit_body, menuver-both, drop-sockaddr2username, own_name-IsName,
  own_name-short, peer_type-known,
}
use raspbian_decnet.Session.Calls.Accept.{copy_field, dn_access_copy, dn_user_copy, read_link}

-- The bytes that count of a field, over what the array held.
abbrev pub over : ℕ → List ℕ → List ℕ → List ℕ
over n bytes old = take n bytes ++ drop n old

copy_field-image_field :
    (max n : ℕ) (bytes old rest : List ℕ)
    → Fits max n bytes
    → copy_field (image_field n bytes ++ rest) old ≡ (n, over n bytes old, rest)
unfolding copy_field
copy_field-image_field max n bytes old rest fits =
    let size = length-take n bytes fits.1 in
    let front = take-append n (take n bytes) rest size in
    let behind : drop n (take n bytes ++ rest) ≡ rest =
      subst (λ m. drop m (take n bytes ++ rest) ≡ rest) size
        (drop-append_length (take n bytes) rest) in
    rw (front, behind) refl

copy_field-last :
    (max n : ℕ) (bytes old : List ℕ)
    → Fits max n bytes
    → copy_field (image_field n bytes) old ≡ (n, over n bytes old, [])
copy_field-last max n bytes old fits =
    ap (λ field. copy_field field old) (sym (append-nil (image_field n bytes)))
    ∙ copy_field-image_field max n bytes old [] fits

-- The access data that arrives, over the arrays of the new socket.
abbrev pub access_received : AccessdataDn → AccessdataDn → AccessdataDn
access_received sent old = record {
  acc_accl = sent.acc_accl;
  acc_acc = over sent.acc_accl sent.acc_acc old.acc_acc;
  acc_passl = sent.acc_passl;
  acc_pass = over sent.acc_passl sent.acc_pass old.acc_pass;
  acc_userl = sent.acc_userl;
  acc_user = over sent.acc_userl sent.acc_user old.acc_user;
}

abbrev pub optional_field : DnScp → List ℕ
optional_field scp = image_field (u8 scp.conndata_out.opt_optl) scp.conndata_out.opt_data

access_copy-menu :
    (scp : DnScp) (old : AccessdataDn)
    → IsCaller scp
    → dn_access_copy (drop 1 (menu scp)) old
      ≡ (access_received scp.accessdata old, optional_field scp)
unfolding dn_access_copy
access_copy-menu scp old ok =
    let access = scp.accessdata in
    let optional = optional_field scp in
    let accounts = image_field access.acc_accl access.acc_acc ++ optional in
    let passwords = image_field access.acc_passl access.acc_pass ++ accounts in
    rw
      (
        copy_field-image_field 39 access.acc_userl access.acc_user old.acc_user passwords ok.user,
        copy_field-image_field 39 access.acc_passl access.acc_pass old.acc_pass accounts
            ok.password,
        copy_field-image_field 39 access.acc_accl access.acc_acc old.acc_acc optional ok.account,
      )
      refl

-- The optional data that arrives.
abbrev pub optional_received : OptdataDn → OptdataDn → OptdataDn
optional_received sent old = record {
  opt_status = 0;
  opt_optl = sent.opt_optl;
  opt_data = over sent.opt_optl sent.opt_data old.opt_data;
}

user_copy-optional_field :
    (scp : DnScp) (old : OptdataDn)
    → IsCaller scp
    → dn_user_copy (optional_field scp) old ≡ optional_received scp.conndata_out old
unfolding dn_user_copy
user_copy-optional_field scp old ok =
    let out = scp.conndata_out in
    let small : u8 out.opt_optl ≡ out.opt_optl = omega (arith, ok.optional) in
    rw (small, copy_field-last 16 out.opt_optl out.opt_data old.opt_data ok.optional) refl

menuver-proxies :
    (flags : ℕ)
    → (tests (menuver flags) 4 ≡ tests flags sdf_proxy)
      × (tests (menuver flags) 8 ≡ tests flags sdf_uicproxy)
menuver-proxies flags = elim (Bool-cases (tests flags sdf_proxy)) [
  | inl p ↦ elim (Bool-cases (tests flags sdf_uicproxy)) [
    | inl u ↦ rw (p, u) (refl, refl)
    | inr u ↦ rw (p, u) (refl, refl)
  ]
  | inr p ↦ elim (Bool-cases (tests flags sdf_uicproxy)) [
    | inl u ↦ rw (p, u) (refl, refl)
    | inr u ↦ rw (p, u) (refl, refl)
  ]
]

-- The proxy flags that arrive.
abbrev pub proxied : ℕ → SockaddrDn → SockaddrDn
proxied flags addr =
    let proxy = if tests flags sdf_proxy then sdf_proxy else 0 in
    let uic = if tests flags sdf_uicproxy then sdf_uicproxy else 0 in
    record addr { sdn_flags = bit_or (bit_or addr.sdn_flags proxy) uic }

-- The new socket holds what the caller's message says: the name that the caller asked for, its own
-- name, the proxy flags, the access data and the optional data, the arrays over what they held,
-- where the caller's names and data keep to the limits of the message.
pub read_link-conninit_body :
    (scp old : DnScp)
    → IsCaller scp
    → let link = read_link (conninit_body scp) old in
      (link.addr ≡ received (peer_type scp.peer) scp.peer old.addr)
      × (link.peer ≡ proxied scp.peer.sdn_flags (received 2 (own_name scp.addr) old.peer))
      × (link.accessdata ≡ access_received scp.accessdata old.accessdata)
      × (link.conndata_in ≡ optional_received scp.conndata_out old.conndata_in)
unfolding read_link
read_link-conninit_body scp old ok =
    let type = peer_type scp.peer in
    let own = own_name scp.addr in
    let rest = (dn_sockaddr2username own 2).1 ++ menu scp in
    let known = peer_type-known scp.peer in
    let name = own_name-IsName scp.addr ok.addr in
    let fits : scp.peer.sdn_objnamel ≤ max_name type = ground (arith, ok.peer.short, known) in
    let read =
      username2sockaddr-sockaddr2username scp.peer old.addr type 0 rest ok.peer
        (omega (arith, known)) fits in
    let read' =
      username2sockaddr-sockaddr2username own old.peer 2 type (menu scp) name (omega arith)
        (own_name-short scp.addr ok.addr_short) in
    let (has_access, has_user, has_any) = menuver-both scp.peer.sdn_flags in
    let (proxy, uic) = menuver-proxies scp.peer.sdn_flags in
    rw
      (
        read,
        drop-sockaddr2username scp.peer type rest ok.peer (omega (arith, known)),
        read',
        drop-sockaddr2username own 2 (menu scp) name (omega arith),
        access_copy-menu scp old.accessdata ok,
        has_access,
        has_user,
        proxy,
        uic,
        user_copy-optional_field scp old.conndata_in ok,
      )
      (refl, refl, refl, refl)
