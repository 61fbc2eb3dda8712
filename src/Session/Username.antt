-- ===== src/Session/Username.antt =====
-- End-user names in connect initiate messages: `dn_sockaddr2username` and `dn_username2sockaddr`
-- of kernel/net/decnet/af_decnet.c.
pub mod RoundTrip
use raspbian_decnet.Base.{
  ℕ, ◌+◌, Bool, ◌||◌, ltb, ◌==◌, if◌then◌else◌, Option, none, some, List, [], ◌∷◌, ◌++◌, length,
  get_or, take, drop, replicate,
}
use raspbian_decnet.Nsp.Seq.{u8}
use raspbian_decnet.Nsp.Socket.{SockaddrDn}

abbrev pub dn_maxobjl : ℕ
dn_maxobjl = 16

-- The length byte and the name. The name comes from an array of 16 bytes.
abbrev pub named : SockaddrDn → List ℕ
named sdn = u8 sdn.sdn_objnamel ∷ take sdn.sdn_objnamel sdn.sdn_objname

-- The length that is returned, and the bytes that are written to the buffer.
unfoldable pub dn_sockaddr2username : SockaddrDn → ℕ → ℕ × List ℕ
dn_sockaddr2username sdn type =
    if type == 0
    then (2, type ∷ sdn.sdn_objnum ∷ [])
    else if type == 1
    then (3 + sdn.sdn_objnamel, type ∷ 0 ∷ named sdn)
    else if type == 2
    then (7 + sdn.sdn_objnamel, type ∷ 0 ∷ 0 ∷ 0 ∷ 0 ∷ 0 ∷ named sdn)
    else (2, type ∷ [])

abbrev pub cleared : SockaddrDn → SockaddrDn
cleared sdn = record sdn { sdn_objnum = 0; sdn_objnamel = 0; sdn_objname = replicate dn_maxobjl 0 }

-- The part behind the `switch`: a length byte at `start`, and that many bytes of a name, at most
-- `namel`.
unfoldable pub read_name : ℕ → ℕ → List ℕ → SockaddrDn → Option ℕ × SockaddrDn
read_name start namel bytes sdn =
    let n = get_or bytes start 0 in
    let counted = record sdn { sdn_objnamel = n } in
    let name = take n (drop (start + 1) bytes) in
    if ltb (length bytes) (start + 1)
    then (none, sdn)
    else if ltb (length bytes) (start + 1 + n) || ltb namel n
    then (none, counted)
    else (some (start + 1 + n), record counted { sdn_objname = name ++ drop n sdn.sdn_objname })

-- `bytes` holds the `len` bytes. The results are the length taken (none is -1), the address and the
-- format byte, which is `fmt` where none is read.
unfoldable pub dn_username2sockaddr : List ℕ → SockaddrDn → ℕ → Option ℕ × SockaddrDn × ℕ
unfolding read_name
dn_username2sockaddr bytes old fmt =
    let sdn = cleared old in
    let format = get_or bytes 0 0 in
    let (len1, sdn1) = read_name 2 16 bytes sdn in
    let (len2, sdn2) = read_name 6 12 bytes sdn in
    let (len4, sdn4) = read_name 10 12 bytes sdn in
    if ltb (length bytes) 2
    then (none, sdn, fmt)
    else if format == 0
    then (some 2, record sdn { sdn_objnum = get_or bytes 1 0 }, format)
    else if format == 1
    then (len1, sdn1, format)
    else if format == 2
    then (len2, sdn2, format)
    else if format == 4
    then (len4, sdn4, format)
    else (none, sdn, format)
