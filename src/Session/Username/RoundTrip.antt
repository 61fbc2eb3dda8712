-- ===== src/Session/Username/RoundTrip.antt =====
-- A user name that one end writes is the one that the other end reads.
use raspbian_decnet.Base.{
  ℕ, zero, suc, ◌+◌, ◌≤◌, ◌≡◌, refl, sym, ap, ◌∙◌, ◌==◌, if◌then◌else◌, some, List, [], ◌∷◌, ◌++◌,
  length, take, drop, replicate, arith, length-append, take-append_length,
}
use raspbian_decnet.Nsp.Socket.{SockaddrDn}
use raspbian_decnet.Session.Username.{
  cleared, read_name, dn_sockaddr2username, dn_username2sockaddr,
}

-- The array holds 16 bytes, and zeroes behind the name.
pub record IsName (sdn : SockaddrDn) : Type 0 where
  pub size : length sdn.sdn_objname ≡ 16
  pub short : sdn.sdn_objnamel ≤ 16
  pub padded : drop sdn.sdn_objnamel sdn.sdn_objname ≡ drop sdn.sdn_objnamel (replicate 16 0)

pub take-drop {ℓ} : {A : Type ℓ} (n : ℕ) (xs : List A) → take n xs ++ drop n xs ≡ xs
take-drop zero xs = refl
take-drop (suc n) [] = refl
take-drop (suc n) (x ∷ xs) = ap (λ ys. x ∷ ys) (take-drop n xs)

pub length-take {ℓ} : {A : Type ℓ} (n : ℕ) (xs : List A) → n ≤ length xs → length (take n xs) ≡ n
length-take zero xs h = refl
length-take (suc n) [] h = omega arith
length-take (suc n) (x ∷ xs) h = ap suc (length-take n xs (omega arith))

pub take-append {ℓ} : {A : Type ℓ} (n : ℕ) (xs ys : List A) → length xs ≡ n → take n (xs ++ ys) ≡ xs
take-append n xs ys e = rw (sym e) (take-append_length xs ys)

-- What is read back: the number for format 0, the name for formats 1 and 2.
abbrev pub received : ℕ → SockaddrDn → SockaddrDn → SockaddrDn
received type sdn old =
    if type == 0 then record (cleared old) { sdn_objnum = sdn.sdn_objnum } else record old {
      sdn_objnum = 0;
      sdn_objnamel = sdn.sdn_objnamel;
      sdn_objname = sdn.sdn_objname;
    }

-- The longest name that the reader takes in a format.
abbrev pub max_name : ℕ → ℕ
max_name type = if type == 2 then 12 else 16

read_back :
    (sdn : SockaddrDn) (rest : List ℕ)
    → IsName sdn
    → take sdn.sdn_objnamel (take sdn.sdn_objnamel sdn.sdn_objname ++ rest)
        ++ drop sdn.sdn_objnamel (replicate 16 0)
      ≡ sdn.sdn_objname
read_back sdn rest ok =
    let n = sdn.sdn_objnamel in
    rw
      (
        take-append n (take n sdn.sdn_objname) rest
            (length-take n sdn.sdn_objname (omega (arith, ok.size, ok.short))),
        sym ok.padded,
      )
      (take-drop n sdn.sdn_objname)

length-name :
    (sdn : SockaddrDn) (rest : List ℕ)
    → IsName sdn
    → length (take sdn.sdn_objnamel sdn.sdn_objname ++ rest) ≡ sdn.sdn_objnamel + length rest
length-name sdn rest ok =
    let n = sdn.sdn_objnamel in
    length-append (take n sdn.sdn_objname) rest
    ∙ ap (λ m. m + length rest) (length-take n sdn.sdn_objname (omega (arith, ok.size, ok.short)))

-- A user name in format 0, 1 or 2, followed by anything, is read back as it was written and taken
-- off at its length, when its name fits in 16 bytes, of which the rest is zero, and in format 2
-- has at most 12.
pub username2sockaddr-sockaddr2username :
    (sdn old : SockaddrDn) (type fmt : ℕ) (rest : List ℕ)
    → IsName sdn
    → type ≤ 2
    → sdn.sdn_objnamel ≤ max_name type
    → dn_username2sockaddr ((dn_sockaddr2username sdn type).1 ++ rest) old fmt
      ≡ (some (dn_sockaddr2username sdn type).0, received type sdn old, type)
unfolding dn_username2sockaddr dn_sockaddr2username read_name
username2sockaddr-sockaddr2username sdn old zero fmt rest ok known fits = ground arith
username2sockaddr-sockaddr2username sdn old (suc zero) fmt rest ok known fits =
    ground (arith, read_back sdn rest ok, length-name sdn rest ok, ok.short)
username2sockaddr-sockaddr2username sdn old (suc (suc zero)) fmt rest ok known fits =
    ground (arith, read_back sdn rest ok, length-name sdn rest ok, ok.short)
username2sockaddr-sockaddr2username sdn old (suc (suc (suc n))) fmt rest ok known fits =
    absurd (omega arith)
