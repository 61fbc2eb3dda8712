-- ===== src/Route/Forward/Returned.antt =====
-- What a packet that is returned to its sender looks like.
use raspbian_decnet.Base.{
  ℕ, zero, suc, ◌+◌, ◌≤◌, ◌≡◌, refl, ◌∙◌, Bool, not, ◌&&◌, ◌==◌, ◌!=◌, if◌then◌else◌, List, [], ◌∷◌,
  take, get_or, arith, bit_and, if-both,
}
use raspbian_decnet.Route.Header.{dn_rt_f_pf}
use raspbian_decnet.Route.Receive.{Inbound}
use raspbian_decnet.Route.Forward.{
  Fate, write, at, dn_return_short, dn_return_long, dn_route_rx_packet, returned_flags,
}

-- What is written behind the first two bytes leaves them alone.
write-front : (k : ℕ) (new bytes : List ℕ) → 2 ≤ k → take 2 (write k new bytes) ≡ take 2 bytes
write-front zero new bytes h = absurd (omega arith)
write-front (suc zero) new bytes h = absurd (omega arith)
write-front (suc (suc k)) new [] h = refl
write-front (suc (suc k)) new (x ∷ []) h = refl
write-front (suc (suc k)) new (x ∷ y ∷ bytes) h = refl

return_short-front : (p : Inbound) → take 2 (dn_return_short p) ≡ take 2 p.network
unfolding dn_return_short
return_short-front p = grind (arith, write-front)

return_long-front : (p : Inbound) → take 2 (dn_return_long p) ≡ take 2 p.network
unfolding dn_return_long
return_long-front p =
    let flags = get_or p.network 2 0 in
    let start = 2 + (if bit_and flags dn_rt_f_pf != 0 then bit_and flags 0x7f else 0) in
    let flagged = write start (returned_flags p.skb.cb ∷ []) p.network in
    let counted = write (start + 17) (0 ∷ []) flagged in
    let swapped = write (start + 3) (at (start + 11) 6 counted) counted in
    write-front (start + 11) (at (start + 3) 6 counted) swapped (omega arith)
    ∙ (write-front (start + 3) (at (start + 11) 6 counted) counted (omega arith)
        ∙ (write-front (start + 17) (0 ∷ []) flagged (omega arith)
            ∙ write-front start (returned_flags p.skb.cb ∷ []) p.network (omega arith)))

-- What holds of the bytes that are sent back, if any are.
abbrev pub IfReturned : (List ℕ → Type 0) → Fate → Type 0
IfReturned P (Fate.input skb) = Unit
IfReturned P (Fate.sent_back bytes) = P bytes
IfReturned P Fate.lost = Unit

-- A packet that is sent back begins with the two bytes that it came with, so its flags do not tell
-- that it is returned: they are not changed.
pub rx_packet-front :
    (routes host : Bool) (p : Inbound)
    → IfReturned (λ bytes. take 2 bytes ≡ take 2 p.network) (dn_route_rx_packet routes host p)
unfolding dn_route_rx_packet
rx_packet-front routes host p =
    let P = IfReturned (λ bytes. take 2 bytes ≡ take 2 p.network) in
    let kind = bit_and p.skb.cb.rt_flags 0x06 in
    let asked = host && bit_and p.skb.cb.rt_flags 0x08 != 0 in
    let long = if kind == 6 then Fate.sent_back (dn_return_long p) else Fate.lost in
    let short = if kind == 2 then Fate.sent_back (dn_return_short p) else long in
    let back = if not asked then Fate.lost else short in
    if-both P routes (Fate.input p.skb) back tt (
      if-both P (not asked) Fate.lost short tt (
        if-both P (kind == 2) (Fate.sent_back (dn_return_short p)) long (return_short-front p) (
          if-both P (kind == 6) (Fate.sent_back (dn_return_long p)) Fate.lost (return_long-front p)
            tt)))
