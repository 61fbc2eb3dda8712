-- ===== src/Nsp/Ack/Credit.antt =====
-- What the walk over a transmit queue does to the control block: it touches the window and the two
-- estimates only, and opens the window within its limit.
use raspbian_decnet.Base.{
  ℕ, ◌+◌, ◌^◌, ◌≤◌, ◌<◌, ◌≡◌, refl, List, [], ◌∷◌, arith, Bool, true, false, length, ◌||◌, ltb, inl,
  inr, Bool-cases,
}
use raspbian_decnet.Nsp.Seq.{dn_before_or_equal}
use raspbian_decnet.Nsp.Socket.{DnScp, Skb}
use raspbian_decnet.Nsp.Timer.{dn_nsp_rtt}
use raspbian_decnet.Nsp.Ack.{walk, credit}

-- `b` is `a` but for the window and the estimates.
abbrev pub SameButWindow : DnScp → DnScp → Type 0
SameButWindow a b =
    b ≡ record a { snd_window = b.snd_window; nsp_srtt = b.nsp_srtt; nsp_rttvar = b.nsp_rttvar }

SameButWindow-trans : (a b c : DnScp) → SameButWindow a b → SameButWindow b c → SameButWindow a c
SameButWindow-trans a b c h k = ground arith

pub dn_nsp_rtt-SameButWindow : (scp : DnScp) (rtt : ℕ) → SameButWindow scp (dn_nsp_rtt scp rtt)
unfolding dn_nsp_rtt
dn_nsp_rtt-SameButWindow scp rtt = refl

credit-SameButWindow :
    (acknum reftime : ℕ) (skb : Skb) (scp : DnScp)
    → SameButWindow scp (credit acknum reftime skb scp)
unfolding credit dn_nsp_rtt
credit-SameButWindow acknum reftime skb scp = ground arith

pub walk-SameButWindow :
    (acknum reftime : ℕ) (q : List Skb) (scp : DnScp) (w r : Bool)
    → SameButWindow scp (walk acknum reftime q scp w r).scp
unfolding walk
walk-SameButWindow acknum reftime [] scp w r = refl
walk-SameButWindow acknum reftime (skb ∷ q) scp w r =
    elim (Bool-cases (dn_before_or_equal skb.cb.segnum acknum)) [
      | inl e ↦ rw e (
          SameButWindow-trans scp (credit acknum reftime skb scp) _
            (credit-SameButWindow acknum reftime skb scp)
            (walk-SameButWindow acknum reftime q (credit acknum reftime skb scp) _ _))
      | inr e ↦ rw e (walk-SameButWindow acknum reftime q scp _ _)
    ]

credit_window :
    (acknum reftime : ℕ) (skb : Skb) (scp : DnScp)
    → scp.max_window < 2 ^ 32
    → scp.snd_window ≤ scp.max_window
    → let t = credit acknum reftime skb scp in
      (t.max_window ≡ scp.max_window)
      × (scp.snd_window ≤ t.snd_window)
      × (t.snd_window ≤ scp.max_window)
      × (t.snd_window ≤ scp.snd_window + 1)
unfolding credit dn_nsp_rtt
credit_window acknum reftime skb scp small below = ground arith

-- The window never closes, never passes its limit, and opens by at most one for each packet that
-- is taken off.
pub walk_window :
    (acknum reftime : ℕ) (q : List Skb) (scp : DnScp) (w r : Bool)
    → scp.max_window < 2 ^ 32
    → scp.snd_window ≤ scp.max_window
    → let t = walk acknum reftime q scp w r in
      (t.scp.max_window ≡ scp.max_window)
      × (scp.snd_window ≤ t.scp.snd_window)
      × (t.scp.snd_window ≤ scp.max_window)
      × (t.scp.snd_window + length t.kept ≤ scp.snd_window + length q)
unfolding walk
walk_window acknum reftime [] scp w r small below = omega arith
walk_window acknum reftime (skb ∷ q) scp w r small below =
    let step = credit_window acknum reftime skb scp small below in
    elim (Bool-cases (dn_before_or_equal skb.cb.segnum acknum)) [
      | inl e ↦ rw e (
          omega (
            arith,
            walk_window acknum reftime q (credit acknum reftime skb scp) (w || true)
                (ltb 1 skb.cb.xmit_count) (omega (arith, step)) (omega (arith, step)),
            step,
          ))
      | inr e ↦ rw e (omega (arith, walk_window acknum reftime q scp (w || false) r small below))
    ]
