-- ===== src/Nsp/Timer/Bounds.antt =====
-- The range of the timer, and what the estimate computes where nothing overflows.
use raspbian_decnet.Base.{
  ℕ, ◌+◌, ◌-◌, ◌*◌, ◌/◌, ◌^◌, ◌≤◌, ◌<◌, ◌≡◌, refl, ap, true, false, ◌⊎◌, leb, if◌then◌else◌, arith,
}
use raspbian_decnet.Nsp.Socket.{DnScp, Kernel, ulong, ulong_sub}
use raspbian_decnet.Nsp.Timer.{
  nsp_maxrxtshift, dn_nsp_persist, dn_nsp_rtt, at_least_one, magnitude, rtt_delta, new_srtt,
  half_size, new_rttvar, is_running, asr,
}

-- From an index within the table of back-offs, the index stays within it and does not fall, and
-- the wait lies between HZ and 600 * HZ. Unless the socket is running, the wait is 2 * HZ and the
-- index stays; the index steps up by one where it is below 12 in a running socket.
pub dn_nsp_persist_bounds :
    (k : Kernel) (scp : DnScp)
    → scp.nsp_rxtshift ≤ nsp_maxrxtshift
    → ((dn_nsp_persist k scp).0.nsp_rxtshift ≤ nsp_maxrxtshift)
      × ((is_running scp.state ≡ true)
          ⊎ (((dn_nsp_persist k scp).1 ≡ 2 * k.hz)
              × ((dn_nsp_persist k scp).0.nsp_rxtshift ≡ scp.nsp_rxtshift)))
      × ((is_running scp.state ≡ false)
          ⊎ (scp.nsp_rxtshift ≡ nsp_maxrxtshift)
          ⊎ ((dn_nsp_persist k scp).0.nsp_rxtshift ≡ scp.nsp_rxtshift + 1))
      × (scp.nsp_rxtshift ≤ (dn_nsp_persist k scp).0.nsp_rxtshift)
      × (k.hz ≤ (dn_nsp_persist k scp).1)
      × ((dn_nsp_persist k scp).1 ≤ 600 * k.hz)
unfolding dn_nsp_persist
dn_nsp_persist_bounds k scp h = ground arith

-- After any sample, also one whose clock wrapped, both estimates are positive and fit a `long`.
pub dn_nsp_rtt-pos :
    (scp : DnScp) (rtt : ℕ)
    → let after = dn_nsp_rtt scp rtt in
      (1 ≤ after.nsp_srtt)
      × (after.nsp_srtt < 2 ^ 31)
      × (1 ≤ after.nsp_rttvar)
      × (after.nsp_rttvar < 2 ^ 31)
unfolding dn_nsp_rtt
dn_nsp_rtt-pos scp rtt = ground arith

-- How far 8 * r lies from srtt, halved towards minus infinity.
abbrev pub deviation : ℕ → ℕ → ℕ
deviation srtt r = if leb srtt (8 * r) then (8 * r - srtt) / 2 else (srtt - 8 * r + 1) / 2

magnitude_lem : (rtt r : ℕ) → r < 2 ^ 26 → (rtt ≡ r) ⊎ (rtt ≡ ulong_sub 0 r) → magnitude rtt ≡ r
unfolding magnitude
magnitude_lem rtt r small sample = ground arith

no_wrap : (x : ℕ) → x < 2 ^ 32 → ulong x ≡ x
no_wrap x h = omega arith

-- An eighth and a quarter of a difference of either sign, added to what was taken off.
eighth_step :
    (a b : ℕ) → a < 2 ^ 30 → b < 2 ^ 30 → ulong (b + asr (ulong_sub a b) 3) ≡ (a + 7 * b) / 8
eighth_step a b ha hb = ground arith

quarter_step :
    (a b : ℕ) → a < 2 ^ 30 → b < 2 ^ 30 → ulong (b + asr (ulong_sub a b) 2) ≡ (a + 3 * b) / 4
quarter_step a b ha hb = ground arith

half_step :
    (a b : ℕ)
    → a < 2 ^ 30
    → b < 2 ^ 30
    → asr (ulong_sub a b) 1 ≡ (if leb b a then (a - b) / 2 else 2 ^ 32 - (b - a + 1) / 2)
half_step a b ha hb = ground arith

new_srtt_lem :
    (r srtt : ℕ)
    → r < 2 ^ 26
    → srtt < 2 ^ 29
    → new_srtt srtt (rtt_delta r srtt) ≡ at_least_one (r + srtt * 7 / 8)
unfolding new_srtt rtt_delta
new_srtt_lem r srtt hr hs =
    rw (no_wrap (r * 8) (omega arith), eighth_step (r * 8) srtt (omega arith) (omega arith))
      (ap at_least_one {x = (r * 8 + 7 * srtt) / 8} {y = r + srtt * 7 / 8} (omega arith))

half_size_lem :
    (r srtt : ℕ) → r < 2 ^ 26 → srtt < 2 ^ 29 → half_size (rtt_delta r srtt) ≡ deviation srtt r
unfolding half_size rtt_delta
half_size_lem r srtt hr hs =
    rw (no_wrap (r * 8) (omega arith), half_step (r * 8) srtt (omega arith) (omega arith))
      (ground arith)

new_rttvar_lem :
    (v d : ℕ) → v < 2 ^ 29 → d < 2 ^ 29 → new_rttvar v d ≡ at_least_one ((3 * v + d) / 4)
unfolding new_rttvar
new_rttvar_lem v d hv hd =
    rw (quarter_step d v (omega arith) (omega arith))
      (ap at_least_one {x = (d + 3 * v) / 4} {y = (3 * v + d) / 4} (omega arith))

-- A sample of size r, of either sign, makes the smoothed time 7/8 of its old value (rounded down)
-- plus r, and the variance a quarter of the deviation plus three quarters of the old (rounded
-- down), each at least 1.
pub dn_nsp_rtt_smooths :
    (scp : DnScp) (rtt r : ℕ)
    → r < 2 ^ 26
    → (rtt ≡ r) ⊎ (rtt ≡ ulong_sub 0 r)
    → scp.nsp_srtt < 2 ^ 29
    → scp.nsp_rttvar < 2 ^ 29
    → let after = dn_nsp_rtt scp rtt in
      (after.nsp_srtt ≡ at_least_one (r + scp.nsp_srtt * 7 / 8))
      × (after.nsp_rttvar ≡ at_least_one ((3 * scp.nsp_rttvar + deviation scp.nsp_srtt r) / 4))
unfolding dn_nsp_rtt
dn_nsp_rtt_smooths scp rtt r small sample hs hv =
    rw
      (
        magnitude_lem rtt r small sample,
        new_srtt_lem r scp.nsp_srtt small hs,
        half_size_lem r scp.nsp_srtt small hs,
        new_rttvar_lem scp.nsp_rttvar (deviation scp.nsp_srtt r) hv (ground arith),
      )
      (refl, refl)
