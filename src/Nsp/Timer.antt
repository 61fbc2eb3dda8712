-- ===== src/Nsp/Timer.antt =====
-- The retransmission timer and the round-trip estimate: `nsp_backoff`, `dn_nsp_persist` and
-- `dn_nsp_rtt` of kernel/net/decnet/dn_nsp_out.c. A `long` is its bit pattern, below 2 ^ 32.
pub mod Bounds
use raspbian_decnet.Base.{
  ℕ, ◌+◌, ◌-◌, ◌*◌, ◌/◌, ◌%◌, ◌^◌, Bool, not, ◌&&◌, ltb, leb, ◌==◌, if◌then◌else◌, List, [], ◌∷◌,
  get_or,
}
use raspbian_decnet.Nsp.Socket.{DnScp, State, Kernel, ulong, ulong_mod, ulong_sub}

abbrev pub nsp_maxrxtshift : ℕ
nsp_maxrxtshift = 12

abbrev pub nsp_min_window : ℕ
nsp_min_window = 1

abbrev pub nsp_max_window : ℕ
nsp_max_window = 0x07fe

abbrev pub nsp_backoff : List ℕ
nsp_backoff = 1 ∷ 2 ∷ 4 ∷ 8 ∷ 16 ∷ 32 ∷ 64 ∷ 64 ∷ 64 ∷ 64 ∷ 64 ∷ 64 ∷ 64 ∷ []

abbrev pub is_running : State → Bool
is_running State.running = Bool.true
is_running _ = Bool.false

-- `((scp->nsp_srtt >> 2) + scp->nsp_rttvar) >> 1`
abbrev pub base_timeout : DnScp → ℕ
base_timeout scp = ulong (scp.nsp_srtt / 4 + scp.nsp_rttvar) / 2

-- Clamping to the range from HZ to 600 * HZ.
abbrev pub clamp_persist : ℕ → ℕ → ℕ
clamp_persist hz t = let u = if ltb t hz then hz else t in if ltb (600 * hz) u then 600 * hz else u

-- The new control block, and the time to wait. An index past the table reads 0 here.
unfoldable pub dn_nsp_persist : Kernel → DnScp → DnScp × ℕ
dn_nsp_persist k scp =
    let t = ulong (base_timeout scp * get_or nsp_backoff scp.nsp_rxtshift 0) in
    if not (is_running scp.state) then (scp, 2 * k.hz) else (
      if ltb scp.nsp_rxtshift nsp_maxrxtshift
          then record scp { nsp_rxtshift = scp.nsp_rxtshift + 1 }
          else scp,
      clamp_persist k.hz t,
    )

abbrev pub is_negative : ℕ → Bool
is_negative x = leb (2 ^ 31) x

abbrev pub negated : ℕ → ℕ
negated x = (ulong_mod - x) % ulong_mod

-- `x >> k` on `long` keeps the sign.
abbrev pub asr : ℕ → ℕ → ℕ
asr x k = if is_negative x then x / 2 ^ k + (2 ^ 32 - 2 ^ (32 - k)) else x / 2 ^ k

-- `x >= 1 ? x : 1`
abbrev pub at_least_one : ℕ → ℕ
at_least_one x = if not (is_negative x) && leb 1 x then x else 1

-- `if (rtt < 0) rtt = -rtt;`
magnitude : ℕ → ℕ
magnitude rtt = if is_negative rtt then negated rtt else rtt

-- `delta = ((rtt << 3) - srtt)`
rtt_delta : ℕ → ℕ → ℕ
rtt_delta rtt srtt = ulong_sub (ulong (rtt * 8)) srtt

-- `srtt += (delta >> 3)`, and at least 1.
new_srtt : ℕ → ℕ → ℕ
new_srtt srtt delta = at_least_one (ulong (srtt + asr delta 3))

-- `delta >>= 1`, and `(delta > 0) ? delta : -delta`.
half_size : ℕ → ℕ
half_size delta =
    let half = asr delta 1 in if not (is_negative half) && leb 1 half then half else negated half

-- `rttvar += ((size - rttvar) >> 2)`, and at least 1.
new_rttvar : ℕ → ℕ → ℕ
new_rttvar rttvar size = at_least_one (ulong (rttvar + asr (ulong_sub size rttvar) 2))

unfoldable pub dn_nsp_rtt : DnScp → ℕ → DnScp
unfolding magnitude rtt_delta new_srtt half_size new_rttvar
dn_nsp_rtt scp rtt =
    let delta = rtt_delta (magnitude rtt) scp.nsp_srtt in
    record scp {
      nsp_srtt = new_srtt scp.nsp_srtt delta;
      nsp_rttvar = new_rttvar scp.nsp_rttvar (half_size delta);
    }
