-- ===== src/Slow/Congestion/WindowBounds.antt =====
-- The window and the rate of DCTCP with a window.
use tas.Base.{
  ℕ, ◌+◌, ◌-◌, ◌*◌, ◌/◌, ◌%◌, ◌^◌, ◌≤◌, ◌<◌, ◌≡◌, refl, arith, true, false, ◌||◌, none, some, ltb,
  ◌==◌, if◌then◌else◌, min, max, Option-cases, inl, inr,
}
use native.Mathlib.Nat
use tas.Slow.Congestion.{
  Config, Stats, Connection, uint32_max, conf_mss, rtt_or_init, window_to_rate, ecn_mean,
}
use tas.Slow.Congestion.Window.{
  is_calm, win_slowstart, marked, new_ecn_rate, win_avoid, clamp, next_window, win_stored,
  dctcp_win_update,
}

-- The configuration and the times are as `window_to_rate` needs them: a link with a bandwidth, and a
-- round trip of at least a microsecond, whose nanoseconds fit 32 bits.
pub record IsTimed (g : Config) (rtt : ℕ) : Type 0 where
  pub some_link : 0 < g.link_bw
  pub positive : 0 < rtt
  pub fits : rtt * 1000 < 2 ^ 32

rate_le :
    (window rtt time r : ℕ)
    → rtt * 1000 ≤ time
    → r ≤ window * 8 * 1000000 / time
    → r * rtt ≤ window * 8000
rate_le window rtt time r t h =
    let a = Nat.mul-le-mul h t in
    let b = Nat.div-mul-le_self (window * 8 * 1000000) time in
    omega (arith, a, b, Nat.mul_assoc r rtt 1000)

-- The rate exists, fits 32 bits, and in a round trip of `rtt` microseconds sends no more than the window.
pub rate_is_bounded :
    (g : Config) (window rtt : ℕ)
    → IsTimed g rtt
    → (rate : ℕ) × (window_to_rate g window rtt ≡ some rate)
      × (rate ≤ uint32_max)
      × (rate * rtt ≤ window * 8000)
unfolding window_to_rate
rate_is_bounded g window rtt t =
    let sending = window * 8 * 1000 / g.link_bw / 1000 in
    let time = (if ltb sending (rtt * 1000 % 2 ^ 32) then rtt * 1000 % 2 ^ 32 else sending) in
    let long : rtt * 1000 ≤ time = ground (arith, t.fits) in
    let some_time : (g.link_bw == 0 || time == 0) ≡ false =
      ground (arith, t.some_link, t.positive, long) in
    let r = window * 8 * 1000000 / time in
    let rate = (if ltb uint32_max r then uint32_max else r) in
    (rate, rw some_time refl, ground arith, rate_le window rtt time rate long (ground arith))

pub clamp_bounds :
    (tx_len win : ℕ)
    → conf_mss ≤ tx_len
    → (conf_mss ≤ clamp tx_len win) × (clamp tx_len win ≤ tx_len)
clamp_bounds tx_len win h = ground arith

pub clamped :
    (g : Config) (c : Connection) (s : Stats) → conf_mss ≤ c.tx_len → conf_mss ≤ next_window g c s
clamped g c s h =
    (clamp_bounds c.tx_len
      (if (win_slowstart c s).1 then (win_slowstart c s).0 else (win_avoid g c s).0) h).0

pub win_update-stored :
    (g : Config) (c : Connection) (s : Stats)
    → conf_mss ≤ c.win.window
    → conf_mss ≤ c.tx_len
    → IsTimed g (rtt_or_init g s)
    → (rate : ℕ) × (dctcp_win_update g c s ≡ some (win_stored g c s rate))
      × (rate ≤ uint32_max)
      × (rate * rtt_or_init g s ≤ next_window g c s * 8000)
unfolding dctcp_win_update
win_update-stored g c s w l t =
    let win = next_window g c s in
    let r = rate_is_bounded g win (rtt_or_init g s) t in
    let b =
      clamp_bounds c.tx_len
        (if (win_slowstart c s).1 then (win_slowstart c s).0 else (win_avoid g c s).0) l in
    let start : ltb c.win.window conf_mss ≡ false = ground (arith, w) in
    let end : ltb win conf_mss ≡ false = ground (arith, b.0) in
    (r.0, rw (start, r.1, end) refl, r.2, r.3)

-- `dctcp_win_update` where the window and the send buffer are at least a segment, the link has a bandwidth
-- and the round trip can be converted: no assertion fails, the new window is at least a segment and at
-- most the send buffer, and the new rate fits 32 bits and sends no more than that window in a round trip.
pub win_update-IsBounded :
    (g : Config) (c : Connection) (s : Stats)
    → conf_mss ≤ c.win.window
    → conf_mss ≤ c.tx_len
    → IsTimed g (rtt_or_init g s)
    → (d : Connection) × (dctcp_win_update g c s ≡ some d)
      × (conf_mss ≤ d.win.window)
      × (d.win.window ≤ c.tx_len)
      × (d.cc_rate ≤ uint32_max)
      × (d.cc_rate * d.cc_rtt ≤ d.win.window * 8000)
win_update-IsBounded g c s w l t =
    let r = win_update-stored g c s w l t in
    let b =
      clamp_bounds c.tx_len
        (if (win_slowstart c s).1 then (win_slowstart c s).0 else (win_avoid g c s).0) l in
    (win_stored g c s r.0, r.1, b.0, b.1, r.2, r.3)

-- A send buffer shorter than a segment fails the last assertion, on every statistics.
pub win_update-aborts :
    (g : Config) (c : Connection) (s : Stats) → c.tx_len < conf_mss → dctcp_win_update g c s ≡ none
unfolding dctcp_win_update
win_update-aborts g c s l =
    let end : ltb (next_window g c s) conf_mss ≡ true = ground (arith, l) in
    elim (Option-cases (window_to_rate g (next_window g c s) (rtt_or_init g s))) [
      | inl e ↦ rw e (ground arith)
      | inr w ↦ rw (w.1, end) (ground arith)
    ]

le_max : (m e : ℕ) → m - e ≤ m
le_max m e = omega arith

pub scaled_le : (win e : ℕ) → win * (uint32_max - e) / uint32_max ≤ win
scaled_le win e =
    Nat.div-le_of_le-mul uint32_max
      (omega (arith, Nat.mul-le-mul_left win (le_max uint32_max e), Nat.mul_comm win uint32_max))

-- a share of what was acknowledged, as the window is at least a segment
step_le : (ackb win : ℕ) → conf_mss ≤ win → ackb * conf_mss / win ≤ ackb
step_le ackb win h =
    Nat.div-le_of_le-mul win (omega (arith, Nat.mul-le-mul_left ackb h, Nat.mul_comm ackb win))

-- the bounds that the signs of congestion put on the next window
pub highest : Connection → Stats → ℕ
highest c s =
    if ltb 0 s.c_drops || ltb 0 c.cc_rexmits
    then max conf_mss (c.win.window / 2)
    else if ltb 0 s.c_ecnb
    then c.win.window
    else c.win.window + s.c_ackb

pub lowest : Connection → Stats → ℕ
lowest c s = if is_calm c s then min c.win.window c.tx_len else conf_mss

next_le :
    (g : Config) (c : Connection) (s : Stats)
    → conf_mss ≤ c.win.window
    → next_window g c s ≤ highest c s
unfolding highest win_slowstart win_avoid is_calm
next_le g c s w =
    let a = scaled_le c.win.window (new_ecn_rate g c.win.ecn_rate s / 2) in
    let b = step_le s.c_ackb c.win.window w in ground (arith, a, b, w)

le_next :
    (g : Config) (c : Connection) (s : Stats)
    → conf_mss ≤ c.win.window
    → conf_mss ≤ c.tx_len
    → lowest c s ≤ next_window g c s
unfolding lowest win_slowstart win_avoid is_calm
le_next g c s w l = ground (arith, w, l)

-- `dctcp_win_update` where the window and the send buffer are at least a segment, the link has a bandwidth
-- and the round trip can be converted: after a drop or a retransmission the window is at most half, or a
-- segment; after a mark it is at most what it was; else it has grown by at most what was acknowledged.
-- Without any of the three it is what it was at least, or the send buffer.
pub win_update_reacts :
    (g : Config) (c : Connection) (s : Stats)
    → conf_mss ≤ c.win.window
    → conf_mss ≤ c.tx_len
    → IsTimed g (rtt_or_init g s)
    → (d : Connection) × (dctcp_win_update g c s ≡ some d)
      × (d.win.window ≤ highest c s)
      × (lowest c s ≤ d.win.window)
win_update_reacts g c s w l t =
    let r = win_update-stored g c s w l t in
    (win_stored g c s r.0, r.1, next_le g c s w, le_next g c s w l)

share_le : (marked acked : ℕ) → marked ≤ acked → marked * uint32_max / acked ≤ uint32_max
share_le marked acked h = Nat.div-le_of_le-mul acked (Nat.mul-le-mul_right uint32_max h)

-- The mean of the marks stays a share of UINT32_MAX, where the weight is one; the sum that the code
-- divides fits 64 bits.
pub ecn_mean-IsShare :
    (g : Config) (old marked acked : ℕ)
    → g.dctcp_weight ≤ uint32_max
    → old ≤ uint32_max
    → marked ≤ acked
    → (ecn_mean g old marked acked ≤ uint32_max)
      × (marked * uint32_max / acked * g.dctcp_weight + old * (uint32_max - g.dctcp_weight)
          < 2 ^ 64)
unfolding ecn_mean
ecn_mean-IsShare g old marked acked w o m =
    let weight = g.dctcp_weight in
    let a = Nat.mul-le-mul_right weight (share_le marked acked m) in
    let b = Nat.mul-le-mul_right (uint32_max - weight) o in
    let sum : marked * uint32_max / acked * weight + old * (uint32_max - weight)
        ≤ uint32_max * uint32_max =
      omega (arith, a, b, w) in
    (Nat.div-le_of_le-mul uint32_max sum, omega (arith, sum))
