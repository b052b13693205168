-- ===== src/Slow/Congestion/Timely.antt =====
-- TIMELY, tas/slow/cc.c. The signed numbers are exact: the code's 64 bits hold them while the gradient is
-- below 2^32. A quotient by 0 is 0 here.
use tas.Base.{
  ℕ, ◌-◌, ◌*◌, ◌/◌, ◌%◌, ◌^◌, ◌≤◌, ◌≡◌, arith, Bool, true, false, not, ◌&&◌, ltb, leb, ◌==◌,
  if◌then◌else◌, max, add32, sub32, ℤ, pos, negsuc, add_ℤ, scale_ℤ, div_ℤ, int32, leb_ℤ, Bool-cases,
  inl, inr,
}
use native.Mathlib.Nat
use tas.Slow.Congestion.{Config, Stats, TimelyState, Connection, uint32_max}
use tas.Slow.Congestion.Rate.{measured_rate, mean_rate, used_rate}
use tas.Slow.Congestion.WindowBounds.{scaled_le}

-- INT32_MAX and INT16_MAX
abbrev int32_max : ℕ
int32_max = 2 ^ 31 - 1

abbrev int16_max : ℕ
int16_max = 2 ^ 15 - 1

unfoldable pub timely_init : Config → Connection → Connection
timely_init g c = record c {
  cc_rate = g.timely_init;
  time = record (c.time) {
    rtt_prev = 0;
    rtt_diff = pos 0;
    hai_cnt = 0;
    last_ts = 0;
    slowstart = true;
  };
}

-- `cc->rtt_diff`: the running mean of the changes of the round trip time
unfoldable pub rtt_diff_next : Config → TimelyState → (new_rtt : ℕ) → ℤ
rtt_diff_next g t new_rtt =
    let factor = g.timely_alpha / 2 in
    let x =
      add_ℤ (scale_ℤ (int32_max - factor) t.rtt_diff)
        (scale_ℤ factor (int32 (sub32 new_rtt t.rtt_prev))) in
    if t.rtt_prev == 0 then t.rtt_diff else div_ℤ x int32_max

-- `normalized_gradient`
unfoldable pub gradient : Config → TimelyState → (new_rtt : ℕ) → ℤ
gradient g t new_rtt =
    if t.rtt_prev == 0
    then pos 0
    else div_ℤ (scale_ℤ int16_max (rtt_diff_next g t new_rtt)) g.timely_min_rtt

-- the decrease where the round trip is longer than Thigh
unfoldable pub rate_above : Config → (rate new_rtt : ℕ) → ℕ
rate_above g rate new_rtt =
    let d = uint32_max * g.timely_thigh / new_rtt in
    let b = uint32_max - d in
    let a = g.timely_beta * b / uint32_max in rate * (uint32_max - a) / uint32_max

-- the decrease where it grows, by a gradient above 0
unfoldable pub rate_growing : Config → (rate gradient : ℕ) → ℕ
rate_growing g rate gradient =
    let b = g.timely_beta / 2 * gradient / int16_max in
    let d = (if leb b int32_max then int32_max - b else 0) in rate * d / int32_max

-- the increase where it does not grow, and the count of such times in a row, up to 5
unfoldable pub rate_falling : Config → (rate hai_cnt : ℕ) → ℕ × ℕ
rate_falling g rate hai_cnt =
    if leb 5 (add32 hai_cnt 1)
    then (add32 rate (g.timely_step * 5 % 2 ^ 32), sub32 (add32 hai_cnt 1) 1)
    else (add32 rate g.timely_step, add32 hai_cnt 1)

unfoldable pub rate_between : Config → (rate hai_cnt : ℕ) → ℤ → ℕ × ℕ
rate_between g rate hai_cnt (pos n) =
    if n == 0 then rate_falling g rate hai_cnt else (rate_growing g rate n, 0)
rate_between g rate hai_cnt (negsuc n) = rate_falling g rate hai_cnt

-- the rate, before the two minima, and `hai_cnt`
unfoldable pub timely_next : Config → TimelyState → (slowstart : Bool) → (rate new_rtt : ℕ) → ℕ × ℕ
timely_next g t slowstart rate new_rtt =
    if slowstart
    then (rate * 2 % 2 ^ 32, t.hai_cnt)
    else if ltb new_rtt g.timely_tlow
    then (add32 rate g.timely_step, 0)
    else if ltb g.timely_thigh new_rtt
    then (rate_above g rate new_rtt, 0)
    else rate_between g rate t.hai_cnt (gradient g t new_rtt)

-- whether slow start goes on
unfoldable pub timely_slow : Config → TimelyState → (new_rtt : ℕ) → Bool
timely_slow g t new_rtt = t.slowstart && not (ltb (add32 g.timely_tlow g.timely_thigh / 2) new_rtt)

-- `orig_rate`
unfoldable pub timely_used : Config → Connection → Stats → (cur_ts : ℕ) → ℕ
timely_used g c s cur_ts =
    let act_rate = measured_rate s.c_ackb cur_ts c.time.last_ts in
    if timely_slow g c.time s.rtt
    then c.cc_rate
    else used_rate c.cc_rate (max act_rate (mean_rate c.time.act_rate act_rate))

-- not less than half the rate, nor than the configured minimum
abbrev pub floored : Config → (orig rate : ℕ) → ℕ
floored g orig rate =
    let half = (if ltb rate (orig / 2) then orig / 2 else rate) in
    if ltb half g.timely_min_rate then g.timely_min_rate else half

unfoldable pub timely_update : Config → Connection → Stats → (cur_ts : ℕ) → Connection
timely_update g c s cur_ts =
    let act_rate = mean_rate c.time.act_rate (measured_rate s.c_ackb cur_ts c.time.last_ts) in
    let slow = timely_slow g c.time s.rtt in
    let rate = timely_used g c s cur_ts in
    let next = timely_next g c.time slow rate s.rtt in
    if s.rtt == 0 then record c { time = record (c.time) { act_rate = act_rate } } else record c {
      cc_rate = floored g rate next.0;
      cc_rtt = s.rtt;
      cc_rexmits = 0;
      time = record {
        rtt_prev = s.rtt;
        rtt_diff = rtt_diff_next g c.time s.rtt;
        hai_cnt = next.1;
        act_rate = act_rate;
        last_ts = cur_ts;
        slowstart = slow;
      };
    }

growing_le : (g : Config) (rate n : ℕ) → rate_growing g rate n ≤ rate
unfolding rate_growing
growing_le g rate n =
    let d =
      (if leb (g.timely_beta / 2 * n / int16_max) int32_max
        then int32_max - g.timely_beta / 2 * n / int16_max
        else 0) in
    let small : d ≤ int32_max = ground arith in
    Nat.div-le_of_le-mul int32_max
      (omega (arith, Nat.mul-le-mul_left rate small, Nat.mul_comm rate int32_max))

used_le :
    (g : Config) (c : Connection) (s : Stats) (cur_ts : ℕ) → timely_used g c s cur_ts ≤ c.cc_rate
unfolding timely_used
used_le g c s cur_ts = ground arith

-- a round trip that is too long, or grows
abbrev pub is_slower : Config → Connection → Stats → Bool
is_slower g c s =
    not (timely_slow g c.time s.rtt)
    && (not (ltb s.rtt g.timely_tlow)
        && (if ltb g.timely_thigh s.rtt
            then true
            else not (leb_ℤ (gradient g c.time s.rtt) (pos 0))))

between_le :
    (g : Config) (rate hai_cnt : ℕ) (z : ℤ)
    → leb_ℤ z (pos 0) ≡ false
    → (rate_between g rate hai_cnt z).0 ≤ rate
unfolding rate_between
between_le g rate hai_cnt (pos n) h =
    let some_growth : (n == 0) ≡ false = ground (arith, h) in rw some_growth (growing_le g rate n)
between_le g rate hai_cnt (negsuc n) h = absurd (ground (arith, h))

slower_le :
    (g : Config) (c : Connection) (s : Stats) (rate : ℕ)
    → is_slower g c s ≡ true
    → (timely_next g c.time (timely_slow g c.time s.rtt) rate s.rtt).0 ≤ rate
unfolding timely_next rate_above
slower_le g c s rate h =
    let slow : timely_slow g c.time s.rtt ≡ false = ground (arith, h) in
    let long : ltb s.rtt g.timely_tlow ≡ false = ground (arith, h) in
    elim (Bool-cases (ltb g.timely_thigh s.rtt)) [
      | inl y ↦
          rw (slow, long, y)
            (scaled_le rate
              (g.timely_beta * (uint32_max - uint32_max * g.timely_thigh / s.rtt) / uint32_max))
      | inr n ↦
          let grows : leb_ℤ (gradient g c.time s.rtt) (pos 0) ≡ false = ground (arith, h, n) in
          rw (slow, long, n) (between_le g rate c.time.hai_cnt (gradient g c.time s.rtt) grows)
    ]

-- `timely_update` with a round trip time: the rate is at least the configured minimum and half of what is
-- used of the old rate. Outside slow start, where the round trip is longer than Thigh, or grows and is at
-- least Tlow, it is no more than the old rate, unless the minimum is.
pub timely_update_reacts :
    (g : Config) (c : Connection) (s : Stats) (cur_ts : ℕ)
    → (s.rtt == 0) ≡ false
    → (g.timely_min_rate ≤ (timely_update g c s cur_ts).cc_rate)
      × (timely_used g c s cur_ts / 2 ≤ (timely_update g c s cur_ts).cc_rate)
      × ((if is_slower g c s then (timely_update g c s cur_ts).cc_rate else 0)
          ≤ max g.timely_min_rate c.cc_rate)
unfolding timely_update
timely_update_reacts g c s cur_ts r =
    let u = used_le g c s cur_ts in
    rw r (
      ground arith,
      ground arith,
      elim (Bool-cases (is_slower g c s)) [
        | inl y ↦ rw y (ground (arith, slower_le g c s (timely_used g c s cur_ts) y, u))
        | inr n ↦ rw n (ground arith)
      ],
    )
