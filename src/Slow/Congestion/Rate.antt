-- ===== src/Slow/Congestion/Rate.antt =====
-- DCTCP with a rate, and the constant rate, tas/slow/cc.c. Where `cur_ts` is `cc_last_ts` the code divides
-- by 0, and the quotient here is 0.
use tas.Base.{
  ℕ, ◌+◌, ◌-◌, ◌*◌, ◌/◌, ◌%◌, ◌^◌, Bool, true, ◌&&◌, ◌||◌, ltb, leb, ◌==◌, if◌then◌else◌, min, max,
  add32, sub32,
}
use tas.Slow.Congestion.{Config, Stats, RateState, Connection, uint32_max, rtt_or_init, ecn_mean}

unfoldable pub dctcp_rate_init : Config → Connection → Connection
dctcp_rate_init g c = record c {
  cc_rate = g.dctcp_init;
  dctcp = record (c.dctcp) {
    ecn_rate = 0;
    slowstart = true;
    unproc_ecnb = 0;
    unproc_acks = 0;
    unproc_ackb = 0;
    unproc_drops = 0;
  };
}

-- `c_ecnb`, `c_acks`, `c_ackb` and `c_drops`: what was not processed, and the new statistics
pub record Counts : Type 0 where
  pub ecnb : ℕ
  pub acks : ℕ
  pub ackb : ℕ
  pub drops : ℕ

abbrev pub counts : Connection → Stats → Counts
counts c s = record {
  ecnb = add32 c.dctcp.unproc_ecnb s.c_ecnb;
  acks = add32 c.dctcp.unproc_acks s.c_acks;
  ackb = add32 c.dctcp.unproc_ackb s.c_ackb;
  drops = add32 c.dctcp.unproc_drops s.c_drops;
}

abbrev pub with_unproc : RateState → Counts → RateState
with_unproc r n = record r {
  unproc_ecnb = n.ecnb;
  unproc_acks = n.acks;
  unproc_ackb = n.ackb;
  unproc_drops = n.drops;
}

abbrev pub no_counts : Counts
no_counts = record { ecnb = 0; acks = 0; ackb = 0; drops = 0 }

-- kbps of `ackb` bytes from `last_ts` on, in 32 bits; 0 at the first time
unfoldable pub measured_rate : (ackb cur_ts last_ts : ℕ) → ℕ
measured_rate ackb cur_ts last_ts =
    if last_ts == 0 then 0 else ackb * 8 * 1000 % 2 ^ 32 / sub32 cur_ts last_ts

-- `cc->act_rate`
abbrev pub mean_rate : (old new : ℕ) → ℕ
mean_rate old new = (7 * old + new) % 2 ^ 32 / 8

-- `rate`, but no more than 1.2 times what was used
abbrev pub used_rate : (rate act_rate : ℕ) → ℕ
used_rate rate act_rate = if ltb (act_rate * 12 / 10) rate then act_rate * 12 / 10 else rate

-- twice the rate, as far as 32 bits hold
abbrev pub double : ℕ → ℕ
double rate = if leb rate (rate * 2 % 2 ^ 32) then rate * 2 % 2 ^ 32 else uint32_max

unfoldable pub rate_is_calm : Connection → Counts → Bool
rate_is_calm c n = (n.drops == 0) && ((n.ecnb == 0) && (c.cc_rexmits == 0))

-- the mean of the marks, and the marks that count
abbrev pub rate_ecn : Config → RateState → Counts → ℕ
rate_ecn g r n =
    if ltb 0 n.ackb then ecn_mean g r.ecn_rate (min n.ecnb n.ackb) n.ackb else r.ecn_rate

abbrev pub rate_marked : Counts → ℕ
rate_marked n = if ltb 0 n.ackb then min n.ecnb n.ackb else n.ecnb

-- congestion avoidance
unfoldable pub rate_avoid : Config → Connection → Counts → (rate : ℕ) → ℕ × ℕ
rate_avoid g c n rate =
    let ecn_rate = rate_ecn g c.dctcp n in
    if ltb 0 n.drops || ltb 0 c.cc_rexmits
    then (rate / 2, c.dctcp.ecn_rate)
    else if ltb 0 (rate_marked n)
    then (rate * (uint32_max - ecn_rate / 2) / uint32_max, ecn_rate)
    else if g.dctcp_mimd == 0
    then (add32 rate g.dctcp_step, ecn_rate)
    else (add32 rate (rate * g.dctcp_mimd / uint32_max), ecn_rate)

-- what was used of the rate
unfoldable pub rate_used : Connection → Counts → (cur_ts : ℕ) → ℕ
rate_used c n cur_ts =
    let act_rate = measured_rate n.ackb cur_ts c.cc_last_ts in
    used_rate c.cc_rate (max act_rate (mean_rate c.dctcp.act_rate act_rate))

-- the new rate, before the minimum
unfoldable pub rate_next : Config → Connection → Counts → (cur_ts : ℕ) → ℕ
rate_next g c n cur_ts =
    let rate = rate_used c n cur_ts in
    if c.dctcp.slowstart && rate_is_calm c n then double rate else (rate_avoid g c n rate).0

unfoldable pub dctcp_rate_update : Config → Connection → Stats → (cur_ts : ℕ) → Connection
dctcp_rate_update g c s cur_ts =
    let n = counts c s in
    let c' = record c { cc_rtt = rtt_or_init g s } in
    let rate = rate_next g c n cur_ts in
    let slow = c.dctcp.slowstart && rate_is_calm c n in
    if ltb n.acks g.dctcp_minpkts then record c' { dctcp = with_unproc c.dctcp n } else record c' {
      cc_rate = if ltb rate g.dctcp_min then g.dctcp_min else rate;
      cc_rexmits = 0;
      dctcp = record (with_unproc c.dctcp no_counts) {
        act_rate = mean_rate c.dctcp.act_rate (measured_rate n.ackb cur_ts c.cc_last_ts);
        ecn_rate = if slow then c.dctcp.ecn_rate else (rate_avoid g c n (rate_used c n cur_ts)).1;
        slowstart = slow;
      };
    }

unfoldable pub const_rate_init : Config → Connection → Connection
const_rate_init g c = record c { cc_rate = g.rate }

unfoldable pub const_rate_update : Config → Connection → Stats → Connection
const_rate_update g c s = record c { cc_rtt = rtt_or_init g s; cc_rexmits = 0 }
