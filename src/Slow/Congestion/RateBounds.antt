-- ===== src/Slow/Congestion/RateBounds.antt =====
-- The rate of DCTCP with a rate.
use tas.Base.{ℕ, ◌/◌, ◌≤◌, ◌≡◌, refl, arith, false, ◌||◌, ltb, if◌then◌else◌, max}
use tas.Slow.Congestion.{Config, Stats, Connection, uint32_max}
use tas.Slow.Congestion.Rate.{
  Counts, counts, rate_is_calm, rate_ecn, rate_avoid, rate_used, rate_next, dctcp_rate_update,
}
use tas.Slow.Congestion.WindowBounds.{scaled_le}

-- the bounds that the signs of congestion put on the next rate
abbrev pub highest_rate : Config → Connection → Counts → ℕ
highest_rate g c n =
    if ltb 0 n.drops || ltb 0 c.cc_rexmits
    then max g.dctcp_min (c.cc_rate / 2)
    else if ltb 0 n.ecnb
    then max g.dctcp_min c.cc_rate
    else uint32_max

used_le : (c : Connection) (n : Counts) (cur_ts : ℕ) → rate_used c n cur_ts ≤ c.cc_rate
unfolding rate_used
used_le c n cur_ts = ground arith

next_rate_le :
    (g : Config) (c : Connection) (n : Counts) (cur_ts : ℕ)
    → c.cc_rate ≤ uint32_max
    → g.dctcp_min ≤ uint32_max
    → max g.dctcp_min (rate_next g c n cur_ts) ≤ highest_rate g c n
unfolding rate_next rate_avoid rate_is_calm
next_rate_le g c n cur_ts r m =
    let u = used_le c n cur_ts in
    let a = scaled_le (rate_used c n cur_ts) (rate_ecn g c.dctcp n / 2) in
    ground (arith, u, a, r, m)

-- `dctcp_rate_update` where the rate and the configured minimum fit 32 bits and enough acknowledgements
-- have come, with those left from before: the new rate is at least the minimum. After a drop or a
-- retransmission it is at most half the old one, after a mark at most the old one, unless the minimum is
-- more; it always fits 32 bits. Nothing is left to process.
pub rate_update_reacts :
    (g : Config) (c : Connection) (s : Stats) (cur_ts : ℕ)
    → c.cc_rate ≤ uint32_max
    → g.dctcp_min ≤ uint32_max
    → g.dctcp_minpkts ≤ (counts c s).acks
    → (g.dctcp_min ≤ (dctcp_rate_update g c s cur_ts).cc_rate)
      × ((dctcp_rate_update g c s cur_ts).cc_rate ≤ highest_rate g c (counts c s))
      × ((dctcp_rate_update g c s cur_ts).dctcp.unproc_acks ≡ 0)
unfolding dctcp_rate_update
rate_update_reacts g c s cur_ts r m k =
    let enough : ltb (counts c s).acks g.dctcp_minpkts ≡ false = ground (arith, k) in
    let n = next_rate_le g c (counts c s) cur_ts r m in
    rw enough (ground arith, ground (arith, n), refl)
