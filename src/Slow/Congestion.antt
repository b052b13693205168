-- ===== src/Slow/Congestion.antt =====
-- Congestion control, tas/slow/cc.c: the part of a connection that it keeps, what it reads of the
-- configuration and of the fast path's statistics, and the two conversions that its algorithms share.
pub mod Window
pub mod WindowBounds
pub mod Rate
pub mod RateBounds
pub mod Timely
pub mod Retransmit
pub mod Poll
use tas.Base.{
  ℕ, ◌+◌, ◌-◌, ◌*◌, ◌/◌, ◌%◌, ◌^◌, Bool, ◌||◌, Option, none, some, ltb, leb, ◌==◌, if◌then◌else◌, ℤ,
  sub32, min,
}

-- UINT32_MAX
abbrev pub uint32_max : ℕ
uint32_max = 2 ^ 32 - 1

-- CONF_MSS
abbrev pub conf_mss : ℕ
conf_mss = 1400

-- `enum config_cc_algorithm`
pub data Algorithm : Type 0 where
  dctcp_win : Algorithm
  dctcp_rate : Algorithm
  timely : Algorithm
  const_rate : Algorithm

-- `struct configuration`, as far as cc.c reads it
pub record Config : Type 0 where
  pub algorithm : Algorithm
  pub control_interval : ℕ
  pub rexmit_ints : ℕ
  pub rtt_init : ℕ
  pub link_bw : ℕ
  pub dctcp_weight : ℕ
  pub dctcp_init : ℕ
  pub dctcp_step : ℕ
  pub dctcp_mimd : ℕ
  pub dctcp_min : ℕ
  pub dctcp_minpkts : ℕ
  pub rate : ℕ
  pub timely_tlow : ℕ
  pub timely_thigh : ℕ
  pub timely_step : ℕ
  pub timely_init : ℕ
  pub timely_alpha : ℕ
  pub timely_beta : ℕ
  pub timely_min_rtt : ℕ
  pub timely_min_rate : ℕ

-- `struct nicif_connection_stats`
pub record Stats : Type 0 where
  pub c_drops : ℕ
  pub c_acks : ℕ
  pub c_ackb : ℕ
  pub c_ecnb : ℕ
  pub txp : Bool
  pub rtt : ℕ
  pub c_tx_next_seq : ℕ

-- `struct connection_cc_dctcp_win`
pub record WinState : Type 0 where
  pub ecn_rate : ℕ
  pub window : ℕ
  pub slowstart : Bool

-- `struct connection_cc_dctcp_rate`
pub record RateState : Type 0 where
  pub unproc_acks : ℕ
  pub unproc_ackb : ℕ
  pub unproc_ecnb : ℕ
  pub unproc_drops : ℕ
  pub ecn_rate : ℕ
  pub act_rate : ℕ
  pub slowstart : Bool

-- `struct connection_cc_timely`
pub record TimelyState : Type 0 where
  pub rtt_prev : ℕ
  pub rtt_diff : ℤ
  pub hai_cnt : ℕ
  pub act_rate : ℕ
  pub last_ts : ℕ
  pub slowstart : Bool

-- The congestion control part of `struct connection`. The union `cc` is its three members: the
-- configuration fixes which is used.
pub record Connection : Type 0 where
  pub is_open : Bool
  pub tx_len : ℕ
  pub cc_last_ts : ℕ
  pub cc_rtt : ℕ
  pub cc_last_drops : ℕ
  pub cc_last_acks : ℕ
  pub cc_last_ackb : ℕ
  pub cc_last_ecnb : ℕ
  pub cc_last_tx_next_seq : ℕ
  pub cc_rate : ℕ
  pub cc_rexmits : ℕ
  pub win : WinState
  pub dctcp : RateState
  pub time : TimelyState
  pub cnt_win_updt_pending : ℕ
  pub ts_win_updt_pending : ℕ
  pub cnt_tx_pending : ℕ
  pub ts_tx_pending : ℕ

-- the round trip time that is measured, or the configured estimate
abbrev pub rtt_or_init : Config → Stats → ℕ
rtt_or_init g s = if s.rtt == 0 then g.rtt_init else s.rtt

-- `window_to_rate`: kbps for a window per round trip. `none` is the failed assertion or a division by 0.
unfoldable pub window_to_rate : Config → (window rtt : ℕ) → Option ℕ
window_to_rate g window rtt =
    let sending = window * 8 * 1000 / g.link_bw / 1000 in
    let round = rtt * 1000 % 2 ^ 32 in
    let time = (if ltb sending round then round else sending) in
    let rate = window * 8 * 1000000 / time in
    if g.link_bw == 0 || time == 0
    then none
    else some (if ltb uint32_max rate then uint32_max else rate)

-- The running mean of the share of marked bytes, in units of 1 / UINT32_MAX, as both kinds of DCTCP
-- keep it; `marked` is at most `acked`, and `acked` is not 0.
unfoldable pub ecn_mean : Config → (old marked acked : ℕ) → ℕ
ecn_mean g old marked acked =
    let share = marked * uint32_max / acked in
    (share * g.dctcp_weight + old * (uint32_max - g.dctcp_weight)) / uint32_max
