-- ===== src/Slow/Tests.antt =====
-- Connections to run congestion control on.
mod Allocating
mod Flows
mod Connecting
use tas.Base.{
  ℕ, leb, ◌*◌, ◌/◌, ◌%◌, ◌≤◌, ◌≡◌, refl, arith, true, false, Option, [], ◌∷◌, none, some,
  if◌then◌else◌, max, pos, ◌>>=◌,
}
use tas.Fast.Flow.{Flow}
use tas.Fast.Tests.{flow}
use tas.Slow.Nicif.{flowst_num}
use tas.Slow.Nicif.Connections.{nicif_connection_stats}
use tas.Slow.Congestion.{Config, Stats, Connection, uint32_max, conf_mss, rtt_or_init}
use tas.Slow.Congestion.Algorithm.{dctcp_win}
use tas.Slow.Congestion.Window.{dctcp_win_update}
use tas.Slow.Congestion.WindowBounds.{
  IsTimed, win_update-IsBounded, win_update-aborts, highest, lowest, win_update_reacts,
}
use tas.Slow.Congestion.Rate.{counts, dctcp_rate_update}
use tas.Slow.Congestion.RateBounds.{highest_rate, rate_update_reacts}
use tas.Slow.Congestion.Timely.{timely_update, timely_used, is_slower, timely_update_reacts}
use tas.Slow.Congestion.Retransmit.{Sample, first_ask, first_due, retransmits_when_due}
use tas.Slow.Congestion.Poll.{Network, stats_of, Group, cc_poll_vm}
use tas.Slow.Congestion.Poll.Safe.{AreWindowed, cc_poll-AreWindowed}
use tas.Slow.Congestion.Poll.Lists.{poll_each, with_next, poll_goes_round}

-- the defaults of tas/config.c, with a minimum and fewer packets
abbrev conf : Config
conf = record {
  algorithm = dctcp_win;
  control_interval = 2;
  rexmit_ints = 4;
  rtt_init = 50;
  link_bw = 10;
  dctcp_weight = 268435455;
  dctcp_init = 10000;
  dctcp_step = 10000;
  dctcp_mimd = 0;
  dctcp_min = 1000;
  dctcp_minpkts = 2;
  rate = 0;
  timely_tlow = 30;
  timely_thigh = 150;
  timely_step = 10000;
  timely_init = 10000;
  timely_alpha = 85899345;
  timely_beta = 3435973836;
  timely_min_rtt = 11;
  timely_min_rate = 10000;
}

-- half of what was acknowledged is marked
abbrev half_marked : Stats
half_marked = record {
  c_drops = 0;
  c_acks = 4;
  c_ackb = 5600;
  c_ecnb = 2800;
  txp = true;
  rtt = 200;
  c_tx_next_seq = 70000;
}

abbrev conn : Connection
conn = record {
  is_open = true;
  tx_len = 65536;
  cc_last_ts = 100;
  cc_rtt = 50;
  cc_last_drops = 0;
  cc_last_acks = 0;
  cc_last_ackb = 0;
  cc_last_ecnb = 0;
  cc_last_tx_next_seq = 0;
  cc_rate = 500000;
  cc_rexmits = 0;
  win = record { ecn_rate = 0; window = 14000; slowstart = false };
  dctcp = record {
    unproc_acks = 0;
    unproc_ackb = 0;
    unproc_ecnb = 0;
    unproc_drops = 0;
    ecn_rate = 0;
    act_rate = 400000;
    slowstart = false;
  };
  time = record {
    rtt_prev = 100;
    rtt_diff = pos 0;
    hai_cnt = 0;
    act_rate = 400000;
    last_ts = 100;
    slowstart = false;
  };
  cnt_win_updt_pending = 0;
  ts_win_updt_pending = 0;
  cnt_tx_pending = 0;
  ts_tx_pending = 0;
}

timed : IsTimed conf 200
timed = record { some_link = omega arith; positive = omega arith; fits = omega arith }

win_update-IsBounded_example :
    (d : Connection) × (dctcp_win_update conf conn half_marked ≡ some d)
    × (conf_mss ≤ d.win.window)
    × (d.win.window ≤ 65536)
    × (d.cc_rate ≤ uint32_max)
    × (d.cc_rate * d.cc_rtt ≤ d.win.window * 8000)
win_update-IsBounded_example =
    win_update-IsBounded conf conn half_marked (omega arith) (omega arith) timed

win_update_reacts_example :
    (d : Connection) × (dctcp_win_update conf conn half_marked ≡ some d)
    × (d.win.window ≤ highest conn half_marked)
    × (lowest conn half_marked ≤ d.win.window)
win_update_reacts_example =
    win_update_reacts conf conn half_marked (omega arith) (omega arith) timed

-- the flow of the fast path's tests, with a round trip time
abbrev measured : Flow
measured = record flow { rtt_est = 200 }

abbrev net : Network
net = record {
  flow_id = λ id. id % 8;
  nic = record {
    flows = record {
      flowst = λ f_id. measured;
      flowht = λ i. record { flow_id = 0; flow_hash = 0 };
    };
    free_ids = [];
  };
  retransmit = λ id. true;
}

net-IsTimed :
    (id : ℕ) → (s : Stats) × (stats_of net id ≡ some s) × IsTimed conf (rtt_or_init conf s)
unfolding stats_of nicif_connection_stats
net-IsTimed id = let low : leb flowst_num (id % 8) ≡ false = ground arith in rw low (_, refl, timed)

-- four connections, the third the next
abbrev group : Group
group = record { conns = λ id. conn; order = 4 ∷ 3 ∷ 2 ∷ 1 ∷ []; next_conn = some 2 }

cc_poll-AreWindowed_example :
    (w : Group) × (cc_poll_vm conf net 300 0 group ≡ some w) × AreWindowed w
cc_poll-AreWindowed_example =
    cc_poll-AreWindowed conf net 300 0 group refl net-IsTimed
      (λ id. record { window = omega arith; buffer = omega arith })
