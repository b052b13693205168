-- ===== src/Slow/Congestion/Poll.antt =====
-- `cc_poll_vm`, `cc_conn_init` and `cc_conn_remove` of tas/slow/cc.c. A connection is known by its number;
-- the list that `cc_next` links is a list of numbers.
pub mod Lists
pub mod Safe
use tas.Base.{
  ℕ, zero, suc, ◌+◌, ◌-◌, ◌*◌, ◌^◌, ◌%◌, Bool, true, false, not, ◌&&◌, ◌||◌, List, [], ◌∷◌, Option,
  none, some, ltb, leb, ◌==◌, if◌then◌else◌, add32, sub32, put, ◌>>=◌,
}
use tas.Slow.Nicif.Connections.{NicState, nicif_connection_stats}
use tas.Slow.Congestion.{Config, Algorithm, Stats, Connection}
use tas.Slow.Congestion.Algorithm.{dctcp_win, dctcp_rate, timely, const_rate}
use tas.Slow.Congestion.Window.{dctcp_win_init, dctcp_win_update}
use tas.Slow.Congestion.Rate.{
  dctcp_rate_init, dctcp_rate_update, const_rate_init, const_rate_update,
}
use tas.Slow.Congestion.Timely.{timely_init, timely_update}
use tas.Slow.Congestion.Retransmit.{asks, issue_retransmits}

-- What a poll reads: the flow of each connection, the state of tas/slow/nicif.c, and, for each connection,
-- whether a request for a retransmission finds a budget and room in the queue to the fast path.
pub record Network : Type 0 where
  pub flow_id : ℕ → ℕ
  pub nic : NicState
  pub retransmit : ℕ → Bool

-- the statistics of the connection, or nothing for -1
unfoldable pub stats_of : Network → ℕ → Option Stats
stats_of net id = nicif_connection_stats (net.flow_id id) net.nic >>= λ r. some (record {
  c_drops = r.c_drops;
  c_acks = r.c_acks;
  c_ackb = r.c_ackb;
  c_ecnb = r.c_ecnb;
  txp = r.txp;
  rtt = r.rtt;
  c_tx_next_seq = r.c_tx_next_seq;
})

-- `cc_conns` and `next_conn` of one machine, with its connections
pub record Group : Type 0 where
  pub conns : ℕ → Connection
  pub order : List ℕ
  pub next_conn : Option ℕ

-- the counts since the last time
unfoldable pub since_last : Connection → Stats → Stats
since_last c s = record s {
  c_drops = (s.c_drops + 2 ^ 16 - c.cc_last_drops) % 2 ^ 16;
  c_acks = (s.c_acks + 2 ^ 16 - c.cc_last_acks) % 2 ^ 16;
  c_ackb = sub32 s.c_ackb c.cc_last_ackb;
  c_ecnb = sub32 s.c_ecnb c.cc_last_ecnb;
}

-- the counts of this time kept
abbrev pub with_last : Connection → Stats → Connection
with_last c s = record c {
  cc_last_drops = s.c_drops;
  cc_last_acks = s.c_acks;
  cc_last_ackb = s.c_ackb;
  cc_last_ecnb = s.c_ecnb;
}

-- the algorithm's update; `none` is a failed assertion
unfoldable pub update : Algorithm → Config → Connection → Stats → (cur_ts : ℕ) → Option Connection
update dctcp_win g c s cur_ts = dctcp_win_update g c s
update dctcp_rate g c s cur_ts = some (dctcp_rate_update g c s cur_ts)
update timely g c s cur_ts = some (timely_update g c s cur_ts)
update const_rate g c s cur_ts = some (const_rate_update g c s)

-- with the statistics; the rate set in the fast path is `cc_rate`
unfoldable pub poll_with :
    Config → Network → (cur_ts : ℕ) → (id : ℕ) → Connection → Stats → Option Connection
poll_with g net cur_ts id c stats =
    let s = since_last c stats in
    update g.algorithm g (with_last c stats) s cur_ts >>= λ d.
    some (record (issue_retransmits g d s cur_ts (net.retransmit id)) { cc_last_ts = cur_ts })

-- a connection whose interval is over; without statistics, `abort`
unfoldable pub poll_due :
    Config → Network → (cur_ts : ℕ) → (id : ℕ) → Connection → Option Connection
poll_due g net cur_ts id c = stats_of net id >>= λ stats. poll_with g net cur_ts id c stats

-- The body of the loop of `cc_poll_vm`.
unfoldable pub poll_conn :
    Config → Network → (cur_ts : ℕ) → (id : ℕ) → Connection → Option Connection
poll_conn g net cur_ts id c =
    if not c.is_open || ltb (sub32 cur_ts c.cc_last_ts) (c.cc_rtt * g.control_interval % 2 ^ 32)
    then some c
    else poll_due g net cur_ts id c

-- the first of a list
abbrev pub head : List ℕ → Option ℕ
head [] = none
head (x ∷ xs) = some x

-- what follows `id`
abbrev pub after : List ℕ → ℕ → Option ℕ
after [] id = none
after (x ∷ xs) id = if x == id then head xs else after xs id

abbrev pub or_else : Option ℕ → Option ℕ → Option ℕ
or_else none o = o
or_else (some x) o = some x

-- The loop, from `c` on; the fuel is what is left of the 128 connections of a poll. `starts` holds in the
-- first round.
unfoldable pub poll_loop :
    ℕ
    → Config
    → Network
    → (cur_ts : ℕ) → (first : ℕ) → (starts : Bool) → Group
    → Option ℕ
    → Option Group
poll_loop zero g net cur_ts first starts v c = some (record v { next_conn = c })
poll_loop (suc fuel) g net cur_ts first starts v none = some (record v { next_conn = none })
poll_loop (suc fuel) g net cur_ts first starts v (some id) =
    if not starts && (id == first)
    then some (record v { next_conn = some id })
    else poll_conn g net cur_ts id (v.conns id) >>= λ d.
        poll_loop fuel g net cur_ts first false (record v { conns = put v.conns id d })
          (or_else (after v.order id) (head v.order))

-- from the first connection on, if there is any
unfoldable pub poll_from :
    (fuel : ℕ) → Config → Network → (cur_ts : ℕ) → Group → Option ℕ → Option Group
poll_from fuel g net cur_ts v none = some v
poll_from fuel g net cur_ts v (some first) = poll_loop fuel g net cur_ts first true v (some first)

-- `cc_poll_vm` after `n` connections; `none` is `abort` or a failed assertion
unfoldable pub cc_poll_vm : Config → Network → (cur_ts n : ℕ) → Group → Option Group
cc_poll_vm g net cur_ts n v =
    poll_from (128 - n) g net cur_ts v (or_else v.next_conn (head v.order))

-- the algorithm's start
unfoldable pub start_algorithm : Algorithm → Config → Connection → Option Connection
start_algorithm dctcp_win g c = dctcp_win_init g c
start_algorithm dctcp_rate g c = some (dctcp_rate_init g c)
start_algorithm timely g c = some (timely_init g c)
start_algorithm const_rate g c = some (const_rate_init g c)

-- `cc_conn_init` of the connection `id`, at the time `cur_ts`
unfoldable pub cc_conn_init : Config → (cur_ts id : ℕ) → Group → Option Group
cc_conn_init g cur_ts id v =
    start_algorithm g.algorithm g (record (v.conns id) {
      cc_last_ts = cur_ts;
      cc_rtt = g.rtt_init;
      cc_rexmits = 0;
      cc_last_tx_next_seq = 0;
    })
    >>= λ c. some (record v { conns = put v.conns id c; order = id ∷ v.order })

-- the list without `id`; `none` where it is not in it
abbrev pub without : List ℕ → ℕ → Option (List ℕ)
without [] id = none
without (x ∷ xs) id =
    let rest = without xs id in if x == id then some xs else rest >>= λ ys. some (x ∷ ys)

-- `cc_conn_remove`; `none` is the call of `abort`.
unfoldable pub cc_conn_remove : (id : ℕ) → Group → Option Group
cc_conn_remove id v =
    let next = (elim v.next_conn as (λ _. Option ℕ) [
      | none ↦ none
      | some n ↦ if n == id then after v.order id else some n
    ]) in
    without v.order id >>= λ order. some (record v { order = order; next_conn = next })
