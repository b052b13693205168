-- ===== src/Slow/Congestion/Window.antt =====
-- DCTCP with a window, tas/slow/cc.c.
use tas.Base.{
  ℕ, ◌-◌, ◌*◌, ◌/◌, Bool, true, false, ◌&&◌, ◌||◌, Option, none, some, ltb, ◌==◌, if◌then◌else◌,
  min, add32, ◌>>=◌,
}
use tas.Slow.Congestion.{
  Config, Stats, Connection, uint32_max, conf_mss, rtt_or_init, window_to_rate, ecn_mean,
}

unfoldable pub dctcp_win_init : Config → Connection → Option Connection
dctcp_win_init g c = do
  rate ← window_to_rate g (2 * conf_mss) g.rtt_init
  some (record c {
    cc_rate = rate;
    win = record { ecn_rate = 0; window = 2 * conf_mss; slowstart = true };
  })

-- No drop, no mark, no retransmission.
unfoldable pub is_calm : Connection → Stats → Bool
is_calm c s = (s.c_drops == 0) && ((s.c_ecnb == 0) && (c.cc_rexmits == 0))

-- `win + incr`, unless that is no more in 32 bits
abbrev pub grow : ℕ → ℕ → ℕ
grow win incr = if ltb win (add32 win incr) then add32 win incr else win

-- slow start: the window, and whether it goes on
unfoldable pub win_slowstart : Connection → Stats → ℕ × Bool
win_slowstart c s =
    if c.win.slowstart && is_calm c s
    then (grow c.win.window s.c_ackb, true)
    else (c.win.window, false)

-- the marks counted: no more than what was acknowledged, where there was any
abbrev pub marked : Stats → ℕ
marked s = if ltb 0 s.c_ackb then min s.c_ecnb s.c_ackb else s.c_ecnb

abbrev pub new_ecn_rate : Config → ℕ → Stats → ℕ
new_ecn_rate g old s =
    if ltb 0 s.c_ackb then ecn_mean g old (min s.c_ecnb s.c_ackb) s.c_ackb else old

-- congestion avoidance: the window and the mean of the marks
unfoldable pub win_avoid : Config → Connection → Stats → ℕ × ℕ
win_avoid g c s =
    let win = c.win.window in
    let ecn_rate = new_ecn_rate g c.win.ecn_rate s in
    if ltb 0 s.c_drops || ltb 0 c.cc_rexmits
    then (win / 2, c.win.ecn_rate)
    else if ltb 0 (marked s)
    then (win * (uint32_max - ecn_rate / 2) / uint32_max, ecn_rate)
    else (grow win (s.c_ackb * conf_mss / win), ecn_rate)

-- at least a segment, and then at most the send buffer
abbrev pub clamp : ℕ → ℕ → ℕ
clamp tx_len win =
    let low = (if ltb win conf_mss then conf_mss else win) in if ltb tx_len low then tx_len else low

-- the new window
abbrev pub next_window : Config → Connection → Stats → ℕ
next_window g c s =
    clamp c.tx_len (if (win_slowstart c s).1 then (win_slowstart c s).0 else (win_avoid g c s).0)

-- what the code stores at the end
abbrev pub win_stored : Config → Connection → Stats → (rate : ℕ) → Connection
win_stored g c s rate =
    let start = win_slowstart c s in
    record c {
      cc_rtt = rtt_or_init g s;
      cc_rate = rate;
      cc_rexmits = 0;
      win = record {
        ecn_rate = if start.1 then c.win.ecn_rate else (win_avoid g c s).1;
        window = next_window g c s;
        slowstart = start.1;
      };
    }

-- `dctcp_win_update`; `none` is a failed assertion.
unfoldable pub dctcp_win_update : Config → Connection → Stats → Option Connection
dctcp_win_update g c s =
    let win = next_window g c s in
    if ltb c.win.window conf_mss
    then none
    else window_to_rate g win (rtt_or_init g s) >>= λ rate.
        if ltb win conf_mss then none else some (win_stored g c s rate)
