-- ===== src/Slow/Congestion/Retransmit.antt =====
-- `issue_retransmits` of tas/slow/cc.c, which finds the connections that do not move. The branch on window
-- updates is switched off there.
use tas.Base.{
  ℕ, ◌+◌, ◌*◌, ◌^◌, ◌%◌, ◌<◌, ◌≡◌, refl, ◌∙◌, arith, Bool, true, false, not, ◌&&◌, List, [], ◌∷◌,
  Option, none, some, leb, ◌==◌, if◌then◌else◌, add32, sub32, length,
}
use tas.Slow.Congestion.{Config, Stats, Connection, rtt_or_init}

-- data to send, and nothing acknowledged
abbrev pub is_stuck : Stats → Bool
is_stuck s = s.txp && (s.c_ackb == 0)

-- `nicif_connection_retransmit` is called: often enough stuck, and for two round trips
unfoldable pub asks : Config → Connection → Stats → (cur_ts : ℕ) → Bool
asks g c s cur_ts =
    is_stuck s
    && (not (c.cnt_tx_pending == 0)
        && (leb g.rexmit_ints (add32 c.cnt_tx_pending 1)
            && leb (2 * rtt_or_init g s % 2 ^ 32) (sub32 cur_ts c.ts_tx_pending)))

-- The connection afterwards; `sent` is that the call is made and succeeds.
unfoldable pub issue_retransmits :
    Config → Connection → Stats → (cur_ts : ℕ) → (sent : Bool) → Connection
issue_retransmits g c s cur_ts sent =
    if not (is_stuck s)
    then record c {
      cnt_tx_pending = 0;
      cnt_win_updt_pending = 0;
      cc_last_tx_next_seq = s.c_tx_next_seq;
    }
    else if c.cnt_tx_pending == 0
    then record c {
      cnt_tx_pending = add32 c.cnt_tx_pending 1;
      ts_tx_pending = cur_ts;
      ts_win_updt_pending = cur_ts;
    }
    else if asks g c s cur_ts && sent
    then record c {
      cnt_tx_pending = 0;
      cnt_win_updt_pending = 0;
      cc_rexmits = add32 c.cc_rexmits 1;
    }
    else record c { cnt_tx_pending = add32 c.cnt_tx_pending 1 }

-- The statistics at one time.
pub record Sample : Type 0 where
  pub stats : Stats
  pub cur_ts : ℕ

-- How many of the samples come before the first call, with `n` before them.
abbrev pub first_ask : Config → Connection → ℕ → List Sample → Option ℕ
first_ask g c n [] = none
first_ask g c n (x ∷ xs) =
    let rest = first_ask g (issue_retransmits g c x.stats x.cur_ts false) (n + 1) xs in
    if asks g c x.stats x.cur_ts then some n else rest

-- The same read off the samples: the first that is at least the `rexmit_ints`-th, two round trips after
-- `start`.
abbrev pub first_due : Config → (start n : ℕ) → List Sample → Option ℕ
first_due g start n [] = none
first_due g start n (x ∷ xs) =
    let rest = first_due g start (n + 1) xs in
    if leb g.rexmit_ints (n + 1) && leb (2 * rtt_or_init g x.stats % 2 ^ 32) (sub32 x.cur_ts start)
    then some n
    else rest

abbrev pub all_stuck : List Sample → Bool
all_stuck [] = true
all_stuck (x ∷ xs) = is_stuck x.stats && all_stuck xs

asks_is :
    (g : Config) (c : Connection) (s : Stats) (cur_ts n start : ℕ)
    → is_stuck s ≡ true
    → c.cnt_tx_pending ≡ n
    → c.ts_tx_pending ≡ start
    → 0 < n
    → n + 1 < 2 ^ 32
    → asks g c s cur_ts
      ≡ (leb g.rexmit_ints (n + 1) && leb (2 * rtt_or_init g s % 2 ^ 32) (sub32 cur_ts start))
unfolding asks
asks_is g c s cur_ts n start k e t p b =
    let m : add32 c.cnt_tx_pending 1 ≡ n + 1 = omega (arith, e, b) in
    let z : (c.cnt_tx_pending == 0) ≡ false = ground (arith, e, p) in rw (k, z, m, t) refl

goes_on :
    (g : Config) (c : Connection) (s : Stats) (cur_ts n : ℕ)
    → is_stuck s ≡ true
    → c.cnt_tx_pending ≡ n
    → 0 < n
    → n + 1 < 2 ^ 32
    → ((issue_retransmits g c s cur_ts false).cnt_tx_pending ≡ n + 1)
      × ((issue_retransmits g c s cur_ts false).ts_tx_pending ≡ c.ts_tx_pending)
unfolding issue_retransmits
goes_on g c s cur_ts n k e p b = (ground (arith, k, e, p, b), ground (arith, k, e, p))

first_stuck :
    (g : Config) (c : Connection) (s : Stats) (cur_ts : ℕ)
    → is_stuck s ≡ true
    → c.cnt_tx_pending ≡ 0
    → (asks g c s cur_ts ≡ false)
      × ((issue_retransmits g c s cur_ts false).cnt_tx_pending ≡ 1)
      × ((issue_retransmits g c s cur_ts false).ts_tx_pending ≡ cur_ts)
unfolding asks issue_retransmits
first_stuck g c s cur_ts k z = (ground (arith, k, z), ground (arith, k, z), ground (arith, k, z))

asks_when_due :
    (g : Config) (c : Connection) (start n : ℕ) (xs : List Sample)
    → all_stuck xs ≡ true
    → c.cnt_tx_pending ≡ n
    → c.ts_tx_pending ≡ start
    → 0 < n
    → n + length xs < 2 ^ 32
    → first_ask g c n xs ≡ first_due g start n xs
asks_when_due g c start n [] k e t p b = refl
asks_when_due g c start n (x ∷ xs) k e t p b =
    let stuck : is_stuck x.stats ≡ true = ground (arith, k) in
    let on = goes_on g c x.stats x.cur_ts n stuck e p (omega (arith, b)) in
    let rest =
      asks_when_due g (issue_retransmits g c x.stats x.cur_ts false) start (n + 1) xs
        (ground (arith, k)) on.0 (on.1 ∙ t) (omega arith) (omega (arith, b)) in
    rw (asks_is g c x.stats x.cur_ts n start stuck e t p (omega (arith, b)), rest) refl

-- A connection that was moving and then is stuck, at `x` and at each of `xs`, as far as 32 bits count: as
-- long as no retransmission succeeds, the first call to the fast path comes at the first sample that is
-- the `rexmit_ints`-th at least and two round trips after `x`, and never at `x`.
pub retransmits_when_due :
    (g : Config) (c : Connection) (x : Sample) (xs : List Sample)
    → c.cnt_tx_pending ≡ 0
    → all_stuck (x ∷ xs) ≡ true
    → length xs + 1 < 2 ^ 32
    → first_ask g c 0 (x ∷ xs) ≡ first_due g x.cur_ts 1 xs
retransmits_when_due g c x xs z k b =
    let stuck : is_stuck x.stats ≡ true = ground (arith, k) in
    let first = first_stuck g c x.stats x.cur_ts stuck z in
    rw first.0 (
      asks_when_due g (issue_retransmits g c x.stats x.cur_ts false) x.cur_ts 1 xs
        (ground (arith, k)) first.1 first.2 (omega arith) (omega (arith, b)))
