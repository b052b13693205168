-- ===== src/Slow/Congestion/Poll/Safe.antt =====
-- With a window, no poll aborts or fails an assertion.
use tas.Base.{
  ℕ, zero, suc, ◌-◌, ◌≤◌, ◌≡◌, refl, ◌∙◌, ap, arith, Bool, true, false, not, ◌&&◌, Option, none,
  some, ◌==◌, if◌then◌else◌, put, ◌>>=◌, Bool-cases, inl, inr,
}
use tas.Slow.Congestion.{Config, Stats, Connection, conf_mss, rtt_or_init}
use tas.Slow.Congestion.Algorithm.{dctcp_win}
use tas.Slow.Congestion.Window.{dctcp_win_update, win_stored}
use tas.Slow.Congestion.WindowBounds.{IsTimed, win_update-stored, clamped}
use tas.Slow.Congestion.Retransmit.{issue_retransmits}
use tas.Slow.Congestion.Poll.{
  Network, stats_of, Group, since_last, with_last, update, poll_with, poll_due, poll_conn,
  poll_from, head, after, or_else, poll_loop, cc_poll_vm,
}

-- Window and send buffer hold a segment.
pub record IsWindowed (c : Connection) : Type 0 where
  pub window : conf_mss ≤ c.win.window
  pub buffer : conf_mss ≤ c.tx_len

-- The flow of every connection has statistics, and its round trip time can be converted.
abbrev pub AreTimed : Config → Network → Type 0
AreTimed g net = (id : ℕ) → (s : Stats) × (stats_of net id ≡ some s) × IsTimed g (rtt_or_init g s)

retransmits-IsWindowed :
    (g : Config) (c : Connection) (s : Stats) (cur_ts : ℕ) (sent : Bool)
    → IsWindowed c
    → IsWindowed (issue_retransmits g c s cur_ts sent)
unfolding issue_retransmits
retransmits-IsWindowed g c s cur_ts sent h = record {
  window = ground (arith, h.window);
  buffer = ground (arith, h.buffer);
}

update_is :
    (g : Config) (c : Connection) (s : Stats) (cur_ts : ℕ)
    → g.algorithm ≡ dctcp_win
    → update g.algorithm g c s cur_ts ≡ dctcp_win_update g c s
unfolding update
update_is g c s cur_ts a = ap (λ k. update k g c s cur_ts) a

-- a result with a window
abbrev Windowed : Option Connection → Type 0
Windowed o = (d : Connection) × (o ≡ some d) × IsWindowed d

poll_due-IsWindowed :
    (g : Config) (net : Network) (cur_ts id : ℕ) (c : Connection)
    → g.algorithm ≡ dctcp_win
    → AreTimed g net
    → IsWindowed c
    → Windowed (poll_due g net cur_ts id c)
unfolding poll_due poll_with since_last
poll_due-IsWindowed g net cur_ts id c a t h =
    let now = t id in
    let c' = with_last c now.0 in
    let s = since_last c now.0 in
    let u = win_update-stored g c' s h.window h.buffer now.2 in
    let d = win_stored g c' s u.0 in
    let good : IsWindowed d = record { window = clamped g c' s h.buffer; buffer = h.buffer } in
    let sent = retransmits-IsWindowed g d s cur_ts (net.retransmit id) good in
    let last = λ (e : Connection). record (issue_retransmits g e s cur_ts (net.retransmit id)) {
      cc_last_ts = cur_ts;
    } in
    (
      last d,
      ap (λ o. o >>= (λ q. poll_with g net cur_ts id c q)) now.1
          ∙ ap (λ o. o >>= λ e. some (last e)) (update_is g c' s cur_ts a ∙ u.1),
      record { window = sent.window; buffer = sent.buffer },
    )

Windowed-if :
    (b : Bool) (x y : Option Connection) → Windowed x → Windowed y → Windowed (if b then x else y)
Windowed-if true x y h k = h
Windowed-if false x y h k = k

poll_conn-IsWindowed :
    (g : Config) (net : Network) (cur_ts id : ℕ) (c : Connection)
    → g.algorithm ≡ dctcp_win
    → AreTimed g net
    → IsWindowed c
    → Windowed (poll_conn g net cur_ts id c)
unfolding poll_conn
poll_conn-IsWindowed g net cur_ts id c a t h =
    Windowed-if _ (some c) (poll_due g net cur_ts id c) (c, refl, h)
      (poll_due-IsWindowed g net cur_ts id c a t h)

-- Every connection of the machine has a window.
abbrev pub AreWindowed : Group → Type 0
AreWindowed v = (id : ℕ) → IsWindowed (v.conns id)

if_IsWindowed :
    (b : Bool) (c d : Connection) → IsWindowed c → IsWindowed d → IsWindowed (if b then c else d)
if_IsWindowed true c d h k = h
if_IsWindowed false c d h k = k

poll_loop-AreWindowed :
    (fuel : ℕ) (g : Config) (net : Network) (cur_ts first : ℕ) (starts : Bool) (v : Group)
    (o : Option ℕ)
    → g.algorithm ≡ dctcp_win
    → AreTimed g net
    → AreWindowed v
    → (w : Group) × (poll_loop fuel g net cur_ts first starts v o ≡ some w) × AreWindowed w
unfolding poll_loop
poll_loop-AreWindowed zero g net cur_ts first starts v o a t h = (_, refl, h)
poll_loop-AreWindowed (suc fuel) g net cur_ts first starts v none a t h = (_, refl, h)
poll_loop-AreWindowed (suc fuel) g net cur_ts first starts v (some id) a t h =
    let one = poll_conn-IsWindowed g net cur_ts id (v.conns id) a t (h id) in
    let v' : Group = record v { conns = put v.conns id one.0 } in
    let rest =
      poll_loop-AreWindowed fuel g net cur_ts first false v'
        (or_else (after v.order id) (head v.order)) a t
        (λ i. if_IsWindowed (i == id) one.0 (v.conns i) one.2 (h i)) in
    elim (Bool-cases (not starts && (id == first))) [
      | inl y ↦ (record v { next_conn = some id }, rw y refl, h)
      | inr n ↦ (rest.0, rw (n, one.1) rest.1, rest.2)
    ]

poll_from-AreWindowed :
    (fuel : ℕ) (g : Config) (net : Network) (cur_ts : ℕ) (v : Group) (o : Option ℕ)
    → g.algorithm ≡ dctcp_win
    → AreTimed g net
    → AreWindowed v
    → (w : Group) × (poll_from fuel g net cur_ts v o ≡ some w) × AreWindowed w
unfolding poll_from
poll_from-AreWindowed fuel g net cur_ts v none a t h = (v, refl, h)
poll_from-AreWindowed fuel g net cur_ts v (some first) a t h =
    poll_loop-AreWindowed fuel g net cur_ts first true v (some first) a t h

-- `cc_poll_vm` with the window algorithm, where each connection's window and send buffer hold a segment,
-- the link has a bandwidth, and each flow has statistics with a round trip time that can be converted:
-- nothing aborts or fails an assertion, and window and send buffer hold a segment again afterwards.
pub cc_poll-AreWindowed :
    (g : Config) (net : Network) (cur_ts n : ℕ) (v : Group)
    → g.algorithm ≡ dctcp_win
    → AreTimed g net
    → AreWindowed v
    → (w : Group) × (cc_poll_vm g net cur_ts n v ≡ some w) × AreWindowed w
unfolding cc_poll_vm
cc_poll-AreWindowed g net cur_ts n v a t h =
    poll_from-AreWindowed (128 - n) g net cur_ts v (or_else v.next_conn (head v.order)) a t h
