-- ===== src/Slow/Tcp/Listener/Order.antt =====
-- The listener as two queues: SYNs and accepts are served in order.
use tas.Base.{
  ℕ, ◌<◌, ◌≡◌, refl, ap, arith, true, false, Option, none, some, List, [], ◌∷◌, ltb, ◌==◌, if_no,
  ◌>>=◌,
}
use tas.Slow.Tcp.Listener.{
  Syn, Listener, refused, ListenStep, pop_backlog, ring_index, accept_with, accept_by,
  listener_accept, then_step, listener_packet, tcp_accept,
}
use tas.Slow.Tcp.Listener.Backlog.{IsRing, IsWhole, contents, pop_lem}
use tas.Slow.Tcp.Listener.Serves.{Serves}

pub data ListenEvent : Type 0 where
  syn : Syn → (add : Syn → Option ℕ) → ListenEvent
  accept : (c : ℕ) (add : Syn → Option ℕ) → ListenEvent

-- the connections of the calls of `accept`
unfoldable pub calls_of : List ListenEvent → List ℕ
calls_of [] = []
calls_of (syn p add ∷ es) = calls_of es
calls_of (accept c add ∷ es) = c ∷ calls_of es

-- The length of each SYN covers its headers.
abbrev pub AreWhole : List ListenEvent → Type 0
AreWhole [] = Unit
AreWhole (syn p add ∷ es) = IsWhole p × AreWhole es
AreWhole (accept c add ∷ es) = AreWhole es

unfoldable pub listen_event : ListenEvent → Listener → Option ListenStep
listen_event (syn p add) l = listener_packet l p add
listen_event (accept c add) l = tcp_accept l c add

-- all steps, with their effects
unfoldable pub listen_run : List ListenEvent → Listener → Option ListenStep
listen_run [] l = some (l, [])
listen_run (e ∷ es) l = listen_event e l >>= (λ r. then_step r.1 (listen_run es r.0))

-- A connection that calls `tcp_accept` on a listener where none waits, while the oldest SYN of the
-- backlog has no valid options, takes that SYN, and no other, out of the backlog and waits on, although
-- the backlog holds another.
pub accept_stuck :
    (l : Listener) (c : ℕ) (add : Syn → Option ℕ)
    → IsRing l
    → 1 < l.backlog_used
    → l.wait_conns ≡ []
    → (l.backlog l.backlog_pos).has_options ≡ false
    → (m : Listener) × (tcp_accept l c add ≡ some (m, refused (l.backlog l.backlog_pos) ∷ []))
      × (m.wait_conns ≡ c ∷ [])
      × (l.backlog l.backlog_pos ∷ contents m ≡ contents l)
      × (0 < m.backlog_used)
unfolding tcp_accept listener_accept accept_by accept_with pop_backlog contents ring_index
accept_stuck l c add i h w o =
    let waiting : ltb 0 l.backlog_used ≡ true = ground (arith, h) in
    let some_syn : (l.backlog_used == 0) ≡ false = ground (arith, h) in
    rw (waiting, w, some_syn)
      (
        pop_backlog (record l { wait_conns = c ∷ [] }),
        ap (λ f. some (accept_with (record l { wait_conns = c ∷ [] }) c [] f)) (if_no _ none o),
        refl,
        (pop_lem l i (omega (arith, h))).1,
        omega (arith, h),
      )
