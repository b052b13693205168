-- ===== src/Fast/Qman/SafePoll.antt =====
-- The indices that the queue manager follows and reports, through a whole poll and a call of
-- `tas_qman_set`.
use tas.Base.{
  ℕ, zero, suc, ◌<◌, ◌≡◌, arith, Bool, true, false, not, ◌&&◌, ◌||◌, List, [], ◌∷◌, ◌++◌, Option,
  none, some, ltb, ◌-◌, ◌==◌, Bool-cases, inl, inr, length, add32, sub32,
}
use tas.Fast.Qman.{timestamp_lessthaneq}
use tas.Fast.Qman.Flows.{
  Thread, Chunk, Polled, with_fqman, with_queue, fired, flow_queue_fire, poll_queue, room,
  nolimit_round, nolimit_loop,
}
use tas.Fast.Qman.Poll.{
  flow_queues, Round, skip_round, skip_loop, flow_poll_skiplist, flow_poll_nolimit, poll_both,
  flow_qman_poll, SetFlags, SetArgs, set_fields, flow_set_impl,
}
use tas.Fast.Qman.Safe.{
  below, IsSafe, activate-IsSafe, nolimit_pop-IsSafe, skip_pop-IsSafe, IsSafe-queue,
}

-- Each chunk is of a queue of the array.
abbrev pub all_below : List Chunk → Bool
all_below [] = true
all_below (c ∷ cs) = ltb c.q_id flow_queues && all_below cs

-- The indices that the poll follows, and those that it reports, are of the array.
pub record IsSafePoll (p : Polled) : Type 0 where
  pub lists : IsSafe p.thread.vq.fqman
  pub report : all_below p.chunks ≡ true

all_below-snoc :
    (cs : List Chunk) (c : Chunk)
    → all_below cs ≡ true
    → c.q_id < flow_queues
    → all_below (cs ++ c ∷ []) ≡ true
all_below-snoc [] c a b = ground arith
all_below-snoc (d ∷ cs) c a b = ground (arith, all_below-snoc cs c)

fire-IsSafe :
    (t : Thread) (idx : ℕ)
    → idx < flow_queues
    → IsSafe t.vq.fqman
    → IsSafe (flow_queue_fire t idx).vq.fqman
unfolding flow_queue_fire fired
fire-IsSafe t idx b h =
    let q = fired t.vq (t.vq.fqman.queues idx) in
    let t' : Thread = record t { vq = with_fqman t.vq (with_queue t.vq.fqman idx q) } in
    let h' : IsSafe t'.vq.fqman = IsSafe-queue t.vq.fqman idx q (h.nexts idx) h in
    elim (Bool-cases (ltb 0 q.avail)) [
      | inl y ↦ rw y (activate-IsSafe t' idx b h')
      | inr n ↦ rw n h'
    ]

poll_queue-IsSafe :
    (p : Polled) (idx : ℕ) → idx < flow_queues → IsSafePoll p → IsSafePoll (poll_queue p idx)
unfolding poll_queue
poll_queue-IsSafe p idx b h = elim (Bool-cases (ltb 0 (p.thread.vq.fqman.queues idx).avail)) [
  | inr n ↦ rw n h
  | inl y ↦ rw y (record {
    lists = fire-IsSafe p.thread idx b h.lists;
    report = all_below-snoc p.chunks _ h.report b;
  })
]

nolimit_round-IsSafe :
    (next : Polled → Polled) (start num : ℕ) (p : Polled) (o : Option ℕ)
    → below o ≡ true
    → IsSafePoll p
    → ((q : Polled) → IsSafePoll q → IsSafePoll (next q))
    → IsSafePoll (nolimit_round next start num p o)
unfolding nolimit_round
nolimit_round-IsSafe next start num p none b h r = h
nolimit_round-IsSafe next start num p (some idx) b h r =
    elim (Bool-cases (ltb 0 (room start p num))) [
      | inr n ↦ rw n h
      | inl y ↦ rw y (
          r _ (
            poll_queue-IsSafe _ idx (ground arith) (record {
              lists = nolimit_pop-IsSafe p.thread.vq.fqman idx h.lists;
              report = h.report;
            })))
    ]

nolimit_loop-IsSafe :
    (fuel start num : ℕ) (p : Polled) → IsSafePoll p → IsSafePoll (nolimit_loop fuel start num p)
unfolding nolimit_loop
nolimit_loop-IsSafe zero start num p h = h
nolimit_loop-IsSafe (suc fuel) start num p h =
    nolimit_round-IsSafe (nolimit_loop fuel start num) start num p _ h.lists.first h
      (nolimit_loop-IsSafe fuel start num)

skip_round-IsSafe :
    (next : Polled → Polled) (start num max_vts : ℕ) (p : Polled) (o : Option ℕ)
    → below o ≡ true
    → IsSafePoll p
    → ((q : Polled) → IsSafePoll q → IsSafePoll (next q))
    → IsSafePoll (skip_round next start num max_vts p o)
unfolding skip_round
skip_round-IsSafe next start num max_vts p none b h r =
    elim (Bool-cases (ltb 0 (room start p num))) [
      | inl y ↦ rw y (record { lists = h.lists; report = h.report })
      | inr n ↦ rw n h
    ]
skip_round-IsSafe next start num max_vts p (some idx) b h r =
    elim (Bool-cases (ltb 0 (room start p num))) [
      | inr n ↦ rw n h
      | inl y ↦
          elim (Bool-cases
            (timestamp_lessthaneq p.thread.vq (p.thread.vq.fqman.queues idx).next_ts max_vts)) [
              | inr late ↦ rw (y, late) (record { lists = h.lists; report = h.report })
              | inl due ↦
                  rw (y, due)
                    (r _ (
                      poll_queue-IsSafe _ idx (ground arith) (record {
                        lists = skip_pop-IsSafe p.thread.vq idx h.lists;
                        report = h.report;
                      })))
            ]
    ]

skip_loop-IsSafe :
    (fuel start num max_vts : ℕ) (p : Polled)
    → IsSafePoll p
    → IsSafePoll (skip_loop fuel start num max_vts p)
unfolding skip_loop
skip_loop-IsSafe zero start num max_vts p h = h
skip_loop-IsSafe (suc fuel) start num max_vts p h =
    skip_round-IsSafe (skip_loop fuel start num max_vts) start num max_vts p _ (h.lists.heads 0) h
      (skip_loop-IsSafe fuel start num max_vts)

poll_skiplist-IsSafe :
    (fuel : ℕ) (round : Round) (num : ℕ) (p : Polled)
    → IsSafePoll p
    → IsSafePoll (flow_poll_skiplist fuel round num p)
unfolding flow_poll_skiplist
poll_skiplist-IsSafe fuel round num p h =
    let max_vts = add32 p.thread.vq.ts_virtual (sub32 round.cur_ts p.thread.vq.ts_real) in
    let q = skip_loop fuel (length p.chunks) num max_vts p in
    let s = skip_loop-IsSafe fuel (length p.chunks) num max_vts p h in
    elim (Bool-cases (length q.chunks - length p.chunks == round.orig_num)) [
      | inl y ↦ rw y (record { lists = s.lists; report = s.report })
      | inr n ↦ rw n (record { lists = s.lists; report = s.report })
    ]

both-IsSafe :
    (first : Bool) (fuel : ℕ) (round : Round) (num : ℕ) (p : Polled)
    → IsSafePoll p
    → IsSafePoll (poll_both first fuel round num p)
unfolding poll_both flow_poll_nolimit
both-IsSafe true fuel round num p h =
    poll_skiplist-IsSafe fuel round _ _ (nolimit_loop-IsSafe fuel (length p.chunks) num p h)
both-IsSafe false fuel round num p h =
    nolimit_loop-IsSafe fuel _ _ _ (poll_skiplist-IsSafe fuel round num p h)

-- `flow_qman_poll` on any fuel, where the links of the lists lead to queues of the array and the chunks
-- so far are of such queues: so they are afterwards.
pub qman_poll-IsSafePoll :
    (fuel : ℕ) (round : Round) (num : ℕ) (p : Polled)
    → IsSafePoll p
    → IsSafePoll (flow_qman_poll fuel round num p)
unfolding flow_qman_poll
qman_poll-IsSafePoll fuel round num p h =
    let b = both-IsSafe p.thread.vq.fqman.nolimit_first fuel round num p h in
    record {
      lists = record {
        heads = b.lists.heads;
        nexts = b.lists.nexts;
        first = b.lists.first;
        tail = b.lists.tail;
      };
      report = b.report;
    }

-- `flow_set_impl` on a queue of the array keeps the links inside the array.
pub set-IsSafe :
    (t : Thread) (idx : ℕ) (f : SetFlags) (a : SetArgs)
    → idx < flow_queues
    → IsSafe t.vq.fqman
    → IsSafe (flow_set_impl t idx f a).vq.fqman
unfolding flow_set_impl set_fields
set-IsSafe t idx f a b h =
    let q = set_fields (t.vq.fqman.queues idx) f a in
    let t' : Thread = record t { vq = with_fqman t.vq (with_queue t.vq.fqman idx q) } in
    let h' : IsSafe t'.vq.fqman = IsSafe-queue t.vq.fqman idx q (h.nexts idx) h in
    elim (Bool-cases
      ((f.set_avail || f.add_avail) && (ltb 0 q.avail && not (q.in_skiplist || q.in_nolimit)))) [
        | inl y ↦ rw y (activate-IsSafe t' idx b h')
        | inr n ↦ rw n h'
      ]
