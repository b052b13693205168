-- ===== src/Fast/Qman/Rounds.antt =====
-- The loops of a poll and the poll as a whole.
use tas.Base.{
  ℕ, zero, suc, ◌+◌, ◌-◌, ◌≤◌, ◌<◌, ◌≡◌, refl, ◌∙◌, ap, arith, Bool, true, false, Option, none,
  some, ltb, ◌==◌, length, length-append, Bool-cases, inl, inr, add32, sub32, subst,
}
use tas.Fast.Qman.{VmQueue, timestamp_lessthaneq}
use tas.Fast.Qman.Flows.{
  Polled, with_fqman, poll_queue, nolimit_pop, nolimit_round, nolimit_loop, room,
}
use tas.Fast.Qman.Poll.{
  Round, skip_pop, skip_round, skip_loop, flow_poll_skiplist, flow_poll_nolimit, left, poll_both,
  flow_qman_poll,
}
use tas.Fast.Qman.Avail.{same_refl, pop_same, skip_pop_same}
use tas.Fast.Qman.Chunks.{Polls, Polls-none, Polls-then, poll_queue-Polls}

after_le :
    (start num : ℕ) (p q : Polled) (idx : ℕ)
    → Polls 0 p q
    → 0 < room start p num
    → length p.chunks ≤ start + num
    → length (poll_queue q idx).chunks ≤ start + num
after_le start num p q idx a h b =
    let one = poll_queue-Polls q idx in
    omega (
      arith,
      a.at_most,
      one.at_most,
      ap length a.reported,
      ap length one.reported,
      length-append p.chunks a.new,
      length-append q.chunks one.new,
    )

-- a round that takes a queue out of its list, and then the rest
round-Polls :
    (start num : ℕ) (p q r : Polled) (idx : ℕ)
    → Polls 0 p q
    → 0 < room start p num
    → length p.chunks ≤ start + num
    → Polls (room start (poll_queue q idx) num) (poll_queue q idx) r
    → Polls (room start p num) p r
round-Polls start num p q r idx a h b c =
    let one = poll_queue-Polls q idx in
    let both =
      Polls-then 0 1 1 p q (poll_queue q idx) a one (omega (arith, a.at_most, one.at_most)) in
    Polls-then 1 (room start (poll_queue q idx) num) (room start p num) p (poll_queue q idx) r both
      c
      (omega
        (arith, both.at_most, c.at_most, ap length both.reported, length-append p.chunks both.new))

pop-Polls :
    (p : Polled) (idx : ℕ)
    → Polls 0 p (record p {
      thread = record (p.thread) {
        vq = with_fqman p.thread.vq (nolimit_pop p.thread.vq.fqman idx);
      };
    })
pop-Polls p idx = Polls-none 0 p _ refl (pop_same p.thread.vq.fqman idx) refl refl

nolimit_round-Polls :
    (next : Polled → Polled) (start num : ℕ) (p : Polled) (o : Option ℕ)
    → length p.chunks ≤ start + num
    → ((q : Polled) → length q.chunks ≤ start + num → Polls (room start q num) q (next q))
    → Polls (room start p num) p (nolimit_round next start num p o)
unfolding nolimit_round
nolimit_round-Polls next start num p none b h =
    Polls-none _ p p refl (same_refl p.thread.vq.fqman) refl refl
nolimit_round-Polls next start num p (some idx) b h = elim (Bool-cases (ltb 0 (room start p num))) [
  | inr n ↦ rw n (Polls-none _ p p refl (same_refl p.thread.vq.fqman) refl refl)
  | inl y ↦ rw y (
      round-Polls start num p _ _ idx (pop-Polls p idx) (ground arith) b
        (h _ (after_le start num p _ idx (pop-Polls p idx) (ground arith) b)))
]

nolimit_loop-Polls :
    (fuel start num : ℕ) (p : Polled)
    → length p.chunks ≤ start + num
    → Polls (room start p num) p (nolimit_loop fuel start num p)
unfolding nolimit_loop
nolimit_loop-Polls zero start num p b =
    Polls-none _ p p refl (same_refl p.thread.vq.fqman) refl refl
nolimit_loop-Polls (suc fuel) start num p b =
    nolimit_round-Polls (nolimit_loop fuel start num) start num p p.thread.vq.fqman.nolimit_head_idx
      b (λ q c. nolimit_loop-Polls fuel start num q c)

skip_pop_account :
    (vq : VmQueue) (idx : ℕ) → ((skip_pop vq idx).id ≡ vq.id) × ((skip_pop vq idx).avail ≡ vq.avail)
unfolding skip_pop
skip_pop_account vq idx = (refl, refl)

skip-Polls :
    (p : Polled) (idx : ℕ)
    → Polls 0 p (record p { thread = record (p.thread) { vq = skip_pop p.thread.vq idx } })
skip-Polls p idx =
    let a = skip_pop_account p.thread.vq idx in
    Polls-none 0 p _ refl (skip_pop_same p.thread.vq idx) a.0 a.1

skip_round-Polls :
    (next : Polled → Polled) (start num max_vts : ℕ) (p : Polled) (o : Option ℕ)
    → length p.chunks ≤ start + num
    → ((q : Polled) → length q.chunks ≤ start + num → Polls (room start q num) q (next q))
    → Polls (room start p num) p (skip_round next start num max_vts p o)
unfolding skip_round
skip_round-Polls next start num max_vts p none b h = elim (Bool-cases (ltb 0 (room start p num))) [
  | inl y ↦ rw y (Polls-none _ p _ refl (same_refl p.thread.vq.fqman) refl refl)
  | inr n ↦ rw n (Polls-none _ p p refl (same_refl p.thread.vq.fqman) refl refl)
]
skip_round-Polls next start num max_vts p (some idx) b h =
    elim (Bool-cases (ltb 0 (room start p num))) [
      | inr n ↦ rw n (Polls-none _ p p refl (same_refl p.thread.vq.fqman) refl refl)
      | inl y ↦
          elim (Bool-cases
            (timestamp_lessthaneq p.thread.vq (p.thread.vq.fqman.queues idx).next_ts max_vts)) [
              | inr late ↦
                  rw (y, late) (Polls-none _ p _ refl (same_refl p.thread.vq.fqman) refl refl)
              | inl due ↦
                  rw (y, due)
                    (round-Polls start num p _ _ idx (skip-Polls p idx) (ground arith) b
                      (h _ (after_le start num p _ idx (skip-Polls p idx) (ground arith) b)))
            ]
    ]

skip_loop-Polls :
    (fuel start num max_vts : ℕ) (p : Polled)
    → length p.chunks ≤ start + num
    → Polls (room start p num) p (skip_loop fuel start num max_vts p)
unfolding skip_loop
skip_loop-Polls zero start num max_vts p b =
    Polls-none _ p p refl (same_refl p.thread.vq.fqman) refl refl
skip_loop-Polls (suc fuel) start num max_vts p b =
    skip_round-Polls (skip_loop fuel start num max_vts) start num max_vts p
      (p.thread.vq.fqman.head_idx 0) b (λ q c. skip_loop-Polls fuel start num max_vts q c)

-- a change of the times alone
retimed :
    (num : ℕ) (p q : Polled) (f : VmQueue)
    → Polls num p q
    → f.fqman.queues ≡ q.thread.vq.fqman.queues
    → f.id ≡ q.thread.vq.id
    → f.avail ≡ q.thread.vq.avail
    → Polls num p (record q { thread = record (q.thread) { vq = f } })
retimed num p q f a s i v = record {
  new = a.new;
  reported = a.reported;
  at_most = a.at_most;
  waits = λ k. rw s (a.waits k);
  limits = λ k. rw s (a.limits k);
  fit = a.fit;
  same_id = i ∙ a.same_id;
  same_avail = v ∙ a.same_avail;
}

all_room : (p : Polled) (num : ℕ) → room (length p.chunks) p num ≡ num
all_room p num = omega arith

poll_nolimit-Polls : (fuel num : ℕ) (p : Polled) → Polls num p (flow_poll_nolimit fuel num p)
unfolding flow_poll_nolimit
poll_nolimit-Polls fuel num p =
    subst (λ k. Polls k p (nolimit_loop fuel (length p.chunks) num p)) (all_room p num)
      (nolimit_loop-Polls fuel (length p.chunks) num p (omega arith))

poll_skiplist-Polls :
    (fuel : ℕ) (round : Round) (num : ℕ) (p : Polled)
    → Polls num p (flow_poll_skiplist fuel round num p)
unfolding flow_poll_skiplist
poll_skiplist-Polls fuel round num p =
    let max_vts = add32 p.thread.vq.ts_virtual (sub32 round.cur_ts p.thread.vq.ts_real) in
    let q = skip_loop fuel (length p.chunks) num max_vts p in
    let a : Polls num p q =
      subst (λ k. Polls k p q) (all_room p num)
        (skip_loop-Polls fuel (length p.chunks) num max_vts p (omega arith)) in
    elim (Bool-cases (length q.chunks - length p.chunks == round.orig_num)) [
      | inl y ↦ rw y (retimed num p q _ a refl refl refl)
      | inr n ↦ rw n (retimed num p q _ a refl refl refl)
    ]

both-Polls :
    (first : Bool) (fuel : ℕ) (round : Round) (num : ℕ) (p : Polled)
    → Polls num p (poll_both first fuel round num p)
unfolding poll_both
both-Polls true fuel round num p =
    let one = flow_poll_nolimit fuel num p in
    let a = poll_nolimit-Polls fuel num p in
    let b = poll_skiplist-Polls fuel round (left num p one) one in
    Polls-then num (left num p one) num p one _ a b
      (omega (arith, a.at_most, b.at_most, ap length a.reported, length-append p.chunks a.new))
both-Polls false fuel round num p =
    let one = flow_poll_skiplist fuel round num p in
    let a = poll_skiplist-Polls fuel round num p in
    let b = poll_nolimit-Polls fuel (left num p one) one in
    Polls-then num (left num p one) num p one _ a b
      (omega (arith, a.at_most, b.at_most, ap length a.reported, length-append p.chunks a.new))

-- `flow_qman_poll` for `num` chunks, on any fuel: it reports at most `num` chunks, each of the machine and
-- no longer than its queue allows, and each flow queue then has exactly the bytes that are reported of it
-- less.
pub qman_poll-Polls :
    (fuel : ℕ) (round : Round) (num : ℕ) (p : Polled)
    → Polls num p (flow_qman_poll fuel round num p)
unfolding flow_qman_poll
qman_poll-Polls fuel round num p =
    let first = p.thread.vq.fqman.nolimit_first in
    retimed num p (poll_both first fuel round num p) _ (both-Polls first fuel round num p) refl refl
      refl
