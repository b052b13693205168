-- ===== src/Fast/Qman/Avail.antt =====
-- The bytes that wait in the flow queues: a poll takes exactly those that it reports.
use tas.Base.{
  ℕ, zero, suc, ◌+◌, ◌/◌, ◌^◌, ◌≡◌, refl, ◌∙◌, arith, Option, ◌==◌, ==_iff, put, Bool-cases, inl,
  inr,
}
use tas.Fast.Qman.{FlowQueue, FlowQman, VmQueue, flow_queue_level, rng_next}
use tas.Fast.Qman.Flows.{
  Thread, with_queue, flow_queue_activate_nolimit, skip_link, flow_queue_activate_skiplist,
  flow_queue_activate, nolimit_pop,
}
use tas.Fast.Qman.Poll.{skip_unlink, skip_pop}

-- The limit, the bytes that wait and the largest chunk of each queue are as they were.
pub record SameQueues (fq fq' : FlowQman) : Type 0 where
  pub avail : (i : ℕ) → (fq'.queues i).avail ≡ (fq.queues i).avail
  pub max_chunk : (i : ℕ) → (fq'.queues i).max_chunk ≡ (fq.queues i).max_chunk
  pub rate : (i : ℕ) → (fq'.queues i).rate ≡ (fq.queues i).rate

pub same_refl : (fq : FlowQman) → SameQueues fq fq
same_refl fq = record { avail = λ i. refl; max_chunk = λ i. refl; rate = λ i. refl }

pub same_trans : (f g h : FlowQman) → SameQueues f g → SameQueues g h → SameQueues f h
same_trans f g h a b = record {
  avail = λ i. b.avail i ∙ a.avail i;
  max_chunk = λ i. b.max_chunk i ∙ a.max_chunk i;
  rate = λ i. b.rate i ∙ a.rate i;
}

-- one queue with other links
pub relinked :
    (fq : FlowQman) (idx : ℕ) (q : FlowQueue)
    → q.avail ≡ (fq.queues idx).avail
    → q.max_chunk ≡ (fq.queues idx).max_chunk
    → q.rate ≡ (fq.queues idx).rate
    → SameQueues fq (with_queue fq idx q)
relinked fq idx q a m r = record {
  avail = λ i. ground (arith, a, ==_iff i idx);
  max_chunk = λ i. ground (arith, m);
  rate = λ i. ground (arith, r);
}

nolimit_same : (fq : FlowQman) (idx : ℕ) → SameQueues fq (flow_queue_activate_nolimit fq idx)
unfolding flow_queue_activate_nolimit
nolimit_same fq idx = record {
  avail = λ i. ground arith;
  max_chunk = λ i. ground arith;
  rate = λ i. ground arith;
}

link_same :
    (fq : FlowQman) (idx level l : ℕ) (pred : Option ℕ)
    → SameQueues fq (skip_link fq idx level l pred)
unfolding skip_link
link_same fq idx level l pred = record {
  avail = λ i. ground arith;
  max_chunk = λ i. ground arith;
  rate = λ i. ground arith;
}

skiplist_same :
    (level : ℕ) (vq : VmQueue) (idx : ℕ)
    → SameQueues vq.fqman (flow_queue_activate_skiplist level vq idx).fqman
unfolding flow_queue_activate_skiplist
skiplist_same level vq idx = grind (arith, link_same, relinked, same_trans)

pub activate_same :
    (t : Thread) (idx : ℕ) → SameQueues t.vq.fqman (flow_queue_activate t idx).vq.fqman
unfolding flow_queue_activate
activate_same t idx = elim (Bool-cases ((t.vq.fqman.queues idx).rate == 0)) [
  | inl z ↦ rw z (nolimit_same t.vq.fqman idx)
  | inr n ↦ rw n (skiplist_same (flow_queue_level (rng_next t.seed / 2 ^ 16)) t.vq idx)
]

unlink_same : (levels l idx : ℕ) (fq : FlowQman) → SameQueues fq (skip_unlink levels l idx fq)
unfolding skip_unlink
unlink_same zero l idx fq = same_refl fq
unlink_same (suc levels) l idx fq =
    let rest =
      unlink_same levels (l + 1) idx
        (record fq { head_idx = put fq.head_idx l ((fq.queues idx).next_idxs l) }) in
    record {
      avail = λ i. ground (arith, rest.avail i);
      max_chunk = λ i. ground (arith, rest.max_chunk i);
      rate = λ i. ground (arith, rest.rate i);
    }

pub pop_same : (fq : FlowQman) (idx : ℕ) → SameQueues fq (nolimit_pop fq idx)
unfolding nolimit_pop
pop_same fq idx = record {
  avail = λ i. ground arith;
  max_chunk = λ i. ground arith;
  rate = λ i. ground arith;
}

pub skip_pop_same : (vq : VmQueue) (idx : ℕ) → SameQueues vq.fqman (skip_pop vq idx).fqman
unfolding skip_pop
skip_pop_same vq idx =
    let s = unlink_same 4 0 idx vq.fqman in
    record {
      avail = λ i. ground (arith, s.avail i);
      max_chunk = λ i. ground (arith, s.max_chunk i);
      rate = λ i. ground (arith, s.rate i);
    }
