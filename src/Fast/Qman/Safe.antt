-- ===== src/Fast/Qman/Safe.antt =====
-- The indices that the queue manager follows: each is one of the array of flow queues.
use tas.Base.{
  ℕ, zero, suc, ◌+◌, ◌-◌, ◌/◌, ◌^◌, ◌<◌, ◌≡◌, refl, arith, Bool, true, false, Option, none, some,
  ltb, ◌==◌, if◌then◌else◌, put, Bool-cases, Option-cases, inl, inr,
}
use tas.Fast.Qman.{
  FlowQueue, FlowQman, VmQueue, skiplist_levels, flow_queue_level, rng_next, timestamp_lessthaneq,
}
use tas.Fast.Qman.Flows.{
  Thread, with_queue, flow_queue_activate_nolimit, skip_walk, or_head, skip_pred, skip_link,
  skip_ts, flow_queue_activate_skiplist, flow_queue_activate, nolimit_pop,
}
use tas.Fast.Qman.Poll.{flow_queues, skip_unlink, skip_pop}

-- an index into the array, or the end of a list
abbrev pub below : Option ℕ → Bool
below none = true
below (some i) = ltb i flow_queues

pub record IsSafe (fq : FlowQman) : Type 0 where
  pub heads : (l : ℕ) → below (fq.head_idx l) ≡ true
  pub nexts : (i l : ℕ) → below ((fq.queues i).next_idxs l) ≡ true
  pub first : below fq.nolimit_head_idx ≡ true
  pub tail : below fq.nolimit_tail_idx ≡ true

-- a queue replaced by one whose links are safe
pub IsSafe-queue :
    (fq : FlowQman) (idx : ℕ) (q : FlowQueue)
    → ((l : ℕ) → below (q.next_idxs l) ≡ true)
    → IsSafe fq
    → IsSafe (with_queue fq idx q)
IsSafe-queue fq idx q n h = record {
  heads = h.heads;
  nexts = λ i l. ground (arith, h.nexts i l, n l);
  first = h.first;
  tail = h.tail;
}

-- one link replaced
safe_put :
    (f : ℕ → Option ℕ) (l : ℕ) (o : Option ℕ)
    → ((k : ℕ) → below (f k) ≡ true)
    → below o ≡ true
    → (k : ℕ) → below (put f l o k) ≡ true
safe_put f l o h b k = ground (arith, h k, b)

pub activate_nolimit-IsSafe :
    (fq : FlowQman) (idx : ℕ)
    → idx < flow_queues
    → IsSafe fq
    → IsSafe (flow_queue_activate_nolimit fq idx)
unfolding flow_queue_activate_nolimit
activate_nolimit-IsSafe fq idx b h = elim (Option-cases fq.nolimit_tail_idx) [
  | inl e ↦ rw e (record {
    heads = h.heads;
    nexts = λ i l. ground (arith, h.nexts i l, h.nexts idx l);
    first = ground arith;
    tail = ground arith;
  })
  | inr w ↦ rw w.1 (record {
    heads = h.heads;
    nexts = λ i l. ground (arith, h.nexts i l, h.nexts idx l, h.nexts w.0 l);
    first = h.first;
    tail = ground arith;
  })
]

skip_walk-below :
    (fuel : ℕ) (vq : VmQueue) (ts l : ℕ) (pred idx : Option ℕ)
    → IsSafe vq.fqman
    → below pred ≡ true
    → below idx ≡ true
    → below (skip_walk fuel vq ts l pred idx) ≡ true
unfolding skip_walk
skip_walk-below zero vq ts l pred idx h p b = p
skip_walk-below (suc fuel) vq ts l pred none h p b = p
skip_walk-below (suc fuel) vq ts l pred (some i) h p b =
    elim (Bool-cases (timestamp_lessthaneq vq (vq.fqman.queues i).next_ts ts)) [
      | inl y ↦ rw y (
          skip_walk-below fuel vq ts l (some i) ((vq.fqman.queues i).next_idxs l) h b (h.nexts i l))
      | inr n ↦ rw n p
    ]

or_head-below :
    (o head : Option ℕ) → below o ≡ true → below head ≡ true → below (or_head o head) ≡ true
or_head-below none head a b = b
or_head-below (some i) head a b = a

skip_pred-below :
    (fuel : ℕ) (vq : VmQueue) (ts done : ℕ)
    → IsSafe vq.fqman
    → below (skip_pred fuel vq ts done) ≡ true
unfolding skip_pred
skip_pred-below fuel vq ts zero h = refl
skip_pred-below fuel vq ts (suc done) h =
    let rest = skip_pred-below fuel vq ts done h in
    skip_walk-below fuel vq ts (skiplist_levels - 1 - done) (skip_pred fuel vq ts done) _ h rest (
      or_head-below (skip_pred fuel vq ts done) (vq.fqman.head_idx (skiplist_levels - 1 - done))
        rest (h.heads (skiplist_levels - 1 - done)))

skip_link-IsSafe :
    (fq : FlowQman) (idx level l : ℕ) (pred : Option ℕ)
    → idx < flow_queues
    → IsSafe fq
    → IsSafe (skip_link fq idx level l pred)
unfolding skip_link
skip_link-IsSafe fq idx level l none b h = elim (Bool-cases (ltb level l)) [
  | inl y ↦
      rw y (IsSafe-queue fq idx _ (safe_put (fq.queues idx).next_idxs l none (h.nexts idx) refl) h)
  | inr n ↦ rw n (record {
    heads = safe_put fq.head_idx l (some idx) h.heads (ground arith);
    nexts =
        (IsSafe-queue fq idx _
          (safe_put (fq.queues idx).next_idxs l (fq.head_idx l) (h.nexts idx) (h.heads l)) h).nexts;
    first = h.first;
    tail = h.tail;
  })
]
skip_link-IsSafe fq idx level l (some i) b h = elim (Bool-cases (ltb level l)) [
  | inl y ↦
      rw y (IsSafe-queue fq idx _ (safe_put (fq.queues idx).next_idxs l none (h.nexts idx) refl) h)
  | inr n ↦
      let q = record (fq.queues idx) {
        next_idxs = put (fq.queues idx).next_idxs l ((fq.queues i).next_idxs l);
      } in
      let one =
        IsSafe-queue fq idx q (safe_put (fq.queues idx).next_idxs l _ (h.nexts idx) (h.nexts i l))
          h in
      rw n (
        IsSafe-queue (with_queue fq idx q) i _
          (safe_put ((with_queue fq idx q).queues i).next_idxs l (some idx) (one.nexts i)
            (ground arith))
          one)
]

activate_skiplist-IsSafe :
    (level : ℕ) (vq : VmQueue) (idx : ℕ)
    → idx < flow_queues
    → IsSafe vq.fqman
    → IsSafe (flow_queue_activate_skiplist level vq idx).fqman
unfolding flow_queue_activate_skiplist
activate_skiplist-IsSafe level vq idx b h =
    let h0 =
      IsSafe-queue vq.fqman idx
        (record (vq.fqman.queues idx) { next_ts = skip_ts vq (vq.fqman.queues idx) }) (h.nexts idx)
        h in
    let h3 = skip_link-IsSafe _ idx level 3 _ b h0 in
    let h2 = skip_link-IsSafe _ idx level 2 _ b h3 in
    let h1 = skip_link-IsSafe _ idx level 1 _ b h2 in
    let h' = skip_link-IsSafe _ idx level 0 _ b h1 in IsSafe-queue _ idx _ (h'.nexts idx) h'

pub activate-IsSafe :
    (t : Thread) (idx : ℕ)
    → idx < flow_queues
    → IsSafe t.vq.fqman
    → IsSafe (flow_queue_activate t idx).vq.fqman
unfolding flow_queue_activate
activate-IsSafe t idx b h = elim (Bool-cases ((t.vq.fqman.queues idx).rate == 0)) [
  | inl z ↦ rw z (activate_nolimit-IsSafe t.vq.fqman idx b h)
  | inr n ↦
      rw n (activate_skiplist-IsSafe (flow_queue_level (rng_next t.seed / 2 ^ 16)) t.vq idx b h)
]

pub nolimit_pop-IsSafe : (fq : FlowQman) (idx : ℕ) → IsSafe fq → IsSafe (nolimit_pop fq idx)
unfolding nolimit_pop
nolimit_pop-IsSafe fq idx h =
    let q = IsSafe-queue fq idx (record (fq.queues idx) { in_nolimit = false }) (h.nexts idx) h in
    record {
      heads = h.heads;
      nexts = q.nexts;
      first = h.nexts idx 0;
      tail = ground (arith, h.tail);
    }

unlink_if :
    (o : Option ℕ) (idx : ℕ) (rest fq : FlowQman)
    → IsSafe rest
    → IsSafe fq
    → IsSafe (elim o as (λ _. FlowQman) [ none ↦ fq | some i ↦ if i == idx then rest else fq ])
unlink_if none idx rest fq r h = h
unlink_if (some i) idx rest fq r h = elim (Bool-cases (i == idx)) [
  | inl y ↦ rw y r
  | inr n ↦ rw n h
]

skip_unlink-IsSafe :
    (levels l idx : ℕ) (fq : FlowQman) → IsSafe fq → IsSafe (skip_unlink levels l idx fq)
unfolding skip_unlink
skip_unlink-IsSafe zero l idx fq h = h
skip_unlink-IsSafe (suc levels) l idx fq h =
    let next = record fq { head_idx = put fq.head_idx l ((fq.queues idx).next_idxs l) } in
    let safe : IsSafe next = record {
      heads = safe_put fq.head_idx l _ h.heads (h.nexts idx l);
      nexts = h.nexts;
      first = h.first;
      tail = h.tail;
    } in
    unlink_if (fq.head_idx l) idx (skip_unlink levels (l + 1) idx next) fq
      (skip_unlink-IsSafe levels (l + 1) idx next safe) h

pub skip_pop-IsSafe : (vq : VmQueue) (idx : ℕ) → IsSafe vq.fqman → IsSafe (skip_pop vq idx).fqman
unfolding skip_pop
skip_pop-IsSafe vq idx h =
    let s = skip_unlink-IsSafe 4 0 idx vq.fqman h in IsSafe-queue _ idx _ (s.nexts idx) s
