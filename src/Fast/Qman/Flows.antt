-- ===== src/Fast/Qman/Flows.antt =====
-- The flow queues of one virtual machine in tas/fast/qman.c: the list without limit, the skip list, and
-- the polling of both. A function changes the machine's queue and the seed of the random numbers.
use tas.Base.{
  ℕ, zero, suc, ◌+◌, ◌-◌, ◌*◌, ◌/◌, ◌^◌, Bool, true, false, not, List, [], ◌∷◌, ◌++◌, Option, none,
  some, ltb, leb, ◌==◌, if◌then◌else◌, put, length,
}
use tas.Fast.Qman.{
  FlowQueue, FlowQman, VmQueue, skiplist_levels, rng_next, flow_queue_level, timestamp_lessthaneq,
  flow_queue_new_ts,
}

-- a machine's queue with the generator's seed
pub record Thread : Type 0 where
  pub vq : VmQueue
  pub seed : ℕ

-- One entry of the arrays that a poll fills: `q_ids`, `q_bytes` and `vm_ids`.
pub record Chunk : Type 0 where
  pub q_id : ℕ
  pub bytes : ℕ
  pub vm_id : ℕ

abbrev pub with_fqman : VmQueue → FlowQman → VmQueue
with_fqman vq fq = record vq { fqman = fq }

-- the queue `idx` replaced
abbrev pub with_queue : FlowQman → ℕ → FlowQueue → FlowQman
with_queue fq idx q = record fq { queues = put fq.queues idx q }

unfoldable pub flow_queue_activate_nolimit : FlowQman → ℕ → FlowQman
flow_queue_activate_nolimit fq idx =
    let q = fq.queues idx in
    let fq' =
      with_queue fq idx (record q { in_nolimit = true; next_idxs = put q.next_idxs 0 none }) in
    elim fq.nolimit_tail_idx [
      | none ↦ record fq' { nolimit_head_idx = some idx; nolimit_tail_idx = some idx }
      | some t ↦
          let q_tail = fq'.queues t in
          record (with_queue fq' t
            (record q_tail { next_idxs = put q_tail.next_idxs 0 (some idx) })) {
              nolimit_tail_idx = some idx;
            }
    ]

-- The inner loop of the search at level `l`, from `idx` on: the last queue with a time up to `ts`. A
-- unit of fuel is for a queue that is passed.
unfoldable pub skip_walk : ℕ → VmQueue → ℕ → ℕ → Option ℕ → Option ℕ → Option ℕ
skip_walk zero vq ts l pred idx = pred
skip_walk (suc fuel) vq ts l pred none = pred
skip_walk (suc fuel) vq ts l pred (some i) =
    let q = vq.fqman.queues i in
    let rest = skip_walk fuel vq ts l (some i) (q.next_idxs l) in
    if timestamp_lessthaneq vq q.next_ts ts then rest else pred

abbrev pub or_head : Option ℕ → Option ℕ → Option ℕ
or_head none head = head
or_head (some i) head = some i

-- `pred` after the first `done` levels from the top
unfoldable pub skip_pred : ℕ → VmQueue → ℕ → ℕ → Option ℕ
skip_pred fuel vq ts zero = none
skip_pred fuel vq ts (suc done) =
    let pred = skip_pred fuel vq ts done in
    let l = skiplist_levels - 1 - done in
    skip_walk fuel vq ts l pred (or_head pred (vq.fqman.head_idx l))

-- the insertion of `idx` at level `l` behind `pred`
unfoldable pub skip_link : FlowQman → ℕ → ℕ → ℕ → Option ℕ → FlowQman
skip_link fq idx level l pred =
    let q = fq.queues idx in
    if ltb level l
    then with_queue fq idx (record q { next_idxs = put q.next_idxs l none })
    else elim pred [
      | none ↦
          record (with_queue fq idx (record q { next_idxs = put q.next_idxs l (fq.head_idx l) })) {
            head_idx = put fq.head_idx l (some idx);
          }
      | some i ↦
          let fq' =
            with_queue fq idx
              (record q { next_idxs = put q.next_idxs l ((fq.queues i).next_idxs l) }) in
          let q_pred = fq'.queues i in
          with_queue fq' i (record q_pred { next_idxs = put q_pred.next_idxs l (some idx) })
    ]

-- `ts`: not in the past, and not later than after a whole chunk at the queue's rate
unfoldable pub skip_ts : VmQueue → FlowQueue → ℕ
skip_ts vq q =
    let max_ts = flow_queue_new_ts vq q q.max_chunk in
    if timestamp_lessthaneq vq q.next_ts vq.ts_virtual
    then vq.ts_virtual
    else if not (timestamp_lessthaneq vq q.next_ts max_ts)
    then max_ts
    else q.next_ts

-- No list is longer than FLEXNIC_NUM_QMFLOWQUEUES.
abbrev pub walk_fuel : ℕ
walk_fuel = 128 * 1024 + 1

unfoldable pub flow_queue_activate_skiplist : ℕ → VmQueue → ℕ → VmQueue
flow_queue_activate_skiplist level vq idx =
    let ts = skip_ts vq (vq.fqman.queues idx) in
    let fq = with_queue vq.fqman idx (record (vq.fqman.queues idx) { next_ts = ts }) in
    let vq' = with_fqman vq fq in
    let pred = λ (l : ℕ). skip_pred walk_fuel vq' ts (skiplist_levels - l) in
    let linked =
      skip_link
        (skip_link (skip_link (skip_link fq idx level 3 (pred 3)) idx level 2 (pred 2)) idx level 1
          (pred 1))
        idx level 0 (pred 0) in
    with_fqman vq (with_queue linked idx (record (linked.queues idx) { in_skiplist = true }))

unfoldable pub flow_queue_activate : Thread → ℕ → Thread
flow_queue_activate t idx =
    let seed = rng_next t.seed in
    if (t.vq.fqman.queues idx).rate == 0
    then record t { vq = with_fqman t.vq (flow_queue_activate_nolimit t.vq.fqman idx) }
    else record {
      vq = flow_queue_activate_skiplist (flow_queue_level (seed / 2 ^ 16)) t.vq idx;
      seed = seed;
    }

-- what a queue sends at once
unfoldable pub fire_bytes : FlowQueue → ℕ
fire_bytes q = if leb q.avail q.max_chunk then q.avail else q.max_chunk

-- the queue after it sent
unfoldable pub fired : VmQueue → FlowQueue → FlowQueue
fired vq q = record q {
  avail = q.avail - fire_bytes q;
  next_ts = if ltb 0 q.rate then flow_queue_new_ts vq q (fire_bytes q) else q.next_ts;
}

unfoldable pub flow_queue_fire : Thread → ℕ → Thread
flow_queue_fire t idx =
    let q = fired t.vq (t.vq.fqman.queues idx) in
    let t' = record t { vq = with_fqman t.vq (with_queue t.vq.fqman idx q) } in
    let active = flow_queue_activate t' idx in if ltb 0 q.avail then active else t'

-- The state of a poll: the thread, what was polled so far, and `rate_limited`.
pub record Polled : Type 0 where
  pub thread : Thread
  pub chunks : List Chunk
  pub rate_limited : Bool

-- the queue `idx`, out of its list, sends if it can
unfoldable pub poll_queue : Polled → ℕ → Polled
poll_queue p idx =
    let q = p.thread.vq.fqman.queues idx in
    if ltb 0 q.avail
    then record p {
      thread = flow_queue_fire p.thread idx;
      chunks = p.chunks ++ record { q_id = idx; bytes = fire_bytes q; vm_id = p.thread.vq.id } ∷ [];
    }
    else p

-- takes the head `idx` out of the list without limit
unfoldable pub nolimit_pop : FlowQman → ℕ → FlowQman
nolimit_pop fq idx =
    let q = fq.queues idx in
    record (with_queue fq idx (record q { in_nolimit = false })) {
      nolimit_head_idx = q.next_idxs 0;
      nolimit_tail_idx = elim (q.next_idxs 0) [ none ↦ none | some i ↦ fq.nolimit_tail_idx ];
    }

-- `num - cnt`, from the number of chunks that this poll had at its start
abbrev pub room : ℕ → Polled → ℕ → ℕ
room start p num = start + num - length p.chunks

-- A round of the loop of `flow_poll_nolimit`, with the list's head and the rounds that follow.
unfoldable pub nolimit_round : (Polled → Polled) → (start num : ℕ) → Polled → Option ℕ → Polled
nolimit_round next start num p none = p
nolimit_round next start num p (some idx) =
    let vq = with_fqman p.thread.vq (nolimit_pop p.thread.vq.fqman idx) in
    let rest = next (poll_queue (record p { thread = record (p.thread) { vq = vq } }) idx) in
    if ltb 0 (room start p num) then rest else p

-- The loop, with a unit of fuel for a round. `start` chunks are from before.
unfoldable pub nolimit_loop : ℕ → (start num : ℕ) → Polled → Polled
nolimit_loop zero start num p = p
nolimit_loop (suc fuel) start num p =
    nolimit_round (nolimit_loop fuel start num) start num p p.thread.vq.fqman.nolimit_head_idx
