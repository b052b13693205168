-- ===== src/Fast/Qman/Poll.antt =====
-- `flow_poll_skiplist`, `flow_qman_poll` and `flow_qman_set` of tas/fast/qman.c.
use tas.Base.{
  ℕ, zero, suc, ◌+◌, ◌-◌, ◌*◌, Bool, true, false, not, ◌&&◌, ◌||◌, Option, none, some, ltb, ◌==◌,
  if◌then◌else◌, add32, sub32, put, length,
}
use tas.Fast.Qman.{FlowQueue, FlowQman, VmQueue, skiplist_levels, timestamp_lessthaneq}
use tas.Fast.Qman.Flows.{
  Thread, Polled, with_fqman, with_queue, flow_queue_activate, poll_queue, nolimit_loop, room,
}

-- FLEXNIC_NUM_QMFLOWQUEUES
abbrev pub flow_queues : ℕ
flow_queues = 128 * 1024

-- the round of `flow_qman_poll`: `cur_ts` and `orig_num` of `struct skiplist_fstate`
pub record Round : Type 0 where
  pub cur_ts : ℕ
  pub orig_num : ℕ

-- takes `idx` out of the lists that it heads, from level `l` on
unfoldable pub skip_unlink : (levels l : ℕ) → ℕ → FlowQman → FlowQman
skip_unlink zero l idx fq = fq
skip_unlink (suc levels) l idx fq = elim (fq.head_idx l) [
  | none ↦ fq
  | some i ↦
      let rest =
        skip_unlink levels (l + 1) idx
          (record fq { head_idx = put fq.head_idx l ((fq.queues idx).next_idxs l) }) in
      if i == idx then rest else fq
]

-- the machine's queue after its first flow `idx` was taken from the skip list
unfoldable pub skip_pop : VmQueue → ℕ → VmQueue
skip_pop vq idx =
    let fq = skip_unlink skiplist_levels 0 idx vq.fqman in
    let q = fq.queues idx in
    record vq {
      fqman = with_queue fq idx (record q { in_skiplist = false });
      ts_virtual = q.next_ts;
    }

abbrev pub with_ts : Polled → ℕ → Polled
with_ts p ts = record p {
  thread = record (p.thread) { vq = record (p.thread.vq) { ts_virtual = ts } };
}

-- A round of the loop, with the list's head and the rounds that follow.
unfoldable pub skip_round : (Polled → Polled) → (start num max_vts : ℕ) → Polled → Option ℕ → Polled
skip_round next start num max_vts p none = if ltb 0 (room start p num) then with_ts p max_vts else p
skip_round next start num max_vts p (some idx) =
    let vq = p.thread.vq in
    let rest =
      next (poll_queue (record p { thread = record (p.thread) { vq = skip_pop vq idx } }) idx) in
    if not (ltb 0 (room start p num))
    then p
    else if not (timestamp_lessthaneq vq (vq.fqman.queues idx).next_ts max_vts)
    then record (with_ts p max_vts) { rate_limited = true }
    else rest

-- The loop, with a unit of fuel for a round.
unfoldable pub skip_loop : ℕ → (start num max_vts : ℕ) → Polled → Polled
skip_loop zero start num max_vts p = p
skip_loop (suc fuel) start num max_vts p =
    skip_round (skip_loop fuel start num max_vts) start num max_vts p (p.thread.vq.fqman.head_idx 0)

-- the virtual time where the limit was reached
unfoldable pub skip_limit : ℕ → VmQueue → ℕ
skip_limit max_vts vq = elim (vq.fqman.head_idx 0) [
  | none ↦ max_vts
  | some idx ↦
      let next = (vq.fqman.queues idx).next_ts in
      if timestamp_lessthaneq vq next max_vts then next else max_vts
]

unfoldable pub flow_poll_skiplist : ℕ → Round → ℕ → Polled → Polled
flow_poll_skiplist fuel round num p =
    let vq = p.thread.vq in
    let max_vts = add32 vq.ts_virtual (sub32 round.cur_ts vq.ts_real) in
    let p' = skip_loop fuel (length p.chunks) num max_vts p in
    let full = length p'.chunks - length p.chunks == round.orig_num in
    let p'' = (if full then with_ts p' (skip_limit max_vts p'.thread.vq) else p') in
    record p'' {
      thread = record (p''.thread) { vq = record (p''.thread.vq) { ts_real = round.cur_ts } };
    }

unfoldable pub flow_poll_nolimit : ℕ → ℕ → Polled → Polled
flow_poll_nolimit fuel num p = nolimit_loop fuel (length p.chunks) num p

-- `num - x`, what a poll leaves for the next
abbrev pub left : ℕ → Polled → Polled → ℕ
left num p one = num - (length one.chunks - length p.chunks)

-- Both lists, the one without limit first if the flag says so.
unfoldable pub poll_both : Bool → ℕ → Round → ℕ → Polled → Polled
poll_both true fuel round num p =
    let one = flow_poll_nolimit fuel num p in flow_poll_skiplist fuel round (left num p one) one
poll_both false fuel round num p =
    let one = flow_poll_skiplist fuel round num p in flow_poll_nolimit fuel (left num p one) one

unfoldable pub flow_qman_poll : ℕ → Round → ℕ → Polled → Polled
flow_qman_poll fuel round num p =
    let first = p.thread.vq.fqman.nolimit_first in
    let two = poll_both first fuel round num p in
    let vq = two.thread.vq in
    record two {
      thread = record (two.thread) {
        vq = with_fqman vq (record (vq.fqman) { nolimit_first = not first });
      };
    }

-- The flags of a call of `tas_qman_set`: QMAN_SET_RATE, QMAN_SET_MAXCHUNK, QMAN_SET_AVAIL, QMAN_ADD_AVAIL
pub record SetFlags : Type 0 where
  pub set_rate : Bool
  pub set_maxchunk : Bool
  pub set_avail : Bool
  pub add_avail : Bool

-- The other arguments.
pub record SetArgs : Type 0 where
  pub rate : ℕ
  pub avail : ℕ
  pub max_chunk : ℕ

-- the queue after `flow_set_impl` changed its fields
unfoldable pub set_fields : FlowQueue → SetFlags → SetArgs → FlowQueue
set_fields q f a = record q {
  rate = if f.set_rate then a.rate else q.rate;
  max_chunk = if f.set_maxchunk then a.max_chunk else q.max_chunk;
  avail = if f.set_avail then a.avail else if f.add_avail then add32 q.avail a.avail else q.avail;
}

unfoldable pub flow_set_impl : Thread → ℕ → SetFlags → SetArgs → Thread
flow_set_impl t idx f a =
    let q = set_fields (t.vq.fqman.queues idx) f a in
    let t' = record t { vq = with_fqman t.vq (with_queue t.vq.fqman idx q) } in
    if (f.set_avail || f.add_avail) && (ltb 0 q.avail && not (q.in_skiplist || q.in_nolimit))
    then flow_queue_activate t' idx
    else t'

-- `none` is the return value -1.
unfoldable pub flow_qman_set : Thread → ℕ → SetFlags → SetArgs → Option Thread
flow_qman_set t id f a = if ltb id flow_queues then some (flow_set_impl t id f a) else none
