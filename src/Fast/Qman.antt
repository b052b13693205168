-- ===== src/Fast/Qman.antt =====
-- The queue manager, tas/fast/qman.c: its state, and its arithmetic of time. A queue is known by its
-- index; `none` is IDXLIST_INVAL. The flag words are split into their bits. The code's assertions on
-- them are left out: where one fails the code ends, and what is said of a run is not said of it.
pub mod Time
pub mod Flows
pub mod Poll
pub mod Avail
pub mod Chunks
pub mod Rounds
pub mod Chain
pub mod Fifo
pub mod Fair
pub mod Safe
pub mod SafePoll
pub mod Vms
pub mod Waiting
pub mod Balance
pub mod Served
pub mod Update
use tas.Base.{
  ℕ, zero, suc, ◌+◌, ◌-◌, ◌*◌, ◌/◌, ◌%◌, ◌^◌, Bool, Option, min, ltb, leb, ◌==◌, if◌then◌else◌,
  add32, sub32, ℤ, pos, sub_ℤ, leb_ℤ,
}

-- QMAN_SKIPLIST_LEVELS
abbrev pub skiplist_levels : ℕ
skiplist_levels = 4

-- `struct flow_queue`
pub record FlowQueue : Type 0 where
  pub next_idxs : ℕ → Option ℕ
  pub next_ts : ℕ
  pub rate : ℕ
  pub avail : ℕ
  pub max_chunk : ℕ
  pub in_skiplist : Bool
  pub in_nolimit : Bool

-- `struct flow_qman`
pub record FlowQman : Type 0 where
  pub queues : ℕ → FlowQueue
  pub head_idx : ℕ → Option ℕ
  pub nolimit_head_idx : Option ℕ
  pub nolimit_tail_idx : Option ℕ
  pub nolimit_first : Bool

-- `struct vm_queue`, with its flows; `bytes` is never used.
pub record VmQueue : Type 0 where
  pub id : ℕ
  pub next_idx : Option ℕ
  pub fqman : FlowQman
  pub avail : ℕ
  pub in_nolimit : Bool
  pub ts_real : ℕ
  pub ts_virtual : ℕ

-- `utils_rng_gen32`: the next seed; its upper 32 bits are the number.
unfoldable pub rng_next : ℕ → ℕ
rng_next seed = (0x5deece66d * seed + 0xb) % 2 ^ 48

-- `__builtin_ffs (x) - 1` for a 32-bit number other than 0, with a unit of fuel for each bit
unfoldable pub lowest_bit : ℕ → ℕ → ℕ
lowest_bit zero x = 0
lowest_bit (suc fuel) x = let rest = lowest_bit fuel (x / 2) in if x % 2 == 1 then 0 else rest + 1

-- `flow_queue_level`, from the number drawn; for 0 the quotient (0 - 1) / 3 is 0.
unfoldable pub flow_queue_level : ℕ → ℕ
flow_queue_level x =
    let level = (if x == 0 then 0 else lowest_bit 32 x / 3) in
    if ltb level skiplist_levels then level else skiplist_levels - 1

-- `rel_time`: how far `ts` lies ahead of `cur_ts`
unfoldable pub rel_time : ℕ → ℕ → ℤ
rel_time cur_ts ts =
    let middle = 2 ^ 31 in
    let start = (cur_ts + 2 ^ 32 - middle) % 2 ^ 32 in
    let end = (cur_ts + middle) % 2 ^ 32 + 1 in
    if ltb cur_ts middle
    then (if leb start ts then sub_ℤ ts (start + middle) else sub_ℤ ts cur_ts)
    else if cur_ts == middle
    then sub_ℤ ts cur_ts
    else if ltb ts end
    then pos (ts + (2 ^ 32 - cur_ts))
    else sub_ℤ ts cur_ts

unfoldable pub timestamp_lessthaneq : VmQueue → ℕ → ℕ → Bool
timestamp_lessthaneq vq a b = leb_ℤ (rel_time vq.ts_virtual a) (rel_time vq.ts_virtual b)

-- `flow_queue_new_ts`
unfoldable pub flow_queue_new_ts : VmQueue → FlowQueue → ℕ → ℕ
flow_queue_new_ts vq q bytes = add32 vq.ts_virtual (bytes * 8 * 1000000 / q.rate)
