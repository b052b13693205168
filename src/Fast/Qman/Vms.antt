-- ===== src/Fast/Qman/Vms.antt =====
-- The virtual machines of the queue manager, tas/fast/qman.c: `vm_qman_poll`, `vm_qman_set`,
-- `tas_qman_next_ts` and what they call.
use tas.Base.{
  ℕ, zero, suc, ◌+◌, ◌-◌, ◌%◌, ◌^◌, Bool, true, false, not, ◌&&◌, ◌||◌, List, [], ◌∷◌, ◌++◌, Option,
  none, some, ltb, leb, ◌==◌, if◌then◌else◌, add32, sub32, put, length, drop, ℤ, pos, negsuc, leb_ℤ,
  div_ℤ,
}
use tas.Fast.Qman.{VmQueue, rel_time, timestamp_lessthaneq}
use tas.Fast.Qman.Flows.{Chunk, Polled}
use tas.Fast.Qman.Poll.{flow_qman_poll, SetFlags, SetArgs, flow_qman_set}

-- FLEXNIC_PL_VMST_NUM
abbrev pub vm_queues : ℕ
vm_queues = 6

-- `struct vm_qman`
pub record VmQman : Type 0 where
  pub queues : ℕ → VmQueue
  pub head_idx : Option ℕ
  pub tail_idx : Option ℕ

-- `struct dataplane_context`, as far as the queue manager uses it, with the generator's seed
pub record Context : Type 0 where
  pub vqman : VmQman
  pub seed : ℕ
  pub budgets : ℕ → ℤ
  pub vm_counters : ℕ → ℕ
  pub counters_total : ℕ

abbrev pub with_vm : VmQman → ℕ → VmQueue → VmQman
with_vm m idx vq = record m { queues = put m.queues idx vq }

unfoldable pub vm_queue_activate : VmQman → ℕ → VmQman
vm_queue_activate m idx =
    let m' = with_vm m idx (record (m.queues idx) { in_nolimit = true; next_idx = none }) in
    elim m.tail_idx [
      | none ↦ record m' { head_idx = some idx; tail_idx = some idx }
      | some t ↦ record (with_vm m' t (record (m'.queues t) { next_idx = some idx })) {
        tail_idx = some idx;
      }
    ]

unfoldable pub vm_queue_fire : VmQman → ℕ → ℕ → VmQman
vm_queue_fire m idx bytes_sum =
    let q = m.queues idx in
    let left = sub32 q.avail bytes_sum in
    let m' = with_vm m idx (record q { avail = left }) in
    if ltb 0 left then vm_queue_activate m' idx else m'

-- `vq->avail` after `vm_set_impl`
unfoldable pub vm_set_avail : VmQueue → ℕ → SetFlags → SetArgs → ℕ
vm_set_avail vq flow f a =
    if f.set_avail
    then add32 (sub32 vq.avail (vq.fqman.queues flow).avail) a.avail
    else if f.add_avail
    then add32 vq.avail a.avail
    else vq.avail

unfoldable pub vm_set_impl : VmQman → ℕ → ℕ → SetFlags → SetArgs → VmQman
vm_set_impl m vm flow f a =
    let vq = record (m.queues vm) { avail = vm_set_avail (m.queues vm) flow f a } in
    let m' = with_vm m vm vq in
    if (f.set_avail || f.add_avail) && (ltb 0 vq.avail && not vq.in_nolimit)
    then vm_queue_activate m' vm
    else m'

-- `vm_qman_set`, which `tas_qman_set` is; `false` is the return value -1. The machine's account is
-- changed before the flow's index is tested.
unfoldable pub vm_qman_set : Context → ℕ → ℕ → SetFlags → SetArgs → Context × Bool
vm_qman_set c vm flow f a =
    let m = vm_set_impl c.vqman vm flow f a in
    let done =
      elim (flow_qman_set (record { vq = m.queues vm; seed = c.seed }) flow f a)
        as (λ _. Context × Bool) [
          | none ↦ (record c { vqman = m }, false)
          | some t ↦ (record c { vqman = with_vm m vm t.vq; seed = t.seed }, true)
        ] in
    if leb vm_queues vm then (c, false) else done

-- the bytes that chunks report
abbrev pub bytes_of : List Chunk → ℕ
bytes_of [] = 0
bytes_of (c ∷ cs) = c.bytes + bytes_of cs

-- What a poll of the machines goes on with: `rvq` the first that was limited by its rate, `oob` those out
-- of budget, `orig_num` the field of `struct skiplist_fstate`.
pub record Serving : Type 0 where
  pub ctx : Context
  pub chunks : List Chunk
  pub rvq : Option ℕ
  pub oob : List ℕ
  pub orig_num : ℕ

-- the flows of the machine `idx` polled
unfoldable pub vm_poll : (fuel cur_ts num : ℕ) → Serving → ℕ → Polled
vm_poll fuel cur_ts num s idx =
    flow_qman_poll fuel (record { cur_ts = cur_ts; orig_num = s.orig_num }) (num - length s.chunks)
      (record {
        thread = record { vq = s.ctx.vqman.queues idx; seed = s.ctx.seed };
        chunks = s.chunks;
        rate_limited = false;
      })

-- `bytes_sum` of that poll
abbrev pub bytes_sum : Serving → Polled → ℕ
bytes_sum s p = bytes_of (drop (length s.chunks) p.chunks)

-- the machine's queue stored, and active again where bytes are left
unfoldable pub vm_served : Serving → ℕ → Polled → Serving
vm_served s idx p =
    let m = with_vm s.ctx.vqman idx p.thread.vq in
    let m' = (if ltb 0 p.thread.vq.avail then vm_queue_fire m idx (bytes_sum s p) else m) in
    record s { ctx = record (s.ctx) { vqman = m'; seed = p.thread.seed }; chunks = p.chunks }

abbrev pub is_none : Option ℕ → Bool
is_none none = true
is_none (some i) = false

-- the machine in budget: `rvq` and the counters as well
unfoldable pub vm_budgeted : Serving → ℕ → Polled → Serving
vm_budgeted s idx p =
    let s' = vm_served s idx p in
    record s' {
      ctx = record (s'.ctx) {
        vm_counters = put s'.ctx.vm_counters idx (s'.ctx.vm_counters idx + bytes_sum s p);
        counters_total = s'.ctx.counters_total + bytes_sum s p;
      };
      rvq =
          if ltb 0 p.thread.vq.avail && (p.rate_limited && is_none s.rvq) then some idx else s'.rvq;
    }

-- takes the first machine, `idx`, out of the list
unfoldable pub vm_pop : VmQman → ℕ → VmQman
vm_pop m idx =
    let vq = m.queues idx in
    record (with_vm m idx (record vq { in_nolimit = false })) {
      head_idx = vq.next_idx;
      tail_idx = elim vq.next_idx [ none ↦ none | some i ↦ m.tail_idx ];
    }

-- the body of the first loop for the machine `idx`
unfoldable pub vm_visit : (fuel cur_ts num : ℕ) → Serving → ℕ → Serving
vm_visit fuel cur_ts num s idx =
    let s' = record s { ctx = record (s.ctx) { vqman = vm_pop s.ctx.vqman idx } } in
    let s'' = record s' { orig_num = num } in
    if leb_ℤ (pos 1) (s.ctx.budgets idx)
    then vm_budgeted s'' idx (vm_poll fuel cur_ts num s'' idx)
    else if ltb 0 (s'.ctx.vqman.queues idx).avail
    then record s' { oob = s'.oob ++ idx ∷ [] }
    else s'

abbrev pub is_some_of : Option ℕ → ℕ → Bool
is_some_of none i = false
is_some_of (some j) i = j == i

-- A round of the first loop, with the list's head and the rounds that follow.
unfoldable pub vm_round : (Serving → Serving) → (fuel cur_ts num : ℕ) → Serving → Option ℕ → Serving
vm_round next fuel cur_ts num s none = s
vm_round next fuel cur_ts num s (some idx) =
    let rest = next (vm_visit fuel cur_ts num s idx) in
    if ltb (length s.chunks) num && not (is_some_of s.rvq idx) then rest else s

-- The first loop, with a unit of `rounds` for a round.
unfoldable pub vm_loop : (rounds fuel cur_ts num : ℕ) → Serving → Serving
vm_loop zero fuel cur_ts num s = s
vm_loop (suc rounds) fuel cur_ts num s =
    vm_round (vm_loop rounds fuel cur_ts num) fuel cur_ts num s s.ctx.vqman.head_idx

-- The second loop: the machines out of budget are served if nothing else was.
unfoldable pub vm_rest : (fuel cur_ts num : ℕ) → Bool → Serving → List ℕ → Serving
vm_rest fuel cur_ts num idle s [] = s
vm_rest fuel cur_ts num idle s (idx ∷ oob) =
    let m = with_vm s.ctx.vqman idx (record (s.ctx.vqman.queues idx) { in_nolimit = false }) in
    let s' = record s { ctx = record (s.ctx) { vqman = m } } in
    let served = vm_served s' idx (vm_poll fuel cur_ts num s' idx) in
    let active = record s' { ctx = record (s'.ctx) { vqman = vm_queue_activate m idx } } in
    vm_rest fuel cur_ts num idle (if ltb (length s.chunks) num && idle then served else active) oob

-- `vm_qman_poll` at the time `cur_ts`; `stale` is what `orig_num` holds before it is set.
unfoldable pub vm_qman_poll : (rounds fuel cur_ts stale num : ℕ) → Context → Serving
vm_qman_poll rounds fuel cur_ts stale num c =
    let s =
      vm_loop rounds fuel cur_ts num
        (record { ctx = c; chunks = []; rvq = none; oob = []; orig_num = stale }) in
    vm_rest fuel cur_ts num (length s.chunks == 0) s s.oob

-- a signed number as a 32-bit one
abbrev pub to_u32 : ℤ → ℕ
to_u32 (pos n) = n % 2 ^ 32
to_u32 (negsuc n) = 2 ^ 32 - 1 - n % 2 ^ 32

-- `tas_qman_next_ts` at the time `ts`; `none` is -1, no timeout.
unfoldable pub tas_qman_next_ts : VmQman → ℕ → Option ℕ
tas_qman_next_ts m ts = elim m.head_idx [
  | none ↦ none
  | some v ↦
      let vq = m.queues v in
      let now = add32 vq.ts_virtual (sub32 ts vq.ts_real) in
      elim vq.fqman.nolimit_head_idx [
        | some i ↦ some 0
        | none ↦ elim (vq.fqman.head_idx 0) [
          | none ↦ none
          | some i ↦
              let next_ts = (vq.fqman.queues i).next_ts in
              if timestamp_lessthaneq vq next_ts now
              then some 0
              else some (to_u32 (div_ℤ (rel_time now next_ts) 1000))
        ]
      ]
]
