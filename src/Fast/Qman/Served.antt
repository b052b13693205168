-- ===== src/Fast/Qman/Served.antt =====
-- The polls of the machines keep their counts.
use tas.Base.{
  ℕ, zero, suc, ◌-◌, ◌≡◌, ◌≢◌, refl, sym, ◌∙◌, ap, subst, arith, Bool, true, false, not, ◌&&◌, List,
  [], ◌∷◌, Option, none, some, ltb, ◌==◌, if◌then◌else◌, put-same, put-other, Bool-cases, inl, inr,
  length, drop, sub32, leb_ℤ, pos,
}
use tas.Fast.Qman.Flows.{Polled}
use tas.Fast.Qman.Poll.{Round}
use tas.Fast.Qman.Chunks.{Polls}
use tas.Fast.Qman.Rounds.{qman_poll-Polls}
use tas.Fast.Qman.SafePoll.{all_below, IsSafePoll, qman_poll-IsSafePoll}
use tas.Fast.Qman.Waiting.{waiting-report}
use tas.Fast.Qman.Vms.{
  Context, with_vm, vm_queue_activate, bytes_of, Serving, vm_poll, bytes_sum, vm_served,
  vm_budgeted, vm_pop, vm_visit, is_some_of, vm_round, vm_loop, vm_rest, vm_qman_poll,
}
use tas.Fast.Qman.Balance.{
  AreBalanced, with_vm-AreBalanced, relisted, activate-AreBalanced, all_but_one,
  vm_fire-AreBalanced, pop-AreBalanced, drop-append, below-new, IsBalanced,
}

-- Every machine is balanced, and what is reported is of the arrays.
pub record IsServed (s : Serving) : Type 0 where
  pub balanced : AreBalanced s.ctx.vqman
  pub report : all_below s.chunks ≡ true

-- a machine after its poll, with its own count brought down
taken-IsBalanced :
    (num : ℕ) (p q : Polled)
    → (a : Polls num p q) → IsSafePoll q
    → IsBalanced p.thread.vq
    → IsBalanced (record (q.thread.vq) { avail = sub32 q.thread.vq.avail (bytes_of a.new) })
taken-IsBalanced num p q a s h =
    let sum =
      waiting-report p.thread.vq.fqman q.thread.vq.fqman a.new
        (below-new p.chunks a.new (subst (λ l. all_below l ≡ true) a.reported s.report)) a.waits in
    record {
      exact = omega (arith, sum, h.exact, h.fits, a.same_avail);
      fits = omega arith;
      lists = s.lists;
    }

-- no bytes left, so none were taken
idle-IsBalanced :
    (num : ℕ) (p q : Polled)
    → (a : Polls num p q) → IsSafePoll q
    → IsBalanced p.thread.vq
    → q.thread.vq.avail ≡ 0
    → IsBalanced q.thread.vq
idle-IsBalanced num p q a s h z =
    let sum =
      waiting-report p.thread.vq.fqman q.thread.vq.fqman a.new
        (below-new p.chunks a.new (subst (λ l. all_below l ≡ true) a.reported s.report)) a.waits in
    record {
      exact = omega (arith, sum, h.exact, a.same_avail, z);
      fits = omega (arith, z);
      lists = s.lists;
    }

-- what `vm_poll` starts from
abbrev start_of : Serving → ℕ → Polled
start_of s idx = record {
  thread = record { vq = s.ctx.vqman.queues idx; seed = s.ctx.seed };
  chunks = s.chunks;
  rate_limited = false;
}

vm_served-IsServed :
    (num : ℕ) (s : Serving) (idx : ℕ) (q : Polled)
    → Polls num (start_of s idx) q
    → IsSafePoll q
    → IsServed s
    → IsServed (vm_served s idx q)
unfolding vm_served
vm_served-IsServed num s idx q a safe h =
    let m = with_vm s.ctx.vqman idx q.thread.vq in
    let others : (v : ℕ) → v ≢ idx → IsBalanced (m.queues v) = λ v d.
      subst IsBalanced (sym (put-other s.ctx.vqman.queues idx q.thread.vq v d)) (h.balanced v) in
    let new : bytes_sum s q ≡ bytes_of a.new =
      ap (λ l. bytes_of (drop (length s.chunks) l)) a.reported
      ∙ ap bytes_of (drop-append s.chunks a.new) in
    let took : IsBalanced
        (record (m.queues idx) { avail = sub32 (m.queues idx).avail (bytes_sum s q) }) =
      subst (λ u. IsBalanced (record u { avail = sub32 u.avail (bytes_sum s q) }))
        (sym (put-same s.ctx.vqman.queues idx q.thread.vq))
        (subst (λ b. IsBalanced (record (q.thread.vq) { avail = sub32 q.thread.vq.avail b }))
          (sym new) (taken-IsBalanced num (start_of s idx) q a safe (h.balanced idx))) in
    elim (Bool-cases (ltb 0 q.thread.vq.avail)) [
      | inl y ↦ rw y (record {
        balanced = vm_fire-AreBalanced m idx (bytes_sum s q) others took;
        report = safe.report;
      })
      | inr n ↦ rw n (record {
        balanced =
            all_but_one s.ctx.vqman idx q.thread.vq (λ v d. h.balanced v)
              (idle-IsBalanced num (start_of s idx) q a safe (h.balanced idx) (ground arith));
        report = safe.report;
      })
    ]

poll-IsServed :
    (fuel cur_ts num : ℕ) (s : Serving) (idx : ℕ)
    → IsServed s
    → IsServed (vm_served s idx (vm_poll fuel cur_ts num s idx))
unfolding vm_poll
poll-IsServed fuel cur_ts num s idx h =
    let round : Round = record { cur_ts = cur_ts; orig_num = s.orig_num } in
    vm_served-IsServed _ s idx _
      (qman_poll-Polls fuel round (num - length s.chunks) (start_of s idx))
      (qman_poll-IsSafePoll fuel round (num - length s.chunks) (start_of s idx)
        (record { lists = (h.balanced idx).lists; report = h.report }))
      h

visit-IsServed :
    (fuel cur_ts num : ℕ) (s : Serving) (idx : ℕ)
    → IsServed s
    → IsServed (vm_visit fuel cur_ts num s idx)
unfolding vm_visit vm_budgeted
visit-IsServed fuel cur_ts num s idx h =
    let s' : Serving = record s { ctx = record (s.ctx) { vqman = vm_pop s.ctx.vqman idx } } in
    let s'' : Serving = record s' { orig_num = num } in
    let popped : IsServed s'' = record {
      balanced = pop-AreBalanced s.ctx.vqman idx h.balanced;
      report = h.report;
    } in
    let served = poll-IsServed fuel cur_ts num s'' idx popped in
    elim (Bool-cases (leb_ℤ (pos 1) (s.ctx.budgets idx))) [
      | inl y ↦ rw y (record { balanced = served.balanced; report = served.report })
      | inr n ↦ elim (Bool-cases (ltb 0 (s'.ctx.vqman.queues idx).avail)) [
        | inl y ↦ rw (n, y) (record { balanced = popped.balanced; report = h.report })
        | inr z ↦ rw (n, z) (record { balanced = popped.balanced; report = h.report })
      ]
    ]

vm_round-IsServed :
    (next : Serving → Serving) (fuel cur_ts num : ℕ) (s : Serving) (o : Option ℕ)
    → IsServed s
    → ((t : Serving) → IsServed t → IsServed (next t))
    → IsServed (vm_round next fuel cur_ts num s o)
unfolding vm_round
vm_round-IsServed next fuel cur_ts num s none h r = h
vm_round-IsServed next fuel cur_ts num s (some idx) h r =
    elim (Bool-cases (ltb (length s.chunks) num && not (is_some_of s.rvq idx))) [
      | inl y ↦ rw y (r _ (visit-IsServed fuel cur_ts num s idx h))
      | inr n ↦ rw n h
    ]

vm_loop-IsServed :
    (rounds fuel cur_ts num : ℕ) (s : Serving)
    → IsServed s
    → IsServed (vm_loop rounds fuel cur_ts num s)
unfolding vm_loop
vm_loop-IsServed zero fuel cur_ts num s h = h
vm_loop-IsServed (suc rounds) fuel cur_ts num s h =
    vm_round-IsServed (vm_loop rounds fuel cur_ts num) fuel cur_ts num s s.ctx.vqman.head_idx h
      (vm_loop-IsServed rounds fuel cur_ts num)

if_IsServed : (b : Bool) (s t : Serving) → IsServed s → IsServed t → IsServed (if b then s else t)
if_IsServed true s t h k = h
if_IsServed false s t h k = k

vm_rest-IsServed :
    (oob : List ℕ) (fuel cur_ts num : ℕ) (idle : Bool) (s : Serving)
    → IsServed s
    → IsServed (vm_rest fuel cur_ts num idle s oob)
unfolding vm_rest
vm_rest-IsServed [] fuel cur_ts num idle s h = h
vm_rest-IsServed (idx ∷ oob) fuel cur_ts num idle s h =
    let m = with_vm s.ctx.vqman idx (record (s.ctx.vqman.queues idx) { in_nolimit = false }) in
    let s' : Serving = record s { ctx = record (s.ctx) { vqman = m } } in
    let active : Serving = record s' {
      ctx = record (s'.ctx) { vqman = vm_queue_activate m idx };
    } in
    let unlisted : IsServed s' = record {
      balanced =
          with_vm-AreBalanced s.ctx.vqman idx _
            (relisted (s.ctx.vqman.queues idx) false (s.ctx.vqman.queues idx).next_idx
              (h.balanced idx))
            h.balanced;
      report = h.report;
    } in
    let later : IsServed active = record {
      balanced = activate-AreBalanced m idx unlisted.balanced;
      report = h.report;
    } in
    vm_rest-IsServed oob fuel cur_ts num idle
      (if ltb (length s.chunks) num && idle
        then vm_served s' idx (vm_poll fuel cur_ts num s' idx)
        else active)
      (if_IsServed (ltb (length s.chunks) num && idle) _ active
        (poll-IsServed fuel cur_ts num s' idx unlisted) later)

-- `vm_qman_poll`, from a state where each machine's `avail` is the sum of the bytes that wait in its flow
-- queues and the links of its lists are inside the array: so it is afterwards, and the chunks that are
-- reported are of queues of the array, on any fuel.
pub vm_poll-IsServed :
    (rounds fuel cur_ts stale num : ℕ) (c : Context)
    → AreBalanced c.vqman
    → IsServed (vm_qman_poll rounds fuel cur_ts stale num c)
unfolding vm_qman_poll
vm_poll-IsServed rounds fuel cur_ts stale num c h =
    let s =
      vm_loop rounds fuel cur_ts num
        (record { ctx = c; chunks = []; rvq = none; oob = []; orig_num = stale }) in
    vm_rest-IsServed s.oob fuel cur_ts num (length s.chunks == 0) s
      (vm_loop-IsServed rounds fuel cur_ts num _ (record { balanced = h; report = refl }))
