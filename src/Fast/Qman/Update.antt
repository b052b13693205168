-- ===== src/Fast/Qman/Update.antt =====
-- The count of bytes that a machine keeps is the sum over its flows, through `tas_qman_set`.
use tas.Base.{
  ℕ, ◌+◌, ◌^◌, ◌≤◌, ◌<◌, ◌≡◌, ◌≢◌, refl, sym, ◌∙◌, ap, subst, arith, Bool, true, false, not, ◌&&◌,
  ◌||◌, none, some, ltb, leb, ℕ_discrete, if◌then◌else◌, put-same, put-other, Bool-cases,
  Option-cases, inl, inr,
}
use tas.Fast.Qman.{VmQueue}
use tas.Fast.Qman.Flows.{Thread, with_fqman, with_queue}
use tas.Fast.Qman.Poll.{flow_queues, SetFlags, SetArgs, set_fields, flow_set_impl, flow_qman_set}
use tas.Fast.Qman.Avail.{SameQueues, activate_same, same_refl}
use tas.Fast.Qman.Chunks.{activate_account}
use tas.Fast.Qman.Safe.{IsSafe}
use tas.Fast.Qman.SafePoll.{set-IsSafe}
use tas.Fast.Qman.Waiting.{waiting, waiting-change, waiting-same, waiting-has}
use tas.Fast.Qman.Vms.{
  VmQman, Context, with_vm, vm_queues, vm_queue_activate, vm_set_avail, vm_set_impl, vm_qman_set,
}
use tas.Fast.Qman.Balance.{IsBalanced, AreBalanced, all_but_one}

-- The account and the flows of two queues of machines are the same.
abbrev Alike : VmQueue → VmQueue → Type 0
Alike p q = (p.avail ≡ q.avail) × (p.fqman ≡ q.fqman)

Alike-if : (b : Bool) (p q r : VmQueue) → Alike p r → Alike q r → Alike (if b then p else q) r
Alike-if true p q r h k = h
Alike-if false p q r h k = k

with_vm-Alike :
    (m : VmQman) (idx : ℕ) (q : VmQueue) (v : ℕ)
    → Alike q (m.queues idx)
    → Alike ((with_vm m idx q).queues v) (m.queues v)
with_vm-Alike m idx q v h = elim (ℕ_discrete v idx) [
  | yes e ↦
      let same = put-same m.queues idx q in
      let here : (with_vm m idx q).queues v ≡ q = ap (with_vm m idx q).queues e ∙ same in
      let there = ap m.queues (sym e) in
      (
        ap (λ u. u.avail) here ∙ h.0 ∙ ap (λ u. u.avail) there,
        ap (λ u. u.fqman) here ∙ h.1 ∙ ap (λ u. u.fqman) there,
      )
  | no d ↦ let far = put-other m.queues idx q v d in (ap (λ u. u.avail) far, ap (λ u. u.fqman) far)
]

activate-Alike : (m : VmQman) (idx v : ℕ) → Alike ((vm_queue_activate m idx).queues v) (m.queues v)
unfolding vm_queue_activate
activate-Alike m idx v =
    let m' = with_vm m idx (record (m.queues idx) { in_nolimit = true; next_idx = none }) in
    let one = with_vm-Alike m idx _ v (refl, refl) in
    elim (Option-cases m.tail_idx) [
      | inl e ↦ rw e one
      | inr w ↦
          let two =
            with_vm-Alike m' w.0 (record (m'.queues w.0) { next_idx = some idx }) v (refl, refl) in
          rw w.1 (two.0 ∙ one.0, two.1 ∙ one.1)
    ]

set_impl-Alike :
    (m : VmQman) (vm flow : ℕ) (f : SetFlags) (a : SetArgs) (v : ℕ)
    → Alike ((vm_set_impl m vm flow f a).queues v) (
        (with_vm m vm (record (m.queues vm) { avail = vm_set_avail (m.queues vm) flow f a })).queues
          v)
unfolding vm_set_impl
set_impl-Alike m vm flow f a v =
    let vq = record (m.queues vm) { avail = vm_set_avail (m.queues vm) flow f a } in
    elim (Bool-cases ((f.set_avail || f.add_avail) && (ltb 0 vq.avail && not vq.in_nolimit))) [
      | inl y ↦ rw y (activate-Alike (with_vm m vm vq) vm v)
      | inr n ↦ rw n (refl, refl)
    ]

flow_set_same :
    (t : Thread) (idx : ℕ) (f : SetFlags) (a : SetArgs)
    → SameQueues
        (with_queue t.vq.fqman idx (set_fields (t.vq.fqman.queues idx) f a))
        (flow_set_impl t idx f a).vq.fqman
      × ((flow_set_impl t idx f a).vq.avail ≡ t.vq.avail)
unfolding flow_set_impl
flow_set_same t idx f a =
    let q = set_fields (t.vq.fqman.queues idx) f a in
    let t' : Thread = record t { vq = with_fqman t.vq (with_queue t.vq.fqman idx q) } in
    elim (Bool-cases
      ((f.set_avail || f.add_avail) && (ltb 0 q.avail && not (q.in_skiplist || q.in_nolimit)))) [
        | inl y ↦ rw y (activate_same t' idx, (activate_account t' idx).1)
        | inr n ↦ rw n (same_refl _, refl)
      ]

transfer : (p q : VmQueue) → q.avail ≡ p.avail → q.fqman ≡ p.fqman → IsBalanced p → IsBalanced q
transfer p q a g h = record {
  exact = a ∙ h.exact ∙ ap waiting (sym g);
  fits = omega (arith, h.fits, a);
  lists = subst IsSafe (sym g) h.lists;
}

-- the new counts, by the flags
set_counts :
    (vq : VmQueue) (flow : ℕ) (f : SetFlags) (a : SetArgs) (w : ℕ)
    → vq.avail < 2 ^ 32
    → (vq.fqman.queues flow).avail ≤ vq.avail
    → vq.avail + a.avail < 2 ^ 32
    → w + (vq.fqman.queues flow).avail ≡ vq.avail + (set_fields (vq.fqman.queues flow) f a).avail
    → (vm_set_avail vq flow f a ≡ w) × (w < 2 ^ 32)
unfolding vm_set_avail set_fields
set_counts vq flow f a w h l r e = ground arith

-- `flow_set_impl` on a machine whose account is already that of the new bytes.
set-IsBalanced :
    (vq : VmQueue) (t : Thread) (flow : ℕ) (f : SetFlags) (a : SetArgs)
    → flow < flow_queues
    → IsBalanced vq
    → waiting vq.fqman + a.avail < 2 ^ 32
    → t.vq.avail ≡ vm_set_avail vq flow f a
    → t.vq.fqman ≡ vq.fqman
    → IsBalanced (flow_set_impl t flow f a).vq
set-IsBalanced vq t flow f a b h r e g =
    let q = set_fields (t.vq.fqman.queues flow) f a in
    let fq1 = with_queue t.vq.fqman flow q in
    let safe : IsSafe t.vq.fqman = subst IsSafe (sym g) h.lists in
    let s = flow_set_same t flow f a in
    let end = waiting-same fq1 (flow_set_impl t flow f a).vq.fqman s.0.avail in
    let change =
      waiting-change t.vq.fqman fq1 flow b
        (λ i d. ap (λ u. u.avail) (put-other t.vq.fqman.queues flow q i d)) in
    let now : (fq1.queues flow).avail ≡ q.avail =
      ap (λ u. u.avail) (put-same t.vq.fqman.queues flow q) in
    let was : waiting t.vq.fqman ≡ waiting vq.fqman = ap waiting g in
    let one : (t.vq.fqman.queues flow).avail ≡ (vq.fqman.queues flow).avail =
      ap (λ u. (u.queues flow).avail) g in
    let set : q.avail ≡ (set_fields (vq.fqman.queues flow) f a).avail =
      ap (λ u. (set_fields (u.queues flow) f a).avail) g in
    let c =
      set_counts vq flow f a (waiting fq1) h.fits
        (omega (arith, waiting-has vq.fqman flow b, h.exact)) (omega (arith, h.exact, r))
        (omega (arith, change, now, was, one, set, h.exact)) in
    record {
      exact = omega (arith, s.1, e, c.0, end);
      fits = omega (arith, s.1, e, c.0, c.1);
      lists = set-IsSafe t flow f a b safe;
    }

-- `tas_qman_set` on a flow of the array, from a state where each machine's `avail` is the sum of the
-- bytes that wait in its flow queues: where the sum of the machine's and the new bytes fits 32 bits, so
-- it is afterwards, on every choice of the flags.
pub vm_set-AreBalanced :
    (c : Context) (vm flow : ℕ) (f : SetFlags) (a : SetArgs)
    → flow < flow_queues
    → AreBalanced c.vqman
    → (c.vqman.queues vm).avail + a.avail < 2 ^ 32
    → AreBalanced (vm_qman_set c vm flow f a).0.vqman
unfolding vm_qman_set flow_qman_set
vm_set-AreBalanced c vm flow f a b h r = elim (Bool-cases (leb vm_queues vm)) [
  | inl y ↦ rw y h
  | inr n ↦
      let m = vm_set_impl c.vqman vm flow f a in
      let t : Thread = record { vq = m.queues vm; seed = c.seed } in
      let vq = record (c.vqman.queues vm) { avail = vm_set_avail (c.vqman.queues vm) flow f a } in
      let in_range : ltb flow flow_queues ≡ true = ground arith in
      let at = put-same c.vqman.queues vm vq in
      let like = set_impl-Alike c.vqman vm flow f a in
      let others : (v : ℕ) → v ≢ vm → IsBalanced (m.queues v) = λ v d.
        let far = put-other c.vqman.queues vm vq v d in
        transfer (c.vqman.queues v) (m.queues v) ((like v).0 ∙ ap (λ u. u.avail) far)
          ((like v).1 ∙ ap (λ u. u.fqman) far) (h v) in
      let done =
        set-IsBalanced (c.vqman.queues vm) t flow f a b (h vm) (omega (arith, r, (h vm).exact))
          ((like vm).0 ∙ ap (λ u. u.avail) at) ((like vm).1 ∙ ap (λ u. u.fqman) at) in
      rw (n, in_range) (all_but_one m vm _ others done)
]
