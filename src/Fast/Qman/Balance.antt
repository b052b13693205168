-- ===== src/Fast/Qman/Balance.antt =====
-- The count of bytes that a machine keeps is the sum over its flows, through polls of the machines.
use tas.Base.{
  ℕ, ◌^◌, ◌<◌, ◌≡◌, ◌≢◌, refl, sym, ◌∙◌, ap, subst, arith, Bool, true, false, List, [], ◌∷◌, ◌++◌,
  Option, none, some, ltb, ◌==◌, ℕ_discrete, if◌then◌else◌, put-same, put-other, Bool-cases,
  Option-cases, inl, inr, length, drop, sub32,
}
use tas.Fast.Qman.{VmQueue}
use tas.Fast.Qman.Flows.{Chunk}
use tas.Fast.Qman.Safe.{IsSafe}
use tas.Fast.Qman.SafePoll.{all_below}
use tas.Fast.Qman.Waiting.{waiting}
use tas.Fast.Qman.Vms.{VmQman, with_vm, vm_queue_activate, vm_queue_fire, vm_pop}

-- The machine's count is the sum over its flows; its lists stay inside the array.
pub record IsBalanced (vq : VmQueue) : Type 0 where
  pub exact : vq.avail ≡ waiting vq.fqman
  pub fits : vq.avail < 2 ^ 32
  pub lists : IsSafe vq.fqman

abbrev pub AreBalanced : VmQman → Type 0
AreBalanced m = (v : ℕ) → IsBalanced (m.queues v)

if_IsBalanced :
    (b : Bool) (p q : VmQueue) → IsBalanced p → IsBalanced q → IsBalanced (if b then p else q)
if_IsBalanced true p q h k = h
if_IsBalanced false p q h k = k

pub with_vm-AreBalanced :
    (m : VmQman) (idx : ℕ) (vq : VmQueue)
    → IsBalanced vq
    → AreBalanced m
    → AreBalanced (with_vm m idx vq)
with_vm-AreBalanced m idx vq h k v = if_IsBalanced (v == idx) vq (m.queues v) h (k v)

-- other flags and links
pub relisted :
    (vq : VmQueue) (b : Bool) (o : Option ℕ)
    → IsBalanced vq
    → IsBalanced (record vq { in_nolimit = b; next_idx = o })
relisted vq b o h = record { exact = h.exact; fits = h.fits; lists = h.lists }

pub activate-AreBalanced :
    (m : VmQman) (idx : ℕ) → AreBalanced m → AreBalanced (vm_queue_activate m idx)
unfolding vm_queue_activate
activate-AreBalanced m idx h =
    let m' = with_vm m idx (record (m.queues idx) { in_nolimit = true; next_idx = none }) in
    let one : AreBalanced m' =
      with_vm-AreBalanced m idx _ (relisted (m.queues idx) true none (h idx)) h in
    elim (Option-cases m.tail_idx) [
      | inl e ↦ rw e one
      | inr w ↦ rw w.1 (
          with_vm-AreBalanced m' w.0 _
            (relisted (m'.queues w.0) (m'.queues w.0).in_nolimit (some idx) (one w.0)) one)
    ]

pub all_but_one :
    (m : VmQman) (idx : ℕ) (vq : VmQueue)
    → ((v : ℕ) → v ≢ idx → IsBalanced (m.queues v))
    → IsBalanced vq
    → AreBalanced (with_vm m idx vq)
all_but_one m idx vq h k v = elim (ℕ_discrete v idx) [
  | yes e ↦
      subst IsBalanced (sym (put-same m.queues idx vq) ∙ ap (with_vm m idx vq).queues (sym e)) k
  | no d ↦ subst IsBalanced (sym (put-other m.queues idx vq v d)) (h v d)
]

-- All but one machine are balanced, and that one is with its bytes taken.
pub vm_fire-AreBalanced :
    (m : VmQman) (idx bytes : ℕ)
    → ((v : ℕ) → v ≢ idx → IsBalanced (m.queues v))
    → IsBalanced (record (m.queues idx) { avail = sub32 (m.queues idx).avail bytes })
    → AreBalanced (vm_queue_fire m idx bytes)
unfolding vm_queue_fire
vm_fire-AreBalanced m idx bytes h k =
    let q = record (m.queues idx) { avail = sub32 (m.queues idx).avail bytes } in
    let all : AreBalanced (with_vm m idx q) = all_but_one m idx q h k in
    elim (Bool-cases (ltb 0 (sub32 (m.queues idx).avail bytes))) [
      | inl y ↦ rw y (activate-AreBalanced (with_vm m idx q) idx all)
      | inr n ↦ rw n all
    ]

pub pop-AreBalanced : (m : VmQman) (idx : ℕ) → AreBalanced m → AreBalanced (vm_pop m idx)
unfolding vm_pop
pop-AreBalanced m idx h =
    with_vm-AreBalanced m idx _ (relisted (m.queues idx) false (m.queues idx).next_idx (h idx)) h

pub drop-append : (xs ys : List Chunk) → drop (length xs) (xs ++ ys) ≡ ys
drop-append [] ys = refl
drop-append (x ∷ xs) ys = drop-append xs ys

pub below-new : (cs ds : List Chunk) → all_below (cs ++ ds) ≡ true → all_below ds ≡ true
below-new [] ds h = h
below-new (c ∷ cs) ds h = below-new cs ds (ground (arith, h))
