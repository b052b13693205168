-- ===== src/Utils/Timeout/Order.antt =====
-- The pending timeouts stay in the order of their times.
use tas.Base.{
  ℕ, ◌+◌, ◌^◌, ◌%◌, ◌<◌, ◌≡◌, refl, ◌∙◌, ap, subst, arith, true, false, List, [], ◌∷◌, ◌++◌, some,
  leb, ◌==◌, if◌then◌else◌,
}
use tas.Utils.Timeout.{
  Timeout, Manager, rel_time_us, move_due, move_due_timeouts, place, insert, arm_at,
  util_timeout_arm_ts, not_past, util_timeout_next,
}
use tas.Utils.Timeout.Due.{ahead, ordered, expired, later, all_later, move_exact}
use tas.Utils.Timeout.Insert.{place-Placed, insert_if, count, count-insert}

from_zero : (ts : List Timeout) (cur lo : ℕ) → ordered cur lo ts ≡ true → ordered cur 0 ts ≡ true
from_zero [] cur lo h = refl
from_zero (t ∷ ts) cur lo h = ground (arith, h)

-- `util_timeout_arm_ts` less than half way round, `d`, after a time at which the pending timeouts were in
-- order: for a wait of less than half way round it succeeds. Those that have expired in between go to the
-- end of the due ones, the others stay pending, with the new one among them, and these are in order again.
pub arm_keeps_order :
    (m : Manager) (cur d id us type : ℕ)
    → cur < 2 ^ 28
    → d < 2 ^ 27
    → us < 2 ^ 27
    → ordered cur 0 m.timeouts ≡ true
    → (w : Manager) × (util_timeout_arm_ts m id us type ((cur + d) % 2 ^ 28) ≡ some w)
      × (w.due ≡ m.due ++ expired cur d m.timeouts)
      × (ordered ((cur + d) % 2 ^ 28) 0 w.timeouts ≡ true)
      × ((k : ℕ)
          → count k w.timeouts ≡ (if id == k then 1 else 0) + count k (later cur d m.timeouts))
unfolding arm_at util_timeout_arm_ts move_due_timeouts insert
arm_keeps_order m cur d id us type c s u h =
    let cur' = (cur + d) % 2 ^ 28 in
    let t : Timeout = record { id = id; type = type % 2 ^ 4; ts = (cur' + us) % 2 ^ 28 } in
    let moved = move_exact m.timeouts m.due cur cur' d 0 c s refl h in
    let left = (move_due cur' m.due m.timeouts).timeouts in
    let in_order : ordered cur' 0 left ≡ true =
      rw moved.0 (from_zero (later cur d m.timeouts) cur' 1 moved.2) in
    let masked : cur' % 2 ^ 28 ≡ cur' = omega arith in
    let range : leb (2 ^ 27) us ≡ false = ground (arith, u) in
    let at : ahead cur' t ≡ us = omega (arith, u) in
    (
      record { timeouts = insert cur' us t left; due = (move_due cur' m.due m.timeouts).due },
      ap (arm_at m id us type) masked ∙ rw range refl,
      moved.1,
      insert_if (place cur' us t left) cur' us t left u (omega arith) at
          (place-Placed left cur' us 0 t (omega arith) u (omega arith) at in_order),
      λ k. count-insert k cur' us t left ∙ ap (λ l. count k (t ∷ l)) moved.0,
    )

next_ahead :
    (t : Timeout) (cur : ℕ)
    → cur < 2 ^ 28
    → t.ts < 2 ^ 28
    → ahead cur t < 2 ^ 27
    → not_past (rel_time_us (cur % 2 ^ 28) t.ts) ≡ ahead cur t
unfolding rel_time_us
next_ahead t cur c b a = ground (arith, c, b, a)

-- Where none is due and the pending ones are in order, `util_timeout_next` gives the time until the first;
-- before that time has passed, nothing becomes due.
pub next_is_first :
    (m : Manager) (t : Timeout) (ts : List Timeout) (cur d : ℕ)
    → cur < 2 ^ 28
    → m.due ≡ []
    → m.timeouts ≡ t ∷ ts
    → ordered cur 0 m.timeouts ≡ true
    → d < ahead cur t
    → (util_timeout_next m cur ≡ some (ahead cur t))
      × ((move_due_timeouts ((cur + d) % 2 ^ 28) m).timeouts ≡ m.timeouts)
      × ((move_due_timeouts ((cur + d) % 2 ^ 28) m).due ≡ [])
unfolding util_timeout_next move_due_timeouts
next_is_first m t ts cur d c e p h b =
    let o : ordered cur 0 (t ∷ ts) ≡ true = subst (λ l. ordered cur 0 l ≡ true) p h in
    let first = next_ahead t cur c (ground (arith, o)) (ground (arith, o)) in
    let moved =
      move_exact (t ∷ ts) [] cur ((cur + d) % 2 ^ 28) d 0 c (ground (arith, o, b)) refl o in
    let none_due : leb (ahead cur t) d ≡ false = ground (arith, b) in
    let rest =
      all_later ts cur ((cur + d) % 2 ^ 28) d (ahead cur t) c (ground (arith, o, b)) refl b
        (ground (arith, o)) in
    let kept : later cur d (t ∷ ts) ≡ t ∷ ts = rw (none_due, rest.0) refl in
    let fresh : expired cur d (t ∷ ts) ≡ [] = rw (none_due, rest.1) refl in
    (rw (e, p) (ap some first), rw (e, p) (moved.0 ∙ kept), rw (e, p) (moved.1 ∙ fresh))
