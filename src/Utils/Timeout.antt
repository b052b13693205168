-- ===== src/Utils/Timeout.antt =====
-- Timeouts, lib/utils/timeout.c. The linked lists of pending and of due timeouts are lists; a timeout is
-- known by its number.
pub mod Due
pub mod Insert
pub mod Order
use tas.Base.{
  ℕ, zero, suc, ◌+◌, ◌-◌, ◌^◌, ◌%◌, Bool, true, false, List, [], ◌∷◌, ◌++◌, Option, none, some, ltb,
  leb, ◌==◌, if◌then◌else◌, ℤ, pos, negsuc, sub_ℤ, leb_ℤ,
}

-- `struct timeout`; `timeout_type` is its upper 4 and its lower 28 bits.
pub record Timeout : Type 0 where
  pub id : ℕ
  pub type : ℕ
  pub ts : ℕ

-- `struct timeout_manager`
pub record Manager : Type 0 where
  pub timeouts : List Timeout
  pub due : List Timeout

-- `rel_time`, on 28 bits
unfoldable pub rel_time_us : (cur_ts to_ts : ℕ) → ℤ
rel_time_us cur_ts to_ts =
    let middle = 2 ^ 27 in
    let start = (cur_ts + 2 ^ 28 - middle) % 2 ^ 28 in
    let end = (cur_ts + middle) % 2 ^ 28 + 1 in
    if ltb cur_ts middle
    then (if leb start to_ts then sub_ℤ to_ts (start + middle) else sub_ℤ to_ts cur_ts)
    else if cur_ts == middle
    then sub_ℤ to_ts cur_ts
    else if ltb to_ts end
    then pos (to_ts + (2 ^ 28 - cur_ts))
    else sub_ℤ to_ts cur_ts

unfoldable pub timeout_due : Timeout → ℕ → Bool
timeout_due t ts = leb_ℤ (rel_time_us ts t.ts) (pos 0)

-- `move_due_timeouts`, on the two lists
unfoldable pub move_due : (cur_ts : ℕ) → (due timeouts : List Timeout) → Manager
move_due cur_ts due [] = record { timeouts = []; due = due }
move_due cur_ts due (t ∷ ts) =
    let rest = move_due cur_ts (due ++ t ∷ []) ts in
    if timeout_due t cur_ts then rest else record { timeouts = t ∷ ts; due = due }

unfoldable pub move_due_timeouts : (cur_ts : ℕ) → Manager → Manager
move_due_timeouts cur_ts m = move_due cur_ts m.due m.timeouts

-- not `rel_time > us`, where C compares unsigned: a time that is past counts as a large one
abbrev pub is_within : ℤ → ℕ → Bool
is_within (pos n) us = leb n us
is_within (negsuc n) us = false

-- The list with `t` behind the last timeout that is due within `us`; `none` where there is no such one.
unfoldable pub place : (cur_ts us : ℕ) → Timeout → List Timeout → Option (List Timeout)
place cur_ts us t [] = none
place cur_ts us t (p ∷ ps) = elim (place cur_ts us t ps) [
  | some qs ↦ some (p ∷ qs)
  | none ↦ if is_within (rel_time_us cur_ts p.ts) us then some (p ∷ t ∷ ps) else none
]

-- the list with `t` inserted
unfoldable pub insert : (cur_ts us : ℕ) → Timeout → List Timeout → List Timeout
insert cur_ts us t ts = elim (place cur_ts us t ts) [ none ↦ t ∷ ts | some qs ↦ qs ]

-- the body of `util_timeout_arm_ts` at a time of 28 bits
unfoldable pub arm_at : Manager → (id us type cur_ts : ℕ) → Option Manager
arm_at m id us type cur_ts =
    let moved = move_due_timeouts cur_ts m in
    let t : Timeout = record { id = id; type = type % 2 ^ 4; ts = (cur_ts + us) % 2 ^ 28 } in
    if leb (2 ^ 27) us
    then none
    else some (record moved { timeouts = insert cur_ts us t moved.timeouts })

-- `util_timeout_arm_ts`; `none` is the call of `abort`.
unfoldable pub util_timeout_arm_ts : Manager → (id us type cur_ts : ℕ) → Option Manager
util_timeout_arm_ts m id us type cur_ts = arm_at m id us type (cur_ts % 2 ^ 28)

-- a list without the timeout `id`
abbrev pub remove : ℕ → List Timeout → List Timeout
remove id [] = []
remove id (t ∷ ts) = let rest = remove id ts in if t.id == id then ts else t ∷ rest

-- `util_timeout_disarm` of a timeout that is in one of the lists
unfoldable pub util_timeout_disarm : Manager → ℕ → Manager
util_timeout_disarm m id = record { timeouts = remove id m.timeouts; due = remove id m.due }

-- The loop of `util_timeout_poll_ts`, for up to MAX_TIMEOUTS timeouts. The handler may arm and disarm.
unfoldable pub poll_due_loop : ℕ → (Timeout → Manager → Manager) → Manager → List Timeout → Manager
poll_due_loop zero handler m due = m
poll_due_loop (suc fuel) handler m [] = m
poll_due_loop (suc fuel) handler m (t ∷ ts) =
    let m' = handler t (record m { due = ts }) in poll_due_loop fuel handler m' m'.due

unfoldable pub util_timeout_poll_ts :
    (Timeout → Manager → Manager) → Manager → (cur_ts : ℕ) → Manager
util_timeout_poll_ts handler m cur_ts =
    let moved = move_due_timeouts (cur_ts % 2 ^ 28) m in poll_due_loop 64 handler moved moved.due

-- a time that is past is now
abbrev pub not_past : ℤ → ℕ
not_past (pos n) = n
not_past (negsuc n) = 0

-- `util_timeout_next`; `none` is -1, no timeout.
unfoldable pub util_timeout_next : Manager → (cur_ts : ℕ) → Option ℕ
util_timeout_next m cur_ts = elim m.due [
  | ◌∷◌ d ds ↦ some 0
  | [] ↦ elim m.timeouts [
    | [] ↦ none
    | ◌∷◌ t ts ↦ some (not_past (rel_time_us (cur_ts % 2 ^ 28) t.ts))
  ]
]
