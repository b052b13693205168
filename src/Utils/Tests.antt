-- ===== src/Utils/Tests.antt =====
-- A manager with two pending timeouts, close to where the times go round.
use tas.Base.{ℕ, ◌+◌, ◌^◌, ◌%◌, ◌≡◌, refl, arith, true, [], ◌∷◌, ◌++◌, some, ◌==◌, if◌then◌else◌}
use tas.Utils.Timeout.{Timeout, Manager, util_timeout_arm_ts}
use tas.Utils.Timeout.Due.{ordered, expired, later}
use tas.Utils.Timeout.Insert.{count}
use tas.Utils.Timeout.Order.{arm_keeps_order}

-- 100 microseconds before time 0
abbrev now : ℕ
now = 268435356

abbrev soon : Timeout
soon = record { id = 1; type = 0; ts = 268435406 }

abbrev after_wrap : Timeout
after_wrap = record { id = 2; type = 1; ts = 400 }

abbrev pending : Manager
pending = record { timeouts = soon ∷ after_wrap ∷ []; due = [] }

arm_keeps_order_example :
    (w : Manager) × (util_timeout_arm_ts pending 3 200 0 ((now + 150) % 2 ^ 28) ≡ some w)
    × (w.due ≡ [] ++ expired now 150 (soon ∷ after_wrap ∷ []))
    × (ordered ((now + 150) % 2 ^ 28) 0 w.timeouts ≡ true)
    × ((k : ℕ)
        → count k w.timeouts
          ≡ (if 3 == k then 1 else 0) + count k (later now 150 (soon ∷ after_wrap ∷ [])))
arm_keeps_order_example =
    arm_keeps_order pending now 150 3 200 0 (omega arith) (omega arith) (omega arith) refl
