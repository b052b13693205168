-- ===== src/Slow/Nicif.antt =====
-- The part of tas/slow/nicif.c that keeps the flows of the fast path: flow identifiers, the slots of
-- the flow hash table, and adding, disabling and reading connections. The flow table is the one that
-- the fast path looks packets up in, tas.Fast.Classify.
pub mod Slots
pub mod Connections
pub mod Ids
pub mod Moves
pub mod Open
pub mod Slot
mod Write
pub mod Added
use tas.Base.{ℕ, zero, suc, ◌+◌, ◌-◌, ◌*◌, ◌/◌, ◌%◌, ◌^◌, Option, none, some, List, [], ◌∷◌, ◌++◌}

-- FLEXNIC_PL_FLOWST_NUM
abbrev pub flowst_num : ℕ
flowst_num = 128 * 1024

-- `n` numbers from `i` on
unfoldable pub ids_from : (n i : ℕ) → List ℕ
ids_from zero i = []
ids_from (suc n) i = i ∷ ids_from n (i + 1)

-- `flow_id_freelist` after `flow_id_alloc_init`
unfoldable pub flow_id_alloc_init : List ℕ
flow_id_alloc_init = ids_from flowst_num 0

-- the identifier and the list that is left, or nothing for -1
unfoldable pub flow_id_alloc : List ℕ → Option (ℕ × List ℕ)
flow_id_alloc [] = none
flow_id_alloc (it ∷ next) = some (it, next)

-- The list is linked through one item for each identifier, so this is what happens if the identifier is
-- not in the list.
unfoldable pub flow_id_free : ℕ → List ℕ → List ℕ
flow_id_free flow_id freelist = flow_id ∷ freelist
