-- ===== src/Slow/Nicif/Slots.antt =====
-- The slots of the flow hash table: `flow_slot_alloc` and `flow_slot_clear` of tas/slow/nicif.c. A flow
-- stands within 4 buckets of its hash. If these are all taken, entries are moved up to make room. The
-- loops whose bounds are indices run for the number of rounds between them; the one that moves the
-- entries runs on fuel. A failed assertion ends the program.
use tas.Base.{
  ℕ, zero, suc, ◌+◌, ◌-◌, ◌*◌, ◌/◌, ◌%◌, ◌^◌, Bool, not, ◌&&◌, ◌||◌, Option, none, some, ltb, leb,
  ◌==◌, if◌then◌else◌, put, has, sub32, add32,
}
use tas.Fast.Classify.{Entry, ht_entries, ht_nbsz, entry_flow, entry_for}

abbrev pub HashTable : Type 0
HashTable = ℕ → Entry

unfoldable pub is_taken : Entry → Bool
is_taken e = has e.flow_id (2 ^ 31)

-- `(flow_id >> FLEXNIC_PL_FLOWHTE_POSSHIFT) & (FLEXNIC_PL_FLOWHT_NBSZ - 1)`, the recorded distance
unfoldable pub entry_dist : Entry → ℕ
entry_dist e = e.flow_id / 2 ^ 29 % ht_nbsz

-- `FLEXNIC_PL_FLOWHTE_VALID | (d << FLEXNIC_PL_FLOWHTE_POSSHIFT) | f_id`, for `d` below 4 and `f_id`
-- below 2^29
unfoldable pub taken_id : (d f_id : ℕ) → ℕ
taken_id d f_id = 2 ^ 31 + d * 2 ^ 29 + f_id

-- The first loop: the first empty slot of the last `rounds` from `i` on, with its distance.
unfoldable pub find_empty : HashTable → (rounds i d : ℕ) → Option (ℕ × ℕ)
find_empty t zero i d = none
find_empty t (suc rounds) i d =
    let later = find_empty t rounds ((i + 1) % ht_entries) (d + 1) in
    if is_taken (t i) then later else some (i, d)

-- The second loop: a candidate further up.
unfoldable pub find_candidate : HashTable → (rounds i : ℕ) → Option ℕ
find_candidate t zero i = none
find_candidate t (suc rounds) i =
    let later = find_candidate t rounds ((i + 1) % ht_entries) in
    if is_taken (t i) then later else some i

-- the entry to move, none, or a failed assertion
pub data Search : Type 0 where
  movable : ℕ → Search
  nothing_movable : Search
  empty_slot : Search

-- The third loop: an entry that may stand at `k` too, by its recorded distance.
unfoldable pub find_movable : HashTable → (k rounds i : ℕ) → Search
find_movable t k zero i = nothing_movable
find_movable t k (suc rounds) i =
    let later = find_movable t k rounds ((i + 1) % ht_entries) in
    if not (is_taken (t i))
    then empty_slot
    else if leb (sub32 k i % ht_entries) (ht_nbsz - 1 - entry_dist (t i))
    then movable i
    else later

-- `(k - FLEXNIC_PL_FLOWHT_NBSZ) % FLEXNIC_PL_FLOWHT_ENTRIES`
abbrev pub before : ℕ → ℕ
before k = sub32 k ht_nbsz % ht_entries

-- what is written to the empty slot, and to the entry that it is read from
unfoldable pub moved_entry : Entry → Entry
moved_entry e = record { flow_id = taken_id (entry_dist e) (entry_flow e); flow_hash = e.flow_hash }

unfoldable pub emptied : Entry → Entry
emptied e = record { flow_id = 0; flow_hash = e.flow_hash }

-- The entry at `i` is moved to `k`.
unfoldable pub move_entry : HashTable → (i k : ℕ) → HashTable
move_entry t i k = put (put t k (moved_entry (t i))) i (emptied (t i))

-- A slot with its distance, or -1, each with the table; or a failed assertion; or out of fuel.
pub data SlotResult : Type 0 where
  slot : (i d : ℕ) → HashTable → SlotResult
  no_slot : HashTable → SlotResult
  asserted : SlotResult
  still_moving : SlotResult

-- the condition of the fourth loop
unfoldable pub out_of_range : (j l i : ℕ) → Bool
out_of_range j l i = (ltb l j || (ltb i j || leb l i)) && (ltb j l || (leb l i && ltb i j))

-- one round of it, given what `find_movable` found and what the loop does from then on
unfoldable pub move_round : HashTable → (k : ℕ) → Search → (HashTable → ℕ → SlotResult) → SlotResult
move_round t k (movable i) further =
    if is_taken (t k) then asserted else further (move_entry t i k) i
move_round t k nothing_movable further = no_slot t
move_round t k empty_slot further = asserted

unfoldable pub move_loop : ℕ → (j l : ℕ) → HashTable → ℕ → SlotResult
move_loop zero j l t i = still_moving
move_loop (suc fuel) j l t i =
    let again = move_round t i (find_movable t i ht_nbsz (before i)) (move_loop fuel j l) in
    if out_of_range j l i then again else slot i (sub32 i j % ht_entries) t

unfoldable pub slot_from : ℕ → (j l : ℕ) → HashTable → Option ℕ → SlotResult
slot_from fuel j l t none = no_slot t
slot_from fuel j l t (some i) = move_loop fuel j l t i

-- by what the first loop finds
unfoldable pub slot_by : ℕ → (j : ℕ) → HashTable → Option (ℕ × ℕ) → SlotResult
slot_by fuel j t (some w) = slot w.0 w.1 t
slot_by fuel j t none =
    let l = (j + ht_nbsz) % ht_entries in slot_from fuel j l t (find_candidate t (4 * ht_nbsz) l)

unfoldable pub flow_slot_alloc : ℕ → HashTable → ℕ → SlotResult
flow_slot_alloc fuel t h = let j = h % ht_entries in slot_by fuel j t (find_empty t ht_nbsz j 0)

-- `e->flow_id &= ~FLEXNIC_PL_FLOWHTE_VALID` of a valid entry
unfoldable pub cleared : Entry → Entry
cleared e = record e { flow_id = e.flow_id - 2 ^ 31 }

-- The last `rounds` rounds of `flow_slot_clear`, or nothing for -1.
unfoldable pub clear_loop : HashTable → (f_id h rounds j : ℕ) → Option HashTable
clear_loop t f_id h zero j = none
clear_loop t f_id h (suc rounds) j =
    let k = add32 h j % ht_entries in
    let later = clear_loop t f_id h rounds (j + 1) in
    if not (entry_for (t k) h)
    then later
    else if entry_flow (t k) == f_id
    then some (put t k (cleared (t k)))
    else later

-- given the hash of the flow's addresses
unfoldable pub flow_slot_clear : HashTable → (f_id h : ℕ) → Option HashTable
flow_slot_clear t f_id h = clear_loop t f_id h ht_nbsz 0
