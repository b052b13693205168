-- ===== src/Slow/Nicif/Moves.antt =====
-- Moving entries of the hash table: none is lost, and each stays as near as its recorded distance allows.
use tas.Base.{
  ℕ, zero, suc, ◌+◌, ◌-◌, ◌/◌, ◌%◌, ◌^◌, ◌≤◌, ◌<◌, ◌≡◌, ◌≢◌, sym, ap, subst, ◌∙◌, arith, true,
  false, leb, put, put-same, put-other, sub32, Bool-cases, inl, inr,
}
use tas.Fast.Classify.{Entry, ht_entries, ht_nbsz, entry_flow}
use tas.Slow.Nicif.Slots.{
  HashTable, is_taken, entry_dist, taken_id, movable, empty_slot, find_movable, before, moved_entry,
  emptied, move_entry,
}

-- how many buckets `b` lies behind `a`
abbrev pub away : (a b : ℕ) → ℕ
away a b = (b + ht_entries - a) % ht_entries

-- an entry that may move to `k`, at most 4 buckets before it
pub record IsAhead (t : HashTable) (k m : ℕ) : Type 0 where
  pub inside : m < ht_entries
  pub taken : is_taken (t m) ≡ true
  pub near : away m k ≤ 3 - entry_dist (t m)
  pub back : 0 < away m k
  pub close : away m k ≤ 4

-- `rounds` buckets before `k`
IsBefore : (k rounds i : ℕ) → Type 0
IsBefore k rounds i = (i < ht_entries) × (away i k ≡ rounds)

movable_inj : {a b : ℕ} → movable a ≡ movable b → a ≡ b
movable_inj {a} {b} e = ap (λ s. elim s [ movable i ↦ i | _ ↦ a ]) e

find-IsAhead :
    (t : HashTable) (k rounds i m : ℕ)
    → k < ht_entries
    → rounds ≤ 4
    → IsBefore k rounds i
    → find_movable t k rounds i ≡ movable m
    → IsAhead t k m
unfolding find_movable IsBefore
find-IsAhead t k zero i m h r b e = absurd (ground (arith, e))
find-IsAhead t k (suc rounds) i m h r b e = elim (Bool-cases (is_taken (t i))) [
  | inr n ↦ absurd (ground (arith, rw n at e))
  | inl y ↦ elim (Bool-cases (leb (sub32 k i % ht_entries) (3 - entry_dist (t i)))) [
    | inr z ↦
        find-IsAhead t k rounds ((i + 1) % ht_entries) m h (omega arith)
          (omega (arith, b.0), omega (arith, b.0, b.1)) (rw (y, z) at e)
    | inl z ↦
        let same : i ≡ m = movable_inj (rw (y, z) at e) in
        let near : sub32 k i % ht_entries ≤ 3 - entry_dist (t i) = ground (arith, z) in
        subst (IsAhead t k) same (record {
          inside = b.0;
          taken = y;
          near = omega (arith, near, b.0, h);
          back = omega (arith, b.1);
          close = omega (arith, b.1, r);
        })
  ]
]

before-IsBefore : (k : ℕ) → k < ht_entries → IsBefore k 4 (before k)
unfolding IsBefore
before-IsBefore k h = (omega arith, omega arith)

-- What the search hands out.
pub search-IsAhead :
    (t : HashTable) (k m : ℕ)
    → k < ht_entries
    → find_movable t k ht_nbsz (before k) ≡ movable m
    → IsAhead t k m
search-IsAhead t k m h e = find-IsAhead t k 4 (before k) m h (omega arith) (before-IsBefore k h) e

-- an empty slot at most 4 buckets before `k`
unfoldable pub IsGap : (t : HashTable) (k : ℕ) → Type 0
IsGap t k = (x : ℕ) × (x < ht_entries) × (is_taken (t x) ≡ false) × (0 < away x k) × (away x k ≤ 4)

find-IsGap :
    (t : HashTable) (k rounds i : ℕ)
    → k < ht_entries
    → rounds ≤ 4
    → IsBefore k rounds i
    → find_movable t k rounds i ≡ empty_slot
    → IsGap t k
unfolding find_movable IsBefore IsGap
find-IsGap t k zero i h r b e = absurd (ground (arith, e))
find-IsGap t k (suc rounds) i h r b e = elim (Bool-cases (is_taken (t i))) [
  | inr n ↦ (i, b.0, n, omega (arith, b.1), omega (arith, b.1, r))
  | inl y ↦ elim (Bool-cases (leb (sub32 k i % ht_entries) (3 - entry_dist (t i)))) [
    | inl z ↦ absurd (ground (arith, rw (y, z) at e))
    | inr z ↦
        find-IsGap t k rounds ((i + 1) % ht_entries) h (omega arith)
          (omega (arith, b.0), omega (arith, b.0, b.1)) (rw (y, z) at e)
  ]
]

pub search-IsGap :
    (t : HashTable) (k : ℕ)
    → k < ht_entries
    → find_movable t k ht_nbsz (before k) ≡ empty_slot
    → IsGap t k
search-IsGap t k h e = find-IsGap t k 4 (before k) h (omega arith) (before-IsBefore k h) e

-- An entry that is 4 or more buckets behind `j` moves no further back than `j`.
pub away_split :
    (j k m : ℕ)
    → j < ht_entries
    → k < ht_entries
    → m < ht_entries
    → away m k ≤ 4
    → 4 ≤ away j k
    → away j m + away m k ≡ away j k
away_split j k m a b c d e = omega arith

pub away_self : (j i : ℕ) → j < ht_entries → i < ht_entries → away j i < ht_entries
away_self j i a b = omega arith

-- the moved entry is the entry
same_entry :
    (e : Entry)
    → is_taken e ≡ true
    → e.flow_id < 2 ^ 32
    → taken_id (entry_dist e) (entry_flow e) ≡ e.flow_id
unfolding is_taken taken_id entry_dist entry_flow
same_entry e t h = let bit : e.flow_id / 2 ^ 31 % 2 ≡ 1 = ground (arith, t) in omega (arith, bit)

module _ (t : HashTable) (i k : ℕ) where
  pub moved_there :
      i ≢ k → is_taken (t i) ≡ true → (t i).flow_id < 2 ^ 32 → move_entry t i k k ≡ t i
  unfolding move_entry moved_entry
  moved_there n y h =
      put-other (put t k (moved_entry (t i))) i (emptied (t i)) k (λ e. n (sym e))
      ∙ put-same t k (moved_entry (t i))
      ∙ ap (λ f. record (t i) { flow_id = f }) (same_entry (t i) y h)

  pub moved_away : is_taken (move_entry t i k i) ≡ false
  unfolding move_entry is_taken emptied
  moved_away = ap is_taken (put-same (put t k (moved_entry (t i))) i (emptied (t i)))

  pub unmoved : (x : ℕ) → x ≢ i → x ≢ k → move_entry t i k x ≡ t x
  unfolding move_entry
  unmoved x a b =
      put-other (put t k (moved_entry (t i))) i (emptied (t i)) x a
      ∙ put-other t k (moved_entry (t i)) x b
