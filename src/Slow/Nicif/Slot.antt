-- ===== src/Slow/Nicif/Slot.antt =====
-- What `flow_slot_alloc` hands out, and what it does to the flows that have a slot.
use tas.Base.{
  ℕ, zero, suc, ◌+◌, ◌%◌, ◌≤◌, ◌<◌, ◌≡◌, refl, sym, subst, ◌∙◌, arith, true, false, Option, none,
  some, leb, sub32, Bool-cases, inl, inr, ℕ_discrete,
}
use tas.Fast.Classify.{ht_entries, ht_nbsz}
use tas.Slow.Nicif.Slots.{
  HashTable, is_taken, find_empty, find_candidate, Search, movable, nothing_movable, empty_slot,
  find_movable, before, move_entry, SlotResult, slot, no_slot, asserted, still_moving, out_of_range,
  move_round, move_loop, slot_from, slot_by, flow_slot_alloc,
}
use tas.Slow.Nicif.Moves.{away, search-IsAhead, IsGap, search-IsGap, away_split}
use tas.Slow.Nicif.Open.{IsKept, AreWords, IsOpen, step-IsOpen}

-- What the allocation promises of a table.
unfoldable pub Allocates : HashTable → ℕ → SlotResult → Type 0
Allocates t j (slot i d t') =
    (i < ht_entries)
    × (d < 4)
    × (d ≡ away j i)
    × (is_taken (t' i) ≡ false)
    × ((x : ℕ) → x < ht_entries → is_taken (t x) ≡ true → IsKept t t' x)
Allocates t j (no_slot t') = (x : ℕ) → x < ht_entries → is_taken (t x) ≡ true → IsKept t t' x
Allocates t j asserted = ⊥
Allocates t j still_moving = ⊥

all-IsKept :
    (t0 t : HashTable) (j i : ℕ)
    → IsOpen t0 t j i
    → (x : ℕ) → x < ht_entries
    → is_taken (t0 x) ≡ true
    → IsKept t0 t x
unfolding IsKept
all-IsKept t0 t j i o x h y = elim (o.kept x h y) [
  | inl e ↦ inl e
  | inr w ↦ inr (w.0, w.1, w.2, w.3)
]

range_iff :
    (j i : ℕ)
    → j < ht_entries
    → i < ht_entries
    → out_of_range j ((j + ht_nbsz) % ht_entries) i ≡ leb 4 (away j i)
unfolding out_of_range
range_iff j i a b = ground arith

slot_word : (j i : ℕ) → j < ht_entries → i < ht_entries → sub32 i j % ht_entries ≡ away j i
slot_word j i a b = omega arith

no_gap :
    (t0 t : HashTable) (j i : ℕ) → j < ht_entries → 4 ≤ away j i → IsOpen t0 t j i → IsGap t i → ⊥
unfolding IsGap
no_gap t0 t j i h d o g =
    let split = away_split j i g.0 h o.inside g.1 g.4 d in
    ground (arith, sym (o.full g.0 g.1 (omega (arith, split, g.3))) ∙ g.2)

round-Allocates :
    (t0 t : HashTable) (j i : ℕ) (s : Search) (further : HashTable → ℕ → SlotResult)
    → j < ht_entries
    → AreWords t0
    → 4 ≤ away j i
    → IsOpen t0 t j i
    → find_movable t i ht_nbsz (before i) ≡ s
    → ((u : HashTable) (m : ℕ)
        → away j m < away j i
        → IsOpen t0 u j m
        → Allocates t0 j (further u m))
    → Allocates t0 j (move_round t i s further)
unfolding move_round Allocates
round-Allocates t0 t j i (movable m) further h words d o e next =
    let a = search-IsAhead t i m o.inside e in
    let split = away_split j i m h o.inside a.inside a.close d in
    let less : away j m < away j i = omega (arith, split, a.back) in
    rw (o.hole) (next (move_entry t m i) m less (step-IsOpen t0 t j i m h words a o less))
round-Allocates t0 t j i nothing_movable further h words d o e next = all-IsKept t0 t j i o
round-Allocates t0 t j i empty_slot further h words d o e next =
    no_gap t0 t j i h d o (search-IsGap t i o.inside e)

here-Allocates :
    (t0 t : HashTable) (j i : ℕ)
    → j < ht_entries
    → away j i < 4
    → IsOpen t0 t j i
    → Allocates t0 j (slot i (sub32 i j % ht_entries) t)
unfolding Allocates
here-Allocates t0 t j i h near o =
    let d = slot_word j i h o.inside in
    (o.inside, omega (arith, d, near), d, o.hole, all-IsKept t0 t j i o)

move_loop-Allocates :
    (fuel : ℕ) (t0 t : HashTable) (j i : ℕ)
    → j < ht_entries
    → AreWords t0
    → away j i < 4 + fuel
    → IsOpen t0 t j i
    → Allocates t0 j (move_loop (suc fuel) j ((j + ht_nbsz) % ht_entries) t i)
unfolding move_loop
move_loop-Allocates zero t0 t j i h words enough o =
    let range = range_iff j i h o.inside in
    let near : leb 4 (away j i) ≡ false = ground (arith, enough) in
    rw (range, near) (here-Allocates t0 t j i h (omega (arith, enough)) o)
move_loop-Allocates (suc n) t0 t j i h words enough o =
    let range = range_iff j i h o.inside in
    elim (Bool-cases (leb 4 (away j i))) [
      | inr near ↦ rw (range, near) (here-Allocates t0 t j i h (ground (arith, near)) o)
      | inl far ↦
          rw (range, far)
            (round-Allocates t0 t j i (find_movable t i ht_nbsz (before i))
              (move_loop (suc n) j ((j + ht_nbsz) % ht_entries)) h words (ground (arith, far)) o
              refl
              (λ u m less p.
                move_loop-Allocates n t0 u j m h words (omega (arith, less, enough)) p))
    ]

-- The first empty slot of the `n` buckets from `j` on, with its distance.
IsFirst : (t : HashTable) (j n : ℕ) → Option (ℕ × ℕ) → Type 0
IsFirst t j n none = (x : ℕ) → x < ht_entries → away j x < n → is_taken (t x) ≡ true
IsFirst t j n (some w) =
    (w.0 < ht_entries)
    × (w.1 < n)
    × (w.1 ≡ away j w.0)
    × (is_taken (t w.0) ≡ false)
    × ((x : ℕ) → x < ht_entries → away j x < away j w.0 → is_taken (t x) ≡ true)

one_more :
    (t : HashTable) (j i d : ℕ)
    → j < ht_entries
    → i < ht_entries
    → away j i ≡ d
    → is_taken (t i) ≡ true
    → ((x : ℕ) → x < ht_entries → away j x < d → is_taken (t x) ≡ true)
    → (x : ℕ) → x < ht_entries
    → away j x < d + 1
    → is_taken (t x) ≡ true
one_more t j i d h hi e y full x hx l = elim (ℕ_discrete (away j x) d) [
  | no n ↦ full x hx (omega (arith, l, n))
  | yes w ↦ let same : i ≡ x = omega (arith, w, e) in subst (λ k. is_taken (t k) ≡ true) same y
]

empty-IsFirst :
    (t : HashTable) (j rounds i d : ℕ)
    → j < ht_entries
    → i < ht_entries
    → away j i ≡ d
    → d + rounds ≤ 24
    → ((x : ℕ) → x < ht_entries → away j x < d → is_taken (t x) ≡ true)
    → IsFirst t j (d + rounds) (find_empty t rounds i d)
unfolding find_empty IsFirst
empty-IsFirst t j zero i d h hi e small full = λ x hx l. full x hx (omega (arith, l))
empty-IsFirst t j (suc rounds) i d h hi e small full = elim (Bool-cases (is_taken (t i))) [
  | inr n ↦ rw n (hi, omega arith, sym e, n, λ x hx l. full x hx (omega (arith, l, e)))
  | inl y ↦
      let more : d + 1 + rounds ≡ d + suc rounds = omega arith in
      let later =
        empty-IsFirst t j rounds ((i + 1) % ht_entries) (d + 1) h (omega arith)
          (omega (arith, e, h, hi, small)) (omega (arith, small))
          (one_more t j i d h hi e y full) in
      rw y
        (subst (λ n. IsFirst t j n (find_empty t rounds ((i + 1) % ht_entries) (d + 1))) more later)
]

-- the second search is the first one without the distance
place_of : Option (ℕ × ℕ) → Option ℕ
place_of none = none
place_of (some w) = some w.0

candidate_lem :
    (t : HashTable) (rounds i d : ℕ)
    → find_candidate t rounds i ≡ place_of (find_empty t rounds i d)
unfolding find_candidate find_empty place_of
candidate_lem t zero i d = refl
candidate_lem t (suc rounds) i d = elim (Bool-cases (is_taken (t i))) [
  | inr n ↦ rw n refl
  | inl y ↦ rw y (candidate_lem t rounds ((i + 1) % ht_entries) (d + 1))
]

same_table :
    (t : HashTable) (j i : ℕ)
    → i < ht_entries
    → is_taken (t i) ≡ false
    → ((x : ℕ) → x < ht_entries → away j x < away j i → is_taken (t x) ≡ true)
    → IsOpen t t j i
same_table t j i a b c = record { inside = a; hole = b; full = c; kept = λ x hx y. inl refl }

from-Allocates :
    (fuel : ℕ) (t : HashTable) (j : ℕ) (o : Option (ℕ × ℕ))
    → j < ht_entries
    → AreWords t
    → 16 ≤ fuel
    → IsFirst t j 20 o
    → Allocates t j (slot_from (suc fuel) j ((j + ht_nbsz) % ht_entries) t (place_of o))
unfolding slot_from place_of Allocates IsFirst IsKept
from-Allocates fuel t j none h words f w = λ x hx y. inl refl
from-Allocates fuel t j (some c) h words f w =
    move_loop-Allocates fuel t t j c.0 h words (omega (arith, w.1, w.2, f))
      (same_table t j c.0 w.0 w.3 w.4)

by-Allocates :
    (fuel : ℕ) (t : HashTable) (j : ℕ) (o : Option (ℕ × ℕ))
    → j < ht_entries
    → AreWords t
    → 16 ≤ fuel
    → IsFirst t j 4 o
    → Allocates t j (slot_by (suc fuel) j t o)
unfolding slot_by IsFirst Allocates IsKept
by-Allocates fuel t j (some c) h words f w = (w.0, w.1, w.2, w.3, λ x hx y. inl refl)
by-Allocates fuel t j none h words f w =
    let l = (j + ht_nbsz) % ht_entries in
    let first : IsFirst t j 20 (find_empty t 16 l 4) =
      empty-IsFirst t j 16 l 4 h (omega arith) (omega (arith, h)) (omega arith) w in
    subst (λ o. Allocates t j (slot_from (suc fuel) j l t o)) (sym (candidate_lem t 16 l 4))
      (from-Allocates fuel t j (find_empty t 16 l 4) h words f first)

-- With fuel 17 or more and flow identifiers that are 32-bit words, `flow_slot_alloc` ends and fails no
-- assertion. A slot that it hands out is free, and at most 3 buckets from the hash's, by the distance
-- that it returns. Whether it hands one out or not, each entry still stands in the table, where it was
-- or further up by no more than its recorded distance leaves of the 3 buckets.
pub slot_alloc-Allocates :
    (fuel : ℕ) (t : HashTable) (h : ℕ)
    → 17 ≤ fuel
    → AreWords t
    → Allocates t (h % ht_entries) (flow_slot_alloc fuel t h)
unfolding flow_slot_alloc
slot_alloc-Allocates zero t h f words = absurd (omega arith)
slot_alloc-Allocates (suc fuel) t h f words =
    let j = h % ht_entries in
    let in_table : j < ht_entries = omega arith in
    by-Allocates fuel t j (find_empty t 4 j 0) in_table words (omega (arith, f)) (
      empty-IsFirst t j 4 j 0 in_table in_table (omega (arith, in_table)) (omega arith)
        (λ x hx l. absurd (omega (arith, l))))
