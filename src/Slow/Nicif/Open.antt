-- ===== src/Slow/Nicif/Open.antt =====
-- The hash table while entries are moved up: one slot is empty.
use tas.Base.{
  ℕ, ◌-◌, ◌^◌, ◌≤◌, ◌<◌, ◌≡◌, ◌≢◌, ◌⊎◌, sym, ap, subst, ◌∙◌, arith, true, false, inl, inr,
  ℕ_discrete,
}
use tas.Fast.Classify.{ht_entries}
use tas.Slow.Nicif.Slots.{HashTable, is_taken, entry_dist, move_entry}
use tas.Slow.Nicif.Moves.{away, IsAhead, moved_there, moved_away, unmoved}

-- The entry that stood at `x` stands there, or at one bucket, as far up as its recorded distance
-- allows.
unfoldable pub IsKept : (t t' : HashTable) → ℕ → Type 0
IsKept t t' x =
    (t' x ≡ t x) ⊎ ((y : ℕ) × (y < ht_entries) × (t' y ≡ t x) × (away x y ≤ 3 - entry_dist (t x)))

-- The flow identifiers are 32-bit words.
abbrev pub AreWords : HashTable → Type 0
AreWords t = (x : ℕ) → (t x).flow_id < 2 ^ 32

-- the same during the loop, where the empty slot is at `i`; the moved entries lie behind it
pub record IsOpen (t0 t : HashTable) (j i : ℕ) : Type 0 where
  pub inside : i < ht_entries
  pub hole : is_taken (t i) ≡ false
  pub full : (x : ℕ) → x < ht_entries → away j x < away j i → is_taken (t x) ≡ true
  pub kept :
      (x : ℕ)
      → x < ht_entries
      → is_taken (t0 x) ≡ true
      → (t x ≡ t0 x)
        ⊎ ((y : ℕ) × (y < ht_entries)
            × (t y ≡ t0 x)
            × (away x y ≤ 3 - entry_dist (t0 x))
            × (away j i < away j y))

not_taken :
    (t t0 : HashTable) (x : ℕ) → t x ≡ t0 x → is_taken (t0 x) ≡ true → is_taken (t x) ≡ false → ⊥
not_taken t t0 x e y n = ground (arith, sym (ap is_taken e ∙ y) ∙ n)

module _ (t0 t : HashTable) (j k m : ℕ) (h : j < ht_entries) (words : AreWords t0)
    (a : IsAhead t k m) (o : IsOpen t0 t j k) (less : away j m < away j k) where
  apart : m ≢ k
  apart e = omega (arith, e, a.back, a.inside)

  -- where the entry of `x` is after the move
  abbrev KeptAt : ℕ → Type 0
  KeptAt x =
      (move_entry t m k x ≡ t0 x)
      ⊎ ((y : ℕ) × (y < ht_entries)
          × (move_entry t m k y ≡ t0 x)
          × (away x y ≤ 3 - entry_dist (t0 x))
          × (away j m < away j y))

  kept_moved : t m ≡ t0 m → KeptAt m
  kept_moved e =
      let word : (t m).flow_id < 2 ^ 32 = subst (λ f. f.flow_id < 2 ^ 32) (sym e) (words m) in
      inr (
        k,
        o.inside,
        moved_there t m k apart a.taken word ∙ e,
        subst (λ f. away m k ≤ 3 - entry_dist f) e a.near,
        less,
      )

  kept_same : (x : ℕ) → x ≢ m → is_taken (t0 x) ≡ true → t x ≡ t0 x → KeptAt x
  kept_same x n y e =
      let other : x ≢ k = λ w. not_taken t t0 x e y (ap (λ i. is_taken (t i)) w ∙ o.hole) in
      inl (unmoved t m k x n other ∙ e)

  kept_before :
      (x : ℕ)
      → ((y : ℕ) × (y < ht_entries)
          × (t y ≡ t0 x)
          × (away x y ≤ 3 - entry_dist (t0 x))
          × (away j k < away j y))
      → KeptAt x
  kept_before x w =
      let here : w.0 ≢ m = λ e. omega (arith, less, w.4, ap (away j) e) in
      let there : w.0 ≢ k = λ e. omega (arith, w.4, ap (away j) e) in
      inr (w.0, w.1, unmoved t m k w.0 here there ∙ w.2, w.3, omega (arith, less, w.4))

  kept_at : (x : ℕ) → x < ht_entries → is_taken (t0 x) ≡ true → KeptAt x
  kept_at x hx y = elim (o.kept x hx y) [
    | inr w ↦ kept_before x w
    | inl e ↦ elim (ℕ_discrete x m) [
      | no n ↦ kept_same x n y e
      | yes w ↦ subst KeptAt (sym w) (kept_moved (subst (λ i. t i ≡ t0 i) w e))
    ]
  ]

  pub step-IsOpen : IsOpen t0 (move_entry t m k) j m
  step-IsOpen = record {
    inside = a.inside;
    hole = moved_away t m k;
    full = λ x hx l.
        let here : x ≢ m = λ e. omega (arith, l, ap (away j) e) in
        let there : x ≢ k = λ e. omega (arith, l, less, ap (away j) e) in
        ap is_taken (unmoved t m k x here there) ∙ o.full x hx (omega (arith, l, less));
    kept = kept_at;
  }
