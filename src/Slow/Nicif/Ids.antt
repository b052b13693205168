-- ===== src/Slow/Nicif/Ids.antt =====
-- Flow identifiers are never handed out twice.
use tas.Base.{
  ℕ, zero, suc, ◌+◌, ◌≡◌, refl, sym, ap, ◌∙◌, arith, true, false, not, ◌&&◌, ◌||◌, Option, none,
  some, List, [], ◌∷◌, ◌==◌, ==_iff, if◌then◌else◌, mem, distinct, Bool-cases, inl, inr, ltb,
}
use tas.Slow.Nicif.{flowst_num, ids_from, flow_id_alloc_init, flow_id_alloc, flow_id_free}

-- allocations, and frees of an identifier
pub data IdEvent : Type 0 where
  alloc : IdEvent
  free : ℕ → IdEvent

-- The free identifiers and the ones in use. Only one in use is freed.
pub record IdState : Type 0 where
  pub free_ids : List ℕ
  pub used : List ℕ

unfoldable pub without_id : ℕ → List ℕ → List ℕ
without_id i [] = []
without_id i (x ∷ xs) = let later = without_id i xs in if i == x then xs else x ∷ later

unfoldable pub after_alloc : IdState → Option (ℕ × List ℕ) → IdState
after_alloc s none = s
after_alloc s (some w) = record { free_ids = w.1; used = w.0 ∷ s.used }

unfoldable pub id_event : IdEvent → IdState → IdState
id_event alloc s = after_alloc s (flow_id_alloc s.free_ids)
id_event (free i) s =
    if mem i s.used
    then record { free_ids = flow_id_free i s.free_ids; used = without_id i s.used }
    else s

unfoldable pub id_run : List IdEvent → IdState → IdState
id_run [] s = s
id_run (e ∷ es) s = id_run es (id_event e s)

-- Every identifier below 2^17 is either free or in use, and once.
pub record IsShared (s : IdState) : Type 0 where
  pub free_once : distinct s.free_ids ≡ true
  pub used_once : distinct s.used ≡ true
  pub disjoint : (i : ℕ) → mem i s.free_ids ≡ true → mem i s.used ≡ false
  pub all_known : (i : ℕ) → (mem i s.free_ids || mem i s.used) ≡ ltb i flowst_num

mem-ids_from : (n k i : ℕ) → mem i (ids_from n k) ≡ (not (ltb i k) && ltb i (k + n))
unfolding ids_from
mem-ids_from zero k i = ground arith
mem-ids_from (suc n) k i = ground (arith, mem-ids_from n (k + 1) i)

distinct-ids_from : (n k : ℕ) → distinct (ids_from n k) ≡ true
unfolding ids_from
distinct-ids_from zero k = refl
distinct-ids_from (suc n) k = ground (arith, distinct-ids_from n (k + 1), mem-ids_from n (k + 1) k)

mem-without :
    (i j : ℕ) (l : List ℕ) → distinct l ≡ true → mem j (without_id i l) ≡ (mem j l && not (j == i))
unfolding without_id
mem-without i j [] d = refl
mem-without i j (x ∷ xs) d =
    let later = mem-without i j xs (ground (arith, d)) in
    elim (Bool-cases (i == x)) [
      | inl y ↦
          let at : i ≡ x = (==_iff i x).0 y in
          elim (Bool-cases (j == x)) [
            | inl z ↦
                let same : j ≡ x = (==_iff j x).0 z in
                let there : (j == i) ≡ true = ground (arith, at, same) in
                let gone : mem j xs ≡ false = rw same (ground (arith, d)) in rw (y, z, there) gone
            | inr z ↦
                let there : (j == i) ≡ false = ground (arith, at, z) in
                rw (y, z, there) (ground arith)
          ]
      | inr n ↦ rw n (ground (arith, later, n, ==_iff i x, ==_iff j x, ==_iff j i))
    ]

distinct-without : (i : ℕ) (l : List ℕ) → distinct l ≡ true → distinct (without_id i l) ≡ true
unfolding without_id
distinct-without i [] d = refl
distinct-without i (x ∷ xs) d =
    ground
      (arith, d, distinct-without i xs (ground (arith, d)), mem-without i x xs (ground (arith, d)))

other_than : (x : ℕ) (xs : List ℕ) (j : ℕ) → mem x xs ≡ false → mem j xs ≡ true → (j == x) ≡ false
other_than x xs j n h = elim (Bool-cases (j == x)) [
  | inr m ↦ m
  | inl y ↦ let same : j ≡ x = (==_iff j x).0 y in absurd (ground (arith, n, rw same at h))
]

alloc-IsShared :
    (s : IdState) (l : List ℕ)
    → s.free_ids ≡ l
    → IsShared s
    → IsShared (after_alloc s (flow_id_alloc l))
unfolding after_alloc flow_id_alloc
alloc-IsShared s [] e i = i
alloc-IsShared s (x ∷ xs) e i =
    let once : distinct (x ∷ xs) ≡ true = ap distinct (sym e) ∙ i.free_once in
    let here : mem x (x ∷ xs) ≡ true = ground arith in
    let fresh : mem x s.used ≡ false = i.disjoint x (ap (mem x) e ∙ here) in
    record {
      free_once = ground (arith, once);
      used_once = ground (arith, fresh, i.used_once);
      disjoint = λ j h.
          let other : mem j s.used ≡ false = i.disjoint j (ap (mem j) e ∙ ground (arith, h)) in
          let n = other_than x xs j (ground (arith, once)) h in ground (arith, other, n);
      all_known = λ j.
          let known = ap (λ q. mem j q || mem j s.used) (sym e) ∙ i.all_known j in
          ground (arith, known);
    }

free-IsShared :
    (s : IdState) (x : ℕ)
    → mem x s.used ≡ true
    → IsShared s
    → IsShared (record { free_ids = flow_id_free x s.free_ids; used = without_id x s.used })
unfolding flow_id_free
free-IsShared s x m i =
    let w = λ (j : ℕ). mem-without x j s.used i.used_once in
    let fresh : mem x s.free_ids ≡ false = elim (Bool-cases (mem x s.free_ids)) [
      | inr n ↦ n
      | inl y ↦ absurd (ground (arith, i.disjoint x y, m))
    ] in
    record {
      free_once = ground (arith, fresh, i.free_once);
      used_once = distinct-without x s.used i.used_once;
      disjoint = λ j h. apart j h (w j);
      all_known = λ j. known j (w j) (i.all_known j);
    }
  where
    apart :
        (j : ℕ)
        → ((j == x) || mem j s.free_ids) ≡ true
        → mem j (without_id x s.used) ≡ (mem j s.used && not (j == x))
        → mem j (without_id x s.used) ≡ false
    apart j h e = elim (Bool-cases (j == x)) [
      | inl y ↦ rw (e, y) (ground arith)
      | inr n ↦ let u : mem j s.used ≡ false = i.disjoint j (ground (arith, h, n)) in rw (e, u) refl
    ]

    known :
        (j : ℕ)
        → mem j (without_id x s.used) ≡ (mem j s.used && not (j == x))
        → (mem j s.free_ids || mem j s.used) ≡ ltb j flowst_num
        → (((j == x) || mem j s.free_ids) || mem j (without_id x s.used)) ≡ ltb j flowst_num
    known j e k = elim (Bool-cases (j == x)) [
      | inr n ↦ ground (arith, e, k, n)
      | inl y ↦
          let here : mem j s.used ≡ true = rw ((==_iff j x).0 y) m in ground (arith, y, here, k)
    ]

event-IsShared : (e : IdEvent) (s : IdState) → IsShared s → IsShared (id_event e s)
unfolding id_event
event-IsShared alloc s i = alloc-IsShared s s.free_ids refl i
event-IsShared (free x) s i = elim (Bool-cases (mem x s.used)) [
  | inl y ↦ rw y (free-IsShared s x y i)
  | inr n ↦ rw n i
]

events-IsShared : (es : List IdEvent) (s : IdState) → IsShared s → IsShared (id_run es s)
unfolding id_run
events-IsShared [] s i = i
events-IsShared (e ∷ es) s i = events-IsShared es (id_event e s) (event-IsShared e s i)

-- After `flow_id_alloc_init` and any sequence of allocations, and of frees of identifiers in use, every
-- identifier below 2^17 is either free or in use, no other number is, and neither list has an identifier
-- twice.
pub ids-IsShared :
    (es : List IdEvent) → IsShared (id_run es (record { free_ids = flow_id_alloc_init; used = [] }))
unfolding flow_id_alloc_init
ids-IsShared es =
    events-IsShared es (record { free_ids = flow_id_alloc_init; used = [] })
      (record {
        free_once = distinct-ids_from flowst_num 0;
        used_once = refl;
        disjoint = λ i h. refl;
        all_known = λ i. ground (arith, mem-ids_from flowst_num 0 i);
      })
