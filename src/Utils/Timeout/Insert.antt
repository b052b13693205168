-- ===== src/Utils/Timeout/Insert.antt =====
-- The insertion into the list of pending timeouts.
use tas.Base.{
  ℕ, ◌+◌, ◌^◌, ◌<◌, ◌≡◌, refl, arith, true, List, [], ◌∷◌, Option, none, some, leb, ◌==◌,
  if◌then◌else◌, Bool-cases, inl, inr,
}
use tas.Utils.Timeout.{Timeout, rel_time_us, is_within, place, insert}
use tas.Utils.Timeout.Due.{ahead, ordered}

-- what `place` gives: the list is in order, or all of it is later
abbrev Placed : (cur us lo : ℕ) → Option (List Timeout) → List Timeout → Type 0
Placed cur us lo none ps = ordered cur us ps ≡ true
Placed cur us lo (some qs) ps = ordered cur lo qs ≡ true

within_iff :
    (p : Timeout) (cur us : ℕ)
    → cur < 2 ^ 28
    → p.ts < 2 ^ 28
    → ahead cur p < 2 ^ 27
    → is_within (rel_time_us cur p.ts) us ≡ leb (ahead cur p) us
unfolding rel_time_us
within_iff p cur us c b a = ground (arith, c, b, a)

place_step :
    (o : Option (List Timeout)) (cur us lo : ℕ) (t p : Timeout) (ps : List Timeout)
    → cur < 2 ^ 28
    → us < 2 ^ 27
    → t.ts < 2 ^ 28
    → ahead cur t ≡ us
    → ordered cur lo (p ∷ ps) ≡ true
    → Placed cur us (ahead cur p) o ps
    → Placed cur us lo
        (elim o as (λ _. Option (List Timeout)) [
          | some qs ↦ some (p ∷ qs)
          | none ↦ if is_within (rel_time_us cur p.ts) us then some (p ∷ t ∷ ps) else none
        ])
        (p ∷ ps)
place_step (some qs) cur us lo t p ps c u b a h k = ground (arith, h, k)
place_step none cur us lo t p ps c u b a h k =
    let i = within_iff p cur us c (ground (arith, h)) (ground (arith, h)) in
    elim (Bool-cases (leb (ahead cur p) us)) [
      | inl y ↦ rw (i, y, a) (ground (arith, h, k, b, u))
      | inr n ↦ rw (i, n) (ground (arith, h, n))
    ]

pub place-Placed :
    (ps : List Timeout) (cur us lo : ℕ) (t : Timeout)
    → cur < 2 ^ 28
    → us < 2 ^ 27
    → t.ts < 2 ^ 28
    → ahead cur t ≡ us
    → ordered cur lo ps ≡ true
    → Placed cur us lo (place cur us t ps) ps
unfolding place
place-Placed [] cur us lo t c u b a h = refl
place-Placed (p ∷ ps) cur us lo t c u b a h =
    place_step (place cur us t ps) cur us lo t p ps c u b a h
      (place-Placed ps cur us (ahead cur p) t c u b a (ground (arith, h)))

pub insert_if :
    (o : Option (List Timeout)) (cur us : ℕ) (t : Timeout) (ps : List Timeout)
    → us < 2 ^ 27
    → t.ts < 2 ^ 28
    → ahead cur t ≡ us
    → Placed cur us 0 o ps
    → ordered cur 0 (elim o as (λ _. List Timeout) [ none ↦ t ∷ ps | some qs ↦ qs ]) ≡ true
insert_if none cur us t ps u b a k = rw a (ground (arith, k, u, b))
insert_if (some qs) cur us t ps u b a k = k

-- how often the timeout `k` is in a list
abbrev pub count : ℕ → List Timeout → ℕ
count k [] = 0
count k (t ∷ ts) = (if t.id == k then 1 else 0) + count k ts

abbrev Counted : (k : ℕ) → Timeout → Option (List Timeout) → List Timeout → Type 0
Counted k t none ps = Unit {0}
Counted k t (some qs) ps = count k qs ≡ count k (t ∷ ps)

count_step :
    (k cur us : ℕ) (o : Option (List Timeout)) (t p : Timeout) (ps : List Timeout)
    → Counted k t o ps
    → Counted k t
        (elim o as (λ _. Option (List Timeout)) [
          | some qs ↦ some (p ∷ qs)
          | none ↦ if is_within (rel_time_us cur p.ts) us then some (p ∷ t ∷ ps) else none
        ])
        (p ∷ ps)
count_step k cur us (some qs) t p ps h = omega (arith, h)
count_step k cur us none t p ps h = elim (Bool-cases (is_within (rel_time_us cur p.ts) us)) [
  | inl y ↦ rw y (omega arith)
  | inr n ↦ rw n tt
]

place-Counted :
    (k cur us : ℕ) (t : Timeout) (ps : List Timeout) → Counted k t (place cur us t ps) ps
unfolding place
place-Counted k cur us t [] = tt
place-Counted k cur us t (p ∷ ps) =
    count_step k cur us (place cur us t ps) t p ps (place-Counted k cur us t ps)

count_if :
    (k : ℕ) (o : Option (List Timeout)) (t : Timeout) (ps : List Timeout)
    → Counted k t o ps
    → count k (elim o as (λ _. List Timeout) [ none ↦ t ∷ ps | some qs ↦ qs ]) ≡ count k (t ∷ ps)
count_if k none t ps h = refl
count_if k (some qs) t ps h = h

pub count-insert :
    (k cur us : ℕ) (t : Timeout) (ps : List Timeout)
    → count k (insert cur us t ps) ≡ count k (t ∷ ps)
unfolding insert
count-insert k cur us t ps = count_if k (place cur us t ps) t ps (place-Counted k cur us t ps)
