-- ===== src/Slow/Packetmem/Cover.antt =====
-- Which bytes are free: neither operation loses or invents one.
use tas.Base.{
  ℕ, ◌+◌, ◌-◌, ◌≤◌, ◌≡◌, refl, ap, subst, ◌∙◌, arith, Bool, true, false, Option, none, some, List,
  [], ◌∷◌, ltb, leb, ◌&&◌, ◌==◌, if◌then◌else◌, put, put-same, Bool-cases, inl, inr, ◌>>=◌,
}
use tas.Slow.Packetmem.{
  Handle, FreeLists, take_block, alloc_block, packetmem_alloc, merge_successor, merge_items,
  free_after, free_block, packetmem_free,
}

-- 1 for a byte of the block
unfoldable pub within : Handle → ℕ → ℕ
within h a = if leb h.base a && ltb a (h.base + h.len) then 1 else 0

-- how many of the blocks hold the byte
unfoldable pub cover : List Handle → ℕ → ℕ
cover [] a = 0
cover (h ∷ hs) a = within h a + cover hs a

-- the handle has the length, and with what is left it covers the list
IsTaken : ℕ → List Handle → Option (Handle × List Handle) → ℕ → Type 0
IsTaken n l none a = Unit
IsTaken n l (some r) a = (r.0.len ≡ n) × (within r.0 a + cover r.1 a ≡ cover l a)

split_within :
    (p : Handle) (n a : ℕ)
    → n ≤ p.len
    → within (record { base = p.base; len = n }) a
        + within (record { base = p.base + n; len = p.len - n }) a
      ≡ within p a
unfolding within
split_within p n a h = ground arith

IsTaken-take_block :
    (ok : Bool) (n : ℕ) (ph : Handle) (rest : List Handle) (a : ℕ)
    → n ≤ ph.len
    → IsTaken n (ph ∷ rest) (take_block ok n ph rest) a
unfolding take_block cover IsTaken
IsTaken-take_block ok n ph rest a h = elim (Bool-cases (ph.len == n)) [
  | inl e ↦ rw e (ground (arith, e), refl)
  | inr e ↦ rw e (split ok)
]
  where
    split :
        (b : Bool)
        → IsTaken n
            (ph ∷ rest)
            (if b
              then some (
                record { base = ph.base; len = n },
                record { base = ph.base + n; len = ph.len - n } ∷ rest,
              )
              else none)
            a
    split true = (refl, omega (arith, split_within ph n a h))
    split false = tt

behind :
    (n : ℕ) (ph : Handle) (rest : List Handle) (a : ℕ) (r : Option (Handle × List Handle))
    → IsTaken n rest r a
    → IsTaken n (ph ∷ rest) (r >>= (λ w. some (w.0, ph ∷ w.1))) a
unfolding cover IsTaken
behind n ph rest a none h = tt
behind n ph rest a (some r) h = (h.0, omega (arith, h.1))

IsTaken-alloc_block :
    (ok : Bool) (n : ℕ) (l : List Handle) (a : ℕ) → IsTaken n l (alloc_block ok n l) a
unfolding alloc_block IsTaken
IsTaken-alloc_block ok n [] a = tt
IsTaken-alloc_block ok n (ph ∷ rest) a = elim (Bool-cases (ltb ph.len n)) [
  | inl e ↦ rw e (behind n ph rest a (alloc_block ok n rest) (IsTaken-alloc_block ok n rest a))
  | inr e ↦ rw e (IsTaken-take_block ok n ph rest a (ground (arith, e)))
]

join_within :
    (p q : Handle) (a : ℕ)
    → p.base + p.len ≡ q.base
    → within (record { base = p.base; len = p.len + q.len }) a ≡ within p a + within q a
unfolding within
join_within p q a e = ground arith

cover-merge_successor :
    (h : Handle) (l : List Handle) (a : ℕ) → cover (merge_successor h l) a ≡ within h a + cover l a
unfolding cover merge_successor
cover-merge_successor h [] a = refl
cover-merge_successor h (n ∷ l) a = ground (arith, join_within h n a)

cover-merge_items :
    (p h : Handle) (l : List Handle) (a : ℕ)
    → cover (merge_items p h l) a ≡ within h a + (within p a + cover l a)
unfolding cover merge_items
cover-merge_items p h l a = ground (
  arith,
  join_within p h a,
  cover-merge_successor h l a,
  cover-merge_successor (record { base = p.base; len = p.len + h.len }) l a,
)

cover-free_after :
    (h p : Handle) (l : List Handle) (a : ℕ)
    → cover (free_after h p l) a ≡ within h a + (within p a + cover l a)
unfolding cover free_after
cover-free_after h p [] a = cover-merge_items p h [] a
cover-free_after h p (q ∷ l) a =
    ground (arith, cover-free_after h q l a, cover-merge_items p h (q ∷ l) a)

cover-free_block :
    (h : Handle) (l : List Handle) (a : ℕ) → cover (free_block h l) a ≡ within h a + cover l a
unfolding cover free_block
cover-free_block h [] a = cover-merge_successor h [] a
cover-free_block h (p ∷ l) a =
    ground (arith, cover-free_after h p l a, cover-merge_successor h (p ∷ l) a)

-- the handle has the length, what the lists of VMs hold changes only for `v`, by its bytes
IsTakenBy : ℕ → FreeLists → ℕ → Option (Handle × FreeLists) → ℕ → Type 0
IsTakenBy n fl v none a = Unit
IsTakenBy n fl v (some r) a = (r.0.len ≡ n) × (within r.0 a + cover (r.1 v) a ≡ cover (fl v) a)

taken_by :
    (n : ℕ) (fl : FreeLists) (v a : ℕ) (r : Option (Handle × List Handle))
    → IsTaken n (fl v) r a
    → IsTakenBy n fl v (r >>= (λ w. some (w.0, put fl v w.1))) a
unfolding IsTaken IsTakenBy
taken_by n fl v a none h = tt
taken_by n fl v a (some r) h = (h.0, rw (put-same fl v r.1) h.1)

-- A block that `packetmem_alloc` hands out has the length asked for. Each byte is as often free in the
-- VM's list as before, once less within the block.
pub alloc_covers :
    (ok : Bool) (n : ℕ) (fl : FreeLists) (v a : ℕ) (h : Handle) (after : FreeLists)
    → packetmem_alloc ok n fl v ≡ some (h, after)
    → (h.len ≡ n) × (within h a + cover (after v) a ≡ cover (fl v) a)
unfolding packetmem_alloc IsTakenBy
alloc_covers ok n fl v a h after e =
    subst (λ r. IsTakenBy n fl v r a) e
      (taken_by n fl v a (alloc_block ok n (fl v)) (IsTaken-alloc_block ok n (fl v) a))

-- After `packetmem_free` each byte is as often free in the VM's list as before, once more within the
-- block.
pub free_covers :
    (h : Handle) (fl : FreeLists) (v a : ℕ)
    → cover (packetmem_free h fl v v) a ≡ within h a + cover (fl v) a
unfolding packetmem_free
free_covers h fl v a =
    ap (λ l. cover l a) (put-same fl v (free_block h (fl v))) ∙ cover-free_block h (fl v) a
