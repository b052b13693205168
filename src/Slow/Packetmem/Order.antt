-- ===== src/Slow/Packetmem/Order.antt =====
-- Where a freed block lands in the list.
use tas.Base.{
  ℕ, ◌+◌, ◌-◌, ◌<◌, ◌≡◌, refl, ap, sym, ◌∙◌, arith, Bool, true, false, none, some, List, [], ◌∷◌,
  ltb, ◌==◌, put, put-same, ◌>>=◌,
}
use tas.Slow.Packetmem.{
  Handle, FreeLists, take_block, alloc_block, packetmem_alloc, merge_successor, walks_on,
  free_block, packetmem_free,
}

-- the first `n` bytes of a block, and the others
abbrev start_of : ℕ → Handle → Handle
start_of n p = record { base = p.base; len = n }

abbrev rest_of : ℕ → Handle → Handle
rest_of n p = record { base = p.base + n; len = p.len - n }

alloc_split :
    (n : ℕ) (p : Handle) (rest : List Handle)
    → n < p.len
    → alloc_block true n (p ∷ rest) ≡ some (start_of n p, rest_of n p ∷ rest)
unfolding alloc_block take_block
alloc_split n p rest h =
    let long : ltb p.len n ≡ false = ground arith in
    let longer : (p.len == n) ≡ false = ground arith in rw (long, longer) refl

rejoin :
    (n : ℕ) (p : Handle) (rest : List Handle)
    → n < p.len
    → merge_successor (start_of n p) (rest_of n p ∷ rest) ≡ p ∷ rest
unfolding merge_successor
rejoin n p rest h =
    let adjacent : (p.base + n == p.base + n) ≡ true = ground arith in
    rw adjacent (ap (λ l. record p { len = l } ∷ rest) (omega arith))

free_split :
    (n : ℕ) (p : Handle) (rest : List Handle)
    → n < p.len
    → walks_on p rest ≡ false
    → free_block (start_of n p) (rest_of n p ∷ rest) ≡ p ∷ rest
unfolding free_block walks_on
free_split n p [] h o = rejoin n p [] h
free_split n p (q ∷ rest) h o = rw o (rejoin n p (q ∷ rest) h)

-- Let `fl v` begin with a block of more than `n` bytes that starts no later than the block that the
-- list has next, if it has one. Then `packetmem_alloc` of `n` bytes for the VM `v`, where its `malloc`
-- has memory, succeeds, and freeing its block at once gives back the list.
pub free-alloc :
    (n : ℕ) (fl : FreeLists) (v : ℕ) (p : Handle) (rest : List Handle)
    → fl v ≡ p ∷ rest
    → n < p.len
    → walks_on p rest ≡ false
    → (h : Handle) × (after : FreeLists) × (packetmem_alloc true n fl v ≡ some (h, after))
      × (packetmem_free h after v v ≡ fl v)
unfolding packetmem_alloc packetmem_free
free-alloc n fl v p rest e short o =
    let left = rest_of n p ∷ rest in
    (
      start_of n p,
      put fl v left,
      ap (λ l. alloc_block true n l >>= (λ r. some (r.0, put fl v r.1))) e
          ∙ ap (λ r. r >>= (λ w. some (w.0, put fl v w.1))) (alloc_split n p rest short),
      put-same (put fl v left) v (free_block (start_of n p) (put fl v left v))
          ∙ ap (free_block (start_of n p)) (put-same fl v left)
          ∙ free_split n p rest short o
          ∙ sym e,
    )

unmerged : (h p : Handle) → p.base + p.len ≡ h.base → 0 < p.len → free_block h (p ∷ []) ≡ h ∷ p ∷ []
unfolding free_block walks_on merge_successor
unmerged h p e s = let apart : (h.base + h.len == p.base) ≡ false = ground arith in rw apart refl

too_long :
    (ok : Bool) (n : ℕ) (h p : Handle)
    → h.len < n
    → p.len < n
    → alloc_block ok n (h ∷ p ∷ []) ≡ none
unfolding alloc_block
too_long ok n h p a b =
    let first : ltb h.len n ≡ true = ground arith in
    let second : ltb p.len n ≡ true = ground arith in rw (first, second) refl

-- A block that lies directly behind a VM's only free block, where neither is empty, is put before that one
-- when it is freed, and the two are not merged. An allocation of as many bytes as they have together then
-- fails.
pub free_leaves_apart :
    (ok : Bool) (h : Handle) (fl : FreeLists) (v : ℕ) (p : Handle)
    → fl v ≡ p ∷ []
    → p.base + p.len ≡ h.base
    → 0 < p.len
    → 0 < h.len
    → (packetmem_free h fl v v ≡ h ∷ p ∷ [])
      × (packetmem_alloc ok (p.len + h.len) (packetmem_free h fl v) v ≡ none)
unfolding packetmem_alloc packetmem_free
free_leaves_apart ok h fl v p e adj a b =
    let list = put-same fl v (free_block h (fl v)) ∙ ap (free_block h) e ∙ unmerged h p adj a in
    (
      list,
      ap
            (λ l.
              alloc_block ok (p.len + h.len) l
              >>= (λ r. some (r.0, put (packetmem_free h fl v) v r.1)))
            list
          ∙ ap (λ r. r >>= (λ w. some (w.0, put (packetmem_free h fl v) v w.1)))
              (too_long ok (p.len + h.len) h p (omega arith) (omega arith)),
    )
