-- ===== src/Fast/Qman/Chain.antt =====
-- Lists linked by indices.
use tas.Base.{
  mem, distinct, ℕ, ◌≡◌, ◌≢◌, refl, arith, true, List, [], ◌∷◌, ◌++◌, Option, none, some, ==_iff,
}

-- From `o` the links `next` lead through `xs` to the end.
abbrev pub Chain : (ℕ → Option ℕ) → Option ℕ → List ℕ → Type 0
Chain next o [] = o ≡ none
Chain next o (x ∷ xs) = (o ≡ some x) × Chain next (next x) xs

abbrev pub last : List ℕ → Option ℕ
last [] = none
last (x ∷ []) = some x
last (x ∷ y ∷ xs) = last (y ∷ xs)

pub last-snoc : (xs : List ℕ) (x : ℕ) → last (xs ++ x ∷ []) ≡ some x
last-snoc [] x = refl
last-snoc (y ∷ []) x = refl
last-snoc (y ∷ z ∷ xs) x = last-snoc (z ∷ xs) x

pub last-mem : (xs : List ℕ) (t : ℕ) → last xs ≡ some t → mem t xs ≡ true
last-mem [] t l = ground arith
last-mem (x ∷ []) t l = ground arith
last-mem (x ∷ y ∷ xs) t l = ground (arith, last-mem (y ∷ xs) t l)

-- Links elsewhere do not matter.
pub Chain-frame :
    (next next' : ℕ → Option ℕ) (o : Option ℕ) (xs : List ℕ)
    → ((i : ℕ) → mem i xs ≡ true → next' i ≡ next i)
    → Chain next o xs
    → Chain next' o xs
Chain-frame next next' o [] h c = c
Chain-frame next next' o (x ∷ xs) h c = (
  c.0,
  rw (h x (ground arith)) (Chain-frame next next' (next x) xs (λ i m. h i (ground arith)) c.1),
)

-- The last one linked to a new one.
pub Chain-snoc :
    (next next' : ℕ → Option ℕ) (o : Option ℕ) (xs : List ℕ) (t x : ℕ)
    → last xs ≡ some t
    → distinct xs ≡ true
    → next' t ≡ some x
    → next' x ≡ none
    → ((i : ℕ) → mem i xs ≡ true → i ≢ t → next' i ≡ next i)
    → Chain next o xs
    → Chain next' o (xs ++ x ∷ [])
Chain-snoc next next' o [] t x l d a b h c = cc
Chain-snoc next next' o (y ∷ []) t x l d a b h c =
    let same : y ≡ t = ground arith in (c.0, (rw same a, b))
Chain-snoc next next' o (y ∷ z ∷ xs) t x l d a b h c =
    let far : y ≢ t = ground (arith, last-mem (z ∷ xs) t l, ==_iff y t, d) in
    (
      c.0,
      rw (h y (ground arith) far) (
          Chain-snoc next next' (next y) (z ∷ xs) t x l (ground (arith, d)) a b
            (λ i m. h i (ground arith)) c.1),
    )
