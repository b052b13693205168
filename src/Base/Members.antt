-- ===== src/Base/Members.antt =====
-- The members of a list of numbers.
use Prim.Native.Nat.{ℕ}
use mathlib.Core.Path.{◌≡◌, refl}
use mathlib.Core.Bool.{Bool, true, false, not, ◌&&◌, ◌||◌}
use mathlib.Core.List.{List, [], ◌∷◌, ◌++◌}
use native.Mathlib.Omega.{arith}
use tas.Base.Tests.{◌==◌, ==_iff}

abbrev pub mem : ℕ → List ℕ → Bool
mem i [] = false
mem i (x ∷ xs) = (i == x) || mem i xs

abbrev pub distinct : List ℕ → Bool
distinct [] = true
distinct (x ∷ xs) = not (mem x xs) && distinct xs

pub mem-append : (i : ℕ) (xs ys : List ℕ) → mem i (xs ++ ys) ≡ (mem i xs || mem i ys)
mem-append i [] ys = refl
mem-append i (x ∷ xs) ys = ground (arith, mem-append i xs ys)

pub distinct-snoc :
    (xs : List ℕ) (x : ℕ) → distinct xs ≡ true → mem x xs ≡ false → distinct (xs ++ x ∷ []) ≡ true
distinct-snoc [] x d m = refl
distinct-snoc (y ∷ xs) x d m =
    ground (arith, d, m, mem-append y xs (x ∷ []), distinct-snoc xs x, ==_iff x y, ==_iff y x)
