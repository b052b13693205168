-- ===== src/Base/Signed.antt =====
-- Signed numbers over the native ones, and functions changed at one point.
use Prim.Native.Nat.{ℕ, zero, suc, ◌+◌, ◌-◌, ◌*◌, ◌/◌, ◌^◌}
use mathlib.Core.Path.{◌≡◌, refl}
use mathlib.Core.Logic.{◌≢◌}
use mathlib.Core.Bool.{Bool, true, false}
use native.Mathlib.Omega.{arith}
use tas.Base.Tests.{ltb, leb, ◌==◌, ==_iff, if◌then◌else◌}

-- `negsuc n` is -(n + 1).
pub data ℤ : Type 0 where
  pos : ℕ → ℤ
  negsuc : ℕ → ℤ

-- `a - b`
abbrev pub sub_ℤ : ℕ → ℕ → ℤ
sub_ℤ a b = if leb b a then pos (a - b) else negsuc (b - a - 1)

abbrev pub leb_ℤ : ℤ → ℤ → Bool
leb_ℤ (pos a) (pos b) = leb a b
leb_ℤ (pos a) (negsuc b) = false
leb_ℤ (negsuc a) (pos b) = true
leb_ℤ (negsuc a) (negsuc b) = leb b a

abbrev pub neg_ℤ : ℤ → ℤ
neg_ℤ (pos zero) = pos zero
neg_ℤ (pos (suc n)) = negsuc n
neg_ℤ (negsuc n) = pos (suc n)

abbrev pub add_ℤ : ℤ → ℤ → ℤ
add_ℤ (pos a) (pos b) = pos (a + b)
add_ℤ (pos a) (negsuc b) = sub_ℤ a (b + 1)
add_ℤ (negsuc a) (pos b) = sub_ℤ b (a + 1)
add_ℤ (negsuc a) (negsuc b) = negsuc (a + b + 1)

-- `k * z`
abbrev pub scale_ℤ : ℕ → ℤ → ℤ
scale_ℤ k (pos n) = pos (k * n)
scale_ℤ k (negsuc n) = neg_ℤ (pos (k * (n + 1)))

-- `z / d`, towards 0
abbrev pub div_ℤ : ℤ → ℕ → ℤ
div_ℤ (pos n) d = pos (n / d)
div_ℤ (negsuc n) d = neg_ℤ (pos ((n + 1) / d))

-- `(int32_t) n` for `n` below 2^32
abbrev pub int32 : ℕ → ℤ
int32 n = if ltb n (2 ^ 31) then pos n else negsuc (2 ^ 32 - 1 - n)

-- `f` with the value `x` at `i`
abbrev pub put {ℓ} : {A : Type ℓ} → (ℕ → A) → ℕ → A → ℕ → A
put f i x j = if j == i then x else f j

pub put-other {ℓ} : {A : Type ℓ} (f : ℕ → A) (i : ℕ) (x : A) (j : ℕ) → j ≢ i → put f i x j ≡ f j
put-other f i x j h = let e : (j == i) ≡ false = ground (arith, ==_iff j i, h) in rw e refl

pub put-same {ℓ} : {A : Type ℓ} (f : ℕ → A) (i : ℕ) (x : A) → put f i x i ≡ x
put-same f i x = let e : (i == i) ≡ true = ground arith in rw e refl
