-- ===== src/Base/Words.antt =====
-- Machine words as native numbers: `uint32_t` and `uint16_t` arithmetic with its wrap-around, and
-- single bits of a flag word.
use Prim.Native.Nat.{ℕ, ◌+◌, ◌-◌, ◌/◌, ◌%◌, ◌^◌}
use mathlib.Core.Path.{◌≡◌}
use mathlib.Core.Bool.{Bool, true}
use native.Mathlib.Omega.{arith}
use tas.Base.Tests.{◌==◌, if◌then◌else◌}

-- `(uint32_t) (a + b)`
abbrev pub add32 : ℕ → ℕ → ℕ
add32 a b = (a + b) % 2 ^ 32

-- `(uint32_t) (a - b)`, for `b` below 2^32
abbrev pub sub32 : ℕ → ℕ → ℕ
sub32 a b = (a + 2 ^ 32 - b) % 2 ^ 32

-- `(uint16_t) a`
abbrev pub u16 : ℕ → ℕ
u16 a = a % 2 ^ 16

-- `(x & f) == f` for the one-bit mask `f = 2 ^ k`, where `f` is a numeral
abbrev pub has : ℕ → ℕ → Bool
has x f = x / f % 2 == 1

-- `x | f` for the one-bit mask `f`
abbrev pub with_flag : ℕ → ℕ → ℕ
with_flag x f = if has x f then x else x + f

-- Setting a flag sets it.
pub has-with_flag_16 : (x : ℕ) → has (with_flag x 16) 16 ≡ true
has-with_flag_16 x = ground arith
