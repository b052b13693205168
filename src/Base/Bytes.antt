-- ===== src/Base/Bytes.antt =====
-- Byte memory as a function of the address, with the block copies that the dataplane makes.
use Prim.Native.Nat.{ℕ, zero, suc, ◌+◌, ◌≤◌, ◌<◌}
use mathlib.Core.Path.{◌≡◌, refl, ap, ◌∙◌}
use mathlib.Core.Logic.{◌⊎◌}
use mathlib.Core.List.{List, [], ◌∷◌}
use native.Mathlib.Omega.{arith}
use tas.Base.Tests.{◌==◌, if◌then◌else◌}
use tas.Base.Lists.{length, get_or}

abbrev pub Memory : Type 0
Memory = ℕ → ℕ

-- `memcpy` of the bytes to `addr`
unfoldable pub write_bytes : Memory → ℕ → List ℕ → Memory
write_bytes m a [] j = m j
write_bytes m a (b ∷ bs) j = if j == a then b else write_bytes m (a + 1) bs j

-- `memcpy` of `n` bytes from `addr`
unfoldable pub read_bytes : Memory → ℕ → ℕ → List ℕ
read_bytes m a zero = []
read_bytes m a (suc n) = m a ∷ read_bytes m (a + 1) n

pub length-read_bytes : (m : Memory) (a n : ℕ) → length (read_bytes m a n) ≡ n
unfolding read_bytes
length-read_bytes m a zero = refl
length-read_bytes m a (suc n) = ap suc (length-read_bytes m (a + 1) n)

pub get_or-read_bytes :
    (m : Memory) (a n i d : ℕ) → i < n → get_or (read_bytes m a n) i d ≡ m (a + i)
unfolding read_bytes
get_or-read_bytes m a zero i d h = absurd (omega arith)
get_or-read_bytes m a (suc n) zero d h = ap m (omega arith)
get_or-read_bytes m a (suc n) (suc i) d h =
    get_or-read_bytes m (a + 1) n i d (omega arith) ∙ ap m (omega arith)

-- Outside the block nothing changes.
pub write_bytes_out :
    (m : Memory) (a : ℕ) (bs : List ℕ) (j : ℕ)
    → (j < a) ⊎ (a + length bs ≤ j)
    → write_bytes m a bs j ≡ m j
unfolding write_bytes
write_bytes_out m a [] j h = refl
write_bytes_out m a (b ∷ bs) j h = ground (arith, write_bytes_out m (a + 1) bs j)

-- Inside it the memory holds the bytes.
pub write_bytes_in :
    (m : Memory) (a : ℕ) (bs : List ℕ) (i j d : ℕ)
    → i < length bs
    → a + i ≡ j
    → write_bytes m a bs j ≡ get_or bs i d
unfolding write_bytes
write_bytes_in m a [] i j d h e = absurd (omega arith)
write_bytes_in m a (b ∷ bs) zero j d h e = ground arith
write_bytes_in m a (b ∷ bs) (suc i) j d h e = ground (arith, write_bytes_in m (a + 1) bs i j d)
