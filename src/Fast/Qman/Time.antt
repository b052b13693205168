-- ===== src/Fast/Qman/Time.antt =====
-- What the arithmetic of time promises.
use tas.Base.{
  ℕ, ◌-◌, ◌<◌, ◌^◌, ◌≡◌, arith, ◌&&◌, ◌||◌, ltb, leb, ◌==◌, if◌then◌else◌, sub32, ℤ, pos, negsuc,
}
use tas.Fast.Qman.{VmQueue, rel_time, timestamp_lessthaneq}

-- A distance of `d` mod 2^32 as a signed number. Half way round counts as ahead only in the upper half.
abbrev pub signed : ℕ → ℕ → ℤ
signed cur d =
    if ltb d (2 ^ 31) || (d == 2 ^ 31 && ltb (2 ^ 31) cur) then pos d else negsuc (2 ^ 32 - d - 1)

-- For 32-bit times, `rel_time` is the distance from `cur_ts` to `ts` mod 2^32, taken as a signed number
-- of at most 2^31 in size.
pub rel_time_exact :
    (cur_ts ts : ℕ)
    → cur_ts < 2 ^ 32
    → ts < 2 ^ 32
    → rel_time cur_ts ts ≡ signed cur_ts (sub32 ts cur_ts)
unfolding rel_time
rel_time_exact cur_ts ts c t = ground arith

-- For 32-bit times that both lie less than 2^31 ahead of the virtual time, `timestamp_lessthaneq` is the
-- order of their distances from it.
pub lessthaneq_ahead :
    (vq : VmQueue) (a b : ℕ)
    → vq.ts_virtual < 2 ^ 32
    → a < 2 ^ 32
    → b < 2 ^ 32
    → sub32 a vq.ts_virtual < 2 ^ 31
    → sub32 b vq.ts_virtual < 2 ^ 31
    → timestamp_lessthaneq vq a b ≡ leb (sub32 a vq.ts_virtual) (sub32 b vq.ts_virtual)
unfolding timestamp_lessthaneq
lessthaneq_ahead vq a b v x y p q =
    rw (rel_time_exact vq.ts_virtual a v x, rel_time_exact vq.ts_virtual b v y) (ground arith)
