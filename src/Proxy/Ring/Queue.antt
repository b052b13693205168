-- ===== src/Proxy/Ring/Queue.antt =====
-- What the calls on the ring do to the queue of waiting bytes.
use tas.Base.{
  ℕ, ◌+◌, ◌-◌, ◌%◌, ◌<◌, ◌^◌, ◌≡◌, refl, ap, ◌∙◌, arith, false, [], ltb, ◌==◌, read_bytes, length,
  get_or, Bool-cases, inl, inr, length-read_bytes, get_or-read_bytes,
}
use tas.Proxy.Ring.{
  RingBuffer, shmring_get_freesz, shmring_is_empty, shmring_reset, shmring_pop, shmring_read,
}
use tas.Proxy.Ring.Fifo.{IsRing, stored, byte_at, contents}

pub length-contents : (r : RingBuffer) → length (contents r) ≡ stored r
unfolding contents
length-contents r = length-read_bytes (byte_at r) 0 (stored r)

pub contents-byte_at :
    (r : RingBuffer) (i : ℕ) → i < stored r → get_or (contents r) i 0 ≡ byte_at r i
unfolding contents
contents-byte_at r i h =
    get_or-read_bytes (byte_at r) 0 (stored r) i 0 h ∙ ap (byte_at r) (omega arith)

-- the ring after a pop
abbrev popped : RingBuffer → ℕ → RingBuffer
popped r n = record r { read_pos = (r.read_pos + n) % r.ring_size; full = false }

-- `shmring_read` returns what `shmring_pop` returns, and leaves the ring as it was.
pub read_peeks :
    (r : RingBuffer) (n : ℕ)
    → let t = shmring_read r n in
      (t.ring ≡ r) × (t.dst ≡ (shmring_pop r n).dst) × (t.count ≡ (shmring_pop r n).count)
unfolding shmring_read shmring_pop
read_peeks r n = elim (Bool-cases (ltb (stored r) n)) [
  | inl e ↦ rw e (refl, refl, refl)
  | inr e ↦ rw e (refl, refl, refl)
]

-- `shmring_is_empty` says whether the queue is empty, on a ring whose positions are in order.
pub is_empty-contents :
    (r : RingBuffer) → IsRing r → shmring_is_empty r ≡ (length (contents r) == 0)
unfolding shmring_is_empty shmring_get_freesz
is_empty-contents r v = ground (arith, v, length-contents r)

-- `shmring_reset` with room for bytes behind the header, and less than 2^31 of it: the positions are in
-- order and the queue is empty.
pub reset_empties :
    (r : RingBuffer) (header size : ℕ)
    → header < size
    → size - header < 2 ^ 31
    → IsRing (shmring_reset r header size) × (contents (shmring_reset r header size) ≡ [])
unfolding shmring_reset shmring_get_freesz contents read_bytes
reset_empties r header size h k =
    let none_stored : size - header - (size - header) ≡ 0 = omega arith in
    (
      record {
        some_size = omega arith;
        small = k;
        write_in = omega arith;
        read_in = omega arith;
        full_meets = λ e. refl;
      },
      rw none_stored refl,
    )
