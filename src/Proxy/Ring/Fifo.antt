-- ===== src/Proxy/Ring/Fifo.antt =====
-- The ring as a queue of bytes.
use native.Mathlib.Nat.{mod-eq_of_lt, mod-eq-sub-mod}
use tas.Base.{
  ℕ, suc, ◌+◌, ◌-◌, ◌%◌, ◌≤◌, ◌<◌, ◌^◌, ◌≡◌, refl, ◌∙◌, arith, true, List, [], ◌∷◌, ltb,
  if◌then◌else◌, read_bytes, write_bytes, length, get_or, take, Bool-cases, inl, inr, dec_lt,
  length-append, length-read_bytes, get_or-read_bytes, get_or-append_left, get_or-append_right,
}
use tas.Fast.Buffer.Ring.{ring_pos, ring_offset, front_at, rest_at}
use tas.Proxy.Ring.{RingBuffer, shmring_get_freesz, ring_bytes, ring_store}

-- The positions are within the bytes, and meet where the ring is full.
pub record IsRing (r : RingBuffer) : Type 0 where
  pub some_size : 0 < r.ring_size
  pub small : r.ring_size < 2 ^ 31
  pub write_in : r.write_pos < r.ring_size
  pub read_in : r.read_pos < r.ring_size
  pub full_meets : r.full ≡ true → r.write_pos ≡ r.read_pos

-- how many bytes wait in the ring
abbrev pub stored : RingBuffer → ℕ
stored r = r.ring_size - shmring_get_freesz r

-- byte `i` of those that wait
abbrev pub byte_at : RingBuffer → ℕ → ℕ
byte_at r i = r.mem (r.buf_addr + ring_pos r.ring_size r.read_pos i)

-- the waiting bytes, the oldest first
unfoldable pub contents : RingBuffer → List ℕ
contents r = read_bytes (byte_at r) 0 (stored r)

mod_once : (a m : ℕ) → 0 < m → a < m + m → a % m ≡ (if ltb a m then a else a - m)
mod_once a m p h = elim (Bool-cases (ltb a m)) [
  | inl l ↦ rw l (mod-eq_of_lt (ground arith))
  | inr l ↦ rw l (mod-eq-sub-mod (ground arith) ∙ mod-eq_of_lt (ground arith))
]

pub list_ext :
    (xs ys : List ℕ)
    → length xs ≡ length ys
    → ((i : ℕ) → i < length xs → get_or xs i 0 ≡ get_or ys i 0)
    → xs ≡ ys
list_ext [] [] e h = refl
list_ext [] (y ∷ ys) e h = absurd (omega arith)
list_ext (x ∷ xs) [] e h = absurd (omega arith)
list_ext (x ∷ xs) (y ∷ ys) e h =
    let head : x ≡ y = h 0 (omega arith) in
    let tail : xs ≡ ys = list_ext xs ys (omega arith) (λ i l. h (suc i) (omega arith)) in
    rw (head, tail) refl

pub free-le : (r : RingBuffer) → IsRing r → shmring_get_freesz r ≤ r.ring_size
unfolding shmring_get_freesz
free-le r v = ground (arith, v)

-- where the next byte goes
pub write-ring_pos :
    (r : RingBuffer)
    → IsRing r
    → 0 < shmring_get_freesz r
    → r.write_pos ≡ ring_pos r.ring_size r.read_pos (stored r)
unfolding shmring_get_freesz
write-ring_pos r v h = ground (arith, v)

module _ (r : RingBuffer) (v : IsRing r) where
  pub wrapped :
      (n : ℕ)
      → n ≤ r.ring_size
      → (r.write_pos + n) % r.ring_size ≡ ring_pos r.ring_size r.write_pos n
  wrapped n h = mod_once (r.write_pos + n) r.ring_size v.some_size (omega (arith, v))

  pub read_wrapped :
      (n : ℕ) → n ≤ r.ring_size → (r.read_pos + n) % r.ring_size ≡ ring_pos r.ring_size r.read_pos n
  read_wrapped n h = mod_once (r.read_pos + n) r.ring_size v.some_size (omega (arith, v))

  pub length-ring_bytes : (n : ℕ) → n ≤ r.ring_size → length (ring_bytes r n) ≡ n
  unfolding ring_bytes
  length-ring_bytes n h = elim (Bool-cases (ltb (r.ring_size - r.read_pos) n)) [
    | inl e ↦
        rw
          (
            e,
            length-append (read_bytes r.mem (r.buf_addr + r.read_pos) (r.ring_size - r.read_pos))
                (read_bytes r.mem r.buf_addr (n - (r.ring_size - r.read_pos))),
          )
          (ground (
            arith,
            length-read_bytes r.mem (r.buf_addr + r.read_pos) (r.ring_size - r.read_pos),
            length-read_bytes r.mem r.buf_addr (n - (r.ring_size - r.read_pos)),
          ))
    | inr e ↦ rw e (length-read_bytes r.mem _ n)
  ]

  -- The bytes that are read, one by one.
  pub ring_bytes-byte_at :
      (n i : ℕ) → n ≤ r.ring_size → i < n → get_or (ring_bytes r n) i 0 ≡ byte_at r i
  unfolding ring_bytes
  ring_bytes-byte_at n i h l =
      let part = r.ring_size - r.read_pos in
      let front = read_bytes r.mem (r.buf_addr + r.read_pos) part in
      let back = read_bytes r.mem r.buf_addr (n - part) in
      elim (Bool-cases (ltb part n)) [
        | inr e ↦ rw e (ground (arith, get_or-read_bytes r.mem (r.buf_addr + r.read_pos) n i 0))
        | inl e ↦ rw e (elim (dec_lt i part) [
          | yes k ↦ ground (
            arith,
            length-read_bytes r.mem (r.buf_addr + r.read_pos) part,
            get_or-append_left front back i 0,
            get_or-read_bytes r.mem (r.buf_addr + r.read_pos) part i 0,
          )
          | no k ↦ ground (
            arith,
            length-read_bytes r.mem (r.buf_addr + r.read_pos) part,
            get_or-append_right front back (i - part) i 0,
            get_or-read_bytes r.mem r.buf_addr (n - part) (i - part) 0,
          )
        ])
      ]

  -- The memory after a copy into the ring, at each position.
  pub store_at :
      (src : List ℕ) (n k : ℕ)
      → n ≤ r.ring_size
      → n ≤ length src
      → k < r.ring_size
      → ring_store r src n (r.buf_addr + k) ≡ (
          if ltb (ring_offset r.ring_size r.write_pos k) n
          then get_or src (ring_offset r.ring_size r.write_pos k) 0
          else r.mem (r.buf_addr + k))
  unfolding ring_store
  store_at src n k h e l =
      let part = r.ring_size - r.write_pos in
      elim (Bool-cases (ltb part n)) [
        | inr o ↦ rw (o, front_at r.mem r.buf_addr r.write_pos n src k e) (ground (arith, v))
        | inl o ↦
            rw
              (
                o,
                rest_at (write_bytes r.mem (r.buf_addr + r.write_pos) (take part src)) r.buf_addr
                    part (n - part) src k (ground arith),
                front_at r.mem r.buf_addr r.write_pos part src k (ground arith),
              )
              (ground (arith, v))
      ]
