-- ===== src/Proxy/Ring.antt =====
-- The message ring between guest and host, proxy/shmring.c. Positions are `int`, below 2^31, and the
-- size is a `size_t`; both are natural numbers here. The lock is taken around each call and does
-- nothing, so a call is one step.
pub mod Fifo
pub mod Queue
pub mod Push
use tas.Base.{
  ℕ, ◌+◌, ◌-◌, ◌%◌, Bool, true, false, not, ◌&&◌, List, [], ◌++◌, ltb, ◌==◌, if◌then◌else◌, Memory,
  read_bytes, write_bytes, take, drop, length,
}

-- `struct ring_header`, with the address of the bytes and the memory they lie in
pub record RingBuffer : Type 0 where
  pub buf_addr : ℕ
  pub write_pos : ℕ
  pub read_pos : ℕ
  pub full : Bool
  pub ring_size : ℕ
  pub mem : Memory

-- What a call leaves: the ring, the return value, and what is at `dst`.
pub record Transfer : Type 0 where
  pub ring : RingBuffer
  pub count : ℕ
  pub dst : List ℕ

-- `header` is the size of `struct ring_header`; the memory is cleared from there to `size`.
unfoldable pub shmring_reset : RingBuffer → (header size : ℕ) → RingBuffer
shmring_reset r header size = record r {
  write_pos = 0;
  read_pos = 0;
  full = false;
  ring_size = size - header;
  mem = λ a. if not (ltb a r.buf_addr) && ltb a (r.buf_addr + (size - header)) then 0 else r.mem a;
}

unfoldable pub shmring_is_empty : RingBuffer → Bool
shmring_is_empty r = not r.full && r.write_pos == r.read_pos

unfoldable pub shmring_get_freesz : RingBuffer → ℕ
shmring_get_freesz r =
    if not r.full && r.write_pos == r.read_pos
    then r.ring_size
    else if ltb r.read_pos r.write_pos
    then r.ring_size - r.write_pos + r.read_pos
    else r.read_pos - r.write_pos

-- the `size` bytes from the read position, in one piece or in two
unfoldable pub ring_bytes : RingBuffer → ℕ → List ℕ
ring_bytes r size =
    let sz1 = r.ring_size - r.read_pos in
    if ltb sz1 size
    then read_bytes r.mem (r.buf_addr + r.read_pos) sz1 ++ read_bytes r.mem r.buf_addr (size - sz1)
    else read_bytes r.mem (r.buf_addr + r.read_pos) size

unfoldable pub shmring_pop : RingBuffer → ℕ → Transfer
shmring_pop r size =
    if ltb (r.ring_size - shmring_get_freesz r) size
    then record { ring = r; count = 0; dst = [] }
    else record {
      ring = record r { read_pos = (r.read_pos + size) % r.ring_size; full = false };
      count = size;
      dst = ring_bytes r size;
    }

unfoldable pub shmring_read : RingBuffer → ℕ → Transfer
shmring_read r size =
    if ltb (r.ring_size - shmring_get_freesz r) size
    then record { ring = r; count = 0; dst = [] }
    else record { ring = r; count = size; dst = ring_bytes r size }

-- the copy of `src` to the write position, in one piece or in two
unfoldable pub ring_store : RingBuffer → List ℕ → ℕ → Memory
ring_store r src size =
    let sz1 = r.ring_size - r.write_pos in
    if ltb sz1 size
    then write_bytes (write_bytes r.mem (r.buf_addr + r.write_pos) (take sz1 src)) r.buf_addr
        (take (size - sz1) (drop sz1 src))
    else write_bytes r.mem (r.buf_addr + r.write_pos) (take size src)

-- the first `size` bytes of `src`
unfoldable pub shmring_push : RingBuffer → List ℕ → ℕ → Transfer
shmring_push r src size =
    let w = (r.write_pos + size) % r.ring_size in
    if ltb (shmring_get_freesz r) size then record { ring = r; count = 0; dst = [] } else record {
      ring = record r {
        write_pos = w;
        full = if w == r.read_pos then true else r.full;
        mem = ring_store r src size;
      };
      count = size;
      dst = [];
    }
