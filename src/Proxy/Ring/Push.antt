-- ===== src/Proxy/Ring/Push.antt =====
-- What a push does to the queue of waiting bytes.
use tas.Base.{ℕ, ◌+◌, ◌%◌, ◌≡◌, ◌∙◌, arith, true, List, ◌==◌, if◌then◌else◌, length}
use tas.Proxy.Ring.{RingBuffer, shmring_get_freesz, shmring_is_empty, ring_store, shmring_push}
use tas.Proxy.Ring.Fifo.{IsRing, contents, wrapped}
use tas.Proxy.Ring.Queue.{length-contents}

-- the ring after a push
abbrev pushed : RingBuffer → List ℕ → ℕ → RingBuffer
pushed r src n =
    let w = (r.write_pos + n) % r.ring_size in
    record r {
      write_pos = w;
      full = if w == r.read_pos then true else r.full;
      mem = ring_store r src n;
    }

-- A push of no bytes to an empty ring, whose positions are in order, marks it as full: all its bytes
-- then count as waiting.
pub push_nothing_fills :
    (r : RingBuffer) (src : List ℕ)
    → IsRing r
    → shmring_is_empty r ≡ true
    → length (contents (shmring_push r src 0).ring) ≡ r.ring_size
unfolding shmring_push shmring_is_empty shmring_get_freesz
push_nothing_fills r src v e =
    length-contents _ ∙ rw (wrapped r v 0 (omega arith)) (ground (arith, v, e))
