-- ===== src/Proxy/Tests.antt =====
-- The ring of the proxy at work.
use tas.Base.{ℕ, ◌≡◌, refl, arith, true, false, List, [], ◌∷◌, read_bytes}
use tas.Proxy.Ring.{RingBuffer, shmring_is_empty, shmring_get_freesz}
use tas.Proxy.Ring.Fifo.{IsRing, contents}

-- Three bytes wait in a ring of 8: 6, 7 and 0.
abbrev ring : RingBuffer
ring = record {
  buf_addr = 0;
  write_pos = 1;
  read_pos = 6;
  full = false;
  ring_size = 8;
  mem = λ a. a;
}

waiting : contents ring ≡ 6 ∷ 7 ∷ 0 ∷ []
unfolding contents shmring_get_freesz read_bytes
waiting = refl

abbrev word : List ℕ
word = 40 ∷ 41 ∷ 42 ∷ []

abbrev empty : RingBuffer
empty = record {
  buf_addr = 0;
  write_pos = 5;
  read_pos = 5;
  full = false;
  ring_size = 8;
  mem = λ a. a;
}

empty-IsRing : IsRing empty
empty-IsRing = record {
  some_size = omega arith;
  small = omega arith;
  write_in = omega arith;
  read_in = omega arith;
  full_meets = λ e. refl;
}

empty_ring : shmring_is_empty empty ≡ true
unfolding shmring_is_empty
empty_ring = refl
