-- ===== src/Fast/Seq/Trim.antt =====
-- What `tcp_trim_rxbuf` promises, against a description by the packet's offset in the window.
use tas.Base.{
  ℕ, ◌+◌, ◌-◌, ◌≤◌, ◌<◌, ◌^◌, ◌≡◌, ◌⊎◌, Option, none, some, arith, leb, if◌then◌else◌, add32, sub32,
}
use tas.Fast.Flow.{Flow}
use tas.Fast.Seq.{Cut, trim_window, tcp_trim_rxbuf}

-- The part of a packet that a window of `avail` bytes can take. `off` is the packet's sequence number
-- less the window's, mod 2^32: the packet starts in the window, or reaches into it from behind, or
-- misses it.
abbrev pub overlap : ℕ → ℕ → ℕ → Option Cut
overlap off bytes avail =
    if leb off avail
    then some (record { start = 0; end = off + bytes - avail })
    else if leb (2 ^ 32 - off) bytes
    then some (record { start = 2 ^ 32 - off; end = bytes - (2 ^ 32 - off) - avail })
    else none

-- The packet wraps round 2^32, the window does not, and the packet starts behind its first byte.
pub record WrapsOutOfWindow (seq bytes next avail : ℕ) : Type 0 where
  pub packet_wraps : 2 ^ 32 ≤ seq + bytes
  pub window_whole : next + avail < 2 ^ 32
  pub starts_inside : next < seq
  pub starts_before_end : seq ≤ next + avail

module _ (seq bytes next avail : ℕ) (seq_ok : seq < 2 ^ 32) (next_ok : next < 2 ^ 32)
    (bytes_ok : bytes < 2 ^ 16) (avail_ok : avail < 2 ^ 31) where
  abbrev Exact : Type 0
  Exact =
      trim_window seq (add32 seq bytes) next (add32 next avail)
      ≡ overlap (sub32 seq next) bytes avail

  whole_whole_ahead : seq + bytes < 2 ^ 32 → next + avail < 2 ^ 32 → next ≤ seq → Exact
  unfolding trim_window
  whole_whole_ahead p w o =
      let pb : add32 seq bytes ≡ seq + bytes = omega arith in
      let sb : add32 next avail ≡ next + avail = omega arith in
      let off : sub32 seq next ≡ seq - next = omega arith in rw (pb, sb, off) (ground arith)

  whole_whole_behind : seq + bytes < 2 ^ 32 → next + avail < 2 ^ 32 → seq < next → Exact
  unfolding trim_window
  whole_whole_behind p w o =
      let pb : add32 seq bytes ≡ seq + bytes = omega arith in
      let sb : add32 next avail ≡ next + avail = omega arith in
      let off : sub32 seq next ≡ seq + 2 ^ 32 - next = omega arith in
      rw (pb, sb, off) (ground arith)

  whole_split_ahead : seq + bytes < 2 ^ 32 → 2 ^ 32 ≤ next + avail → next ≤ seq → Exact
  unfolding trim_window
  whole_split_ahead p w o =
      let pb : add32 seq bytes ≡ seq + bytes = omega arith in
      let sb : add32 next avail ≡ next + avail - 2 ^ 32 = omega arith in
      let off : sub32 seq next ≡ seq - next = omega arith in rw (pb, sb, off) (ground arith)

  whole_split_behind : seq + bytes < 2 ^ 32 → 2 ^ 32 ≤ next + avail → seq < next → Exact
  unfolding trim_window
  whole_split_behind p w o =
      let pb : add32 seq bytes ≡ seq + bytes = omega arith in
      let sb : add32 next avail ≡ next + avail - 2 ^ 32 = omega arith in
      let off : sub32 seq next ≡ seq + 2 ^ 32 - next = omega arith in
      rw (pb, sb, off) (ground arith)

  exact_split_split : 2 ^ 32 ≤ seq + bytes → 2 ^ 32 ≤ next + avail → Exact
  unfolding trim_window
  exact_split_split p w = ground arith

  exact_split_whole :
      2 ^ 32 ≤ seq + bytes → next + avail < 2 ^ 32 → (seq ≤ next) ⊎ (next + avail < seq) → Exact
  unfolding trim_window
  exact_split_whole p w h = ground arith

  -- The cut leaves exactly the overlap, but for the packets of `WrapsOutOfWindow`.
  trim_window_exact :
      ¬ WrapsOutOfWindow seq bytes next avail
      → trim_window seq (add32 seq bytes) next (add32 next avail)
        ≡ overlap (sub32 seq next) bytes avail
  trim_window_exact h = ground (
    arith,
    whole_whole_ahead,
    whole_whole_behind,
    whole_split_ahead,
    whole_split_behind,
    exact_split_split,
    exact_split_whole,
    λ (p : 2 ^ 32 ≤ seq + bytes) (w : next + avail < 2 ^ 32) (i : next < seq)
          (e : seq ≤ next + avail).
        h (record { packet_wraps = p; window_whole = w; starts_inside = i; starts_before_end = e }),
  )

  -- Those are not cut at all, so they keep bytes that lie behind the end of the window.
  trim_window_overhang :
      WrapsOutOfWindow seq bytes next avail
      → (trim_window seq (add32 seq bytes) next (add32 next avail)
          ≡ some (record { start = 0; end = 0 }))
        × (avail < sub32 seq next + bytes)
  unfolding trim_window
  trim_window_overhang w = ground arith

  trim_window_in_order :
      (c : Cut)
      → trim_window seq (add32 seq bytes) next (add32 next avail) ≡ some c
      → add32 seq c.start ≡ next
      → (c.start + c.end ≤ bytes) × (bytes - (c.start + c.end) ≤ avail)
  unfolding trim_window
  trim_window_in_order c e o = ground arith

module _ (fs : Flow) (seq bytes : ℕ) (seq_ok : seq < 2 ^ 32) (next_ok : fs.rx_next_seq < 2 ^ 32)
    (bytes_ok : bytes < 2 ^ 16) (avail_ok : fs.rx_avail < 2 ^ 31) where
  -- For a sequence number below 2^32, fewer than 2^16 bytes and a window of less than 2^31,
  -- `tcp_trim_rxbuf` cuts the packet to exactly its overlap with the receive window, unless the packet
  -- wraps round 2^32, starts behind the window's first byte and not behind its end, and the window does
  -- not wrap. A packet that does not even touch the window is dropped; one that only touches it, where it
  -- ends or where it starts, is kept with nothing left of it or is empty.
  pub trim_rxbuf_exact :
      ¬ WrapsOutOfWindow seq bytes fs.rx_next_seq fs.rx_avail
      → tcp_trim_rxbuf fs seq bytes ≡ overlap (sub32 seq fs.rx_next_seq) bytes fs.rx_avail
  unfolding tcp_trim_rxbuf
  trim_rxbuf_exact =
      trim_window_exact seq bytes fs.rx_next_seq fs.rx_avail seq_ok next_ok bytes_ok avail_ok

  -- For a sequence number below 2^32, fewer than 2^16 bytes and a window of less than 2^31: a packet
  -- that wraps round 2^32, starts behind the first byte of a window that does not wrap and not behind
  -- its end, is taken whole by `tcp_trim_rxbuf`, although it holds bytes that lie behind the end.
  pub trim_rxbuf_overhang :
      WrapsOutOfWindow seq bytes fs.rx_next_seq fs.rx_avail
      → (tcp_trim_rxbuf fs seq bytes ≡ some (record { start = 0; end = 0 }))
        × (fs.rx_avail < sub32 seq fs.rx_next_seq + bytes)
  unfolding tcp_trim_rxbuf
  trim_rxbuf_overhang =
      trim_window_overhang seq bytes fs.rx_next_seq fs.rx_avail seq_ok next_ok bytes_ok avail_ok

  -- For a sequence number below 2^32, fewer than 2^16 bytes and a window of less than 2^31: if a packet
  -- starts at the next expected byte once `tcp_trim_rxbuf` has cut it, the cuts are within its bytes, and
  -- what is left is no more than the window.
  pub trim_rxbuf_in_order :
      (c : Cut)
      → tcp_trim_rxbuf fs seq bytes ≡ some c
      → add32 seq c.start ≡ fs.rx_next_seq
      → (c.start + c.end ≤ bytes) × (bytes - (c.start + c.end) ≤ fs.rx_avail)
  unfolding tcp_trim_rxbuf
  trim_rxbuf_in_order =
      trim_window_in_order seq bytes fs.rx_next_seq fs.rx_avail seq_ok next_ok bytes_ok avail_ok
