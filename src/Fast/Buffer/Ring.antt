-- ===== src/Fast/Buffer/Ring.antt =====
-- The copies go round the end of the buffer, and touch nothing else.
use tas.Base.{
  ℕ, ◌+◌, ◌-◌, ◌≤◌, ◌<◌, ◌^◌, ◌≡◌, ◌⊎◌, inl, inr, refl, ap, List, length, get_or, arith, ◌&&◌, leb,
  ltb, if◌then◌else◌, Memory, read_bytes, write_bytes, write_bytes_in, write_bytes_out,
  length-read_bytes, get_or-read_bytes, add32, sub32, take, drop, dec_lt, Bool-cases, length-take,
  length-drop, get_or-take, get_or-drop, length-append, get_or-append_left, get_or-append_right,
}
use tas.Fast.Flow.{Flow}
use tas.Fast.Buffer.{flow_tx_read, flow_rx_write, flow_rx_seq_write}

-- How far position `k` lies behind `pos` in a ring of `n`, going forward.
abbrev pub ring_offset : ℕ → ℕ → ℕ → ℕ
ring_offset n pos k = if leb pos k then k - pos else k + n - pos

-- position `pos + i` in a ring of `n`
abbrev pub ring_pos : ℕ → ℕ → ℕ → ℕ
ring_pos n pos i = if ltb (pos + i) n then pos + i else pos + i - n

-- A block write, read back at any address.
write_bytes_at :
    (m : Memory) (a : ℕ) (bs : List ℕ) (j : ℕ)
    → write_bytes m a bs j
      ≡ (if leb a j && ltb (j - a) (length bs) then get_or bs (j - a) 0 else m j)
write_bytes_at m a bs j =
    ground (arith, write_bytes_in m a bs (j - a) j 0, write_bytes_out m a bs j)

gap : (b k p : ℕ) → b + k - (b + p) ≡ k - p
gap b k p = omega arith

-- The first part of a copy, read back at `b + k`.
pub front_at :
    (m : Memory) (b p n : ℕ) (src : List ℕ) (k : ℕ)
    → n ≤ length src
    → write_bytes m (b + p) (take n src) (b + k)
      ≡ (if leb p k && ltb (k - p) n then get_or src (k - p) 0 else m (b + k))
front_at m b p n src k h = rw (write_bytes_at m (b + p) (take n src) (b + k)) (
    ground (
      arith,
      length-take n src,
      get_or-take n src (k - p) 0,
      ap (λ i. get_or (take n src) i 0) (gap b k p),
    ))

-- The part that goes round the end, which lands at the base.
pub rest_at :
    (m : Memory) (b q n : ℕ) (src : List ℕ) (k : ℕ)
    → n + q ≤ length src
    → write_bytes m b (take n (drop q src)) (b + k)
      ≡ (if ltb k n then get_or src (q + k) 0 else m (b + k))
rest_at m b q n src k h = rw (write_bytes_at m b (take n (drop q src)) (b + k)) (
    ground (
      arith,
      length-take n (drop q src),
      length-drop q src,
      get_or-take n (drop q src) k 0,
      get_or-drop q src k (q + k) 0 refl,
      ap (λ i. get_or (take n (drop q src)) i 0) (gap b k 0),
    ))

module _ (fs : Flow) (mem : Memory) (pos len : ℕ) (src : List ℕ) (pos_ok : pos < fs.rx_len)
    (len_ok : len ≤ fs.rx_len) (small : fs.rx_len < 2 ^ 31) (enough : len ≤ length src) where
  part_lem : sub32 fs.rx_len pos ≡ fs.rx_len - pos
  part_lem = omega arith

  sum_lem : add32 pos len ≡ pos + len
  sum_lem = omega arith

  -- `flow_rx_write` at a position within a receive buffer of less than 2^31 bytes, with no more bytes
  -- than the buffer and `src` have: position `k` of the buffer then holds byte `ring_offset fs.rx_len pos k` of `src` if that is among the first
  -- `len`, and what it held before if it is not.
  pub rx_write_ring :
      (k : ℕ)
      → k < fs.rx_len
      → flow_rx_write fs mem pos len src (fs.rx_base + k) ≡ (
          if ltb (ring_offset fs.rx_len pos k) len
          then get_or src (ring_offset fs.rx_len pos k) 0
          else mem (fs.rx_base + k))
  unfolding flow_rx_write
  rx_write_ring k h =
      rw (sum_lem, part_lem)
        (elim (Bool-cases (leb (pos + len) fs.rx_len)) [
          | inl e ↦ rw (e, front_at mem fs.rx_base pos len src k enough) (ground arith)
          | inr e ↦
              rw
                (
                  e,
                  rest_at (write_bytes mem (fs.rx_base + pos) (take (fs.rx_len - pos) src))
                      fs.rx_base (fs.rx_len - pos) (len - (fs.rx_len - pos)) src k (ground arith),
                  front_at mem fs.rx_base pos (fs.rx_len - pos) src k (ground arith),
                )
                (ground arith)
        ])

  -- `flow_rx_write` at a position within a receive buffer of less than 2^31 bytes, with no more bytes
  -- than the buffer and `src` have, leaves every byte outside the buffer as it was.
  pub rx_write_outside :
      (a : ℕ)
      → (a < fs.rx_base) ⊎ (fs.rx_base + fs.rx_len ≤ a)
      → flow_rx_write fs mem pos len src a ≡ mem a
  unfolding flow_rx_write
  rx_write_outside a h = ground (
    arith,
    sum_lem,
    part_lem,
    write_bytes_out mem (fs.rx_base + pos) (take len src) a,
    write_bytes_out mem (fs.rx_base + pos) (take (fs.rx_len - pos) src) a,
    write_bytes_out (write_bytes mem (fs.rx_base + pos) (take (fs.rx_len - pos) src)) fs.rx_base
        (take (len - (fs.rx_len - pos)) (drop (fs.rx_len - pos) src)) a,
    length-take len src,
    length-take (fs.rx_len - pos) src,
    length-take (len - (fs.rx_len - pos)) (drop (fs.rx_len - pos) src),
  )

-- With the next position within a receive buffer of less than 2^31 bytes, and a sequence number no
-- further ahead than the buffer is long, `flow_rx_seq_write` writes at the position that lies as far behind `rx_next_pos` as the sequence number lies behind
-- `rx_next_seq`.
pub rx_seq_write_lem :
    (fs : Flow) (mem : Memory) (seq len off : ℕ) (src : List ℕ)
    → fs.rx_next_pos < fs.rx_len
    → fs.rx_len < 2 ^ 31
    → off ≤ fs.rx_len
    → sub32 seq fs.rx_next_seq ≡ off
    → flow_rx_seq_write fs mem seq len src
      ≡ flow_rx_write fs mem (ring_pos fs.rx_len fs.rx_next_pos off) len src
unfolding flow_rx_seq_write
rx_seq_write_lem fs mem seq len off src p s o e =
    rw e (ap (λ k. flow_rx_write fs mem k len src) (ground arith))

module _ (fs : Flow) (mem : Memory) (pos len : ℕ) (pos_ok : pos < fs.tx_len)
    (len_ok : len ≤ fs.tx_len) (small : fs.tx_len < 2 ^ 31) where
  part : sub32 fs.tx_len pos ≡ fs.tx_len - pos
  part = omega arith

  abbrev first_part : List ℕ
  first_part = read_bytes mem (fs.tx_base + pos) (fs.tx_len - pos)

  abbrev second_part : List ℕ
  second_part = read_bytes mem fs.tx_base (len - (fs.tx_len - pos))

  -- For a position within a transmit buffer of less than 2^31 bytes and no more bytes than the buffer
  -- has, `flow_tx_read` returns that many bytes.
  pub length-tx_read : length (flow_tx_read fs mem pos len) ≡ len
  unfolding flow_tx_read
  length-tx_read = elim (Bool-cases (leb (add32 pos len) fs.tx_len)) [
    | inl e ↦ rw e (length-read_bytes mem _ len)
    | inr e ↦
        rw (e, part, length-append first_part second_part)
          (ground (
            arith,
            length-read_bytes mem (fs.tx_base + pos) (fs.tx_len - pos),
            length-read_bytes mem fs.tx_base (len - (fs.tx_len - pos)),
          ))
  ]

  -- For a position within a transmit buffer of less than 2^31 bytes and no more bytes than the buffer
  -- has, byte `i` of what `flow_tx_read` returns is that at position `pos + i`, going round the end.
  pub tx_read_ring :
      (i : ℕ)
      → i < len
      → get_or (flow_tx_read fs mem pos len) i 0 ≡ mem (fs.tx_base + ring_pos fs.tx_len pos i)
  unfolding flow_tx_read
  tx_read_ring i h = elim (Bool-cases (leb (add32 pos len) fs.tx_len)) [
    | inl e ↦ rw e (ground (arith, get_or-read_bytes mem (fs.tx_base + pos) len i 0))
    | inr e ↦
        rw (e, part)
          (elim (dec_lt i (fs.tx_len - pos)) [
            | yes l ↦ ground (
              arith,
              length-read_bytes mem (fs.tx_base + pos) (fs.tx_len - pos),
              get_or-append_left first_part second_part i 0,
              get_or-read_bytes mem (fs.tx_base + pos) (fs.tx_len - pos) i 0,
            )
            | no l ↦ ground (
              arith,
              length-read_bytes mem (fs.tx_base + pos) (fs.tx_len - pos),
              get_or-append_right first_part second_part (i - (fs.tx_len - pos)) i 0,
              get_or-read_bytes mem fs.tx_base (len - (fs.tx_len - pos)) (i - (fs.tx_len - pos)) 0,
            )
          ])
  ]
