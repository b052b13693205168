-- ===== src/Fast/Seq/Rxseq.antt =====
-- What `tcp_valid_rxseq` promises.
use tas.Base.{
  ℕ, ◌+◌, ◌-◌, ◌≤◌, ◌<◌, ◌^◌, ◌≡◌, ◌⊎◌, Option, none, some, arith, leb, if◌then◌else◌, add32, sub32,
}
use tas.Fast.Flow.{Flow}
use tas.Fast.Seq.{Cut, rxseq_window, tcp_valid_rxseq}

-- A packet is taken if the next expected byte lies in it or just behind it; `behind` is how many of
-- its bytes come before that one.
abbrev pub in_order : ℕ → ℕ → ℕ → Option Cut
in_order behind bytes avail =
    if leb behind bytes
    then some (record { start = behind; end = bytes - behind - avail })
    else none

module _ (seq bytes next avail : ℕ) (seq_ok : seq < 2 ^ 32) (next_ok : next < 2 ^ 32)
    (bytes_ok : bytes < 2 ^ 16) (avail_ok : avail < 2 ^ 31) where
  rxseq_window_exact :
      (seq + bytes < 2 ^ 32) ⊎ (2 ^ 32 ≤ next + avail)
      → rxseq_window seq (add32 seq bytes) next (add32 next avail)
        ≡ in_order (sub32 next seq) bytes avail
  unfolding rxseq_window
  rxseq_window_exact h = ground arith

  rxseq_window_wrapped :
      2 ^ 32 ≤ seq + bytes
      → next + avail < 2 ^ 32
      → rxseq_window seq (add32 seq bytes) next (add32 next avail) ≡ none
  unfolding rxseq_window
  rxseq_window_wrapped h k = ground arith

module _ (fs : Flow) (seq bytes : ℕ) (seq_ok : seq < 2 ^ 32) (next_ok : fs.rx_next_seq < 2 ^ 32)
    (bytes_ok : bytes < 2 ^ 16) (avail_ok : fs.rx_avail < 2 ^ 31) where
  -- For a sequence number below 2^32, fewer than 2^16 bytes and a window of less than 2^31: unless the
  -- packet wraps round 2^32 and the window does not, `tcp_valid_rxseq` takes a packet exactly if the
  -- next expected byte lies in it or just behind it, and cuts it to the bytes from there to the
  -- window's end.
  pub valid_rxseq_exact :
      (seq + bytes < 2 ^ 32) ⊎ (2 ^ 32 ≤ fs.rx_next_seq + fs.rx_avail)
      → tcp_valid_rxseq fs seq bytes ≡ in_order (sub32 fs.rx_next_seq seq) bytes fs.rx_avail
  unfolding tcp_valid_rxseq
  valid_rxseq_exact =
      rxseq_window_exact seq bytes fs.rx_next_seq fs.rx_avail seq_ok next_ok bytes_ok avail_ok

  -- For a sequence number below 2^32, fewer than 2^16 bytes and a window of less than 2^31: a packet that
  -- wraps round 2^32 is dropped by `tcp_valid_rxseq` whenever the window does not wrap.
  pub valid_rxseq_wrapped :
      2 ^ 32 ≤ seq + bytes
      → fs.rx_next_seq + fs.rx_avail < 2 ^ 32
      → tcp_valid_rxseq fs seq bytes ≡ none
  unfolding tcp_valid_rxseq
  valid_rxseq_wrapped =
      rxseq_window_wrapped seq bytes fs.rx_next_seq fs.rx_avail seq_ok next_ok bytes_ok avail_ok
