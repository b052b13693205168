-- ===== src/Fast/Seq/Ack.antt =====
-- What `tcp_valid_rxack` and `tcp_txavail` promise.
use tas.Base.{ℕ, ◌+◌, ◌-◌, ◌≤◌, ◌<◌, ◌^◌, ◌≡◌, ◌↔◌, some, arith, min, add32, sub32}
use tas.Fast.Flow.{Flow}
use tas.Fast.Seq.{tcp_valid_rxack, tcp_txavail}

module _ (fs : Flow) (ack : ℕ) (seq_ok : fs.tx_next_seq < 2 ^ 32) (ack_ok : ack < 2 ^ 32)
    (small : fs.tx_sent + fs.tx_avail < 2 ^ 32) where
  rxack_accepts :
      (n : ℕ)
      → n ≤ fs.tx_sent + fs.tx_avail
      → ack ≡ add32 (sub32 fs.tx_next_seq fs.tx_sent) n
      → tcp_valid_rxack fs ack ≡ some n
  unfolding tcp_valid_rxack
  rxack_accepts n h e = ground arith

  rxack_sound :
      (n : ℕ)
      → tcp_valid_rxack fs ack ≡ some n
      → (n ≤ fs.tx_sent + fs.tx_avail) × (ack ≡ add32 (sub32 fs.tx_next_seq fs.tx_sent) n)
  unfolding tcp_valid_rxack
  rxack_sound n e = ground arith

  -- For an acknowledgement number below 2^32 and fewer than 2^32 bytes in the send buffer,
  -- `tcp_valid_rxack` returns the bump `n` exactly if `n` is no more than the sent and unsent bytes
  -- and the number is that of the first unacknowledged byte plus `n`, mod 2^32.
  pub valid_rxack_iff :
      (n : ℕ)
      → (tcp_valid_rxack fs ack ≡ some n)
        ↔ ((n ≤ fs.tx_sent + fs.tx_avail) × (ack ≡ add32 (sub32 fs.tx_next_seq fs.tx_sent) n))
  valid_rxack_iff n = (rxack_sound n, λ h. rxack_accepts n h.0 h.1)

-- `tcp_txavail` is the smaller of the unsent bytes and the part of the peer's window that sent bytes
-- do not use.
pub txavail_min : (fs : Flow) → tcp_txavail fs ≡ min fs.tx_avail (fs.rx_remote_avail - fs.tx_sent)
unfolding tcp_txavail
txavail_min fs = ground arith
