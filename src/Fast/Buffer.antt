-- ===== src/Fast/Buffer.antt =====
-- The copies between packets and the circular buffers of a flow: `flow_tx_read`, `flow_rx_write` and
-- `flow_rx_seq_write` of tas/fast/fast_flows.c, over the memory that `dma_read` and `dma_write` reach.
pub mod Ring
use tas.Base.{
  ℕ, ◌+◌, ◌-◌, ◌++◌, List, leb, if◌then◌else◌, Memory, read_bytes, write_bytes, add32, sub32, take,
  drop,
}
use tas.Fast.Flow.{Flow}

-- `len` bytes from position `pos` of the transmit buffer
unfoldable pub flow_tx_read : Flow → Memory → ℕ → ℕ → List ℕ
flow_tx_read fs mem pos len =
    if leb (add32 pos len) fs.tx_len
    then read_bytes mem (fs.tx_base + pos) len
    else (let part = sub32 fs.tx_len pos in
        read_bytes mem (fs.tx_base + pos) part ++ read_bytes mem fs.tx_base (len - part))

-- the first `len` bytes of `src` to position `pos` of the receive buffer
unfoldable pub flow_rx_write : Flow → Memory → ℕ → ℕ → List ℕ → Memory
flow_rx_write fs mem pos len src =
    if leb (add32 pos len) fs.rx_len
    then write_bytes mem (fs.rx_base + pos) (take len src)
    else (let part = sub32 fs.rx_len pos in
        write_bytes (write_bytes mem (fs.rx_base + pos) (take part src)) fs.rx_base
          (take (len - part) (drop part src)))

-- the same at the position of the sequence number `seq`
unfoldable pub flow_rx_seq_write : Flow → Memory → ℕ → ℕ → List ℕ → Memory
flow_rx_seq_write fs mem seq len src =
    let diff = sub32 seq fs.rx_next_seq in
    let pos = add32 fs.rx_next_pos diff in
    flow_rx_write fs mem (if leb fs.rx_len pos then pos - fs.rx_len else pos) len src
