-- ===== src/Fast/Seq.antt =====
-- The sequence number arithmetic of tas/fast/tcp_common.h. `none` is the return value -1.
-- Sequence numbers and lengths are below 2^32 and 2^16; sums and differences wrap as in C.
pub mod Ack
pub mod Rxseq
pub mod Trim
use tas.Base.{
  ℕ, ◌+◌, ◌-◌, ◌<◌, Bool, ◌&&◌, ◌||◌, Option, none, some, ltb, leb, ==_iff, if◌then◌else◌, add32,
  sub32, u16,
}
use tas.Fast.Flow.{Flow}

-- How many bytes to cut off at the start and at the end of a payload.
pub record Cut : Type 0 where
  pub start : ℕ
  pub end : ℕ

-- The two stores through `uint16_t *`.
abbrev pub cut : ℕ → ℕ → Option Cut
cut s e = some (record { start = u16 s; end = u16 e })

-- `tcp_valid_rxseq` over the ends of the packet and of the receive window.
unfoldable pub rxseq_window : ℕ → ℕ → ℕ → ℕ → Option Cut
rxseq_window pa pb sa sb =
    if leb pa pb && leb sa sb
    then (if ltb pb sa
        then none
        else if ltb sa pa
        then none
        else cut (sub32 sa pa) (if ltb sb pb then sub32 pb sb else 0))
    else if leb pa pb && ltb sb sa
    then (if leb sb pa && ltb pb sa
        then none
        else if ltb sa pa || ltb pa sb
        then none
        else cut (sub32 sa pa) 0)
    else if ltb pb pa && leb sa sb
    then (if ltb pb sa
        then none
        else if ltb sa pa
        then none
        else cut (sub32 sa pa) (if ltb sb pb then sub32 pb sb else 0))
    else (if ltb sa pa then none else cut (sub32 sa pa) (if ltb sb pb then sub32 pb sb else 0))

unfoldable pub tcp_valid_rxseq : Flow → ℕ → ℕ → Option Cut
tcp_valid_rxseq fs pkt_seq pkt_bytes =
    rxseq_window pkt_seq (add32 pkt_seq pkt_bytes) fs.rx_next_seq (add32 fs.rx_next_seq fs.rx_avail)

-- `tcp_trim_rxbuf` over the ends of the packet and of the receive window.
unfoldable pub trim_window : ℕ → ℕ → ℕ → ℕ → Option Cut
trim_window pa pb sa sb =
    if leb pa pb && leb sa sb
    then (if ltb pb sa
        then none
        else if ltb sb pa
        then none
        else cut (if ltb pa sa then sub32 sa pa else 0) (if ltb sb pb then sub32 pb sb else 0))
    else if leb pa pb && ltb sb sa
    then (if ltb sb pa && ltb pb sa
        then none
        else cut (if ltb sb pa && ltb pa sa then sub32 sa pa else 0)
            (if leb sb pb && ltb pb sa then sub32 pb sb else 0))
    else if ltb pb pa && leb sa sb
    then (if ltb sb pa && ltb pb sa
        then none
        else cut (if leb sa pb || ltb pa sa then sub32 sa pa else 0)
            (if ltb sb pb || leb pa sa then sub32 pb sb else 0))
    else cut (if ltb pa sa then sub32 sa pa else 0) (if ltb sb pb then sub32 pb sb else 0)

unfoldable pub tcp_trim_rxbuf : Flow → ℕ → ℕ → Option Cut
tcp_trim_rxbuf fs pkt_seq pkt_bytes =
    trim_window pkt_seq (add32 pkt_seq pkt_bytes) fs.rx_next_seq (add32 fs.rx_next_seq fs.rx_avail)

-- `tcp_valid_rxack`, with ALLOW_FUTURE_ACKS defined: the bump, if the number is valid.
unfoldable pub tcp_valid_rxack : Flow → ℕ → Option ℕ
tcp_valid_rxack fs ack =
    let a = sub32 fs.tx_next_seq fs.tx_sent in
    let b = add32 fs.tx_next_seq fs.tx_avail in
    if leb a b
    then (if ltb ack a || ltb b ack then none else some (sub32 ack a))
    else (if ltb ack a && ltb b ack then none else some (sub32 ack a))

-- `tcp_txavail`: what can be sent, given the number of unsent bytes in the buffer.
unfoldable pub tcp_txavail_of : Flow → ℕ → ℕ
tcp_txavail_of fs buf_avail =
    let fc_avail =
      (if ltb fs.rx_remote_avail fs.tx_sent then 0 else fs.rx_remote_avail - fs.tx_sent) in
    if ltb fc_avail buf_avail then fc_avail else buf_avail

-- the same with a null pointer
unfoldable pub tcp_txavail : Flow → ℕ
unfolding tcp_txavail_of
tcp_txavail fs = tcp_txavail_of fs fs.tx_avail
