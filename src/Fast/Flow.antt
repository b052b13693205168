-- ===== src/Fast/Flow.antt =====
-- `struct flextcp_pl_flowst` of include/tas_memif.h, the state of one flow.
use tas.Base.{ℕ}

-- The fields that the fast path only reads. `lock` is left out: each operation below runs from
-- `fs_lock` to `fs_unlock`, as one step.
pub record FlowConf : Type 0 where
  pub opaque : ℕ
  pub rx_base : ℕ
  pub tx_base : ℕ
  pub rx_len : ℕ
  pub tx_len : ℕ
  pub tunnel_id : ℕ
  pub out_local_ip : ℕ
  pub out_remote_ip : ℕ
  pub in_local_ip : ℕ
  pub in_remote_ip : ℕ
  pub local_port : ℕ
  pub remote_port : ℕ
  pub remote_mac : ℕ
  pub db_id : ℕ
  pub app_id : ℕ
  pub vm_id : ℕ
  pub flow_group : ℕ

-- The rest. `rx_base_sp` is split: its address part is `rx_base`, and `flags` are its low six bits.
pub record Flow : Type 0 where
  pub conf : FlowConf
  pub open conf use *
  pub flags : ℕ
  pub bump_seq : ℕ
  pub rx_avail : ℕ
  pub rx_next_pos : ℕ
  pub rx_next_seq : ℕ
  pub rx_remote_avail : ℕ
  pub rx_dupack_cnt : ℕ
  pub rx_ooo_start : ℕ
  pub rx_ooo_len : ℕ
  pub tx_avail : ℕ
  pub tx_sent : ℕ
  pub tx_next_pos : ℕ
  pub tx_next_seq : ℕ
  pub tx_next_ts : ℕ
  pub tx_rate : ℕ
  pub cnt_tx_drops : ℕ
  pub cnt_rx_acks : ℕ
  pub cnt_rx_ack_bytes : ℕ
  pub cnt_rx_ecn_bytes : ℕ
  pub rtt_est : ℕ

-- FLEXNIC_PL_FLOWST_SLOWPATH, ECN, TXFIN and RXFIN
abbrev pub flag_slowpath : ℕ
flag_slowpath = 1

abbrev pub flag_ecn : ℕ
flag_ecn = 8

abbrev pub flag_txfin : ℕ
flag_txfin = 16

abbrev pub flag_rxfin : ℕ
flag_rxfin = 32
