-- ===== src/Fast/Tests.antt =====
-- Flows and packets to run the code on.
mod Receiving
mod Sending
mod Parsing
mod Classifying
mod Queueing
use tas.Base.{ℕ, ◌+◌, ◌-◌, ◌≤◌, ◌<◌, ◌^◌, ◌≡◌, Bool, false, true, none, arith, Memory}
use tas.Fast.Flow.{FlowConf, Flow}
use tas.Fast.Segment.{Tunnel}
use tas.Fast.Step.{Core}
use tas.Fast.Transmit.Valid.{IsValid}
use tas.Fast.Receive.{Packet}
use tas.Fast.Receive.Moved.{IsShort}
use tas.Fast.Receive.Keeps.{IsWhole}

-- Each address holds its own low byte.
abbrev pub bytes : Memory
bytes a = a

abbrev pub conf : FlowConf
conf = record {
  opaque = 77;
  rx_base = 1000;
  tx_base = 2000;
  rx_len = 16;
  tx_len = 16;
  tunnel_id = 5;
  out_local_ip = 11;
  out_remote_ip = 12;
  in_local_ip = 13;
  in_remote_ip = 14;
  local_port = 80;
  remote_port = 4000;
  remote_mac = 99;
  db_id = 2;
  app_id = 0;
  vm_id = 1;
  flow_group = 3;
}

-- Both buffers go round their ends soon, and so do the sequence numbers of the transmit side.
abbrev pub flow : Flow
flow = record {
  conf = conf;
  flags = 0;
  bump_seq = 65530;
  rx_avail = 10;
  rx_next_pos = 12;
  rx_next_seq = 100;
  rx_remote_avail = 8;
  rx_dupack_cnt = 0;
  rx_ooo_start = 105;
  rx_ooo_len = 2;
  tx_avail = 6;
  tx_sent = 4;
  tx_next_pos = 14;
  tx_next_seq = 2;
  tx_next_ts = 50;
  tx_rate = 1000;
  cnt_tx_drops = 0;
  cnt_rx_acks = 0;
  cnt_rx_ack_bytes = 0;
  cnt_rx_ecn_bytes = 0;
  rtt_est = 0;
}

pub flow-IsValid : IsValid flow
flow-IsValid = ground arith

pub flow-IsShort : IsShort flow
flow-IsShort = ground arith

abbrev pub core : Core
core = record { id = 0; steering = λ g. 0; ring_takes = true; gre = false; congested = false }

-- An acknowledgement of 3 bytes that carries 5 bytes in order.
abbrev pub packet : Packet
packet = record {
  tunnel = none;
  eth_src = 99;
  ip_len = 57;
  ip_ecn = 0;
  ip_src = 12;
  ip_dest = 11;
  src = 4000;
  dest = 80;
  seqno = 100;
  ackno = 1;
  hdrlen = 8;
  flags = 16;
  wnd = 8;
  ts_val = 60;
  ts_ecr = 40;
  buf = bytes;
}

abbrev pub tunnel : Tunnel
tunnel = record { out_len = 85; out_src = 21; out_dest = 22; key = 5 }
