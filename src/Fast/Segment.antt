-- ===== src/Fast/Segment.antt =====
-- The packets that the fast path makes: `flow_tx_segment` and `flow_tx_segment_gre` of
-- tas/fast/fast_flows.c. Checksums are not part of them.
use tas.Base.{
  ℕ, ◌+◌, ◌-◌, Bool, ◌&&◌, Option, none, some, List, [], min, ltb, if◌then◌else◌, Memory, has,
  with_flag, u16,
}
use tas.Fast.Flow.{Flow, flag_ecn}
use tas.Fast.Buffer.{flow_tx_read}

-- TAS_TCP_FIN, PSH, ACK and ECE
abbrev pub tcp_fin : ℕ
tcp_fin = 0x01

abbrev pub tcp_psh : ℕ
tcp_psh = 0x08

abbrev pub tcp_ack : ℕ
tcp_ack = 0x10

abbrev pub tcp_ece : ℕ
tcp_ece = 0x40

-- The outer header of a tunnelled packet: its length, addresses and key.
pub record Tunnel : Type 0 where
  pub out_len : ℕ
  pub out_src : ℕ
  pub out_dest : ℕ
  pub key : ℕ

pub record Segment : Type 0 where
  pub tunnel : Option Tunnel
  pub eth_dest : ℕ
  pub ip_len : ℕ
  pub ip_ecn : ℕ
  pub ip_src : ℕ
  pub ip_dest : ℕ
  pub src : ℕ
  pub dest : ℕ
  pub seqno : ℕ
  pub ackno : ℕ
  pub hdrlen : ℕ
  pub flags : ℕ
  pub wnd : ℕ
  pub ts_val : ℕ
  pub ts_ecr : ℕ
  pub payload : List ℕ
  pub len : ℕ

-- What a call asks for. `congested` is the answer of `flow_should_signal_ece`, a comparison of
-- floating point numbers, for the flow's machine.
pub record Request : Type 0 where
  pub seq : ℕ
  pub ack : ℕ
  pub rxwnd : ℕ
  pub payload : ℕ
  pub payload_pos : ℕ
  pub ts_echo : ℕ
  pub ts_my : ℕ
  pub fin : Bool
  pub congested : Bool

-- `optlen`, the timestamp option with its padding
abbrev pub optlen : ℕ
optlen = 12

unfoldable pub segment_flags : Flow → Request → ℕ
segment_flags fs r =
    let flags = tcp_psh + tcp_ack + (if r.fin then tcp_fin else 0) in
    if has fs.flags flag_ecn && r.congested then with_flag flags tcp_ece else flags

-- TAS_IP_ECN_ECT0 if the flow is ECN capable
unfoldable pub segment_ecn : Flow → ℕ
segment_ecn fs = if has fs.flags flag_ecn then 2 else 0

unfoldable pub segment_payload : Flow → Memory → Request → List ℕ
segment_payload fs mem r =
    if ltb 0 r.payload then flow_tx_read fs mem r.payload_pos r.payload else []

unfoldable pub flow_tx_segment : Flow → Memory → Request → Segment
flow_tx_segment fs mem r = record {
  tunnel = none;
  eth_dest = fs.remote_mac;
  ip_len = u16 (54 + optlen - 14 + r.payload);
  ip_ecn = segment_ecn fs;
  ip_src = fs.out_local_ip;
  ip_dest = fs.out_remote_ip;
  src = fs.local_port;
  dest = fs.remote_port;
  seqno = r.seq;
  ackno = r.ack;
  hdrlen = 5 + 3;
  flags = segment_flags fs r;
  wnd = min 0xffff r.rxwnd;
  ts_val = r.ts_my;
  ts_ecr = r.ts_echo;
  payload = segment_payload fs mem r;
  len = u16 (54 + optlen + r.payload);
}

unfoldable pub flow_tx_segment_gre : Flow → Memory → Request → Segment
flow_tx_segment_gre fs mem r = record {
  tunnel = some (record {
    out_len = u16 (82 + optlen - 14 + r.payload);
    out_src = fs.out_local_ip;
    out_dest = fs.out_remote_ip;
    key = fs.tunnel_id;
  });
  eth_dest = fs.remote_mac;
  ip_len = u16 (82 + optlen - 42 + r.payload);
  ip_ecn = segment_ecn fs;
  ip_src = fs.in_local_ip;
  ip_dest = fs.in_remote_ip;
  src = fs.local_port;
  dest = fs.remote_port;
  seqno = r.seq;
  ackno = r.ack;
  hdrlen = 5 + 3;
  flags = segment_flags fs r;
  wnd = min 0xffff r.rxwnd;
  ts_val = r.ts_my;
  ts_ecr = r.ts_echo;
  payload = segment_payload fs mem r;
  len = u16 (82 + optlen + r.payload);
}
