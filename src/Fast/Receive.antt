-- ===== src/Fast/Receive.antt =====
-- The receive side of tas/fast/fast_flows.c: `fast_flows_packet` and `fast_flows_packet_gre`, stage
-- by stage. The two differ in the packet's headers and in the format of the acknowledgement only.
-- Tracing, debug output and statistics that are off by default are left out.
pub mod Acked
pub mod Acks
pub mod Moved
pub mod Payload
pub mod Order
pub mod Keeps
pub mod Deliver
use tas.Base.{
  ℕ, ◌+◌, ◌-◌, ◌*◌, ◌/◌, ◌%◌, ◌^◌, Bool, true, false, not, ◌&&◌, ◌||◌, List, [], ◌∷◌, ◌++◌, Option,
  none, some, min, ltb, leb, ◌==◌, if◌then◌else◌, Memory, read_bytes, add32, sub32, u16, has,
  with_flag,
}
use tas.Fast.Flow.{Flow, flag_rxfin}
use tas.Fast.Seq.{Cut, tcp_valid_rxack, tcp_trim_rxbuf}
use tas.Fast.Buffer.{flow_rx_write, flow_rx_seq_write}
use tas.Fast.Segment.{Tunnel, tcp_fin, tcp_ack, tcp_ece}
use tas.Fast.Transmit.{tx_pos_after, flow_reset_retransmit}

-- The parsed headers of a packet, with its bytes. `tunnel` is none for `struct pkt_tcp`. The inner
-- IP header is the only one of a packet without a tunnel.
pub record Packet : Type 0 where
  pub tunnel : Option Tunnel
  pub eth_src : ℕ
  pub ip_len : ℕ
  pub ip_ecn : ℕ
  pub ip_src : ℕ
  pub ip_dest : ℕ
  pub src : ℕ
  pub dest : ℕ
  pub seqno : ℕ
  pub ackno : ℕ
  pub hdrlen : ℕ
  pub flags : ℕ
  pub wnd : ℕ
  pub ts_val : ℕ
  pub ts_ecr : ℕ
  pub buf : Memory

-- sizeof(*p)
abbrev pub pkt_size : Packet → ℕ
pkt_size p = elim p.tunnel [ none ↦ 54 | some t ↦ 82 ]

-- `tcp_extra_hlen`
unfoldable pub extra_hlen : Packet → ℕ
extra_hlen p = u16 (p.hdrlen * 4 + 2 ^ 16 - 20)

-- `payload_bytes`, a difference that is not checked: it wraps if `ip_len` is short.
unfoldable pub payload_size : Packet → ℕ
payload_size p = sub32 p.ip_len (40 + extra_hlen p)

-- The variables of the handler, with the flow and the memory.
pub record Rx : Type 0 where
  pub flow : Flow
  pub mem : Memory
  pub payload_bytes : ℕ
  pub payload_off : ℕ
  pub seq : ℕ
  pub rx_bump : ℕ
  pub tx_bump : ℕ
  pub fin_bump : Bool
  pub trigger_ack : Bool

-- A stage goes on to the next one, or jumps to the label `unlock`.
pub data Stage : Type 0 where
  go : Rx → Stage
  unlock : Rx → Stage

infixl 5 ◌>>=◌
abbrev pub ◌>>=◌ : Stage → (Rx → Stage) → Stage
go r >>= f = f r
unlock r >>= f = unlock r

-- flags that the fast path does not handle: SYN, RST, URG and NS
unfoldable pub odd_flags : ℕ → Bool
odd_flags f = has f 0x02 || (has f 0x04 || (has f 0x20 || has f 0x100))

-- the flow after a valid acknowledgement of `bump` bytes, which may be more than were sent
unfoldable pub ack_bytes : Flow → ℕ → Flow
ack_bytes fs bump =
    let ahead = bump - fs.tx_sent in
    if leb bump fs.tx_sent then record fs { tx_sent = fs.tx_sent - bump } else record fs {
      tx_next_seq = add32 fs.tx_next_seq ahead;
      tx_next_pos = tx_pos_after fs ahead;
      tx_avail = sub32 fs.tx_avail ahead;
      tx_sent = 0;
    }

-- the congestion control statistics of an acknowledgement
unfoldable pub ack_stats : Flow → Packet → ℕ → Flow
ack_stats fs p bump = record fs {
  cnt_rx_ack_bytes = add32 fs.cnt_rx_ack_bytes bump;
  cnt_rx_ecn_bytes =
      if has p.flags tcp_ece then add32 fs.cnt_rx_ecn_bytes bump else fs.cnt_rx_ecn_bytes;
}

-- The third duplicate acknowledgement in a row starts a retransmission and ends the handler.
unfoldable pub ack_dup : Rx → ℕ → ℕ → Stage
ack_dup r orig_payload bump =
    let fs = r.flow in
    let fs' = record fs { rx_dupack_cnt = add32 fs.rx_dupack_cnt 1 } in
    if not (bump == 0)
    then go (record r { flow = record fs { rx_dupack_cnt = 0 } })
    else if not (orig_payload == 0)
    then go r
    else if leb 3 fs'.rx_dupack_cnt
    then unlock (record r { flow = flow_reset_retransmit fs' })
    else go (record r { flow = fs' })

unfoldable pub ack_valid : Rx → Packet → ℕ → Option ℕ → Stage
ack_valid r p orig_payload none = go r
ack_valid r p orig_payload (some bump) =
    ack_dup (record r { flow = ack_bytes (ack_stats r.flow p bump) bump; tx_bump = bump })
      orig_payload bump

unfoldable pub ack_stage : Packet → ℕ → Rx → Stage
ack_stage p orig_payload r =
    let fs = record (r.flow) { cnt_rx_acks = u16 (r.flow.cnt_rx_acks + 1) } in
    if has p.flags tcp_ack
    then ack_valid (record r { flow = fs }) p orig_payload (tcp_valid_rxack fs p.ackno)
    else go r

-- the bytes of the payload, as the copies take them
unfoldable pub payload : Packet → Rx → List ℕ
payload p r = read_bytes p.buf r.payload_off (u16 r.payload_bytes)

-- A segment out of order starts the interval, or joins it at either end, or is forgotten.
unfoldable pub ooo_add : Packet → Rx → Rx
ooo_add p r =
    let fs = r.flow in
    let mem = flow_rx_seq_write fs r.mem r.seq (u16 r.payload_bytes) (payload p r) in
    if fs.rx_ooo_len == 0
    then record r {
      flow = record fs { rx_ooo_start = r.seq; rx_ooo_len = r.payload_bytes };
      mem = mem;
    }
    else if add32 r.seq r.payload_bytes == fs.rx_ooo_start
    then record r {
      flow = record fs { rx_ooo_start = r.seq; rx_ooo_len = add32 fs.rx_ooo_len r.payload_bytes };
      mem = mem;
    }
    else if add32 fs.rx_ooo_start fs.rx_ooo_len == r.seq
    then record r {
      flow = record fs { rx_ooo_len = add32 fs.rx_ooo_len r.payload_bytes };
      mem = mem;
    }
    else r

unfoldable pub order_stage : Packet → Rx → Stage
order_stage p r =
    if r.seq == r.flow.rx_next_seq
    then go r
    else if r.payload_bytes == 0
    then unlock (record r { trigger_ack = true })
    else unlock (ooo_add p (record r { trigger_ack = true }))

-- trim the payload to what the receive buffer can take
unfoldable pub trim_to : Packet → Rx → Option Cut → Stage
trim_to p r none = unlock (record r { trigger_ack = true })
trim_to p r (some c) = order_stage p (record r {
  payload_bytes = sub32 r.payload_bytes (c.start + c.end);
  payload_off = add32 r.payload_off c.start;
  seq = add32 r.seq c.start;
})

unfoldable pub trim_stage : Packet → Rx → Stage
trim_stage p r = trim_to p r (tcp_trim_rxbuf r.flow r.seq (u16 r.payload_bytes))

-- TCP_MAX_RTT
abbrev pub max_rtt : ℕ
max_rtt = 100000

unfoldable pub rtt_update : ℕ → ℕ → ℕ
rtt_update rtt_est rtt =
    if ltb rtt max_rtt
    then (if not (rtt_est == 0) then (rtt_est * 7 + rtt) % 2 ^ 32 / 8 else rtt)
    else rtt_est

-- the timestamp, the round trip time and the peer's window; no payload is taken after a FIN
unfoldable pub header_stage : Packet → ℕ → Rx → Stage
header_stage p ts r =
    let fs = record (r.flow) {
      tx_next_ts = p.ts_val;
      rtt_est =
          if has p.flags tcp_ack && not (p.ts_ecr == 0)
          then rtt_update r.flow.rtt_est (sub32 ts p.ts_ecr)
          else r.flow.rtt_est;
      rx_remote_avail = p.wnd;
    } in
    if has fs.flags flag_rxfin && ltb 0 r.payload_bytes
    then unlock (record r { flow = fs })
    else go (record r { flow = fs })

-- the flow after `n` more bytes in order
unfoldable pub rx_advance : Flow → ℕ → Flow
rx_advance fs n =
    let pos = add32 fs.rx_next_pos n in
    record fs {
      rx_avail = sub32 fs.rx_avail n;
      rx_next_pos = if leb fs.rx_len pos then pos - fs.rx_len else pos;
      rx_next_seq = add32 fs.rx_next_seq n;
    }

-- the interval cut to the receive window, and taken if the stream has caught up with it
unfoldable pub ooo_cut : Rx → Option Cut → Rx
ooo_cut r none = record r { flow = record (r.flow) { rx_ooo_len = 0 } }
ooo_cut r (some c) =
    let fs = record (r.flow) {
      rx_ooo_start = add32 r.flow.rx_ooo_start c.start;
      rx_ooo_len = sub32 r.flow.rx_ooo_len (c.start + c.end);
    } in
    if ltb 0 fs.rx_ooo_len && fs.rx_ooo_start == fs.rx_next_seq
    then record r {
      flow = record (rx_advance fs fs.rx_ooo_len) { rx_ooo_len = 0 };
      rx_bump = add32 r.rx_bump fs.rx_ooo_len;
    }
    else record r { flow = fs }

unfoldable pub ooo_merge : Rx → Rx
ooo_merge r =
    let fs = r.flow in
    if fs.rx_ooo_len == 0
    then r
    else ooo_cut r (tcp_trim_rxbuf fs fs.rx_ooo_start (u16 fs.rx_ooo_len))

-- copy the payload to the receive buffer
unfoldable pub payload_take : Packet → Rx → Rx
payload_take p r =
    let fs = r.flow in
    record r {
      flow = rx_advance fs r.payload_bytes;
      mem = flow_rx_write fs r.mem fs.rx_next_pos (u16 r.payload_bytes) (payload p r);
      rx_bump = r.payload_bytes;
      trigger_ack = true;
    }

unfoldable pub payload_stage : Packet → Rx → Stage
payload_stage p r = go (if ltb 0 r.payload_bytes then ooo_merge (payload_take p r) else r)

-- A FIN counts if everything before it has arrived; it takes a sequence number.
unfoldable pub fin_stage : Packet → ℕ → Rx → Stage
fin_stage p orig_payload r =
    let fs = r.flow in
    if has p.flags tcp_fin
      && not (has fs.flags flag_rxfin)
      && (fs.rx_next_seq == add32 p.seqno orig_payload && fs.rx_ooo_len == 0)
    then go (record r {
      flow = record fs {
        flags = with_flag fs.flags flag_rxfin;
        rx_next_seq = add32 fs.rx_next_seq 1;
      };
      fin_bump = true;
      trigger_ack = true;
    })
    else go r

-- all stages, up to the label `unlock`
unfoldable pub rx_stages : Packet → ℕ → ℕ → Rx → Stage
rx_stages p orig_payload ts r =
    ack_stage p orig_payload r
    >>= trim_stage p
    >>= header_stage p ts
    >>= payload_stage p
    >>= fin_stage p orig_payload

abbrev pub stage_rx : Stage → Rx
stage_rx (go r) = r
stage_rx (unlock r) = r
