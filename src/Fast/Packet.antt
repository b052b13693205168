-- ===== src/Fast/Packet.antt =====
-- `fast_flows_packet` and `fast_flows_packet_gre` of tas/fast/fast_flows.c around the stages of
-- `Receive`: what comes before them, what stands at the labels `unlock` and `slowpath`, and the
-- acknowledgement, `flow_tx_ack` and `flow_tx_ack_gre`.
pub mod Paths
use tas.Base.{
  ℕ, ◌+◌, ◌-◌, ◌*◌, Bool, true, false, not, ◌&&◌, ◌||◌, List, [], ◌∷◌, ◌++◌, Option, none, some,
  min, ltb, ◌==◌, if◌then◌else◌, Memory, u16, has, with_flag,
}
use tas.Fast.Flow.{Flow, flag_slowpath, flag_ecn}
use tas.Fast.Seq.{tcp_txavail}
use tas.Fast.Segment.{Segment, Tunnel, tcp_ack, tcp_ece}
use tas.Fast.Step.{Effect, charge, update_app, send, Outcome, returns, Core}
use tas.Fast.Transmit.{update_queue, then_return}
use tas.Fast.Receive.{
  Packet, pkt_size, extra_hlen, payload_size, Rx, Stage, stage_rx, odd_flags, rx_stages,
}

-- TAS_TCP_ACK, with the congestion echo if the packet is marked or the core signals it
unfoldable pub ack_flags : Core → Flow → Packet → ℕ
ack_flags core fs p =
    if p.ip_ecn == 3 || (has fs.flags flag_ecn && core.congested)
    then tcp_ack + tcp_ece
    else tcp_ack

-- the outer header sent back: addresses swapped, `hdrlen` bytes in all
unfoldable pub ack_tunnel : ℕ → Option Tunnel → Option Tunnel
ack_tunnel hdrlen none = none
ack_tunnel hdrlen (some t) = some (record {
  out_len = u16 (hdrlen - 14);
  out_src = t.out_dest;
  out_dest = t.out_src;
  key = t.key;
})

-- offsetof(struct pkt_tcp, ip) and offsetof(struct pkt_gre, in_ip)
abbrev pub ip_offset : Packet → ℕ
ip_offset p = elim p.tunnel [ none ↦ 14 | some t ↦ 42 ]

-- `flow_tx_ack` and `flow_tx_ack_gre`, as `fast_flows_packet` calls them: the received packet without
-- its payload, addresses swapped.
unfoldable pub flow_tx_ack : Core → Flow → Packet → ℕ → Segment
flow_tx_ack core fs p ts =
    let hdrlen = u16 (pkt_size p + extra_hlen p) in
    record {
      tunnel = ack_tunnel hdrlen p.tunnel;
      eth_dest = p.eth_src;
      ip_len = u16 (hdrlen - ip_offset p);
      ip_ecn = 0;
      ip_src = p.ip_dest;
      ip_dest = p.ip_src;
      src = p.dest;
      dest = p.src;
      seqno = fs.tx_next_seq;
      ackno = fs.rx_next_seq;
      hdrlen = p.hdrlen;
      flags = ack_flags core fs p;
      wnd = min 0xffff fs.rx_avail;
      ts_val = ts;
      ts_ecr = fs.tx_next_ts;
      payload = [];
      len = hdrlen;
    }

-- `slowpath` is the return value -1, `out_of_budget` the early 0, and `handled` the value of
-- `trigger_ack`.
pub data Verdict : Type 0 where
  slowpath out_of_budget : Verdict
  handled : Bool → Verdict

pub record RxResult : Type 0 where
  pub verdict : Verdict
  pub flow : Flow
  pub mem : Memory
  pub effects : List Effect

-- the application's notification, if one of the bumps is there
unfoldable pub app_update : Rx → ℕ → List Effect
app_update r rx_pos =
    if not (r.rx_bump == 0) || (not (r.tx_bump == 0) || r.fin_bump)
    then update_app (record {
      ctx_id = r.flow.db_id;
      vm_id = r.flow.vm_id;
      opaque = r.flow.opaque;
      rx_bump = r.rx_bump;
      rx_pos = rx_pos;
      tx_bump = r.tx_bump;
      rx_done = r.fin_bump;
    })
      ∷ []
    else []

-- the queue, if more can be sent than before the packet
unfoldable pub wake_queue : Flow → ℕ → ℕ → Outcome (List Effect)
wake_queue fs index old_avail =
    let avail = tcp_txavail fs in
    if ltb old_avail avail then update_queue fs (u16 index) avail else returns []

-- the code from the label `unlock` on
unfoldable pub rx_finish : Core → Packet → ℕ → ℕ → ℕ → ℕ → Rx → Outcome RxResult
rx_finish core p index ts old_avail rx_pos r =
    let ack = (if r.trigger_ack then send (flow_tx_ack core r.flow p ts) ∷ [] else []) in
    then_return (wake_queue r.flow index old_avail) (λ es. record {
      verdict = handled r.trigger_ack;
      flow = r.flow;
      mem = r.mem;
      effects = app_update r rx_pos ++ (es ++ ack);
    })

-- the variables before the first stage
unfoldable pub rx_start : Packet → Flow → Memory → Rx
rx_start p fs mem = record {
  flow = fs;
  mem = mem;
  payload_bytes = payload_size p;
  payload_off = pkt_size p + extra_hlen p;
  seq = p.seqno;
  rx_bump = 0;
  tx_bump = 0;
  fin_bump = false;
  trigger_ack = ltb 0 (payload_size p);
}

-- the code from the label `slowpath` on
unfoldable pub rx_slowpath : Flow → Memory → Bool → RxResult
rx_slowpath fs mem permanent = record {
  verdict = slowpath;
  flow = if permanent then record fs { flags = with_flag fs.flags flag_slowpath } else fs;
  mem = mem;
  effects = [];
}

-- the handler under the lock
unfoldable pub rx_locked : Core → Packet → ℕ → ℕ → Flow → Memory → Outcome RxResult
rx_locked core p index ts fs mem =
    if has fs.flags flag_slowpath
    then returns (rx_slowpath fs mem true)
    else if odd_flags p.flags
    then returns (rx_slowpath fs mem (not (has p.flags 0x02)))
    else rx_finish core p index ts (tcp_txavail fs) fs.rx_next_pos
        (stage_rx (rx_stages p (payload_size p) ts (rx_start p fs mem)))

abbrev pub charged : List Effect → Outcome RxResult → Outcome RxResult
charged es Outcome.abort = Outcome.abort
charged es (returns r) = returns (record r { effects = es ++ r.effects })

-- The whole handler, for both packet formats. `spend` is `spend_budget`, and `budget_left` says that
-- the machine's budget is positive. `index` is the flow's index in the flow table.
unfoldable pub rx_packet : Core → Packet → ℕ → ℕ → Bool → Bool → Flow → Memory → Outcome RxResult
rx_packet core p index ts spend budget_left fs mem =
    let cost = (if spend then charge fs.vm_id (payload_size p) ∷ [] else []) in
    if spend && not budget_left
    then returns (record { verdict = out_of_budget; flow = fs; mem = mem; effects = cost })
    else charged cost (rx_locked core p index ts fs mem)

-- a packet of `struct pkt_tcp`
unfoldable pub fast_flows_packet :
    Core → Packet → ℕ → ℕ → Bool → Bool → Flow → Memory → Outcome RxResult
fast_flows_packet core p = rx_packet core (record p { tunnel = none })

-- a packet of `struct pkt_gre`, with the outer header `t`
unfoldable pub fast_flows_packet_gre :
    Tunnel → Core → Packet → ℕ → ℕ → Bool → Bool → Flow → Memory → Outcome RxResult
fast_flows_packet_gre t core p = rx_packet core (record p { tunnel = some t })
