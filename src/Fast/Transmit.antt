-- ===== src/Fast/Transmit.antt =====
-- The transmit side of tas/fast/fast_flows.c: `fast_flows_qman`, `fast_flows_qman_fwd`,
-- `fast_flows_bump`, `fast_flows_winretransmit`, `fast_flows_retransmit` and
-- `flow_reset_retransmit`. Each runs under the flow's lock, as one step.
pub mod Valid
pub mod Send
pub mod Bump
pub mod Rewind
pub mod Forward
pub use tas.Fast.Step.{
  QueueSet, Effect, forward, notify, set_queue, charge, send, Outcome, abort, returns, Result, Core,
}
use tas.Base.{
  ℕ, ◌+◌, ◌-◌, ◌/◌, ◌*◌, ◌^◌, Bool, true, false, not, ◌&&◌, ◌||◌, List, [], ◌∷◌, ◌++◌, min, ltb,
  leb, ◌==◌, if◌then◌else◌, Memory, add32, sub32, u16, has, with_flag,
}
use tas.Fast.Flow.{Flow, flag_txfin}
use tas.Fast.Seq.{tcp_txavail, tcp_txavail_of}
use tas.Fast.Segment.{Segment, Request, flow_tx_segment, flow_tx_segment_gre}

abbrev pub tcp_mss : ℕ
tcp_mss = 1400

-- What `vm_qman_set` and `flow_qman_set` of tas/fast/qman.c check before they do anything:
-- FLEXNIC_PL_VMST_NUM and FLEXNIC_NUM_QMFLOWQUEUES.
unfoldable pub queue_exists : ℕ → ℕ → Bool
queue_exists vm_id flow_id = ltb vm_id 6 && ltb flow_id (128 * 1024)

-- The build option VIRTUOSO_GRE chooses the packet format.
unfoldable pub tx_segment : Bool → Flow → Memory → Request → Segment
tx_segment gre fs mem r = if gre then flow_tx_segment_gre fs mem r else flow_tx_segment fs mem r

-- the position `n` bytes further in the transmit buffer
unfoldable pub tx_pos_after : Flow → ℕ → ℕ
tx_pos_after fs n =
    let pos = add32 fs.tx_next_pos n in if leb fs.tx_len pos then pos - fs.tx_len else pos

-- the flow after `len` bytes were taken for a segment
unfoldable pub tx_advance : Flow → ℕ → Flow
tx_advance fs len = record fs {
  tx_next_seq = add32 fs.tx_next_seq len;
  tx_next_pos = tx_pos_after fs len;
  tx_sent = add32 fs.tx_sent len;
  tx_avail = sub32 fs.tx_avail len;
}

-- The segment that `fast_flows_qman` asks for, from the flow before and after the update; the last of
-- the `len` bytes is the dummy byte of a FIN if nothing remains.
unfoldable pub qman_request : Core → Flow → Flow → ℕ → ℕ → Request
qman_request core fs fs' len ts =
    let fin = has fs'.flags flag_txfin && fs'.tx_avail == 0 in
    record {
      seq = fs.tx_next_seq;
      ack = fs.rx_next_seq;
      rxwnd = fs.rx_avail;
      payload = if fin then len - 1 else len;
      payload_pos = fs.tx_next_pos;
      ts_echo = fs'.tx_next_ts;
      ts_my = ts;
      fin = fin;
      congested = core.congested;
    }

-- the end of `fast_flows_qman`: update the flow, send `len` bytes
unfoldable pub qman_send : Core → Flow → Memory → ℕ → ℕ → Result
qman_send core fs mem len ts =
    let fs' = tx_advance fs len in
    record {
      ok = true;
      flow = fs';
      effects = send (tx_segment core.gre fs' mem (qman_request core fs fs' len ts)) ∷ [];
    }

-- the flow has moved to `core'`: forward it, clear its queue here
unfoldable pub qman_forward : Core → Flow → ℕ → ℕ → ℕ → Outcome Result
qman_forward core fs vm_id queue core' =
    if core.ring_takes && queue_exists vm_id queue
    then returns (record {
      ok = false;
      flow = fs;
      effects =
          forward core'
          ∷ set_queue
              (record { vm_id = vm_id; flow_id = queue; rate = 0; avail = 0; max_chunk = 0 })
          ∷ notify core'
          ∷ [];
    })
    else abort

unfoldable pub fast_flows_qman : Core → Flow → Memory → ℕ → ℕ → ℕ → Outcome Result
fast_flows_qman core fs mem vm_id queue ts =
    let core' = core.steering fs.flow_group in
    let avail = tcp_txavail fs in
    if not (core' == core.id)
    then qman_forward core fs vm_id queue core'
    else if avail == 0
    then returns (record { ok = false; flow = fs; effects = [] })
    else returns (qman_send core fs mem (min avail tcp_mss) ts)

-- `tas_qman_set` with the flow's rate, if the queue exists
unfoldable pub update_queue : Flow → ℕ → ℕ → Outcome (List Effect)
update_queue fs flow_id avail =
    if queue_exists fs.vm_id flow_id
    then returns (
        set_queue (record {
          vm_id = fs.vm_id;
          flow_id = flow_id;
          rate = fs.tx_rate;
          avail = avail;
          max_chunk = tcp_mss;
        })
        ∷ [])
    else abort

abbrev pub then_return {ℓ} : {A : Type ℓ} → Outcome (List Effect) → (List Effect → A) → Outcome A
then_return abort f = abort
then_return (returns es) f = returns (f es)

-- `index` is the flow's index in the flow table; `flow_id` is a `uint16_t`.
unfoldable pub fast_flows_qman_fwd : Flow → ℕ → Outcome Result
fast_flows_qman_fwd fs index =
    then_return (update_queue fs (u16 index) (tcp_txavail fs))
      (λ es. record { ok = true; flow = fs; effects = es })

unfoldable pub flow_reset_retransmit : Flow → Flow
flow_reset_retransmit fs = record fs {
  rx_dupack_cnt = 0;
  tx_next_seq = sub32 fs.tx_next_seq fs.tx_sent;
  tx_next_pos =
      if leb fs.tx_sent fs.tx_next_pos
      then fs.tx_next_pos - fs.tx_sent
      else sub32 fs.tx_len (fs.tx_sent - fs.tx_next_pos);
  tx_avail = add32 fs.tx_avail fs.tx_sent;
  tx_sent = 0;
  tx_rate = if fs.cnt_tx_drops == 0 then fs.tx_rate / 2 else fs.tx_rate;
  cnt_tx_drops = u16 (fs.cnt_tx_drops + 1);
}

unfoldable pub fast_flows_retransmit : Flow → ℕ → Outcome Result
fast_flows_retransmit fs flow_id =
    let count = charge fs.vm_id 1 in
    let fs' = flow_reset_retransmit fs in
    if fs.tx_sent == 0
    then returns (record { ok = true; flow = fs; effects = count ∷ [] })
    else if ltb (tcp_txavail fs) (tcp_txavail fs')
    then then_return (update_queue fs' flow_id (tcp_txavail fs'))
        (λ es. record { ok = true; flow = fs'; effects = count ∷ es })
    else returns (record { ok = true; flow = fs'; effects = count ∷ [] })

-- a segment with no payload that carries the receive window
unfoldable pub window_update : Core → Flow → Memory → ℕ → Effect
window_update core fs mem ts = send (
    tx_segment core.gre fs mem (record {
      seq = fs.tx_next_seq;
      ack = fs.rx_next_seq;
      rxwnd = fs.rx_avail;
      payload = 0;
      payload_pos = 0;
      ts_echo = fs.tx_next_ts;
      ts_my = ts;
      fin = false;
      congested = core.congested;
    }))

unfoldable pub fast_flows_winretransmit : Core → Flow → Memory → ℕ → Result
fast_flows_winretransmit core fs mem ts = record {
  ok = true;
  flow = fs;
  effects = charge fs.vm_id 1 ∷ window_update core fs mem ts ∷ [];
}

-- The application's notice that it read `rx_bump` bytes and wrote `tx_bump`; `done` is
-- FLEXTCP_PL_ATX_FLTXDONE.
pub record Notice : Type 0 where
  pub bump_seq : ℕ
  pub rx_bump : ℕ
  pub tx_bump : ℕ
  pub done : Bool

-- The test for notices out of order, with UINT16_MAX / 2, UINT16_MAX / 4 * 3 and UINT16_MAX / 4.
unfoldable pub bump_stale : ℕ → ℕ → Bool
bump_stale bump_seq old =
    (leb old bump_seq && ltb 32767 (bump_seq - old))
    || (ltb bump_seq old && (ltb old 49149 || ltb 16383 bump_seq))

-- the bytes for transmission that are accepted at all; 0 on a closed flow
unfoldable pub bump_tx : Flow → Notice → ℕ
bump_tx fs n = if has fs.flags flag_txfin && not (n.tx_bump == 0) then 0 else n.tx_bump

-- closing without the dummy byte
unfoldable pub bump_empty_close : Flow → Notice → Bool
bump_empty_close fs n = n.done && not (has fs.flags flag_txfin) && n.tx_bump == 0

-- both validations fail on this
unfoldable pub bump_too_large : Flow → ℕ → ℕ → Bool
bump_too_large fs rx_bump tx_bump =
    let tx_avail = add32 fs.tx_avail tx_bump in
    (ltb fs.tx_len tx_bump || ltb fs.tx_len tx_avail || ltb fs.tx_len (add32 tx_avail fs.tx_sent))
    || (ltb fs.rx_len rx_bump || ltb fs.tx_len (add32 rx_bump fs.rx_avail))

-- the flow after an accepted notice
unfoldable pub bump_apply : Flow → Notice → Flow
bump_apply fs n = record fs {
  flags = if n.done then with_flag fs.flags flag_txfin else fs.flags;
  tx_avail = add32 fs.tx_avail (bump_tx fs n);
  rx_avail = add32 fs.rx_avail n.rx_bump;
}

-- the rest of `fast_flows_bump` after the validations; `ok` says that a packet is sent
unfoldable pub bump_accept : Core → Flow → Memory → ℕ → Notice → ℕ → Outcome Result
bump_accept core fs mem flow_id n ts =
    let fs' = bump_apply fs n in
    let new_avail = tcp_txavail_of fs fs'.tx_avail in
    let update = new_avail == 0 && fs.rx_avail == 0 && not (fs'.rx_avail == 0) in
    let sent = (if update then window_update core fs' mem ts ∷ [] else []) in
    if ltb (tcp_txavail fs) new_avail
    then then_return (update_queue fs flow_id new_avail)
        (λ es. record { ok = update; flow = fs'; effects = es ++ sent })
    else returns (record { ok = update; flow = fs'; effects = sent })

unfoldable pub fast_flows_bump : Core → Flow → Memory → ℕ → Notice → ℕ → Outcome Result
fast_flows_bump core fs mem flow_id n ts =
    let seen = record fs { bump_seq = n.bump_seq } in
    let refused : Flow → Outcome Result =
      λ f. returns (record { ok = false; flow = f; effects = [] }) in
    if bump_stale n.bump_seq fs.bump_seq
    then refused fs
    else if bump_empty_close fs n
    then refused seen
    else if bump_too_large fs n.rx_bump (bump_tx fs n)
    then refused seen
    else bump_accept core seen mem flow_id n ts
