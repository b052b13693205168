-- ===== src/Fast/Transmit/Forward.antt =====
-- `fast_flows_qman_fwd`, and the 16 bits of its flow index.
use tas.Base.{ℕ, ◌-◌, ◌≤◌, ◌<◌, ◌^◌, ◌≡◌, refl, true, [], ◌∷◌, arith, u16}
use tas.Fast.Flow.{Flow}
use tas.Fast.Seq.{tcp_txavail}
use tas.Fast.Transmit.{returns, set_queue, tcp_mss, queue_exists, fast_flows_qman_fwd}
use tas.Fast.Transmit.Valid.{update_queue_lem}

-- For a flow whose index is below 2^16 and whose queue exists, `fast_flows_qman_fwd` returns with the
-- flow unchanged, and sets the queue of that index to the flow's rate and to what can be sent.
pub qman_fwd_queue :
    (fs : Flow) (index : ℕ)
    → index < 2 ^ 16
    → queue_exists fs.vm_id index ≡ true
    → fast_flows_qman_fwd fs index
      ≡ returns (record {
        ok = true;
        flow = fs;
        effects =
            set_queue (record {
              vm_id = fs.vm_id;
              flow_id = index;
              rate = fs.tx_rate;
              avail = tcp_txavail fs;
              max_chunk = tcp_mss;
            })
            ∷ [];
      })
unfolding fast_flows_qman_fwd
qman_fwd_queue fs index h q =
    let same : u16 index ≡ index = omega arith in
    rw (same, update_queue_lem fs index (tcp_txavail fs) q) refl

-- For a flow with an index from 2^16 to 2^17 - 1, `fast_flows_qman_fwd` does what it does for the index
-- that is 2^16 less: it sets the queue of another flow.
pub qman_fwd_wrong_queue :
    (fs : Flow) (index : ℕ)
    → 2 ^ 16 ≤ index
    → index < 2 ^ 17
    → fast_flows_qman_fwd fs index ≡ fast_flows_qman_fwd fs (index - 2 ^ 16)
unfolding fast_flows_qman_fwd
qman_fwd_wrong_queue fs index h k =
    let same : u16 index ≡ u16 (index - 2 ^ 16) = omega arith in rw same refl
