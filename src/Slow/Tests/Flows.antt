-- ===== src/Slow/Tests/Flows.antt =====
-- Connections and their flows.
use tas.Base.{ℕ, ◌+◌, ◌^◌, ◌<◌, ◌≡◌, refl, arith, true, none, some, [], ◌∷◌, put}
use tas.Fast.Flow.{FlowConf, Flow}
use tas.Fast.Receive.{Packet}
use tas.Fast.Classify.{same_tuple, entry_for, entry_flow, bucket, packet_fss}
use tas.Fast.Classify.Lookup.{IsFound}
use tas.Slow.Nicif.{flow_id_alloc_init, flow_id_alloc}
use tas.Slow.Nicif.Slots.{HashTable, is_taken, entry_dist, find_empty, slot_by, flow_slot_alloc}
use tas.Slow.Nicif.Open.{AreWords}
use tas.Slow.Nicif.Slot.{Allocates, slot_alloc-Allocates}
use tas.Slow.Nicif.Ids.{alloc, free, id_run, IsShared, ids-IsShared}
use tas.Slow.Nicif.Connections.{
  NicState, ConnArgs, conn_flow, conn_addresses, added, conn_write, add_by, add_with,
  nicif_connection_add,
}
use tas.Slow.Nicif.Added.{IsFor, add_then_lookup, add_keeps_found}

abbrev blank_conf : FlowConf
blank_conf = record {
  opaque = 0;
  rx_base = 0;
  tx_base = 0;
  rx_len = 0;
  tx_len = 0;
  tunnel_id = 0;
  out_local_ip = 0;
  out_remote_ip = 0;
  in_local_ip = 0;
  in_remote_ip = 0;
  local_port = 0;
  remote_port = 0;
  remote_mac = 0;
  db_id = 0;
  app_id = 0;
  vm_id = 0;
  flow_group = 0;
}

abbrev blank : Flow
blank = record {
  conf = blank_conf;
  flags = 0;
  bump_seq = 0;
  rx_avail = 0;
  rx_next_pos = 0;
  rx_next_seq = 0;
  rx_remote_avail = 0;
  rx_dupack_cnt = 0;
  rx_ooo_start = 0;
  rx_ooo_len = 0;
  tx_avail = 0;
  tx_sent = 0;
  tx_next_pos = 0;
  tx_next_seq = 0;
  tx_next_ts = 0;
  tx_rate = 0;
  cnt_tx_drops = 0;
  cnt_rx_acks = 0;
  cnt_rx_ack_bytes = 0;
  cnt_rx_ecn_bytes = 0;
  rtt_est = 0;
}

abbrev args : ConnArgs
args = record {
  gre = none;
  db = 1;
  vm_id = 0;
  app_id = 2;
  mac_remote = 77;
  ip_local = 10;
  port_local = 80;
  ip_remote = 11;
  port_remote = 5000;
  rx_base = 4096;
  rx_len = 8192;
  tx_base = 16384;
  tx_len = 8192;
  remote_seq = 100;
  local_seq = 200;
  app_opaque = 3;
  is_ecn = true;
  rate = 10000;
  flow_group = 0;
}

abbrev segment : ℕ → Packet
segment src = record {
  tunnel = none;
  eth_src = 77;
  ip_len = 40;
  ip_ecn = 0;
  ip_src = 11;
  ip_dest = 10;
  src = src;
  dest = 80;
  seqno = 100;
  ackno = 200;
  hdrlen = 5;
  flags = 16;
  wnd = 10;
  ts_val = 0;
  ts_ecr = 0;
  buf = λ a. 0;
}

abbrev empty : HashTable
empty x = record { flow_id = 0; flow_hash = 0 }

abbrev idle : NicState
idle = record { flows = record { flowst = λ id. blank; flowht = empty }; free_ids = 7 ∷ [] }

empty-AreWords : AreWords empty
empty-AreWords x = omega arith

slot_alloc-Allocates_example : Allocates empty 5 (flow_slot_alloc 17 empty 5)
slot_alloc-Allocates_example = slot_alloc-Allocates 17 empty 5 (omega arith) empty-AreWords

abbrev added_state : NicState
added_state = conn_write args 5 7 (record idle { free_ids = [] }) 5 0 empty

adding : nicif_connection_add 17 (λ c. 5) args idle ≡ added 7 added_state
unfolding nicif_connection_add flow_id_alloc add_with flow_slot_alloc find_empty is_taken slot_by
    add_by
adding = refl

add_then_lookup_example : packet_fss (λ p. 5) added_state.flows (segment 5000) ≡ some 7
unfolding IsFor same_tuple
add_then_lookup_example =
    add_then_lookup 17 (λ c. 5) args idle 7 added_state (λ p. 5) (segment 5000) (omega arith)
      empty-AreWords adding (omega arith) refl (refl, refl, refl, refl)
      (λ id e. absurd (ground (arith, e)))

-- a flow of another port of the same hash, in the first of its buckets
abbrev other : NicState
other = record {
  flows = record {
    flowst = put (λ id. blank) 3 (conn_flow (record args { port_remote = 6000 }) blank);
    flowht = put empty 5 (record { flow_id = 2 ^ 31 + 3; flow_hash = 5 });
  };
  free_ids = 7 ∷ [];
}

other-AreWords : AreWords (put empty 5 (record { flow_id = 2 ^ 31 + 3; flow_hash = 5 }))
other-AreWords x = ground arith

other_found : IsFound other.flows (segment 6000) 5 0 3
unfolding bucket entry_for entry_flow same_tuple conn_flow conn_addresses
other_found = record { valid = refl; here = refl; same = refl }

abbrev second_state : NicState
second_state = conn_write args 5 7 (record other { free_ids = [] }) 6 1 other.flows.flowht

adding_second : nicif_connection_add 17 (λ c. 5) args other ≡ added 7 second_state
unfolding nicif_connection_add flow_id_alloc add_with flow_slot_alloc find_empty is_taken slot_by
    add_by
adding_second = refl

add_keeps_found_example : (k : ℕ) × (k < 4) × IsFound second_state.flows (segment 6000) 5 k 3
unfolding bucket entry_dist
add_keeps_found_example =
    add_keeps_found 17 (λ c. 5) args other 7 second_state (segment 6000) 5 0 3 (omega arith)
      other-AreWords adding_second (omega arith) (omega arith) other_found refl

ids-IsShared_example : IsShared (
    id_run
      (alloc ∷ alloc ∷ free 0 ∷ alloc ∷ [])
      (record { free_ids = flow_id_alloc_init; used = [] }))
ids-IsShared_example = ids-IsShared (alloc ∷ alloc ∷ free 0 ∷ alloc ∷ [])
