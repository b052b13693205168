-- ===== src/Slow/Nicif/Connections.antt =====
-- The flows of the slow path's connections: `nicif_connection_add`, `nicif_connection_add_gre`,
-- `nicif_connection_disable`, `nicif_connection_free`, `nicif_connection_move`,
-- `nicif_connection_stats` and `nicif_connection_setrate` of tas/slow/nicif.c. The checksum of the
-- addresses is a parameter, as it is where the fast path looks flows up. Memory barriers and the lock
-- are left out: each operation is one step.
use tas.Base.{
  ℕ, ◌-◌, ◌%◌, Bool, not, ◌&&◌, Option, none, some, List, ltb, leb, ◌==◌, if◌then◌else◌, put, has,
  with_flag,
}
use tas.Fast.Flow.{FlowConf, Flow, flag_slowpath, flag_ecn, flag_txfin, flag_rxfin}
use tas.Fast.Classify.{FlowTable, ht_entries, ht_nbsz}
use tas.Slow.Nicif.{flowst_num, flow_id_alloc, flow_id_free}
use tas.Slow.Nicif.Slots.{
  HashTable, taken_id, SlotResult, slot, no_slot, asserted, still_moving, flow_slot_alloc,
  flow_slot_clear,
}

-- The flow table and the free flow identifiers.
pub record NicState : Type 0 where
  pub flows : FlowTable
  pub free_ids : List ℕ

-- `tunnel_id` and the outer addresses of `nicif_connection_add_gre`
pub record GreArgs : Type 0 where
  pub tunnel_id : ℕ
  pub out_ip_local : ℕ
  pub out_ip_remote : ℕ

-- The arguments of the two functions; `is_ecn` is the test of `flags`. With `gre` the addresses are the
-- inner ones.
pub record ConnArgs : Type 0 where
  pub gre : Option GreArgs
  pub db : ℕ
  pub vm_id : ℕ
  pub app_id : ℕ
  pub mac_remote : ℕ
  pub ip_local : ℕ
  pub port_local : ℕ
  pub ip_remote : ℕ
  pub port_remote : ℕ
  pub rx_base : ℕ
  pub rx_len : ℕ
  pub tx_base : ℕ
  pub tx_len : ℕ
  pub remote_seq : ℕ
  pub local_seq : ℕ
  pub app_opaque : ℕ
  pub is_ecn : Bool
  pub rate : ℕ
  pub flow_group : ℕ

-- the addresses of the flow; without `gre` the tunnel's stay as they were
unfoldable pub conn_addresses : ConnArgs → Option GreArgs → FlowConf → FlowConf
conn_addresses c none conf = record conf { out_local_ip = c.ip_local; out_remote_ip = c.ip_remote }
conn_addresses c (some g) conf = record conf {
  tunnel_id = g.tunnel_id;
  out_local_ip = g.out_ip_local;
  out_remote_ip = g.out_ip_remote;
  in_local_ip = c.ip_local;
  in_remote_ip = c.ip_remote;
}

-- The flow that `old` is overwritten with. `rx_base` is split into the address and the flags.
unfoldable pub conn_flow : ConnArgs → Flow → Flow
conn_flow c old = record old {
  conf = record (conn_addresses c c.gre old.conf) {
    opaque = c.app_opaque;
    rx_base = c.rx_base - c.rx_base % 64;
    tx_base = c.tx_base;
    rx_len = c.rx_len;
    tx_len = c.tx_len;
    remote_mac = c.mac_remote;
    db_id = c.db;
    app_id = c.app_id;
    vm_id = c.vm_id;
    local_port = c.port_local;
    remote_port = c.port_remote;
    flow_group = c.flow_group;
  };
  flags = if c.is_ecn then with_flag (c.rx_base % 64) flag_ecn else c.rx_base % 64;
  bump_seq = 0;
  rx_avail = c.rx_len;
  rx_next_pos = 0;
  rx_next_seq = c.remote_seq;
  rx_remote_avail = c.rx_len;
  tx_sent = 0;
  tx_next_pos = 0;
  tx_next_seq = c.local_seq;
  tx_avail = 0;
  tx_next_ts = 0;
  tx_rate = c.rate;
  rtt_est = 0;
}

-- The flow identifier, or -1, or a failed assertion, or out of fuel; with the state.
pub data AddResult : Type 0 where
  added : (f_id : ℕ) → NicState → AddResult
  not_added : NicState → AddResult
  add_asserted : AddResult
  add_unfinished : AddResult

-- the flow and its slot written
unfoldable pub conn_write : ConnArgs → (hash f_id : ℕ) → NicState → (i d : ℕ) → HashTable → NicState
conn_write c hash f_id s i d t = record s {
  flows = record {
    flowst = put s.flows.flowst f_id (conn_flow c (s.flows.flowst f_id));
    flowht = put t i (record { flow_id = taken_id d f_id; flow_hash = hash });
  };
}

-- by what `flow_slot_alloc` returns; `s` lacks the identifier
unfoldable pub add_by : ConnArgs → (hash f_id : ℕ) → NicState → SlotResult → AddResult
add_by c hash f_id s (slot i d t) =
    if ltb i ht_entries && ltb d ht_nbsz
    then added f_id (conn_write c hash f_id s i d t)
    else add_asserted
add_by c hash f_id s (no_slot t) =
    not_added
      (record { flows = record (s.flows) { flowht = t }; free_ids = flow_id_free f_id s.free_ids })
add_by c hash f_id s asserted = add_asserted
add_by c hash f_id s still_moving = add_unfinished

-- by what `flow_id_alloc` returns
unfoldable pub add_with : ℕ → (ConnArgs → ℕ) → ConnArgs → NicState → Option (ℕ × List ℕ) → AddResult
add_with fuel conn_hash c s none = not_added s
add_with fuel conn_hash c s (some w) =
    add_by c (conn_hash c) w.0 (record s { free_ids = w.1 })
      (flow_slot_alloc fuel s.flows.flowht (conn_hash c))

unfoldable pub nicif_connection_add : ℕ → (ConnArgs → ℕ) → ConnArgs → NicState → AddResult
nicif_connection_add fuel conn_hash c s = add_with fuel conn_hash c s (flow_id_alloc s.free_ids)

-- What `nicif_connection_disable` returns.
pub record Disabled : Type 0 where
  pub tx_seq : ℕ
  pub rx_seq : ℕ
  pub tx_closed : Bool
  pub rx_closed : Bool

-- the table without the slot, or as it was if there is none
unfoldable pub clear_or : HashTable → Option HashTable → HashTable
clear_or t none = t
clear_or t (some u) = u

-- given the hash of the flow's addresses
unfoldable pub nicif_connection_disable : (Flow → ℕ) → (f_id : ℕ) → NicState → Disabled × NicState
nicif_connection_disable conn_hash f_id s =
    let fs = s.flows.flowst f_id in
    (
      record {
        tx_seq = fs.tx_next_seq;
        rx_seq = fs.rx_next_seq;
        tx_closed = has fs.flags flag_txfin && fs.tx_sent == 0;
        rx_closed = has fs.flags flag_rxfin;
      },
      record s {
        flows = record {
          flowst = put s.flows.flowst f_id (record fs { flags = with_flag fs.flags flag_slowpath });
          flowht = clear_or s.flows.flowht (flow_slot_clear s.flows.flowht f_id (conn_hash fs));
        };
      },
    )

unfoldable pub nicif_connection_free : (f_id : ℕ) → NicState → NicState
nicif_connection_free f_id s = record s { free_ids = flow_id_free f_id s.free_ids }

unfoldable pub nicif_connection_move : (dst_db f_id : ℕ) → NicState → NicState
nicif_connection_move dst_db f_id s =
    let fs = s.flows.flowst f_id in
    record s {
      flows = record (s.flows) {
        flowst = put s.flows.flowst f_id (record fs { conf = record (fs.conf) { db_id = dst_db } });
      };
    }

-- `struct nicif_connection_stats`
pub record ConnStats : Type 0 where
  pub c_drops : ℕ
  pub c_acks : ℕ
  pub c_ackb : ℕ
  pub c_ecnb : ℕ
  pub txp : Bool
  pub rtt : ℕ
  pub c_tx_next_seq : ℕ
  pub c_tx_avail : ℕ

unfoldable pub nicif_connection_stats : (f_id : ℕ) → NicState → Option ConnStats
nicif_connection_stats f_id s =
    let fs = s.flows.flowst f_id in
    if leb flowst_num f_id
    then none
    else some (record {
      c_drops = fs.cnt_tx_drops;
      c_acks = fs.cnt_rx_acks;
      c_ackb = fs.cnt_rx_ack_bytes;
      c_ecnb = fs.cnt_rx_ecn_bytes;
      txp = not (fs.tx_sent == 0);
      rtt = fs.rtt_est;
      c_tx_next_seq = fs.tx_next_seq;
      c_tx_avail = fs.tx_avail;
    })

unfoldable pub nicif_connection_setrate : (f_id rate : ℕ) → NicState → Option NicState
nicif_connection_setrate f_id rate s =
    if leb flowst_num f_id
    then none
    else some (record s {
      flows = record (s.flows) {
        flowst = put s.flows.flowst f_id (record (s.flows.flowst f_id) { tx_rate = rate });
      };
    })
