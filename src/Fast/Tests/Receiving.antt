-- ===== src/Fast/Tests/Receiving.antt =====
-- The receive side at work.
use tas.Base.{false, ◌≡◌, refl, true, none, some, arith, u16}
use tas.Fast.Tests.{flow, flow-IsValid, flow-IsShort, core, packet, tunnel, bytes}
use tas.Fast.Transmit.{queue_exists}
use tas.Fast.Transmit.Valid.{Returns}
use tas.Fast.Receive.{Rx, extra_hlen, stage_rx, rx_stages}
use tas.Fast.Receive.Deliver.{IsInOrder, stages_deliver}
use tas.Fast.Receive.Keeps.{IsWhole}
use tas.Fast.Packet.{fast_flows_packet, fast_flows_packet_gre}
use tas.Fast.Packet.Paths.{Agrees, packet-Agrees, packet_gre-Agrees}

packet-IsWhole : IsWhole (record packet { tunnel = none })
unfolding extra_hlen
packet-IsWhole = ground arith

packet_gre-IsWhole : IsWhole (record packet { tunnel = some tunnel })
unfolding extra_hlen
packet_gre-IsWhole = ground arith

queue_3 : queue_exists flow.vm_id (u16 3) ≡ true
unfolding queue_exists
queue_3 = refl

packet-Agrees_example :
    Returns
      (fast_flows_packet core packet 3 70 true true flow bytes)
      (λ res. Agrees flow res.flow res.effects)
packet-Agrees_example =
    packet-Agrees core packet 3 70 true true flow bytes flow-IsValid flow-IsShort packet-IsWhole
      queue_3

packet_gre-Agrees_example :
    Returns
      (fast_flows_packet_gre tunnel core packet 3 70 true true flow bytes)
      (λ res. Agrees flow res.flow res.effects)
packet_gre-Agrees_example =
    packet_gre-Agrees tunnel core packet 3 70 true true flow bytes flow-IsValid flow-IsShort
      packet_gre-IsWhole queue_3

-- the variables of the handler on the packet
abbrev started : Rx
started = record {
  flow = flow;
  mem = bytes;
  payload_bytes = 5;
  payload_off = 66;
  seq = 100;
  rx_bump = 0;
  tx_bump = 0;
  fin_bump = false;
  trigger_ack = true;
}

started-IsInOrder : IsInOrder started
started-IsInOrder = record {
  valid = flow-IsValid;
  next = refl;
  some_bytes = omega arith;
  small = omega arith;
  fits = omega arith;
  off_word = omega arith;
  open_stream = refl;
}

-- Byte 4 goes round the end of the buffer to its first position.
stages_deliver_example : (stage_rx (rx_stages packet 5 70 started)).mem 1000 ≡ 70
stages_deliver_example =
    stages_deliver packet 70 started 4 started-IsInOrder (omega arith) refl (omega arith)
