-- ===== src/Slow/Tests/Connecting.antt =====
-- Ports, handshakes and listeners.
use tas.Base.{ℕ, ◌+◌, ◌<◌, ◌≡◌, refl, arith, Bool, true, false, none, some, Option, List, [], ◌∷◌}
use tas.Slow.Nicif.Connections.{Disabled}
use tas.Slow.Tcp.Ports.{PortTable, unused, conn, is_unused, init_hint, port_running, port_alloc}
use tas.Slow.Tcp.Ports.Search.{Finds, port_alloc-Finds}
use tas.Slow.Tcp.Ports.Hint.{low_hint_hangs}
use tas.Slow.Tcp.Connection.{
  arp_pending, opened, Conn, TcpConfig, TcpPacket, first_syn, conn_packet,
}
use tas.Slow.Tcp.Connection.Timer.{
  ConnEvent, packet, timer, poll, close, destroy, ConnState, conn_event, conn_run, grown,
}
use tas.Slow.Tcp.Connection.Handshake.{
  timers, tally, is_syn, calling, IsGivenUp, handshake_ends, syn_again_ignored,
}
use tas.Slow.Tcp.Listener.{Syn, Listener, refused, tcp_accept}
use tas.Slow.Tcp.Listener.Backlog.{IsRing, contents}
use tas.Slow.Tcp.Listener.Serves.{Serves}
use tas.Slow.Tcp.Listener.Order.{ListenEvent, syn, accept, accept_stuck}

abbrev no_ports : PortTable
no_ports p = unused

port_alloc-Finds_example : Finds no_ports (port_alloc 57344 no_ports 9000)
port_alloc-Finds_example =
    port_alloc-Finds 57344 no_ports 9000 (omega arith)
      (record { first = omega arith; last = omega arith })

abbrev all_ports : PortTable
all_ports p = conn

low_hint_hangs_example : port_alloc 100000 all_ports (init_hint 57400) ≡ port_running
unfolding is_unused
low_hint_hangs_example = low_hint_hangs 100000 57400 all_ports (omega arith) refl (λ q h. refl)

abbrev conf : TcpConfig
conf = record { tcp_handshake_to = 10000; tcp_handshake_retries = 3 }

abbrev starting : Conn
starting = record {
  status = arp_pending;
  remote_seq = 0;
  local_seq = 0;
  syn_ts = 0;
  timeout = 0;
  to_attempts = 0;
  to_armed = false;
  is_ecn = false;
  flow_id = 0;
}

abbrev syn_ack : TcpPacket
syn_ack = record { flags = 0x12; seqno = 500; ackno = 1; ts_val = some 9 }

abbrev both_closed : Disabled
both_closed = record { tx_seq = 5; rx_seq = 6; tx_closed = true; rx_closed = true }

abbrev life : List ConnEvent
life =
    poll 11 true ∷ timer 12 ∷ packet syn_ack (some 4) ∷ close both_closed ∷ timer 0 ∷ destroy ∷ []

abbrev dialling : Conn
dialling = record starting { timeout = 10000; to_attempts = 1 }

handshake_ends_example :
    (t : ConnState) × (conn_run conf (timers (5 ∷ 6 ∷ 7 ∷ [])) (calling dialling []) ≡ some t)
    × IsGivenUp 2 [] t
unfolding grown
handshake_ends_example =
    handshake_ends conf 2 dialling [] (5 ∷ 6 ∷ 7 ∷ []) refl refl (omega arith) (omega arith)

abbrev repeated : TcpPacket
repeated = record { flags = first_syn; seqno = 499; ackno = 0; ts_val = some 9 }

syn_again_ignored_example :
    (t : ConnState) × (conn_event conf (timer 5) (calling dialling []) ≡ some t)
    × (tally is_syn t.log ≡ tally is_syn [] + 1)
    × (conn_packet (record starting { status = opened }) repeated none
        ≡ some (record starting { status = opened }, []))
syn_again_ignored_example =
    syn_again_ignored conf 5 dialling (record starting { status = opened }) repeated none []
      (omega arith) (omega arith) (omega arith) refl refl

abbrev caller : ℕ → Bool → Syn
caller port ok = record {
  flags = 0xc2;
  ip_len = 60;
  src_ip = 11;
  dest_ip = 10;
  src_port = port;
  dest_port = 80;
  has_options = ok;
  cut_options = false;
  fn_core = 0;
  flow_group = 0;
}

abbrev listening : Listener
listening = record {
  backlog_len = 2048;
  backlog_pos = 2047;
  backlog_used = 2;
  backlog = λ i. caller i false;
  wait_conns = [];
}

listening-IsRing : IsRing listening
listening-IsRing = record { some_room = omega arith; inside = omega arith; fits = omega arith }

abbrev add_flow : Syn → Option ℕ
add_flow p = some p.src_port

abbrev events : List ListenEvent
events =
    syn (caller 5000 true) add_flow ∷ accept 1 add_flow ∷ accept 2 add_flow ∷ accept 3 add_flow ∷ []

accept_stuck_example :
    (m : Listener) × (tcp_accept listening 1 add_flow ≡ some (m, refused (caller 2047 false) ∷ []))
    × (m.wait_conns ≡ 1 ∷ [])
    × (caller 2047 false ∷ contents m ≡ contents listening)
    × (0 < m.backlog_used)
accept_stuck_example = accept_stuck listening 1 add_flow listening-IsRing (omega arith) refl refl
