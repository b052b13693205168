-- ===== src/Slow/Tcp/Connection/Events.antt =====
-- The timeouts of a connection, `tcp_poll` and `tcp_close`, of tas/slow/tcp.c.
use tas.Base.{
  ℕ, ◌+◌, ◌*◌, ◌%◌, ◌^◌, Bool, true, false, not, ◌||◌, Option, none, some, [], ◌∷◌, ◌++◌, ltb,
  if◌then◌else◌, ◌>>=◌,
}
use tas.Slow.Nicif.Connections.{Disabled}
use tas.Slow.Tcp.Connection.{
  ConnStatus, Conn, ConnStep, TcpConfig, syn_flag, ack_flag, ece_flag, tcp_mss_opt, first_syn,
  send_control, conn_timeout_arm, conn_failed, conn_arp_done, syn_wait, ovs_pending, ovs_comp,
  arp_pending, syn_sent, reg_synack, opened, closed, failed, arm, unregister, cc_remove,
  app_accepted, app_closed, free_port, free_buffers, free_flow, free_conn,
}

-- `tcp_timeout` of the handshake, in the state SYN_SENT
unfoldable pub handshake_timeout : TcpConfig → ℕ → Conn → Option ConnStep
handshake_timeout conf random c =
    let d = record c { to_attempts = c.to_attempts + 1; to_armed = false } in
    let e = record d { timeout = (d.timeout * 2) % 2 ^ 32 } in
    if ltb conf.tcp_handshake_retries d.to_attempts
    then some (conn_failed d 1)
    else conn_timeout_arm random e
      >>= (λ r. some (r.0, r.1 ++ (send_control e first_syn (some 0) tcp_mss_opt ∷ [])))

-- `conn_close_timeout`; the connection is freed at its end
unfoldable pub conn_close_timeout : Conn → ConnStep
conn_close_timeout c = (
  record c { to_armed = false },
  free_port ∷ unregister ∷ free_buffers ∷ free_flow ∷ app_closed ∷ free_conn ∷ [],
)

-- the types of timeouts of connections
pub data TcpTimeout : Type 0 where
  to_handshake : TcpTimeout
  to_closed : TcpTimeout

-- `tcp_timeout` after its assertion, by the state
unfoldable pub timeout_in : TcpConfig → ℕ → ConnStatus → TcpTimeout → Conn → Option ConnStep
timeout_in conf random status to_closed c = some (conn_close_timeout c)
timeout_in conf random syn_sent to_handshake c = handshake_timeout conf random c
timeout_in conf random syn_wait to_handshake c = none
timeout_in conf random ovs_pending to_handshake c = none
timeout_in conf random ovs_comp to_handshake c = none
timeout_in conf random arp_pending to_handshake c = none
timeout_in conf random reg_synack to_handshake c = none
timeout_in conf random opened to_handshake c = none
timeout_in conf random closed to_handshake c = none
timeout_in conf random failed to_handshake c = none

unfoldable pub tcp_timeout : TcpConfig → ℕ → TcpTimeout → Conn → Option ConnStep
tcp_timeout conf random type c = if c.to_armed then timeout_in conf random c.status type c else none

-- `conn_reg_synack`
unfoldable pub conn_reg_synack : Conn → ConnStep
conn_reg_synack c = (
  record c { status = opened },
  send_control c (syn_flag + ack_flag + (if c.is_ecn then ece_flag else 0)) (some c.syn_ts)
        tcp_mss_opt
      ∷ app_accepted
      ∷ [],
)

-- `tcp_poll` for one connection of the queue, by the state, given `comp.status == 0`. Without tunnels no
-- connection comes into the state OVS_COMP; its case is not modelled, and nothing happens here.
unfoldable pub poll_in : TcpConfig → ℕ → Bool → ConnStatus → Conn → Option ConnStep
poll_in conf random ok arp_pending c =
    if ok then conn_arp_done conf random c else some (conn_failed c 1)
poll_in conf random ok reg_synack c =
    if ok then some (conn_reg_synack c) else some (conn_failed c 1)
poll_in conf random ok syn_wait c = some (c, [])
poll_in conf random ok ovs_pending c = some (c, [])
poll_in conf random ok ovs_comp c = some (c, [])
poll_in conf random ok syn_sent c = some (c, [])
poll_in conf random ok opened c = some (c, [])
poll_in conf random ok closed c = some (c, [])
poll_in conf random ok failed c = some (c, [])

unfoldable pub tcp_poll : TcpConfig → ℕ → Bool → Conn → Option ConnStep
tcp_poll conf random ok c = poll_in conf random ok c.status c

-- `tcp_close` of an open connection, given what `nicif_connection_disable` returns
unfoldable pub close_open : Conn → Disabled → Option ConnStep
close_open c r =
    let d = record c { remote_seq = r.rx_seq; local_seq = r.tx_seq } in
    let reset =
      if not r.tx_closed || not r.rx_closed then send_control d 0x04 none 0 ∷ [] else [] in
    if c.to_armed
    then none
    else some (record d { status = closed; to_armed = true }, reset ++ (cc_remove ∷ arm 10000 ∷ []))

-- the state for `tcp_close`; -1 leaves all as it is
unfoldable pub is_opened : ConnStatus → Bool
is_opened opened = true
is_opened syn_wait = false
is_opened ovs_pending = false
is_opened ovs_comp = false
is_opened arp_pending = false
is_opened syn_sent = false
is_opened reg_synack = false
is_opened closed = false
is_opened failed = false

unfoldable pub tcp_close : Conn → Disabled → Option ConnStep
tcp_close c r = if is_opened c.status then close_open c r else some (c, [])
