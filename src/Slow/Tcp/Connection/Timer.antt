-- ===== src/Slow/Tcp/Connection/Timer.antt =====
-- The timer of a connection over its life.
use tas.Base.{
  ℕ, zero, suc, ◌-◌, ◌*◌, ◌^◌, ◌≤◌, ◌<◌, ◌≡◌, Bool, none, true, false, not, ◌&&◌, Option, some,
  List, [], ◌∷◌, ◌++◌, if◌then◌else◌, ◌>>=◌,
}
use tas.Slow.Nicif.Connections.{Disabled}
use tas.Slow.Tcp.Connection.{
  ConnStatus, syn_wait, ovs_pending, ovs_comp, arp_pending, syn_sent, reg_synack, opened, closed,
  failed, Conn, ConnEffect, control, arm, disarm, unregister, cc_init, cc_remove, app_opened,
  app_accepted, app_closed, free_port, free_buffers, free_flow, free_conn, ConnStep, TcpConfig,
  TcpPacket, conn_packet,
}
use tas.Slow.Tcp.Connection.Events.{
  TcpTimeout, to_handshake, to_closed, tcp_timeout, tcp_poll, tcp_close,
}

-- What happens to a connection; the other events carry the arguments of the operations.
pub data ConnEvent : Type 0 where
  packet : TcpPacket → (flow : Option ℕ) → ConnEvent
  timer : (random : ℕ) → ConnEvent
  poll : (random : ℕ) (ok : Bool) → ConnEvent
  close : Disabled → ConnEvent
  destroy : ConnEvent

-- Whether the connection is in the table of connections, and in the list of congestion control.
pub record Outside : Type 0 where
  pub registered : Bool
  pub in_cc : Bool

-- An effect outside the connection. `none` is the `abort` of `conn_unregister` of a connection that is
-- not in the table, or of `cc_conn_remove` of one that is not in the list.
unfoldable pub perform : ConnEffect → Outside → Option Outside
perform e o = elim e [
  | unregister ↦ if o.registered then some (record o { registered = false }) else none
  | cc_init ↦ some (record o { in_cc = true })
  | cc_remove ↦ if o.in_cc then some (record o { in_cc = false }) else none
  | _ ↦ some o
]

unfoldable pub perform_all : List ConnEffect → Outside → Option Outside
perform_all [] o = some o
perform_all (e ∷ es) o = perform e o >>= (λ q. perform_all es q)

-- The connection, what has been done for it, where it is, and whether its memory is freed.
pub record ConnState : Type 0 where
  pub conn : Conn
  pub outside : Outside
  pub log : List ConnEffect
  pub freed : Bool

unfoldable pub is_closed : ConnStatus → Bool
is_closed closed = true
is_closed syn_wait = false
is_closed ovs_pending = false
is_closed ovs_comp = false
is_closed arp_pending = false
is_closed syn_sent = false
is_closed reg_synack = false
is_closed opened = false
is_closed failed = false

unfoldable pub is_failed : ConnStatus → Bool
is_failed failed = true
is_failed syn_wait = false
is_failed ovs_pending = false
is_failed ovs_comp = false
is_failed arp_pending = false
is_failed syn_sent = false
is_failed reg_synack = false
is_failed opened = false
is_failed closed = false

-- the states in which congestion control has the connection
unfoldable pub is_accepted : ConnStatus → Bool
is_accepted opened = true
is_accepted reg_synack = true
is_accepted syn_wait = false
is_accepted ovs_pending = false
is_accepted ovs_comp = false
is_accepted arp_pending = false
is_accepted syn_sent = false
is_accepted closed = false
is_accepted failed = false

-- the states in which `tcp_open` and `listener_accept` leave a connection
unfoldable pub is_start : ConnStatus → Bool
is_start arp_pending = true
is_start reg_synack = true
is_start syn_wait = false
is_start ovs_pending = false
is_start ovs_comp = false
is_start syn_sent = false
is_start opened = false
is_start closed = false
is_start failed = false

-- the states in which a timer runs
unfoldable pub has_timer : ConnStatus → Bool
has_timer syn_sent = true
has_timer closed = true
has_timer syn_wait = false
has_timer ovs_pending = false
has_timer ovs_comp = false
has_timer arp_pending = false
has_timer reg_synack = false
has_timer opened = false
has_timer failed = false

-- the type with which it was armed
unfoldable pub timer_type : ConnStatus → TcpTimeout
timer_type st = if is_closed st then to_closed else to_handshake

-- the connection in its state `st` is where the state says
unfoldable pub Fits : ConnStatus → Outside → Type 0
Fits st o = (o.registered ≡ not (is_failed st)) × (is_accepted st ≡ true → o.in_cc ≡ true)

unfoldable pub after_event : ConnState → Bool → ConnStep → Option ConnState
after_event s freed r =
    perform_all r.1 s.outside
    >>= (λ o. some (record { conn = r.0; outside = o; log = s.log ++ r.1; freed = freed }))

-- An event of a connection that is not freed. A timer that does not run does not fire, and the
-- application destroys failed connections only.
unfoldable pub live_event : TcpConfig → ConnEvent → ConnState → Option ConnState
live_event conf (packet p flow) s = conn_packet s.conn p flow >>= (λ r. after_event s false r)
live_event conf (timer random) s =
    if s.conn.to_armed
    then tcp_timeout conf random (timer_type s.conn.status) s.conn
      >>= (λ r. after_event s (is_closed s.conn.status) r)
    else some s
live_event conf (poll random ok) s = tcp_poll conf random ok s.conn >>= (λ r. after_event s false r)
live_event conf (close d) s = tcp_close s.conn d >>= (λ r. after_event s false r)
live_event conf destroy s =
    if is_failed s.conn.status
    then after_event s true (s.conn, free_buffers ∷ free_conn ∷ [])
    else some s

unfoldable pub conn_event : TcpConfig → ConnEvent → ConnState → Option ConnState
conn_event conf e s = let live = live_event conf e s in if s.freed then some s else live

unfoldable pub conn_run : TcpConfig → List ConnEvent → ConnState → Option ConnState
conn_run conf [] s = some s
conn_run conf (e ∷ es) s = conn_event conf e s >>= (λ t. conn_run conf es t)

unfoldable pub frees_port : List ConnEffect → Bool
frees_port [] = false
frees_port (free_port ∷ es) = true
frees_port (control c ∷ es) = frees_port es
frees_port (arm us ∷ es) = frees_port es
frees_port (disarm ∷ es) = frees_port es
frees_port (unregister ∷ es) = frees_port es
frees_port (cc_init ∷ es) = frees_port es
frees_port (cc_remove ∷ es) = frees_port es
frees_port (app_opened st ∷ es) = frees_port es
frees_port (app_accepted ∷ es) = frees_port es
frees_port (app_closed ∷ es) = frees_port es
frees_port (free_buffers ∷ es) = frees_port es
frees_port (free_flow ∷ es) = frees_port es
frees_port (free_conn ∷ es) = frees_port es

-- `t` doubled `n` times
unfoldable pub grown : ℕ → ℕ → ℕ
grown t zero = t
grown t (suc n) = grown (2 * t) n

-- The times of the attempts that are left can be armed: what is waited for is less than one and a half
-- of the time, and has to be less than 2^27.
unfoldable pub Retries : TcpConfig → Conn → Bool → Type 0
Retries conf c true = Unit
Retries conf c false =
    (0 < c.timeout)
    × (c.to_attempts ≤ conf.tcp_handshake_retries)
    × (3 * grown c.timeout (conf.tcp_handshake_retries - c.to_attempts) ≤ 2 ^ 28)

unfoldable pub is_syn_sent : ConnStatus → Bool
is_syn_sent st = has_timer st && not (is_closed st)

-- The timer runs exactly in the states SYN_SENT and CLOSED.
pub record IsTimed (conf : TcpConfig) (c : Conn) : Type 0 where
  pub timer : c.to_armed ≡ has_timer c.status
  pub retries : Retries conf c (not (is_syn_sent c.status))
