-- ===== src/Slow/Tcp/Connection.antt =====
-- The states of a connection in tas/slow/tcp.c, without tunnels: the handshake of an opened connection,
-- packets, timeouts, closing and failing. What happens outside the connection is an effect, in the
-- order of the code. A random number, the result of `nicif_connection_add` and the one of
-- `nicif_connection_disable` are arguments. `none` stands for a failed assertion, `abort` or a division by 0;
-- the aborts of `conn_unregister` and `cc_conn_remove`, which are effects, are those of `perform` in Timer,
-- which the runs of a connection carry out.
pub mod Events
pub mod Timer
pub mod Good
pub mod Steps
pub mod Handshake
pub mod Ending
use tas.Base.{
  ℕ, ◌+◌, ◌*◌, ◌/◌, ◌%◌, ◌^◌, Bool, true, false, not, ◌&&◌, ◌||◌, Option, none, some, List, [], ◌∷◌,
  ◌++◌, ltb, leb, ◌==◌, if◌then◌else◌, add32, has, ◌>>=◌,
}
use tas.Slow.Nicif.Connections.{Disabled}

-- `enum connection_status`
pub data ConnStatus : Type 0 where
  syn_wait : ConnStatus
  ovs_pending : ConnStatus
  ovs_comp : ConnStatus
  arp_pending : ConnStatus
  syn_sent : ConnStatus
  reg_synack : ConnStatus
  opened : ConnStatus
  closed : ConnStatus
  failed : ConnStatus

-- The fields of `struct connection` that the operations below change. `is_ecn` is the flag
-- NICIF_CONN_ECN.
pub record Conn : Type 0 where
  pub status : ConnStatus
  pub remote_seq : ℕ
  pub local_seq : ℕ
  pub syn_ts : ℕ
  pub timeout : ℕ
  pub to_attempts : ℕ
  pub to_armed : Bool
  pub is_ecn : Bool
  pub flow_id : ℕ

-- A segment of `send_control`; `ts_echo` is there with a timestamp option.
pub record Control : Type 0 where
  pub flags : ℕ
  pub local_seq : ℕ
  pub remote_seq : ℕ
  pub ts_echo : Option ℕ
  pub mss_opt : ℕ

pub data ConnEffect : Type 0 where
  control : Control → ConnEffect
  arm : (us : ℕ) → ConnEffect
  disarm : ConnEffect
  unregister : ConnEffect
  cc_init : ConnEffect
  cc_remove : ConnEffect
  app_opened : (status : ℕ) → ConnEffect
  app_accepted : ConnEffect
  app_closed : ConnEffect
  free_port : ConnEffect
  free_buffers : ConnEffect
  free_flow : ConnEffect
  free_conn : ConnEffect

abbrev pub ConnStep : Type 0
ConnStep = Conn × List ConnEffect

-- `config.tcp_handshake_to` and `config.tcp_handshake_retries`
pub record TcpConfig : Type 0 where
  pub tcp_handshake_to : ℕ
  pub tcp_handshake_retries : ℕ

-- The fields of a packet that are read, with its flags below 2^9 and the timestamp option's value.
pub record TcpPacket : Type 0 where
  pub flags : ℕ
  pub seqno : ℕ
  pub ackno : ℕ
  pub ts_val : Option ℕ

abbrev pub syn_flag : ℕ
syn_flag = 0x02

abbrev pub ack_flag : ℕ
ack_flag = 0x10

abbrev pub ece_flag : ℕ
ece_flag = 0x40

abbrev pub tcp_mss_opt : ℕ
tcp_mss_opt = 1412

-- TAS_TCP_SYN | TAS_TCP_ECE | TAS_TCP_CWR
abbrev pub first_syn : ℕ
first_syn = 0x02 + 0x40 + 0x80

unfoldable pub send_control : Conn → (flags : ℕ) → Option ℕ → (mss_opt : ℕ) → ConnEffect
send_control c flags ts_echo mss_opt = control (record {
  flags = flags;
  local_seq = c.local_seq;
  remote_seq = c.remote_seq;
  ts_echo = ts_echo;
  mss_opt = mss_opt;
})

-- `conn_timeout_arm`, given the random number; `util_timeout_arm` aborts for a time of 2^27 or more.
unfoldable pub conn_timeout_arm : ℕ → Conn → Option ConnStep
conn_timeout_arm random c =
    let us = (c.timeout / 2 + random % c.timeout) % 2 ^ 32 in
    if c.to_armed || (c.timeout == 0 || leb (2 ^ 27) us)
    then none
    else some (record c { to_armed = true }, arm us ∷ [])

unfoldable pub conn_timeout_disarm : Conn → Option ConnStep
conn_timeout_disarm c =
    if c.to_armed then some (record c { to_armed = false }, disarm ∷ []) else none

-- the failed connection, told to the application with `status`, 1 for -1
unfoldable pub conn_failed : Conn → (status : ℕ) → ConnStep
conn_failed c status = (
  record c { status = failed; to_armed = false },
  unregister ∷ (if c.to_armed then disarm ∷ [] else []) ++ (app_opened status ∷ []),
)

-- `conn_arp_done`
unfoldable pub conn_arp_done : TcpConfig → ℕ → Conn → Option ConnStep
conn_arp_done conf random c =
    let d = record c { status = syn_sent; to_attempts = 0; timeout = conf.tcp_handshake_to } in
    conn_timeout_arm random d
    >>= (λ r. some (r.0, r.1 ++ (send_control d first_syn (some 0) tcp_mss_opt ∷ [])))

-- a SYN-ACK, without or with the flag that confirms ECN
unfoldable pub is_syn_ack : ℕ → Bool
is_syn_ack flags = has flags 0x02 && has flags 0x10

unfoldable pub confirms_ecn : ℕ → Bool
confirms_ecn flags = has flags 0x40 && not (has flags 0x80)

-- `conn_syn_sent_packet` after the checks, given the flow identifier of `nicif_connection_add`
unfoldable pub syn_sent_open : Conn → TcpPacket → (ts : ℕ) → Option ℕ → ConnStep
syn_sent_open c p ts flow =
    let d = record c {
      remote_seq = add32 p.seqno 1;
      local_seq = p.ackno;
      syn_ts = ts;
      is_ecn = c.is_ecn || confirms_ecn p.flags;
    } in
    elim flow [
      | none ↦ let f = conn_failed d 1 in (f.0, cc_init ∷ f.1)
      | some id ↦ (
        record d { status = opened; flow_id = id },
        cc_init ∷ send_control d ack_flag (some ts) 0 ∷ app_opened 0 ∷ [],
      )
    ]

-- by the timestamp option
unfoldable pub syn_sent_by : Conn → TcpPacket → Option ℕ → Option ℕ → ConnStep
syn_sent_by c p none flow = conn_failed c 1
syn_sent_by c p (some ts) flow =
    if is_syn_ack p.flags then syn_sent_open c p ts flow else conn_failed c 1

-- `conn_syn_sent_packet`, with the failure that `conn_packet` makes of its error
unfoldable pub conn_syn_sent_packet : Conn → TcpPacket → Option ℕ → Option ConnStep
conn_syn_sent_packet c p flow =
    conn_timeout_disarm c
    >>= (λ r. let q = syn_sent_by r.0 p p.ts_val flow in some (q.0, r.1 ++ q.1))

-- a SYN on an open connection, by the timestamp option
unfoldable pub syn_again : Conn → Option ℕ → ConnStep
syn_again c none = conn_failed c 1
syn_again c (some ts) = (
  c,
  send_control c (syn_flag + ack_flag + (if c.is_ecn then ece_flag else 0)) (some ts) tcp_mss_opt
      ∷ [],
)

-- `conn_packet`, by the state
unfoldable pub packet_in : ConnStatus → Conn → TcpPacket → Option ℕ → Option ConnStep
packet_in syn_sent c p flow = conn_syn_sent_packet c p flow
packet_in opened c p flow =
    if p.flags == syn_flag then some (syn_again c p.ts_val) else some (c, [])
packet_in closed c p flow =
    if has p.flags 0x01 then some (c, send_control c ack_flag (some 0) 0 ∷ []) else some (c, [])
packet_in syn_wait c p flow = some (c, [])
packet_in ovs_pending c p flow = some (c, [])
packet_in ovs_comp c p flow = some (c, [])
packet_in arp_pending c p flow = some (c, [])
packet_in reg_synack c p flow = some (c, [])
packet_in failed c p flow = some (c, [])

unfoldable pub conn_packet : Conn → TcpPacket → Option ℕ → Option ConnStep
conn_packet c p flow = packet_in c.status c p flow
