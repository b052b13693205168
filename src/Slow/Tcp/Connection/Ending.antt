-- ===== src/Slow/Tcp/Connection/Ending.antt =====
-- A connection from its start to the point where its memory is freed.
use tas.Base.{◌≡◌, true, false, ◌&&◌, Option, some, []}
use tas.Slow.Tcp.Connection.{Conn, TcpConfig}
use tas.Slow.Tcp.Connection.Timer.{ConnState, is_closed, frees_port, IsTimed, Fits, is_accepted}

-- The timer is right until the memory is freed, and the port is freed exactly if a closed connection is.
pub record IsLive (conf : TcpConfig) (s : ConnState) : Type 0 where
  pub timed : s.freed ≡ false → IsTimed conf s.conn
  pub ports : frees_port s.log ≡ (s.freed && is_closed s.conn.status)
  pub kept : s.freed ≡ false → Fits s.conn.status s.outside

Leads : TcpConfig → Option ConnState → Type 0
Leads conf o = (t : ConnState) × (o ≡ some t) × IsLive conf t

-- a connection that `tcp_open` or `listener_accept` has put in the table
abbrev pub started : Conn → ConnState
started c = record {
  conn = c;
  outside = record { registered = true; in_cc = is_accepted c.status };
  log = [];
  freed = false;
}
