-- ===== src/Slow/Tcp/Table.antt =====
-- The table of connections of tas/slow/tcp.c, without tunnels, and `tcp_packet`, which hands a packet to
-- a connection or a listener. The checksum of the addresses is a parameter, and so are the parse of the
-- options and the choice among the listeners of a port. A connection is named by a number.
pub mod Lookup
use tas.Base.{
  ℕ, ◌%◌, Bool, true, false, not, ◌&&◌, ◌||◌, Option, none, some, List, [], ◌∷◌, ltb, ◌==◌,
  if◌then◌else◌, put, has, ◌>>=◌,
}
use tas.Slow.Tcp.Ports.{PortType, PortTable, unused, listen, lmulti, conn}

-- the addresses of a connection
pub record ConnEntry : Type 0 where
  pub id : ℕ
  pub out_local_ip : ℕ
  pub out_remote_ip : ℕ
  pub local_port : ℕ
  pub remote_port : ℕ

-- `tcp_hashtable`: the chain of each bucket
abbrev pub TcpTable : Type 0
TcpTable = ℕ → List ConnEntry

-- `conn_hash`: local and remote address, local and remote port
abbrev pub ConnHash : Type 0
ConnHash = (l_ip r_ip l_po r_po : ℕ) → ℕ

-- TCP_HTSIZE
abbrev pub tcp_htsize : ℕ
tcp_htsize = 4096

unfoldable pub conn_bucket : ConnHash → ConnEntry → ℕ
conn_bucket conn_hash e =
    conn_hash e.out_local_ip e.out_remote_ip e.local_port e.remote_port % tcp_htsize

unfoldable pub conn_register : ConnHash → ConnEntry → TcpTable → TcpTable
conn_register conn_hash e t = let h = conn_bucket conn_hash e in put t h (e ∷ t h)

-- the chain without the connection, or nothing for `abort`
unfoldable pub unlink : ℕ → List ConnEntry → Option (List ConnEntry)
unlink id [] = none
unlink id (c ∷ rest) =
    let later = unlink id rest >>= (λ l. some (c ∷ l)) in if c.id == id then some rest else later

unfoldable pub conn_unregister : ConnHash → ConnEntry → TcpTable → Option TcpTable
conn_unregister conn_hash e t =
    let h = conn_bucket conn_hash e in unlink e.id (t h) >>= (λ l. some (put t h l))

-- The fields of a packet that `tcp_packet` reads.
pub record InPacket : Type 0 where
  pub len : ℕ
  pub src_ip : ℕ
  pub dest_ip : ℕ
  pub src_port : ℕ
  pub dest_port : ℕ
  pub flags : ℕ

unfoldable pub is_of : InPacket → ConnEntry → Bool
is_of p c =
    p.src_ip == c.out_remote_ip && (p.dest_port == c.local_port && p.src_port == c.remote_port)

unfoldable pub find_conn : InPacket → List ConnEntry → Option ℕ
find_conn p [] = none
find_conn p (c ∷ rest) = let later = find_conn p rest in if is_of p c then some c.id else later

unfoldable pub conn_lookup : ConnHash → InPacket → TcpTable → Option ℕ
conn_lookup conn_hash p t =
    find_conn p (t (conn_hash p.dest_ip p.src_ip p.dest_port p.src_port % tcp_htsize))

-- `listener_lookup` finds one
unfoldable pub has_listener : PortType → Bool
has_listener listen = true
has_listener lmulti = true
has_listener unused = false
has_listener conn = false

-- Where a packet goes: to a connection or a listener of its port, or it is refused, with or without a
-- reset.
pub data Dispatch : Type 0 where
  to_conn : ℕ → Dispatch
  to_listener : (port : ℕ) → Dispatch
  refused : (reset : Bool) → Dispatch

-- by what `conn_lookup` finds
unfoldable pub dispatch_by : Bool → PortTable → InPacket → Option ℕ → Dispatch
dispatch_by has_kni ports p (some id) = to_conn id
dispatch_by has_kni ports p none =
    if has_listener (ports p.dest_port)
    then to_listener p.dest_port
    else refused (not (has p.flags 0x04) && not has_kni)

-- `tcp_packet`, for the address of the host, and whether a kernel interface is configured
unfoldable pub tcp_packet :
    ConnHash
    → (InPacket → Bool)
    → (config_ip : ℕ) → (has_kni : Bool) → PortTable
    → TcpTable
    → InPacket
    → Dispatch
tcp_packet conn_hash parses config_ip has_kni ports t p =
    if ltb p.len 54 || not (p.dest_ip == config_ip) || not (parses p)
    then refused false
    else dispatch_by has_kni ports p (conn_lookup conn_hash p t)
