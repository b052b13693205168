-- ===== src/Slow/Tcp/Listener.antt =====
-- The listeners of tas/slow/tcp.c, without tunnels: the backlog of SYNs and the connections that wait
-- for one. `listener_packet`, `listener_accept` and the queueing of `tcp_accept`. A connection is named
-- by a number. What `nicif_connection_add` returns is an argument. Whether a SYN has options that
-- parse, with a timestamp, is a field; another says so of a slot that holds the first bytes of the SYN
-- only, in front of what it held before.
pub mod Backlog
pub mod Serves
pub mod Order
use tas.Base.{
  ℕ, zero, suc, ◌+◌, ◌-◌, ◌*◌, ◌/◌, ◌^◌, ◌%◌, Bool, true, false, not, ◌&&◌, ◌||◌, Option, none,
  some, List, [], ◌∷◌, ◌++◌, ltb, leb, ◌==◌, if◌then◌else◌, put, u16,
}

-- a packet of the backlog, with the core and the flow group that it came through
pub record Syn : Type 0 where
  pub flags : ℕ
  pub ip_len : ℕ
  pub src_ip : ℕ
  pub dest_ip : ℕ
  pub src_port : ℕ
  pub dest_port : ℕ
  pub has_options : Bool
  pub cut_options : Bool
  pub fn_core : ℕ
  pub flow_group : ℕ

-- `struct listener`; the backlog's three arrays are one.
pub record Listener : Type 0 where
  pub backlog_len : ℕ
  pub backlog_pos : ℕ
  pub backlog_used : ℕ
  pub backlog : ℕ → Syn
  pub wait_conns : List ℕ

pub data ListenEffect : Type 0 where
  reset : Syn → ListenEffect
  newconn : Syn → ListenEffect
  accepted : (conn flow_id : ℕ) → Syn → ListenEffect
  refused : Syn → ListenEffect

abbrev pub ListenStep : Type 0
ListenStep = Listener × List ListenEffect

-- `(flags & ~(TAS_TCP_ECE | TAS_TCP_CWR)) == TAS_TCP_SYN`
unfoldable pub is_plain_syn : ℕ → Bool
is_plain_syn flags = flags == 0x02 || (flags == 0x42 || (flags == 0x82 || flags == 0xc2))

unfoldable pub same_conn : Syn → Syn → Bool
same_conn p q =
    p.src_ip == q.src_ip
    && (p.dest_ip == q.dest_ip && (p.src_port == q.src_port && p.dest_port == q.dest_port))

-- The last `n` rounds of the loop over the backlog, from `bp` on.
unfoldable pub has_conn : Listener → Syn → (n bp : ℕ) → Bool
has_conn l p zero bp = false
has_conn l p (suc n) bp = same_conn p (l.backlog bp) || has_conn l p n ((bp + 1) % l.backlog_len)

-- `if (x >= l->backlog_len) x -= l->backlog_len;`
unfoldable pub ring_index : Listener → ℕ → ℕ
ring_index l x = if leb l.backlog_len x then x - l.backlog_len else x

-- the end of `listener_accept`
unfoldable pub pop_backlog : Listener → Listener
pop_backlog l = record l {
  backlog_used = l.backlog_used - 1;
  backlog_pos = ring_index l (l.backlog_pos + 1);
}

-- `listener_accept` for the first waiting connection `c`, given the flow identifier
unfoldable pub accept_with : Listener → (c : ℕ) → (rest : List ℕ) → Option ℕ → ListenStep
accept_with l c rest none = (pop_backlog l, refused (l.backlog l.backlog_pos) ∷ [])
accept_with l c rest (some id) =
    (pop_backlog (record l { wait_conns = rest }), accepted c id (l.backlog l.backlog_pos) ∷ [])

-- by the connections that wait; `none` stands for a failed assertion
unfoldable pub accept_by : Listener → List ℕ → (Syn → Option ℕ) → Option ListenStep
accept_by l [] add = none
accept_by l (c ∷ rest) add =
    let syn = l.backlog l.backlog_pos in
    if l.backlog_used == 0
    then none
    else some (accept_with l c rest (if syn.has_options then add syn else none))

unfoldable pub listener_accept : Listener → (Syn → Option ℕ) → Option ListenStep
listener_accept l add = accept_by l l.wait_conns add

-- the effects in front of those of a step
unfoldable pub then_step : List ListenEffect → Option ListenStep → Option ListenStep
then_step es none = none
then_step es (some r) = some (r.0, es ++ r.1)

-- A field of `w` bytes at `off`, most significant first, after `memcpy` of `len` bytes of a packet.
unfoldable pub cut_field : (off w len new old : ℕ) → ℕ
cut_field off w len new old =
    let low = 256 ^ (off + w - len) in
    if leb (off + w) len then new else if leb len off then old else new / low * low + old % low

-- the slot that held `old` after `memcpy` of `len` bytes of `p`
unfoldable pub copied : (len : ℕ) → Syn → Syn → Syn
copied len old p = record {
  flags = cut_field 46 2 len p.flags old.flags;
  ip_len = cut_field 16 2 len p.ip_len old.ip_len;
  src_ip = cut_field 26 4 len p.src_ip old.src_ip;
  dest_ip = cut_field 30 4 len p.dest_ip old.dest_ip;
  src_port = cut_field 34 2 len p.src_port old.src_port;
  dest_port = cut_field 36 2 len p.dest_port old.dest_port;
  has_options = if leb 54 len then p.has_options else p.cut_options;
  cut_options = p.cut_options;
  fn_core = p.fn_core;
  flow_group = p.flow_group;
}

-- the length of the packet, `uint16_t len`
unfoldable pub syn_len : Syn → ℕ
syn_len p = u16 (14 + p.ip_len)

-- `listener_packet` when the SYN has its place in the backlog
unfoldable pub backlog_push : Listener → Syn → Listener
backlog_push l p =
    let bp = ring_index l (l.backlog_pos + l.backlog_used) in
    record l {
      backlog = put l.backlog bp (copied (syn_len p) (l.backlog bp) p);
      backlog_used = l.backlog_used + 1;
    }

unfoldable pub accept_waiting : Listener → List ℕ → (Syn → Option ℕ) → Option ListenStep
accept_waiting l [] add = some (l, [])
accept_waiting l (c ∷ rest) add = listener_accept l add

unfoldable pub listener_packet : Listener → Syn → (Syn → Option ℕ) → Option ListenStep
listener_packet l p add =
    if not (is_plain_syn p.flags)
    then some (l, reset p ∷ [])
    else if ltb 126 (syn_len p)
    then some (l, [])
    else if has_conn l p l.backlog_used l.backlog_pos
    then some (l, [])
    else if l.backlog_len == l.backlog_used
    then some (l, [])
    else then_step (newconn p ∷ []) (accept_waiting (backlog_push l p) l.wait_conns add)

-- `tcp_accept` of the connection `c`, which is allocated
unfoldable pub tcp_accept : Listener → (c : ℕ) → (Syn → Option ℕ) → Option ListenStep
tcp_accept l c add =
    let m = record l { wait_conns = l.wait_conns ++ (c ∷ []) } in
    if ltb 0 l.backlog_used then listener_accept m add else some (m, [])
