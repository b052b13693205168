-- ===== src/Slow/Tcp/Ports.antt =====
-- The local ports of tas/slow/tcp.c: the table `ports` and `port_alloc`, whose loop runs on fuel.
pub mod Search
pub mod Hint
use tas.Base.{ℕ, zero, suc, ◌+◌, ◌-◌, ◌%◌, ◌^◌, Bool, true, false, ltb, ◌==◌, if◌then◌else◌, u16}

-- the type of a port, PORT_TYPE_UNUSED and so on; what its entry points to is left out
pub data PortType : Type 0 where
  unused : PortType
  listen : PortType
  lmulti : PortType
  conn : PortType

-- `ports`
abbrev pub PortTable : Type 0
PortTable = ℕ → PortType

-- PORT_FIRST_EPH
abbrev pub port_first_eph : ℕ
port_first_eph = 8192

unfoldable pub is_unused : PortType → Bool
is_unused unused = true
is_unused listen = false
is_unused lmulti = false
is_unused conn = false

-- `port_eph_hint` after `tcp_init`, by the random number
unfoldable pub init_hint : ℕ → ℕ
init_hint random = u16 (random % (2 ^ 16 - 1 - port_first_eph))

-- `p_next`
unfoldable pub port_next : ℕ → ℕ
port_next p = if ltb (u16 (p + 1)) port_first_eph then port_first_eph else p + 1

-- A port with the next hint, or 0 for none, or out of fuel.
pub data PortResult : Type 0 where
  got : (port hint : ℕ) → PortResult
  no_port : PortResult
  port_running : PortResult

unfoldable pub port_loop : ℕ → PortTable → (p_start p : ℕ) → PortResult
port_loop zero ports p_start p = port_running
port_loop (suc fuel) ports p_start p =
    let p_next = port_next p in
    let again = port_loop fuel ports p_start p_next in
    if is_unused (ports p) then got p p_next else if p_next == p_start then no_port else again

-- `port_alloc` with the hint `hint`
unfoldable pub port_alloc : ℕ → PortTable → (hint : ℕ) → PortResult
port_alloc fuel ports hint = port_loop fuel ports hint hint
