-- ===== src/Slow/Tcp.antt =====
-- The connections of the slow path, tas/slow/tcp.c: `Ports` is the choice of a local port, `Connection`
-- the states of a connection, `Listener` the backlog of a listener,
-- `Table` the table of connections and the dispatch of packets.
pub mod Ports
pub mod Connection
pub mod Listener
pub mod Table
