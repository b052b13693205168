-- ===== src/Slow.antt =====
-- The slow path, tas/slow.
pub mod Congestion
pub mod Arp
pub mod Nicif
pub mod Packetmem
pub mod Tcp
pub mod Routing
mod Tests
