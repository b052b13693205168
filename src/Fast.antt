-- ===== src/Fast.antt =====
-- The fast path, tas/fast.
pub mod Tests
pub mod Flow
pub mod Seq
pub mod Options
pub mod Buffer
pub mod Segment
pub mod Step
pub mod Transmit
pub mod Receive
pub mod Packet
pub mod Classify
pub mod Qman
