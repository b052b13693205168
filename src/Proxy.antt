-- ===== src/Proxy.antt =====
-- The proxy between a virtual machine and the host, proxy.
mod Tests
pub mod Ring
