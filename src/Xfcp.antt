-- ===== src/Xfcp.antt =====
-- XFCP framing (src/xfcp/tb/xfcp.py): COBS byte stuffing and the packet format built on it.
pub mod Result
pub mod Cobs
pub mod Frame
mod Tests
