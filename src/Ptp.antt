-- ===== src/Ptp.antt =====
-- PTP time distribution (src/ptp/tb/ptp_td.py): a source that serialises its clock onto one wire,
-- and a sink that follows it.
pub mod Clock
pub mod Source
pub mod Access
pub mod Sink
pub mod Message
pub mod Serial
mod Tests
