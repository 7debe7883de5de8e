-- ===== src/Baser.antt =====
-- The models of the 64b/66b serdes interface (src/eth/tb/baser.py).
pub mod Codes
pub mod Frame
pub mod Source
pub mod Sink
pub mod Carry
pub mod Encode
pub mod Decode
pub mod Fields
pub mod Facts
pub mod Blocks
pub mod Marks
pub mod TermLow
pub mod TermHigh
pub mod Coded
pub mod Scrambler
pub mod Ordered
pub mod Gearbox
pub mod Pack
pub mod Slip
pub mod Wire
mod Tests
