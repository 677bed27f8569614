-- ===== src/Examples.antt =====
-- examples/: what the example programs compute, apart from their input and output.
pub mod Scaled
pub mod Replay
pub mod Debug
pub mod Notional
pub mod Socket
pub mod Live
pub mod Running
