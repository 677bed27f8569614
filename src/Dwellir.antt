-- ===== src/Dwellir.antt =====
-- src/dwellir.rs: from the lines of a capture to operations on the book.
pub mod Fixed
pub mod Types
pub mod Json
pub mod Diffs
pub mod Lines
pub mod Capture
pub mod Printed
pub mod Sample
mod Tests
