-- ===== src/Trace.antt =====
-- The crate cargo-trace.
pub mod Fill
pub mod Collapse
pub mod Counter
pub mod Session
pub mod Graph
pub mod Main
