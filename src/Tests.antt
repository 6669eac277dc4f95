-- ===== src/Tests.antt =====
-- Concrete runs: the theorems applied where their hypotheses hold.
mod Probes
pub mod Attach
mod Utils
mod Lookup
pub mod Unwind
pub mod Trace
pub mod Graph
mod Counter
pub mod KernelMaps
mod Maps
mod Examples
mod Macros
mod System
mod Main
