-- ===== src/Unwind.antt =====
-- Stack unwinding: the crates ehframe and bpf-backtrace, cargo-trace and its probe.
pub mod Instruction
pub mod Execute
pub mod Search
pub mod User
pub mod Ends
pub mod Probe
pub mod Agree
pub mod Table
