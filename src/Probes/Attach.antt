-- ===== src/Probes/Attach.antt =====
-- bpf-probes/src/attach.rs, and `Probe::attach` of bpf-probes/src/lib.rs.
pub mod Kernel
pub mod Attr
pub mod Open
pub mod Granted
pub mod Idle
pub mod Balance
pub mod Order
pub mod Spares
pub mod Paths
