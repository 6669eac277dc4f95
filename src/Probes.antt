-- ===== src/Probes.antt =====
-- The crate bpf-probes: probes, their text form and how they are attached.
pub mod Events
pub mod Software
pub mod Hardware
pub mod Duration
pub mod Interval
pub mod Probe
pub mod Printable
pub mod Parse
pub mod Attach
pub mod Default
