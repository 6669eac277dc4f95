-- ===== src/Utils.antt =====
-- The crate bpf-utils.
pub mod Elf
pub mod Cpu
pub mod Search
pub mod Kallsyms
pub mod Dylibs
pub mod Maps
pub mod Event
pub mod Syscall
