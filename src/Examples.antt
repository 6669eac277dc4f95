-- ===== src/Examples.antt =====
-- The programs of examples/.
pub mod Allprobes
pub mod Syscount
