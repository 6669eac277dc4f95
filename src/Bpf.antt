-- ===== src/Bpf.antt =====
-- bpf/src/lib.rs: a BPF object with its probes, and the stacks that the kernel records.
pub mod Builder
pub mod Load
pub mod Frames
pub mod Maps
use rust_bpf.Prelude.{ℕ, Bool, Option}
use rust_bpf.Text.{Text}

-- What the library libbpf answers about an object: `none` where it fails, and `some none` for a
-- program that the object does not have. `opens` tells whether the object could be opened.
pub record Object : Type 0 where
  pub opens : Bool
  pub open_prog : Text → Option (Option ℕ)
  pub loads : Bool
  pub prog : Text → Option (Option ℕ)
