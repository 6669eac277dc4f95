-- ===== src/Bpf/Builder.antt =====
-- bpf/src/lib.rs: `BpfBuilder` before the object is loaded.
use rust_bpf.Prelude.{
  ℕ, List, [], ◌∷◌, ◌++◌, Option, none, some, Result, ok, err, ◌>>=◌, map_err, ok_or, if◌then◌else◌,
}
use rust_bpf.Text.{Text}
use rust_bpf.Probes.Events.{ProbeParseError}
use rust_bpf.Probes.Probe.{Probe, ProgramType, ProgramAttachType, prog_type, attach_type}
use rust_bpf.Probes.Parse.{parse_probe}
use rust_bpf.Utils.Syscall.{Limits, increase_memlock_rlimit}
use rust_bpf.Bpf.{Object}

-- What a program was set to be.
pub data Setting : Type 0 where
  set_prog_type : (program : ℕ) → ProgramType → Setting
  set_attach_type : (program : ℕ) → ProgramAttachType → Setting

pub record BpfBuilder : Type 0 where
  pub child_pid : Option ℕ
  pub probes : List (Probe × Text)
  pub settings : List Setting

abbrev pub set_child_pid : BpfBuilder → ℕ → BpfBuilder
set_child_pid builder pid = record builder { child_pid = some pid }

-- What the builder's own steps can fail with; `missing_program` is the panic of an `unwrap`.
pub data BuildError : Type 0 where
  rlimit not_opened unknown_program missing_program : BuildError
  probe : ProbeParseError → BuildError

-- `BpfBuilder::new`: the limit on locked memory is lifted, and the object is opened.
unfoldable pub new_builder : Limits → Object → Result BuildError BpfBuilder
unfolding increase_memlock_rlimit
new_builder limits obj = do
  _ ← ok_or (increase_memlock_rlimit limits) rlimit
  if obj.opens then ok (record { child_pid = none; probes = []; settings = [] }) else err not_opened

abbrev pub attach_settings : ℕ → Option ProgramAttachType → List Setting
attach_settings program none = []
attach_settings program (some type) = set_attach_type program type ∷ []

-- The program of an entry.
abbrev pub open_program : Option (Option ℕ) → Result BuildError ℕ
open_program none = err unknown_program
open_program (some none) = err missing_program
open_program (some (some program)) = ok program

unfoldable pub attach_probe : Object → BpfBuilder → Probe → Text → Result BuildError BpfBuilder
unfolding prog_type attach_type
attach_probe obj builder p entry = do
  program ← open_program (obj.open_prog entry)
  ok (record {
    child_pid = builder.child_pid;
    probes = builder.probes ++ (p, entry) ∷ [];
    settings =
        builder.settings
        ++ set_prog_type program (prog_type p) ∷ attach_settings program (attach_type p);
  })

unfoldable pub attach_probe_str : Object → BpfBuilder → Text → Text → Result BuildError BpfBuilder
unfolding parse_probe attach_probe
attach_probe_str obj builder text entry = do
  p ← map_err probe (parse_probe text)
  attach_probe obj builder p entry
