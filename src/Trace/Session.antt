-- ===== src/Trace/Session.antt =====
-- cargo-trace/src/main.rs: from the command line to a builder with one probe.
pub mod Counted
pub mod Prepared
use rust_bpf.Prelude.{ℕ, List, [], ◌∷◌, Option, none, some, Result, ok, err, ◌>>=◌, ok_or, map_err}
use rust_bpf.Text.{Text, codes}
use rust_bpf.Probes.Events.{ProbeParseError}
use rust_bpf.Probes.Probe.{Probe, ProgramType, perf_event, tracing, prog_type, set_default_path}
use rust_bpf.Probes.Parse.{parse_probe}
use rust_bpf.Utils.Syscall.{Limits}
use rust_bpf.Bpf.{Object}
use rust_bpf.Bpf.Builder.{BpfBuilder, BuildError, new_builder, set_child_pid, attach_probe}

pub data MainError : Type 0 where
  parse : ProbeParseError → MainError
  unsupported : Probe → MainError
  build : BuildError → MainError

-- The program that runs at the probe.
abbrev pub entry_of : ProgramType → Option Text
entry_of ProgramType.kprobe = some (codes "kprobe")
entry_of perf_event = some (codes "perf_event")
entry_of _ = none

-- Without the process the program would be given the registers of the kernel.
abbrev pub with_pid : ProgramType → ℕ → BpfBuilder → BpfBuilder
with_pid perf_event pid builder = set_child_pid builder pid
with_pid _ pid builder = builder

-- `main` from the parsing of the command to the choice of the program.
unfoldable pub parse_command : (cmd : Text) → Result MainError (Probe × Text)
unfolding parse_probe prog_type
parse_command cmd = do
  probe ← map_err parse (parse_probe cmd)
  entry ← ok_or (entry_of (prog_type probe)) (unsupported probe)
  ok (probe, entry)

-- From there to `builder.load`, where `path` and `pid` are those of the binary.
unfoldable pub build_probe :
    Limits → Object → Probe → (entry path : Text) → (pid : ℕ) → Result BuildError BpfBuilder
unfolding prog_type set_default_path new_builder attach_probe
build_probe limits obj probe entry path pid = do
  builder ← new_builder limits obj
  attach_probe obj (with_pid (prog_type probe) pid builder) (set_default_path probe path) entry

unfoldable pub prepare :
    Limits → Object → (cmd path : Text) → (pid : ℕ) → Result MainError BpfBuilder
unfolding parse_command build_probe
prepare limits obj cmd path pid = do
  (probe, entry) ← parse_command cmd
  map_err build (build_probe limits obj probe entry path pid)
