-- ===== src/Probes/Events.antt =====
-- bpf-probes/src/lib.rs and parse.rs: parse errors, access modes and the names of events.
use rust_bpf.Prelude.{ℕ, Bool, true, false, [], ◌∷◌, ◌++◌, ◌==◌, if◌then◌else◌, Result, ok, err}
use rust_bpf.Text.{Text, codes}
use rust_bpf.Text.Number.{IntError}

pub data ProbeParseError : Type 0 where
  expected : Text → ProbeParseError
  unsupported_probe : Text → ProbeParseError
  unsupported_unit : Text → ProbeParseError
  parse_int : IntError → ProbeParseError
  unknown_event : Text → ProbeParseError

abbrev pub Parsed : Type 0 → Type 0
Parsed = Result ProbeParseError

pub record Mode : Type 0 where
  pub read : Bool
  pub write : Bool
  pub execute : Bool

abbrev pub default_mode : Mode
default_mode = record { read = false; write = false; execute = false }

-- `Display for Mode`.
unfoldable pub show_mode : Mode → Text
show_mode m =
    (if m.read then codes "r" else [])
    ++ ((if m.write then codes "w" else []) ++ (if m.execute then codes "x" else []))

-- One character of `Mode::from_str`.
unfoldable pub add_mode : Mode → ℕ → Parsed Mode
add_mode m c =
    if c == b'r'
    then ok (record m { read = true })
    else if c == b'w'
    then ok (record m { write = true })
    else if c == b'x'
    then ok (record m { execute = true })
    else err (expected (codes "rwx"))

unfoldable pub add_modes : Text → Mode → Parsed Mode
unfolding add_mode
add_modes [] m = ok m
add_modes (c ∷ s) m = elim (add_mode m c) [ ok m' ↦ add_modes s m' | err e ↦ err e ]

unfoldable pub parse_mode : Text → Parsed Mode
unfolding add_modes
parse_mode s = add_modes s default_mode

pub data SoftwareEvent : Type 0 where
  alignment_faults bpf_output context_switches cpu_clock cpu_migrations dummy : SoftwareEvent
  emulation_faults major_faults minor_faults page_faults task_clock : SoftwareEvent

pub data HardwareEvent : Type 0 where
  backend_stalls branch_instructions branch_misses bus_cycles cache_misses : HardwareEvent
  cache_references cpu_cycles frontend_stalls instructions ref_cycles : HardwareEvent
