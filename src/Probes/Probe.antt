-- ===== src/Probes/Probe.antt =====
-- bpf-probes/src/lib.rs: probes, their printer, and the program and attach types. A path is the
-- text that `Path::display` prints of it, which is exact for the UTF-8 paths that parsing makes.
use rust_bpf.Prelude.{ℕ, [], ◌∷◌, ◌++◌, Option, none, some, ltb, if◌then◌else◌}
use rust_bpf.Text.{Text, codes}
use rust_bpf.Text.Number.{show_radix}
use rust_bpf.Probes.Software
use rust_bpf.Probes.Hardware
use rust_bpf.Probes.Events.{Mode, show_mode, SoftwareEvent, HardwareEvent}
use rust_bpf.Probes.Interval.{Interval, show_interval}

pub data Probe : Type 0 where
  kprobe : (symbol : Text) (offset : ℕ) → Probe
  kretprobe : (symbol : Text) → Probe
  uprobe : (path : Option Text) (symbol : Text) (offset : ℕ) → Probe
  uretprobe : (path : Option Text) (symbol : Text) → Probe
  usdt : (path : Option Text) (probe : Text) → Probe
  tracepoint : (category : Text) (name : Text) → Probe
  profile : (interval : Interval) → Probe
  interval : (interval : Interval) → Probe
  software : (event : SoftwareEvent) (count : Option ℕ) → Probe
  hardware : (event : HardwareEvent) (count : Option ℕ) → Probe
  watchpoint : (address : ℕ) (length : ℕ) (mode : Mode) → Probe
  kfunc : (func : Text) → Probe
  kretfunc : (func : Text) → Probe

-- The types that the parser tells apart by the text before the first colon.
pub data ProbeType : Type 0 where
  kprobe kretprobe uprobe uretprobe usdt tracepoint profile interval : ProbeType
  software hardware watchpoint kfunc kretfunc : ProbeType

-- `+offset`, written if the offset is positive.
unfoldable pub show_offset : ℕ → Text
show_offset offset = if ltb 0 offset then b'+' ∷ show_radix 10 offset else []

-- `path:`, written if there is a path.
unfoldable pub show_path : Option Text → Text
show_path none = []
show_path (some path) = path ++ codes ":"

-- `count.map(|c| c.to_string()).unwrap_or_default()`.
unfoldable pub show_count : Option ℕ → Text
show_count none = []
show_count (some c) = show_radix 10 c

-- What `Display for Probe` writes behind the colon that ends the name of the type.
unfoldable pub show_args : Probe → Text
unfolding show_offset show_path show_count
show_args (kprobe symbol offset) = symbol ++ show_offset offset
show_args (kretprobe symbol) = symbol
show_args (uprobe path symbol offset) = show_path path ++ (symbol ++ show_offset offset)
show_args (uretprobe path symbol) = show_path path ++ symbol
show_args (usdt path probe) = show_path path ++ probe
show_args (tracepoint category name) = category ++ b':' ∷ name
show_args (profile i) = show_interval i
show_args (interval i) = show_interval i
show_args (software event count) = Software.name event ++ b':' ∷ show_count count
show_args (hardware event count) = Hardware.name event ++ b':' ∷ show_count count
show_args (watchpoint address length mode) =
    show_radix 16 address ++ b':' ∷ (show_radix 10 length ++ b':' ∷ show_mode mode)
show_args (kfunc func) = func
show_args (kretfunc func) = func

-- The type that `Display for Probe` writes first.
unfoldable pub show_type : Probe → Text
show_type (kprobe _ _) = codes "kprobe"
show_type (kretprobe _) = codes "kretprobe"
show_type (uprobe _ _ _) = codes "uprobe"
show_type (uretprobe _ _) = codes "uretprobe"
show_type (usdt _ _) = codes "usdt"
show_type (tracepoint _ _) = codes "tracepoint"
show_type (profile _) = codes "profile"
show_type (interval _) = codes "interval"
show_type (software _ _) = codes "software"
show_type (hardware _ _) = codes "hardware"
show_type (watchpoint _ _ _) = codes "watchpoint"
show_type (kfunc _) = codes "kfunc"
show_type (kretfunc _) = codes "kretfunc"

-- `Display for Probe`.
unfoldable pub show_probe : Probe → Text
unfolding show_type show_args
show_probe p = show_type p ++ b':' ∷ show_args p

-- The types of libbpf_rs that the crate names.
pub data ProgramType : Type 0 where
  kprobe tracepoint perf_event tracing : ProgramType

pub data ProgramAttachType : Type 0 where
  trace_fentry trace_fexit : ProgramAttachType

unfoldable pub prog_type : Probe → ProgramType
prog_type (kprobe _ _) = ProgramType.kprobe
prog_type (kretprobe _) = ProgramType.kprobe
prog_type (uprobe _ _ _) = ProgramType.kprobe
prog_type (uretprobe _ _) = ProgramType.kprobe
prog_type (usdt _ _) = ProgramType.kprobe
prog_type (tracepoint _ _) = ProgramType.tracepoint
prog_type (profile _) = perf_event
prog_type (interval _) = perf_event
prog_type (software _ _) = perf_event
prog_type (hardware _ _) = perf_event
prog_type (watchpoint _ _ _) = perf_event
prog_type (kfunc _) = tracing
prog_type (kretfunc _) = tracing

unfoldable pub attach_type : Probe → Option ProgramAttachType
attach_type (kprobe _ _) = some trace_fentry
attach_type (uprobe _ _ _) = some trace_fentry
attach_type (usdt _ _) = some trace_fentry
attach_type (kretprobe _) = some trace_fexit
attach_type (uretprobe _ _) = some trace_fexit
attach_type _ = none

-- `path.is_none()` is the only case that the default replaces.
unfoldable pub or_default : Option Text → Text → Option Text
or_default none default = some default
or_default (some path) default = some path

unfoldable pub set_default_path : Probe → Text → Probe
unfolding or_default
set_default_path (uprobe path symbol offset) default =
    uprobe (or_default path default) symbol offset
set_default_path (uretprobe path symbol) default = uretprobe (or_default path default) symbol
set_default_path (usdt path probe) default = usdt (or_default path default) probe
set_default_path p default = p
