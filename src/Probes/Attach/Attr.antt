-- ===== src/Probes/Attach/Attr.antt =====
-- bpf-probes/src/attach.rs: the attributes of the perf events. The numbers of the kernel's
-- interface come from perf_event_open_sys and are a parameter.
use rust_bpf.Prelude.{ℕ, ◌%◌, Bool, true, false, [], ◌∷◌, ◌++◌, none, some, ◌==◌, if◌then◌else◌}
use rust_bpf.Prelude.Int.{u64_mod, u32_mod}
use rust_bpf.Text.{Text, codes}
use rust_bpf.Text.Trim.{trim}
use rust_bpf.Text.Number.{from_str_radix}
use rust_bpf.Probes.Duration
use rust_bpf.Probes.Interval.{Interval, seconds, millis, micros, hz}
use rust_bpf.Probes.Events.{
  SoftwareEvent, alignment_faults, bpf_output, context_switches, cpu_clock, cpu_migrations, dummy,
  emulation_faults, major_faults, minor_faults, page_faults, task_clock, HardwareEvent,
  backend_stalls, branch_instructions, branch_misses, bus_cycles, cache_misses, cache_references,
  cpu_cycles, frontend_stalls, instructions, ref_cycles,
}
use rust_bpf.Probes.Attach.Kernel.{
  Attr, Kernel, M, ◌>>=◌, pure, throw, lift, or_throw, io, nul, parse_int,
}

pub record Bindings : Type 0 where
  pub type_software : ℕ
  pub type_hardware : ℕ
  pub sw_alignment_faults : ℕ
  pub sw_bpf_output : ℕ
  pub sw_context_switches : ℕ
  pub sw_cpu_clock : ℕ
  pub sw_cpu_migrations : ℕ
  pub sw_dummy : ℕ
  pub sw_emulation_faults : ℕ
  pub sw_page_faults_maj : ℕ
  pub sw_page_faults_min : ℕ
  pub sw_page_faults : ℕ
  pub sw_task_clock : ℕ
  pub hw_stalled_cycles_backend : ℕ
  pub hw_branch_instructions : ℕ
  pub hw_branch_misses : ℕ
  pub hw_bus_cycles : ℕ
  pub hw_cache_misses : ℕ
  pub hw_cache_references : ℕ
  pub hw_cpu_cycles : ℕ
  pub hw_stalled_cycles_frontend : ℕ
  pub hw_instructions : ℕ
  pub hw_ref_cpu_cycles : ℕ

-- `std::mem::zeroed()` with the size filled in.
abbrev pub zeroed : Attr
zeroed = record { type = 0; config = 0; freq = false; sample = 0; target = none; probe_offset = 0 }

-- The match on the interval in `profile` and in `interval`.
unfoldable pub with_interval : Attr → Interval → Attr
with_interval attr (seconds p) = record attr { sample = Duration.as_nanos p % u64_mod }
with_interval attr (millis p) = record attr { sample = Duration.as_nanos p % u64_mod }
with_interval attr (micros p) = record attr { sample = Duration.as_nanos p % u64_mod }
with_interval attr (hz f) = record attr { freq = true; sample = f }

module _ (b : Bindings) where
  unfoldable pub software_config : SoftwareEvent → ℕ
  software_config alignment_faults = b.sw_alignment_faults
  software_config bpf_output = b.sw_bpf_output
  software_config context_switches = b.sw_context_switches
  software_config cpu_clock = b.sw_cpu_clock
  software_config cpu_migrations = b.sw_cpu_migrations
  software_config dummy = b.sw_dummy
  software_config emulation_faults = b.sw_emulation_faults
  software_config major_faults = b.sw_page_faults_maj
  software_config minor_faults = b.sw_page_faults_min
  software_config page_faults = b.sw_page_faults
  software_config task_clock = b.sw_task_clock

  unfoldable pub hardware_config : HardwareEvent → ℕ
  hardware_config backend_stalls = b.hw_stalled_cycles_backend
  hardware_config branch_instructions = b.hw_branch_instructions
  hardware_config branch_misses = b.hw_branch_misses
  hardware_config bus_cycles = b.hw_bus_cycles
  hardware_config cache_misses = b.hw_cache_misses
  hardware_config cache_references = b.hw_cache_references
  hardware_config cpu_cycles = b.hw_cpu_cycles
  hardware_config frontend_stalls = b.hw_stalled_cycles_frontend
  hardware_config instructions = b.hw_instructions
  hardware_config ref_cycles = b.hw_ref_cpu_cycles

  -- The attributes of `profile` and of `interval`.
  unfoldable pub clock_attr : Interval → Attr
  unfolding with_interval
  clock_attr i = with_interval (record zeroed { type = b.type_software; config = b.sw_cpu_clock }) i

  unfoldable pub software_attr : SoftwareEvent → ℕ → Attr
  unfolding software_config
  software_attr event count = record zeroed {
    type = b.type_software;
    config = software_config event;
    sample = count;
  }

  unfoldable pub hardware_attr : HardwareEvent → ℕ → Attr
  unfolding hardware_config
  hardware_attr event count = record zeroed {
    type = b.type_hardware;
    config = hardware_config event;
    sample = count;
  }

module _ (k : Kernel) where
  -- `read`: the trimmed text of a file as a number below the limit of its type.
  unfoldable pub read_number : ℕ → Text → M ℕ
  unfolding trim
  read_number limit path = do
    text ← λ history. or_throw (k.read_file history path) io history
    lift parse_int (from_str_radix limit 10 (trim text))

  unfoldable pub pmu_type : Text → M ℕ
  unfolding read_number
  pmu_type event =
      read_number u32_mod (codes "/sys/bus/event_source/devices/" ++ (event ++ codes "/type"))

-- `CString::new` refuses a text that holds a zero.
unfoldable pub has_nul : Text → Bool
has_nul [] = false
has_nul (c ∷ s) = if c == 0 then true else has_nul s

unfoldable pub c_string : Text → M Text
unfolding has_nul
c_string s = if has_nul s then throw nul else pure s

-- The attributes of a kernel probe (`config` 0) or return probe (`config` 1).
unfoldable pub kprobe_attr : Kernel → (symbol : Text) → (config offset : ℕ) → M Attr
unfolding c_string pmu_type
kprobe_attr k symbol config offset = do
  name ← c_string symbol
  type ← pmu_type k (codes "kprobe")
  pure (record zeroed { type = type; config = config; target = some name; probe_offset = offset })

unfoldable pub uprobe_attr : Kernel → (path : Text) → (config address : ℕ) → M Attr
unfolding pmu_type
uprobe_attr k path config address = do
  type ← pmu_type k (codes "uprobe")
  pure (record zeroed { type = type; config = config; target = some path; probe_offset = address })

abbrev pub id_path : (category name : Text) → Text
id_path category name =
    codes "/sys/kernel/debug/tracing/events/" ++ (category ++ b'/' ∷ (name ++ codes "/id"))

unfoldable pub tracepoint_attr : Kernel → (category name : Text) → M Attr
unfolding pmu_type read_number
tracepoint_attr k category name = do
  type ← pmu_type k (codes "tracepoint")
  config ← read_number k u64_mod (id_path category name)
  pure (record zeroed { type = type; config = config })
