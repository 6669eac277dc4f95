-- ===== src/Tests/Attach.antt =====
-- Attaching a probe under a kernel that grants everything, with two CPUs online.
use rust_bpf.Probes.Default.{path_of}
use rust_bpf.Probes.Attach.Paths.{attach-path_required}
use rust_bpf.Prelude.{◌↔◌, none, ◌++◌, true, ◌+◌, ◌≡◌, refl, some, none, length, [], ◌∷◌}
use rust_bpf.Prelude.Int.{pos}
use rust_bpf.Text.{codes}
use rust_bpf.Text.Number.{from_str_radix}
use rust_bpf.Probes.Interval.{hz}
use rust_bpf.Probes.Probe.{profile, interval, uretprobe}
use rust_bpf.Probes.Attach.Kernel.{Kernel, fail, path_required, done, Trace}
use rust_bpf.Probes.Attach.Attr.{Bindings}
use rust_bpf.Probes.Attach.Open.{attach, as_i32}
use rust_bpf.Utils.Cpu.{online_cpu_ids}
use rust_bpf.Probes.Attach.Granted.{Succeeds, OpensOn, Grants, attach-Succeeds}
use rust_bpf.Probes.Attach.Idle.{Owns, opened_fds}
use rust_bpf.Probes.Attach.Balance.{attach-Owns}
use rust_bpf.Probes.Attach.Order.{armed_calls, attach-armed_calls}
use rust_bpf.Bpf.{Object}
use rust_bpf.Bpf.Builder.{BpfBuilder}
use rust_bpf.Bpf.Load.{load}
use rust_bpf.Bpf.Load.Balance.{OwnsAll, load-OwnsAll}

abbrev pub granting : Kernel
granting = record {
  read_file = λ history path. some (codes "0-1");
  open_elf = λ history path. none;
  perf_event_open = λ history attr pid cpu. pos (3 + length history);
  set_bpf_status = λ history fd program. pos 0;
  enable_status = λ history fd. pos 0;
  disable_status = λ history fd. pos 0;
  close_status = λ history fd. pos 0;
}

-- The numbers of the kernel's headers.
abbrev pub headers : Bindings
headers = record {
  type_software = 1;
  type_hardware = 0;
  sw_alignment_faults = 7;
  sw_bpf_output = 10;
  sw_context_switches = 3;
  sw_cpu_clock = 0;
  sw_cpu_migrations = 4;
  sw_dummy = 9;
  sw_emulation_faults = 8;
  sw_page_faults_maj = 6;
  sw_page_faults_min = 5;
  sw_page_faults = 2;
  sw_task_clock = 1;
  hw_stalled_cycles_backend = 8;
  hw_branch_instructions = 4;
  hw_branch_misses = 5;
  hw_bus_cycles = 6;
  hw_cache_misses = 3;
  hw_cache_references = 2;
  hw_cpu_cycles = 0;
  hw_stalled_cycles_frontend = 7;
  hw_instructions = 1;
  hw_ref_cpu_cycles = 9;
}

two_cpus : (attach granting headers (profile (hz 99)) 7 (some 42) []).0 ≡ done (3 ∷ 4 ∷ [])
unfolding attach from_str_radix
two_cpus = refl

attach-Owns_example : Owns [] (attach granting headers (profile (hz 99)) 7 (some 42) [])
attach-Owns_example = attach-Owns granting headers (profile (hz 99)) 7 (some 42) []

both_armed :
    attach granting headers (profile (hz 99)) 7 (some 42) []
    ≡ (done (3 ∷ 4 ∷ []), (attach granting headers (profile (hz 99)) 7 (some 42) []).1)
unfolding attach from_str_radix
both_armed = refl

attach-armed_calls_example :
    (opening : Trace) × ((attach granting headers (profile (hz 99)) 7 (some 42) []).1
      ≡ opening ++ armed_calls 7 (3 ∷ 4 ∷ []))
    × (opened_fds opening ≡ 3 ∷ 4 ∷ [])
attach-armed_calls_example =
    attach-armed_calls granting headers (profile (hz 99)) 7 (some 42) [] both_armed

abbrev pub programs : Object
programs = record {
  opens = true;
  open_prog = λ entry. some (some 7);
  loads = true;
  prog = λ entry. some (some 7);
}

abbrev two_probes : BpfBuilder
two_probes = record {
  child_pid = some 42;
  probes = (profile (hz 99), codes "perf_event") ∷ (interval (hz 1), codes "perf_event") ∷ [];
  settings = [];
}

load-OwnsAll_example : OwnsAll [] (load granting headers programs two_probes [])
load-OwnsAll_example = load-OwnsAll granting headers programs two_probes []

attach-path_required_example :
    ((attach granting headers (uretprobe none (codes "main")) 7 (some 42) []).0
      ≡ fail path_required)
    ↔ (path_of (uretprobe none (codes "main")) ≡ some none)
attach-path_required_example =
    attach-path_required granting headers (uretprobe none (codes "main")) 7 (some 42) []

granting-Grants : Grants granting
granting-Grants = record {
  grants_open = λ history attr pid cpu. (3 + length history, refl);
  grants_set_bpf = λ history fd program. refl;
  grants_enable = λ history fd. refl;
}

two_online : online_cpu_ids (codes "0-1") ≡ some (0 ∷ 1 ∷ [])
unfolding online_cpu_ids from_str_radix
two_online = refl

attach-Succeeds_example :
    Succeeds
      (OpensOn (some 42) (pos 0 ∷ pos 1 ∷ []))
      (attach granting headers (profile (hz 99)) 7 (some 42))
unfolding as_i32
attach-Succeeds_example =
    attach-Succeeds granting granting-Grants (codes "0-1") (0 ∷ 1 ∷ []) (λ history. refl) two_online
      headers (profile (hz 99)) 7 (some 42) (pos 0 ∷ pos 1 ∷ []) refl
