-- ===== src/Tests/Main.antt =====
-- A profile of one stripped file, from the command line to the flame graph.
use mathlib.Core.Path.{subst}
use mathlib.Core.Option.{some-injective}
use rust_bpf.Prelude.{
  ℕ, zero, suc, ◌-◌, ◌≡◌, refl, sym, true, false, List, [], ◌∷◌, none, some, ok, All, Lacks, arith,
  length, ◌==◌, inl, inr,
}
use rust_bpf.Text.{Text, codes, text_dec}
use rust_bpf.Text.Number.{from_str_radix}
use rust_bpf.Probes.Probe.{ProgramType}
use rust_bpf.Probes.Parse.{parse_probe}
use rust_bpf.Probes.Interval.{hz, parse_interval, parse_u64}
use rust_bpf.Probes.Probe.{profile}
use rust_bpf.Probes.Attach.Kernel.{done}
use rust_bpf.Helpers.Map
use rust_bpf.Helpers.Map.{lookup, with_max_entries}
use rust_bpf.Utils.Syscall.{Limits, increase_memlock_rlimit}
use rust_bpf.Bpf.Maps.{iter}
use rust_bpf.Bpf.Builder.{BpfBuilder, set_prog_type}
use rust_bpf.Bpf.Load.{load}
use rust_bpf.Utils.Cpu.{online_cpu_ids}
use rust_bpf.Utils.Search.Floor.{Ascends}
use rust_bpf.Utils.Elf.Open.{Image, Library}
use rust_bpf.Utils.Elf.Symbols.{At}
use rust_bpf.Utils.Dylibs.{Binary, start_at, resolve_ip}
use rust_bpf.Utils.Dylibs.Resolve.{Names, resolve_ip_sound}
use rust_bpf.Utils.Dylibs.New.{System, BinaryInfo, new}
use rust_bpf.Unwind.Instruction.{UnwindTableRow}
use rust_bpf.Unwind.Table.{parse_table}
use rust_bpf.Unwind.Probe.{Maps}
use rust_bpf.Trace.Counter.{run_samples}
use rust_bpf.Trace.Collapse.{collapse}
use rust_bpf.Trace.Graph.{write_flamegraph}
use rust_bpf.Trace.Graph.Drawn.{Draws}
use rust_bpf.Trace.Session.{parse_command, build_probe}
use rust_bpf.Trace.Session.Counted.{IsCounted}
use rust_bpf.Trace.Main.{World, graphed, tables, main}
use rust_bpf.Trace.Main.Shown.{main-Draws}
use rust_bpf.Tests.KernelMaps.{roomy-HashLaws, no_entries, one_byte, raw, shown, shown-sees}
use rust_bpf.Tests.Attach.{granting, headers, programs}
use rust_bpf.Tests.Unwind.{amd64, row}
use rust_bpf.Tests.Trace.{blank, blank-IsSized, stacks, sampled, get_counted, listed}
use rust_bpf.Tests.Graph.{files, files-Works, from_lines, blank_disk}

abbrev stripped : Image
stripped = record {
  symbols = record { name = some (codes "_start"); address = 16; size = 32 } ∷ [];
  note = none;
  has_debug_symbols = false;
}

abbrev library : Library
library = record {
  parse = λ path. some stripped;
  locate_debug_symbols = λ image path. none;
  locate_debug_build_id = λ id. none;
  context = λ image. none;
}

abbrev system : System
system = record {
  exists = λ path. true;
  library = library;
  to_str = λ path. some path;
  spawn = some 42;
  maps_before = λ pid. some (codes "1000-2000 r-xp 0 08:01 7 /bin/a" ∷ []);
  maps_behind = λ pid breakpoint. some (codes "1000-3000 r-xp 0 08:01 7 /bin/a" ∷ []);
  runs_to = λ pid breakpoint. breakpoint == 0x1010;
}

abbrev lifting : Limits
lifting = record { getrlimit = 0; setrlimit = λ soft hard. 0 }

abbrev world : World
world = record {
  sys = system;
  registers = amd64;
  gimli = λ path. some (row ∷ row ∷ []);
  kernel = granting;
  bindings = headers;
  limits = lifting;
  obj = programs;
  arrays = blank;
  user_stack = λ arrays.
      iter raw one_byte (shown raw one_byte listed) (run_samples stacks arrays no_entries sampled);
  continues = true;
  files = files;
  from_lines = from_lines;
}

abbrev file : Binary
file = record {
  start_addr = 0x1000;
  end_addr = 0x3000;
  symbols = stripped.symbols;
  path = codes "/bin/a";
  utf8_path = some (codes "/bin/a");
  id = none;
  dwarf = none;
}

abbrev started : BinaryInfo
started = record { pid = 42; map = file ∷ [] }

starts_up : new system ≡ ok started
unfolding new from_str_radix
starts_up = refl

abbrev cmd : Text
cmd = codes "profile:hz:99"

parsed : parse_command cmd ≡ ok (profile (hz 99), codes "perf_event")
unfolding parse_command parse_probe from_str_radix parse_interval parse_u64
parsed = refl

abbrev builder : BpfBuilder
builder = record {
  child_pid = some 42;
  probes = (profile (hz 99), codes "perf_event") ∷ [];
  settings = set_prog_type 7 ProgramType.perf_event ∷ [];
}

built :
    build_probe lifting programs (profile (hz 99)) (codes "perf_event") (codes "/bin/a") 42
    ≡ ok builder
unfolding build_probe increase_memlock_rlimit
built = refl

loads : (load granting headers programs builder []).0 ≡ done (3 ∷ 4 ∷ [])
unfolding load online_cpu_ids from_str_radix
loads = refl

abbrev entries : List (ℕ × List UnwindTableRow)
entries = (0x1000, parse_table amd64 (row ∷ row ∷ [])) ∷ []

read : tables world started.map ≡ ok entries
unfolding tables
read = refl

two_rows : length (parse_table amd64 (row ∷ row ∷ [])) ≡ 2
unfolding parse_table
two_rows = refl

started-Ascends : Ascends (start_at started.map) (length started.map)
started-Ascends zero zero le lt = omega arith
started-Ascends i (suc j) le lt = absurd (omega arith)
started-Ascends (suc i) zero le lt = absurd (omega arith)

start-Lacks : (name : Text) (address : ℕ) → At name address stripped.symbols → Lacks b'\n' name
start-Lacks name address (inl (named, low, high)) =
    subst (Lacks b'\n') (some-injective (codes "_start") name named)
      (omega arith, (omega arith, (omega arith, (omega arith, (omega arith, (omega arith, tt))))))
start-Lacks name address (inr none_left) = absurd none_left

named-plain : (ip : ℕ) (name : Text) → Names started.map ip name → Lacks b'\n' name
named-plain ip name (zero, b, same, low, high, at) =
    start-Lacks name (ip - file.start_addr)
      (subst (λ b. At name (ip - b.start_addr) b.symbols) (sym (some-injective file b same)) at)
named-plain ip name (suc i, b, same, low, high, at) = absurd (cc)

plain : (ip : ℕ) (name : Text) → resolve_ip started.map ip ≡ ok (some name) → Lacks b'\n' name
plain ip name h =
    named-plain ip name
      (resolve_ip_sound started.map ip name started-Ascends ((refl, (omega arith, tt)), tt) h)

main-Draws_example :
    (arrays : Maps) × All (IsCounted arrays 42 sampled) (world.user_stack arrays)
    × Draws
        (resolve_ip started.map)
        from_lines
        cmd
        (world.user_stack arrays)
        blank_disk
        (collapse (resolve_ip started.map) (world.user_stack arrays))
        (write_flamegraph files
          (resolve_ip started.map)
          from_lines
          (world.user_stack arrays)
          cmd
          blank_disk)
    × (main world cmd blank_disk
        ≡ graphed (
            write_flamegraph files
              (resolve_ip started.map)
              from_lines
              (world.user_stack arrays)
              cmd
              blank_disk))
unfolding Map.get lookup with_max_entries
main-Draws_example =
    main-Draws stacks (roomy-HashLaws text_dec stacks.def) world cmd blank_disk started
      (profile (hz 99)) (codes "perf_event") file builder (3 ∷ 4 ∷ []) entries raw one_byte
      (shown raw one_byte listed) (λ arrays. run_samples stacks arrays no_entries sampled) sampled
      no_entries starts_up parsed refl built loads read blank-IsSized (omega (arith, two_rows))
      (omega (arith, two_rows)) (λ key. refl) (omega arith) (λ arrays. refl)
      (λ arrays stack count got.
        get_counted (run_samples stacks arrays no_entries sampled) stack count (
          shown-sees raw one_byte listed (run_samples stacks arrays no_entries sampled) stack count
            (λ k. refl) (λ w. refl) got))
      refl files-Works plain
