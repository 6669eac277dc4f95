-- ===== src/Tests/Examples.antt =====
-- The example programs, over maps that hold any number of keys.
use rust_bpf.Prelude.{
  ℕ, ◌%◌, ◌≡◌, refl, List, [], ◌∷◌, Option, some, All, nat_dec, ◌==◌, if◌then◌else◌, arith, length,
}
use rust_bpf.Prelude.Int.{pos, negsuc, u64_mod}
use rust_bpf.Helpers.Map
use rust_bpf.Helpers.Map.{KernelMap, MapDef, lookup, with_max_entries}
use rust_bpf.Bpf.Maps.{iter}
use rust_bpf.Examples.Syscount
use rust_bpf.Examples.Syscount.{
  Event, enter, exit, filters, start_def, data_def, info_of, run_events,
}
use rust_bpf.Examples.Syscount.Spans.{sum, spans}
use rust_bpf.Examples.Syscount.Totals.{run_events-spans}
use rust_bpf.Examples.Allprobes
use rust_bpf.Examples.Allprobes.{
  Program, kprobe, profile, tracepoint, run_programs, probe_count, user_count, kernel_count,
  probe_names,
}
use rust_bpf.Examples.Allprobes.Print.Lines.{IsTrue, iter-IsTrue}
use rust_bpf.Tests.KernelMaps.{roomy, roomy-HashLaws, no_entries, one_byte, shown, shown-sees}

abbrev syscalls : Syscount.Kernel
syscalls = record { start = roomy nat_dec start_def; data_ = roomy nat_dec data_def }

abbrev nothing_started : Syscount.State syscalls filters
nothing_started = record { started = no_entries; infos = no_entries }

-- Two threads in the same system call, of which the first fails.
abbrev events : List Event
events =
    enter 7 (record { since_boot = 100 })
    ∷ enter 8 (record { since_boot = 110 })
    ∷ exit 7 (record { since_boot = 130 }) (pos 2) (negsuc 1)
    ∷ exit 8 (record { since_boot = 150 }) (pos 2) (pos 3)
    ∷ []

run_events-spans_example :
    (s' : Syscount.State syscalls filters) × (run_events syscalls filters nothing_started events
      ≡ some s')
    × ((info_of (Map.get syscalls.data_ s'.infos 2)).count ≡ length (spans 2 [] events) % u64_mod)
    × ((info_of (Map.get syscalls.data_ s'.infos 2)).time_ns ≡ sum (spans 2 [] events) % u64_mod)
unfolding Map.get lookup with_max_entries
run_events-spans_example =
    run_events-spans syscalls (roomy-HashLaws nat_dec start_def) (roomy-HashLaws nat_dec data_def)
      events nothing_started 2 (λ t. refl) (λ t. refl) (omega arith) (omega arith)
      (omega arith, (omega arith, (omega arith, (omega arith, tt))))

abbrev probed : Allprobes.Kernel
probed = record {
  probes = roomy nat_dec probe_count;
  users = roomy nat_dec user_count;
  kernels = roomy nat_dec kernel_count;
}

abbrev nothing_counted : Allprobes.State probed
nothing_counted = record {
  probe_counts = no_entries;
  user_counts = no_entries;
  kernel_counts = no_entries;
}

-- The helper has a stack for the kernel's side alone.
abbrev programs : List Program
programs = kprobe ∷ profile (λ def flag. if flag == 0 then pos 5 else negsuc 13) ∷ kprobe ∷ []

-- `get` answers what the map holds.
get_shown :
    (f : ℕ → Option ℕ) (n count : ℕ) → f n ≡ some count → Map.get probed.probes f n ≡ some count
unfolding Map.get lookup
get_shown f n count e = rw (e, Map.get) refl

abbrev keys : List (List ℕ)
keys = (0 ∷ []) ∷ (6 ∷ []) ∷ []

iter-IsTrue_example : All (IsTrue programs) (
    iter one_byte one_byte
      (shown one_byte one_byte keys)
      (run_programs probed nothing_counted programs).probe_counts)
unfolding Map.get lookup
iter-IsTrue_example =
    iter-IsTrue probed (roomy-HashLaws nat_dec probe_count) one_byte one_byte
      (shown one_byte one_byte keys) (run_programs probed nothing_counted programs).probe_counts
      programs nothing_counted refl (λ key. refl)
      (λ n count got.
        get_shown (run_programs probed nothing_counted programs).probe_counts n count (
          shown-sees one_byte one_byte keys
            (run_programs probed nothing_counted programs).probe_counts n count (λ k. refl)
            (λ w. refl) got))
