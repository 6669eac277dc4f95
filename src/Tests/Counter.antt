-- ===== src/Tests/Counter.antt =====
-- The counter of stacks over a map that holds any number of them.
use rust_bpf.Prelude.{ℕ, ◌*◌, ◌+◌, ◌%◌, ◌≡◌, refl, List, [], ◌∷◌, none, replicate, arith}
use rust_bpf.Prelude.Int.{u32_mod}
use rust_bpf.Text.{text_dec}
use rust_bpf.Unwind.Probe.{Maps, backtrace}
use rust_bpf.Trace.Counter.{Sample, pid_of, run_samples}
use rust_bpf.Helpers.Map.{KernelMap, with_max_entries, hash_type, get, lookup}
use rust_bpf.Helpers.Map.Counts.{count_of}
use rust_bpf.Tests.KernelMaps.{roomy, roomy-HashLaws, no_entries}
use rust_bpf.Trace.Counter.Totals.{occurrences, run_samples-count}

abbrev stacks : KernelMap (List ℕ) ℕ
stacks = roomy text_dec (with_max_entries hash_type 384 4 1024)

abbrev watching : Maps
watching = record { config = 0 ∷ 42 ∷ []; pc = []; rip = []; rsp = [] }

-- Process 42 twice, and another one.
abbrev samples : List Sample
samples =
    record { pid_tgid = 42 * u32_mod + 42; memory = λ a. none; rip = 0; rsp = 0 }
    ∷ record { pid_tgid = 43 * u32_mod + 43; memory = λ a. none; rip = 0; rsp = 0 }
    ∷ record { pid_tgid = 42 * u32_mod + 44; memory = λ a. none; rip = 0; rsp = 0 }
    ∷ []

twice : occurrences watching 42 (replicate 48 0) samples ≡ 2
unfolding occurrences pid_of text_dec backtrace
twice = refl

run_samples-count_example :
    count_of (get stacks (run_samples stacks watching no_entries samples) (replicate 48 0))
    ≡ (0 + occurrences watching 42 (replicate 48 0) samples) % u32_mod
unfolding get lookup with_max_entries
run_samples-count_example =
    run_samples-count stacks (roomy-HashLaws text_dec stacks.def) watching 42 refl samples
      no_entries (replicate 48 0) [] (λ key there. absurd (there refl)) (omega arith) (omega arith)
