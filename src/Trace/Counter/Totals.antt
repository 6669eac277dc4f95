-- ===== src/Trace/Counter/Totals.antt =====
-- cargo-trace/probe/src/main.rs: the counts after any number of runs.
use rust_bpf.Prelude.{
  ℕ, suc, ◌+◌, ◌%◌, ◌≡◌, ◌≤◌, ◌<◌, inl, inr, List, [], ◌∷◌, some, ◌==◌, Bool-cases, get_elem?,
  length, arith, if◌then◌else◌,
}
use mathlib.Core.Logic.Or
use mathlib.Core.List.{mem-cons}
use rust_bpf.Prelude.Int.{u32_mod}
use rust_bpf.Text.{text_dec}
use rust_bpf.Unwind.Probe.{Maps, backtrace}
use rust_bpf.Trace.Counter.{Sample, pid_of, increment_stack_counter, run_samples}
use rust_bpf.Helpers.Map.{KernelMap, get, pick}
use rust_bpf.Helpers.Map.Hash.{HashLaws, Among}
use rust_bpf.Helpers.Map.Counts.{count_of, count-bump, bump-Among}

-- The samples of the process that have the stack.
unfoldable pub occurrences : Maps → (pid : ℕ) → List ℕ → List Sample → ℕ
occurrences m pid stack [] = 0
occurrences m pid stack (sample ∷ samples) =
    let rest = occurrences m pid stack samples in
    if pid_of sample.pid_tgid == pid
    then pick (text_dec (backtrace sample.memory m sample.rip sample.rsp) stack) (suc rest) rest
    else rest

module _ (h : KernelMap (List ℕ) ℕ) (laws : HashLaws h) (m : Maps) (pid : ℕ)
    (watched : get_elem? m.config 1 ≡ some pid) where
  -- One run, with what it adds to the count of a stack.
  increment-count :
      (s : h.State) (sample : Sample) (stack : List ℕ) (keys : List (List ℕ))
      → Among h s keys
      → length keys < h.def.max_entries
      → count_of (get h s stack) < u32_mod
      → count_of (get h (increment_stack_counter h m s sample) stack)
        ≡ (count_of (get h s stack) + occurrences m pid stack (sample ∷ [])) % u32_mod
  unfolding increment_stack_counter occurrences
  increment-count s sample stack keys among room lt =
      elim (Bool-cases (pid_of sample.pid_tgid == pid)) [
        | inl ours ↦
            rw (watched, increment_stack_counter)
              (rw (ours, increment_stack_counter, occurrences)
                (count-bump h laws text_dec s (backtrace sample.memory m sample.rip sample.rsp)
                  stack keys among room lt))
        | inr foreign ↦
            rw (watched, increment_stack_counter)
              (rw (foreign, increment_stack_counter) (omega (arith, lt)))
      ]

  increment-Among :
      (s : h.State) (sample : Sample) (keys : List (List ℕ))
      → Among h s keys
      → Among h
          (increment_stack_counter h m s sample)
          (backtrace sample.memory m sample.rip sample.rsp ∷ keys)
  unfolding increment_stack_counter
  increment-Among s sample keys among = elim (Bool-cases (pid_of sample.pid_tgid == pid)) [
    | inl ours ↦
        rw (watched, increment_stack_counter)
          (rw (ours, increment_stack_counter) (bump-Among h laws text_dec s _ keys among))
    | inr foreign ↦
        rw (watched, increment_stack_counter)
          (rw (foreign, increment_stack_counter)
            (λ key there. mem-cons.1 (Or.inr (among key there))))
  ]

  occurrences-cons :
      (sample : Sample) (samples : List Sample) (stack : List ℕ)
      → occurrences m pid stack (sample ∷ samples)
        ≡ occurrences m pid stack (sample ∷ []) + occurrences m pid stack samples
  unfolding occurrences
  occurrences-cons sample samples stack = ground arith

  -- After any number of runs, the count of a stack, which was below 2 ^ 32, has grown by the
  -- number of runs in which the watched process had this stack, modulo 2 ^ 32, if the map has room
  -- for a new stack at each run.
  pub run_samples-count :
      (samples : List Sample) (s : h.State) (stack : List ℕ) (keys : List (List ℕ))
      → Among h s keys
      → length keys + length samples ≤ h.def.max_entries
      → count_of (get h s stack) < u32_mod
      → count_of (get h (run_samples h m s samples) stack)
        ≡ (count_of (get h s stack) + occurrences m pid stack samples) % u32_mod
  unfolding run_samples occurrences
  run_samples-count [] s stack keys among room lt = omega (arith, lt)
  run_samples-count (sample ∷ samples) s stack keys among room lt =
      let s' = increment_stack_counter h m s sample in
      let one = increment-count s sample stack keys among (omega (arith, room)) lt in
      let rest =
        run_samples-count samples s' stack _ (increment-Among s sample keys among)
          (omega (arith, room)) (omega (arith, one)) in
      omega (arith, one, rest, occurrences-cons sample samples stack)
