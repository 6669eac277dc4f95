-- ===== src/Examples/Allprobes/Totals.antt =====
-- examples/allprobes: the counts of the programs, under the names that they are printed with.
use rust_bpf.Prelude.{
  ℕ, ◌+◌, ◌%◌, ◌≡◌, ◌<◌, refl, ap, ◌∙◌, List, [], ◌∷◌, none, some, Result, ok, err, get_elem?,
  arith, nat_dec,
}
use rust_bpf.Prelude.Int.{ℤ, u32_mod}
use rust_bpf.Text.{Text, text_dec}
use rust_bpf.Helpers.Map.{get, with_max_entries}
use rust_bpf.Helpers.Map.Hash.{HashLaws, Among}
use rust_bpf.Helpers.Map.Counts.{bump, count_of, count-bump, bump-Among_known}
use rust_bpf.Examples.Allprobes.{
  Program, kprobe, kretprobe, uprobe, uretprobe, usdt, tracepoint, profile, interval, software,
  hardware, watchpoint, Kernel, State, increase_counter, count_kernel, count_user, run_program,
  run_programs, probe_names, probe_count,
}
use rust_bpf.Examples.Allprobes.Names.{
  function_name, runs, number, number-function_name, below, mem-below, number_lt, pick_iff,
}

module _ (k : Kernel) (laws : HashLaws k.probes) where
  count_kernel-probe_counts :
      (s : State k) (r : Result ℤ ℕ) → (count_kernel k s r).probe_counts ≡ s.probe_counts
  unfolding count_kernel
  count_kernel-probe_counts s (ok kid) = refl
  count_kernel-probe_counts s (err e) = refl

  count_user-probe_counts :
      (s : State k) (r : Result ℤ ℕ) → (count_user k s r).probe_counts ≡ s.probe_counts
  unfolding count_user
  count_user-probe_counts s (ok uid) = refl
  count_user-probe_counts s (err e) = refl

  pub run_program-probe_counts :
      (s : State k) (program : Program)
      → (run_program k s program).probe_counts ≡ bump k.probes s.probe_counts (number program)
  unfolding run_program increase_counter
  run_program-probe_counts s kprobe = refl
  run_program-probe_counts s kretprobe = refl
  run_program-probe_counts s uprobe = refl
  run_program-probe_counts s uretprobe = refl
  run_program-probe_counts s usdt = refl
  run_program-probe_counts s tracepoint = refl
  run_program-probe_counts s (profile f) =
      count_user-probe_counts _ _ ∙ count_kernel-probe_counts _ _
  run_program-probe_counts s interval = refl
  run_program-probe_counts s software = refl
  run_program-probe_counts s hardware = refl
  run_program-probe_counts s watchpoint = refl

  run_programs-counts :
      (programs : List Program) (s : State k) (n : ℕ) (name : Text)
      → 11 < k.probes.def.max_entries
      → Among k.probes s.probe_counts (below 11)
      → count_of (get k.probes s.probe_counts n) < u32_mod
      → get_elem? probe_names n ≡ some name
      → count_of (get k.probes (run_programs k s programs).probe_counts n)
        ≡ (count_of (get k.probes s.probe_counts n) + runs name programs) % u32_mod
  unfolding run_programs runs
  run_programs-counts [] s n name room among lt named = omega (arith, lt)
  run_programs-counts (program ∷ programs) s n name room among lt named =
      let bumped = run_program-probe_counts s program in
      let fits =
        bump-Among_known k.probes laws nat_dec s.probe_counts (number program) (below 11) among
          (mem-below _ 11 (number_lt program)) in
      let one =
        count-bump k.probes laws nat_dec s.probe_counts (number program) n (below 11) among room
          lt in
      let same =
        pick_iff (nat_dec (number program) n) (text_dec (function_name program) name) 1 0
          (number-function_name program n name named) in
      let now = ap (λ c. count_of (get k.probes c n)) bumped in
      let rest =
        run_programs-counts programs (run_program k s program) n name room (rw bumped fits)
          (omega (arith, now, one)) named in
      omega (arith, one, same, now, rest)

  -- From an empty map of the declared size, the count at the number of a name is the number of the
  -- runs of the program of that name, modulo 2 ^ 32.
  pub run_programs-runs :
      (programs : List Program) (s : State k) (n : ℕ) (name : Text)
      → k.probes.def ≡ probe_count
      → ((key : ℕ) → get k.probes s.probe_counts key ≡ none)
      → get_elem? probe_names n ≡ some name
      → count_of (get k.probes (run_programs k s programs).probe_counts n)
        ≡ runs name programs % u32_mod
  unfolding with_max_entries
  run_programs-runs programs s n name made fresh named =
      let zero_count : count_of (get k.probes s.probe_counts n) ≡ 0 = ap count_of (fresh n) in
      let room : 11 < k.probes.def.max_entries = rw made (omega arith) in
      let counted =
        run_programs-counts programs s n name room (λ key there. absurd (there (fresh key)))
          (omega (arith, zero_count)) named in
      omega (arith, counted, zero_count)
