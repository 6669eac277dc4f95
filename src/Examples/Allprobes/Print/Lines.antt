-- ===== src/Examples/Allprobes/Print/Lines.antt =====
-- examples/allprobes: the lines of src/main.rs against the runs of the programs of
-- probe/src/main.rs.
use mathlib.Core.List.{Mem, mem-cons, not-mem-nil}
use mathlib.Core.Logic.Or
use native.Mathlib.Bridge.{le_prop}
use rust_bpf.Prelude.{
  ℕ, zero, suc, ◌%◌, ◌≡◌, ◌<◌, refl, sym, ap, ◌∙◌, List, [], ◌∷◌, ◌++◌, none, some, ok, get_elem?,
  get_elem?-lt, arith, All, All-map, nat_dec,
}
use rust_bpf.Prelude.Int.{u32_mod}
use rust_bpf.Text.{Text}
use rust_bpf.Text.Number.{show_radix}
use rust_bpf.Helpers.Map.{with_max_entries}
use rust_bpf.Helpers.Map.Hash.{HashLaws, Among}
use rust_bpf.Helpers.Map.Counts.{count_of, bump-Among_known}
use rust_bpf.Helpers.Map
use rust_bpf.Bpf.Maps.{Bytes, Handle, get, iter}
use rust_bpf.Bpf.Maps.Entries.{iter-All_get}
use rust_bpf.Examples.Allprobes.{
  Program, Kernel, State, run_program, run_programs, probe_names, probe_count,
}
use rust_bpf.Examples.Allprobes.Names.{runs, number, below, mem-below, number_lt}
use rust_bpf.Examples.Allprobes.Totals.{run_program-probe_counts, run_programs-runs}
use rust_bpf.Examples.Allprobes.Print.{probe_line}

lt_of_mem : (m n : ℕ) → Mem m (below n) → m < n
lt_of_mem m zero there = absurd (not-mem-nil there)
lt_of_mem m (suc n) there =
    Or.elim le_prop (mem-cons.0 there) (λ here. omega (arith, here))
      (λ further. let lt = lt_of_mem m n further in omega (arith, lt))

-- The line of an entry is the name of a program and the number of its runs.
abbrev pub IsTrue : List Program → ℕ × ℕ → Type 0
IsTrue programs (n, count) =
    (name : Text) × (probe_line (n, count) ≡ some (name ++ b' ' ∷ show_radix 10 count))
    × (get_elem? probe_names n ≡ some name)
    × (count ≡ runs name programs % u32_mod)

module _ (k : Kernel) (laws : HashLaws k.probes) where
  run_programs-Among :
      (programs : List Program) (s : State k)
      → Among k.probes s.probe_counts (below 11)
      → Among k.probes (run_programs k s programs).probe_counts (below 11)
  unfolding run_programs
  run_programs-Among [] s among = among
  run_programs-Among (program ∷ programs) s among =
      let fits =
        bump-Among_known k.probes laws nat_dec s.probe_counts (number program) (below 11) among
          (mem-below _ 11 (number_lt program)) in
      run_programs-Among programs (run_program k s program)
        (rw (run_program-probe_counts k laws s program) fits)

  entry-IsTrue :
      (programs : List Program) (s : State k) (n count : ℕ)
      → k.probes.def ≡ probe_count
      → ((key : ℕ) → Map.get k.probes s.probe_counts key ≡ none)
      → Map.get k.probes (run_programs k s programs).probe_counts n ≡ some count
      → IsTrue programs (n, count)
  unfolding probe_line show_radix
  entry-IsTrue programs s n count made fresh got =
      let among = run_programs-Among programs s (λ key there. absurd (there (fresh key))) in
      let known = among n (λ e. cc (e, got)) in
      let (name, named) = get_elem?-lt probe_names n (omega (arith, lt_of_mem n 11 known)) in
      let counted = run_programs-runs k laws programs s n name made fresh named in
      (name, rw (named, probe_line) refl, named, sym (ap count_of got) ∙ counted)

  -- From an empty map of the declared size, whatever programs have run in whatever order, and if
  -- user space reads what the map holds, each entry that it iterates over is printed without a
  -- panic, under the name of a program, with the number of the runs of that program modulo 2 ^ 32.
  pub iter-IsTrue :
      (kb vb : Bytes ℕ) (h : Handle) (u : h.State) (programs : List Program) (s : State k)
      → k.probes.def ≡ probe_count
      → ((key : ℕ) → Map.get k.probes s.probe_counts key ≡ none)
      → ((n count : ℕ)
          → get kb vb h u n ≡ ok (some count)
          → Map.get k.probes (run_programs k s programs).probe_counts n ≡ some count)
      → All (IsTrue programs) (iter kb vb h u)
  iter-IsTrue kb vb h u programs s made fresh sees =
      All-map (λ entry. get kb vb h u entry.0 ≡ ok (some entry.1)) (IsTrue programs)
        (λ entry got. entry-IsTrue programs s entry.0 entry.1 made fresh (sees entry.0 entry.1 got))
        (iter kb vb h u) (iter-All_get kb vb h u)
