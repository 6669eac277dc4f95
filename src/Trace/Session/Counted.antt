-- ===== src/Trace/Session/Counted.antt =====
-- cargo-trace: the counts that src/main.rs reads, once the arrays of the probe are filled and
-- probe/src/main.rs has run.
use mathlib.Core.Option.{some-injective}
use rust_bpf.Prelude.{
  ℕ, ◌%◌, ◌≡◌, ◌≤◌, ap, sym, ◌∙◌, List, [], none, some, ok, All, All-map, length, get_elem?, arith,
}
use rust_bpf.Prelude.Int.{u32_mod}
use rust_bpf.Helpers.Map
use rust_bpf.Helpers.Map.{KernelMap}
use rust_bpf.Helpers.Map.Hash.{HashLaws}
use rust_bpf.Helpers.Map.Counts.{count_of}
use rust_bpf.Bpf.Maps.{Bytes, Handle, get, iter}
use rust_bpf.Bpf.Maps.Entries.{iter-All_get}
use rust_bpf.Unwind.Instruction.{UnwindTableRow}
use rust_bpf.Unwind.Probe.{Maps, ehframe_entries}
use rust_bpf.Trace.Fill.{fill}
use rust_bpf.Trace.Fill.Rows.{row_count, RowsAreBuilt}
use rust_bpf.Trace.Fill.Backtrace.{IsSized, fill-Holds}
use rust_bpf.Trace.Counter.{Sample, run_samples}
use rust_bpf.Trace.Counter.Totals.{occurrences, run_samples-count}

-- A stack with the number of the runs that had it.
abbrev pub IsCounted : Maps → (pid : ℕ) → List Sample → List ℕ × ℕ → Type 0
IsCounted m pid samples (stack, count) = count ≡ occurrences m pid stack samples % u32_mod

module _ (k : KernelMap (List ℕ) ℕ) (laws : HashLaws k) where
  entry-IsCounted :
      (m : Maps) (pid : ℕ) (samples : List Sample) (s : k.State) (stack : List ℕ) (count : ℕ)
      → get_elem? m.config 1 ≡ some pid
      → ((key : List ℕ) → Map.get k s key ≡ none)
      → length samples ≤ k.def.max_entries
      → Map.get k (run_samples k m s samples) stack ≡ some count
      → IsCounted m pid samples (stack, count)
  entry-IsCounted m pid samples s stack count watched fresh room got =
      let zero_count : count_of (Map.get k s stack) ≡ 0 = ap count_of (fresh stack) in
      let counted =
        run_samples-count k laws m pid watched samples s stack []
          (λ key there. absurd (there (fresh key))) (omega (arith, room))
          (omega (arith, zero_count)) in
      let read = ap count_of got in omega (arith, counted, zero_count, read)

  -- Once arrays of the declared sizes are filled with at least two rows, and no more than there is
  -- room for, of instructions that the constructors of `Instruction` built, and the probe has run
  -- on samples for which its empty map has room, and if user space reads what the map holds, each
  -- entry that it iterates over is a stack with the number of the samples of the process that have
  -- it, modulo 2 ^ 32.
  pub session-IsCounted :
      (kb : Bytes (List ℕ)) (vb : Bytes ℕ) (h : Handle) (u : h.State)
      (binaries : List (ℕ × List UnwindTableRow)) (pid : ℕ) (m m' : Maps) (samples : List Sample)
      (s : k.State)
      → IsSized m
      → RowsAreBuilt binaries
      → 2 ≤ row_count binaries
      → row_count binaries ≤ ehframe_entries
      → fill binaries pid m ≡ some m'
      → ((key : List ℕ) → Map.get k s key ≡ none)
      → length samples ≤ k.def.max_entries
      → ((stack : List ℕ) (count : ℕ)
          → get kb vb h u stack ≡ ok (some count)
          → Map.get k (run_samples k m' s samples) stack ≡ some count)
      → All (IsCounted m' pid samples) (iter kb vb h u)
  session-IsCounted kb vb h u binaries pid m m' samples s sized built lo hi filled fresh room sees =
      let (made, fills, holds, watched) = fill-Holds binaries pid m sized built lo hi in
      let same = some-injective made m' (sym fills ∙ filled) in
      All-map (λ entry. get kb vb h u entry.0 ≡ ok (some entry.1)) (IsCounted m' pid samples)
        (λ entry got.
          entry-IsCounted m' pid samples s entry.0 entry.1 (rw same at watched) fresh room
            (sees entry.0 entry.1 got))
        (iter kb vb h u) (iter-All_get kb vb h u)
