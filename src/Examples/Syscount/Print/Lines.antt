-- ===== src/Examples/Syscount/Print/Lines.antt =====
-- examples/syscount: the entries that src/main.rs prints against the events that
-- probe/src/main.rs counts.
use mathlib.Core.Option.{some-injective}
use rust_bpf.Prelude.{
  ℕ, ◌%◌, ◌≡◌, ◌≤◌, ap, sym, ◌∙◌, List, none, some, ok, All, All-map, length, [],
}
use rust_bpf.Prelude.Int.{u64_mod}
use rust_bpf.Helpers.Map
use rust_bpf.Helpers.Map.Hash.{HashLaws}
use rust_bpf.Bpf.Maps.{Bytes, Handle, get, iter}
use rust_bpf.Bpf.Maps.Entries.{iter-All_get}
use rust_bpf.Examples.Syscount.{Kernel, State, Event, SyscallInfo, filters, info_of, run_events}
use rust_bpf.Examples.Syscount.Spans.{sum, spans, Ticks}
use rust_bpf.Examples.Syscount.Totals.{run_events-spans}

-- An entry is the number of the failed calls of a system call and the time that they took.
abbrev pub IsSpent : List Event → ℕ × SyscallInfo → Type 0
IsSpent events (key, info) =
    (info.count ≡ length (spans key [] events) % u64_mod)
    × (info.time_ns ≡ sum (spans key [] events) % u64_mod)

module _ (k : Kernel) (start_laws : HashLaws k.start) (data_laws : HashLaws k.data_) where
  -- From empty maps, with a clock that does not go back and room for all events, each entry that
  -- user space iterates over is the number of the failed calls of a system call and the time that
  -- they took, if user space reads what the map holds.
  pub iter-IsSpent :
      (kb : Bytes ℕ) (vb : Bytes SyscallInfo) (h : Handle) (u : h.State) (events : List Event)
      (s s' : State k filters)
      → ((t : ℕ) → Map.get k.start s.started t ≡ none)
      → ((t : ℕ) → Map.get k.data_ s.infos t ≡ none)
      → length events ≤ k.start.def.max_entries
      → length events ≤ k.data_.def.max_entries
      → Ticks 0 events
      → run_events k filters s events ≡ some s'
      → ((key : ℕ) (info : SyscallInfo)
          → get kb vb h u key ≡ ok (some info)
          → Map.get k.data_ s'.infos key ≡ some info)
      → All (IsSpent events) (iter kb vb h u)
  iter-IsSpent kb vb h u events s s' threads infos room room' ticks ran sees =
      All-map (λ entry. get kb vb h u entry.0 ≡ ok (some entry.1)) (IsSpent events)
        (λ entry got.
          let (s1, ran1, counts, times) =
            run_events-spans k start_laws data_laws events s entry.0 threads infos room room'
              ticks in
          let same = some-injective s1 s' (sym ran1 ∙ ran) in
          let read = ap info_of (sees entry.0 entry.1 got) in
          (rw (same, read) at counts, rw (same, read) at times))
        (iter kb vb h u) (iter-All_get kb vb h u)
