-- ===== src/Trace/Main/Shown.antt =====
-- cargo-trace: from the command line to the flame graph, with the runs of probe/src/main.rs between.
use mathlib.Core.Path.{subst}
use rust_bpf.Prelude.{
  ℕ, ◌≡◌, ◌≤◌, refl, true, List, [], ◌∷◌, none, some, ok, All, Lacks, length, get_elem?, >>=-eq-ok,
  ok-injective, ok_or,
}
use rust_bpf.Prelude.Sort.{sort_by_key-All}
use mathlib.Core.List.{map}
use rust_bpf.Text.{Text}
use rust_bpf.Helpers.Map
use rust_bpf.Helpers.Map.{KernelMap}
use rust_bpf.Helpers.Map.Hash.{HashLaws}
use rust_bpf.Bpf.Maps.{Bytes, Handle, get, iter}
use rust_bpf.Bpf.Builder.{BpfBuilder}
use rust_bpf.Bpf.Load.{load}
use rust_bpf.Probes.Probe.{Probe}
use rust_bpf.Probes.Attach.Kernel.{done}
use rust_bpf.Utils.Dylibs.{Binary, resolve_ip}
use rust_bpf.Utils.Dylibs.New.{BinaryInfo, new}
use rust_bpf.Unwind.Instruction.{Registers, GimliRow, UnwindTableRow, parse_row}
use rust_bpf.Unwind.Table.{parse_table, map_parse_row-IsBuilt}
use rust_bpf.Unwind.Probe.{Maps, ehframe_entries}
use rust_bpf.Trace.Fill.{fill}
use rust_bpf.Trace.Fill.Rows.{RowIsBuilt, row_count, RowsAreBuilt}
use rust_bpf.Trace.Fill.Backtrace.{IsSized, fill-Holds}
use rust_bpf.Trace.Counter.{Sample, run_samples}
use rust_bpf.Trace.Collapse.{collapse}
use rust_bpf.Trace.Graph.{Disk, write_flamegraph}
use rust_bpf.Trace.Graph.Drawn.{Works, Draws, write_flamegraph-Draws}
use rust_bpf.Trace.Session.{parse_command, build_probe}
use rust_bpf.Trace.Session.Counted.{IsCounted, session-IsCounted}
use rust_bpf.Trace.Main.{World, no_table, graphed, tables, start_session, end_session, main}

parse_table-AreBuilt : (g : Registers) (rows : List GimliRow) → All RowIsBuilt (parse_table g rows)
unfolding parse_table
parse_table-AreBuilt g rows =
    sort_by_key-All (λ row. row.start_address) RowIsBuilt (map (parse_row g) rows)
      (map_parse_row-IsBuilt g rows)

tables-AreBuilt :
    (w : World) (binaries : List Binary) {starts : List (ℕ × List UnwindTableRow)}
    → tables w binaries ≡ ok starts
    → RowsAreBuilt starts
unfolding tables
tables-AreBuilt w [] {starts} h = subst RowsAreBuilt (ok-injective [] starts h) tt
tables-AreBuilt w (b ∷ binaries) {starts} h =
    let (rows, read, h1) = >>=-eq-ok (ok_or (w.gimli b.path) no_table) _ h in
    let (rest, all, made) = >>=-eq-ok (tables w binaries) _ h1 in
    subst RowsAreBuilt
      (ok-injective ((b.start_addr, parse_table w.registers rows) ∷ rest) starts made)
      (parse_table-AreBuilt w.registers rows, tables-AreBuilt w binaries all)

module _ (w : World) (cmd : Text) where
  -- The session reaches the arrays, once each step in front of them is done.
  start_session-ok :
      {info : BinaryInfo} {p : Probe} {entry : Text} {first : Binary} {builder : BpfBuilder}
      {fds : List ℕ} {binaries : List (ℕ × List UnwindTableRow)} {arrays : Maps}
      → new w.sys ≡ ok info
      → parse_command cmd ≡ ok (p, entry)
      → get_elem? info.map 0 ≡ some first
      → build_probe w.limits w.obj p entry first.path info.pid ≡ ok builder
      → (load w.kernel w.bindings w.obj builder []).0 ≡ done fds
      → tables w info.map ≡ ok binaries
      → fill binaries info.pid w.arrays ≡ some arrays
      → start_session w cmd ≡ ok (info, arrays)
  unfolding start_session
  start_session-ok started parsed there built loads read filled =
      rw (started, parsed, there, built, loads, read, filled, start_session) refl

  main-graphed :
      {info : BinaryInfo} {arrays : Maps} (d : Disk)
      → start_session w cmd ≡ ok (info, arrays)
      → w.continues ≡ true
      → main w cmd d
        ≡ graphed (
            write_flamegraph w.files (resolve_ip info.map) w.from_lines (w.user_stack arrays) cmd d)
  unfolding main end_session
  main-graphed d ready continues = rw (ready, continues, main, end_session) refl

module _ (k : KernelMap (List ℕ) ℕ) (laws : HashLaws k) where
  -- If the process starts, the command is parsed, the program is built and loaded, and the tables
  -- are read, with at least two rows and no more than there is room for in arrays of the declared
  -- sizes; if the map of stacks was empty and has room for all samples, and user space reads what
  -- it holds behind the runs; and if the process can be continued, the files work and no symbol
  -- has a newline: then each stack that `main` draws has the number of the samples of the process
  -- that have it, modulo 2 ^ 32, and `main` leaves in the two files, and ends with, what the flame
  -- graph of the collapsed stacks says, or the error of a symbol.
  pub main-Draws :
      (w : World) (cmd : Text) (d : Disk) (info : BinaryInfo) (p : Probe) (entry : Text)
      (first : Binary) (builder : BpfBuilder) (fds : List ℕ)
      (binaries : List (ℕ × List UnwindTableRow)) (kb : Bytes (List ℕ)) (vb : Bytes ℕ) (h : Handle)
      (u : Maps → h.State) (samples : List Sample) (s : k.State)
      → new w.sys ≡ ok info
      → parse_command cmd ≡ ok (p, entry)
      → get_elem? info.map 0 ≡ some first
      → build_probe w.limits w.obj p entry first.path info.pid ≡ ok builder
      → (load w.kernel w.bindings w.obj builder []).0 ≡ done fds
      → tables w info.map ≡ ok binaries
      → IsSized w.arrays
      → 2 ≤ row_count binaries
      → row_count binaries ≤ ehframe_entries
      → ((key : List ℕ) → Map.get k s key ≡ none)
      → length samples ≤ k.def.max_entries
      → ((arrays : Maps) → w.user_stack arrays ≡ iter kb vb h (u arrays))
      → ((arrays : Maps) (stack : List ℕ) (count : ℕ)
          → get kb vb h (u arrays) stack ≡ ok (some count)
          → Map.get k (run_samples k arrays s samples) stack ≡ some count)
      → w.continues ≡ true
      → Works w.files
      → ((ip : ℕ) (name : Text) → resolve_ip info.map ip ≡ ok (some name) → Lacks b'\n' name)
      → (arrays : Maps) × All (IsCounted arrays info.pid samples) (w.user_stack arrays)
        × Draws
            (resolve_ip info.map)
            w.from_lines
            cmd
            (w.user_stack arrays)
            d
            (collapse (resolve_ip info.map) (w.user_stack arrays))
            (write_flamegraph w.files
              (resolve_ip info.map)
              w.from_lines
              (w.user_stack arrays)
              cmd
              d)
        × (main w cmd d
            ≡ graphed (
                write_flamegraph w.files
                  (resolve_ip info.map)
                  w.from_lines
                  (w.user_stack arrays)
                  cmd
                  d))
  main-Draws w cmd d info p entry first builder fds binaries kb vb h u samples s started parsed
        there built loads read sized lo hi fresh room reads sees continues works plain =
      let are = tables-AreBuilt w info.map read in
      let (arrays, filled, holds, watched) =
        fill-Holds binaries info.pid w.arrays sized are lo hi in
      let ready = start_session-ok w cmd started parsed there built loads read filled in
      (
        arrays,
        rw (reads arrays) (
            session-IsCounted k laws kb vb h (u arrays) binaries info.pid w.arrays arrays samples s
              sized are lo hi filled fresh room (sees arrays)),
        write_flamegraph-Draws (resolve_ip info.map) plain w.files works w.from_lines
            (w.user_stack arrays) cmd d,
        main-graphed w cmd d ready continues,
      )
