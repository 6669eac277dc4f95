-- ===== src/Trace/Fill/Backtrace.antt =====
-- cargo-trace/src/main.rs: what the probe does with the arrays that the command has filled.
use rust_bpf.Prelude.{
  ℕ, ◌+◌, ◌-◌, ◌^◌, ◌≤◌, ◌≡◌, ◌≢◌, refl, sym, ap, ◌∙◌, List, [], ◌∷◌, some, arith, length,
  get_elem?,
}
use rust_bpf.Unwind.Instruction.{UnwindTableRow}
use rust_bpf.Unwind.Execute.{Memory}
use rust_bpf.Unwind.User.{UnwindMap, UnwindContext, crashed, empty_map, load_map, walk_frames}
use rust_bpf.Unwind.Probe.{Maps, backtrace, max_stack_depth, ehframe_entries}
use rust_bpf.Unwind.Agree.{Holds}
use rust_bpf.Unwind.Agree.Stack.{pad, backtrace-walk_frames}
use rust_bpf.Trace.Fill.{fill, fill_binaries}
use rust_bpf.Trace.Fill.Rows.{Front, row_count, RowsAreBuilt, fill_binaries-Front}

-- The arrays have the sizes that the probe declares.
pub record IsSized (m : Maps) : Type 0 where
  pub config_size : length m.config ≡ 2
  pub pc_size : length m.pc ≡ ehframe_entries
  pub rip_size : length m.rip ≡ ehframe_entries
  pub rsp_size : length m.rsp ≡ ehframe_entries

empty_Front :
    (room : ℕ) (m : Maps)
    → length m.pc ≡ room
    → length m.rip ≡ room
    → length m.rsp ≡ room
    → Front 0 room m empty_map
empty_Front room m p i s = record {
  starts = m.pc;
  rips = m.rip;
  rsps = m.rsp;
  pc_is = refl;
  rip_is = refl;
  rsp_is = refl;
  pc_count = refl;
  rip_count = refl;
  rsp_count = refl;
  pc_room = p;
  rip_room = i;
  rsp_room = s;
  built_rip = tt;
  built_rsp = tt;
}

Front-config :
    (i room : ℕ) (m : Maps) (t : UnwindMap) (config : List ℕ)
    → Front i room m t
    → Front i room (record m { config = config }) t
Front-config i room m t config f = record {
  starts = f.starts;
  rips = f.rips;
  rsps = f.rsps;
  pc_is = f.pc_is;
  rip_is = f.rip_is;
  rsp_is = f.rsp_is;
  pc_count = f.pc_count;
  rip_count = f.rip_count;
  rsp_count = f.rsp_count;
  pc_room = f.pc_room;
  rip_room = f.rip_room;
  rsp_room = f.rsp_room;
  built_rip = f.built_rip;
  built_rsp = f.built_rsp;
}

Front-Holds :
    (i room : ℕ) (m : Maps) (t : UnwindMap)
    → 2 ≤ i
    → i ≤ 2 ^ 31
    → get_elem? m.config 0 ≡ some i
    → Front i room m t
    → Holds m t
Front-Holds i room m t lo hi c f = record {
  starts = f.starts;
  rips = f.rips;
  rsps = f.rsps;
  config_is = c ∙ ap some (sym f.pc_count);
  pc_is = f.pc_is;
  rip_is = f.rip_is;
  rsp_is = f.rsp_is;
  many = rw f.pc_count lo;
  fits = rw f.pc_count hi;
  built_rip = f.built_rip;
  built_rsp = f.built_rsp;
}

-- Two entries of the configuration take the number of rows and the process.
configured :
    (binaries : List (ℕ × List UnwindTableRow)) (pid i : ℕ) (config : List ℕ) (m m' : Maps)
    → length config ≡ 2
    → m'.config ≡ config
    → fill_binaries binaries 0 m ≡ some (i, m')
    → fill binaries pid m ≡ some (record m' { config = i ∷ pid ∷ [] })
unfolding fill
configured binaries pid i [] m m' n c e = absurd (omega arith)
configured binaries pid i (x ∷ []) m m' n c e = absurd (omega arith)
configured binaries pid i (x ∷ y ∷ []) m m' n c e = rw e (rw c refl)
configured binaries pid i (x ∷ y ∷ z ∷ config) m m' n c e = absurd (omega arith)

fill-Front :
    (binaries : List (ℕ × List UnwindTableRow)) (pid room : ℕ) (m : Maps)
    → length m.config ≡ 2
    → length m.pc ≡ row_count binaries + room
    → length m.rip ≡ row_count binaries + room
    → length m.rsp ≡ row_count binaries + room
    → RowsAreBuilt binaries
    → (m' : Maps) × (fill binaries pid m ≡ some m')
      × Front (row_count binaries) room m' (load_map binaries)
      × (m'.config ≡ row_count binaries ∷ pid ∷ [])
unfolding load_map
fill-Front binaries pid room m c p i s built =
    let (m', e, f, same) =
      fill_binaries-Front binaries 0 room m empty_map built
        (empty_Front (row_count binaries + room) m p i s) in
    let start : 0 + row_count binaries ≡ row_count binaries = omega arith in
    (
      record m' { config = row_count binaries ∷ pid ∷ [] },
      configured binaries pid (row_count binaries) m.config m m' c same (rw start at e),
      Front-config (row_count binaries) room m' _ _ (rw start at f),
      refl,
    )

-- Arrays of the declared sizes take the rows of all binaries, if they are at least two, no more
-- than the arrays have room for, and of instructions that the constructors of `Instruction` built;
-- then they hold the table that user space loads from the same binaries, and the process is at
-- index 1.
pub fill-Holds :
    (binaries : List (ℕ × List UnwindTableRow)) (pid : ℕ) (m : Maps)
    → IsSized m
    → RowsAreBuilt binaries
    → 2 ≤ row_count binaries
    → row_count binaries ≤ ehframe_entries
    → (m' : Maps) × (fill binaries pid m ≡ some m')
      × Holds m' (load_map binaries)
      × (get_elem? m'.config 1 ≡ some pid)
fill-Holds binaries pid m sized built lo hi =
    let room = ehframe_entries - row_count binaries in
    let whole : ehframe_entries ≡ row_count binaries + room = omega arith in
    let (m', e, f, c) =
      fill-Front binaries pid room m sized.config_size (sized.pc_size ∙ whole)
        (sized.rip_size ∙ whole) (sized.rsp_size ∙ whole) built in
    (
      m',
      e,
      Front-Holds (row_count binaries) room m' (load_map binaries) lo (omega arith) (rw c refl) f,
      rw c refl,
    )

-- The command and its probe together: once arrays of the declared sizes are filled, the probe
-- writes the stack that user space walks by the table of the same binaries, cut after 48 frames,
-- with zeros behind a shorter stack. The walk has fuel for at least 48 frames and must not panic;
-- there are at least two rows, no more than the arrays have room for, of instructions that the
-- constructors of `Instruction` built.
pub fill-backtrace :
    (mem : Memory) (binaries : List (ℕ × List UnwindTableRow)) (pid fuel ip sp : ℕ) (m : Maps)
    → IsSized m
    → RowsAreBuilt binaries
    → 2 ≤ row_count binaries
    → row_count binaries ≤ ehframe_entries
    → max_stack_depth ≤ fuel
    → (walk_frames mem fuel (record { map = load_map binaries; rip = ip; rsp = sp })).1 ≢ crashed
    → (m' : Maps) × (fill binaries pid m ≡ some m')
      × (backtrace mem m' ip sp
          ≡ pad max_stack_depth (
              ip
              ∷ (walk_frames mem fuel (record { map = load_map binaries; rip = ip; rsp = sp })).0))
fill-backtrace mem binaries pid fuel ip sp m sized built lo hi enough ok =
    let (m', e, holds, c) = fill-Holds binaries pid m sized built lo hi in
    let context : UnwindContext = record { map = load_map binaries; rip = ip; rsp = sp } in
    (m', e, backtrace-walk_frames mem m' fuel context holds enough ok)
