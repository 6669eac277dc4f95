-- ===== src/Trace/Main.antt =====
-- cargo-trace/src/main.rs: `main` behind the build of the traced program, up to the end of the flame
-- graph.
pub mod Shown
use rust_bpf.Prelude.{
  ℕ, Bool, List, [], ◌∷◌, Option, none, some, get_elem?, Result, ok, err, ◌>>=◌, ok_or, map_err,
  if◌then◌else◌,
}
use rust_bpf.Text.{Text}
use rust_bpf.Probes.Attach.Attr.{Bindings}
use rust_bpf.Probes.Attach.Kernel.{Kernel, AttachError, Outcome, done, fail, panic}
use rust_bpf.Utils.Syscall.{Limits}
use rust_bpf.Bpf.{Object}
use rust_bpf.Bpf.Load.{load}
use rust_bpf.Utils.Dylibs.{Binary, ResolveError, resolve_ip}
use rust_bpf.Utils.Dylibs.New.{System, NewError, BinaryInfo, new}
use rust_bpf.Unwind.Instruction.{Registers, GimliRow, UnwindTableRow}
use rust_bpf.Unwind.Table.{parse_table}
use rust_bpf.Unwind.Probe.{Maps}
use rust_bpf.Trace.Fill.{fill}
use rust_bpf.Trace.Session.{MainError, build, parse_command, build_probe}
use rust_bpf.Trace.Graph.{Disk, Files, FromLines, GraphError, write_flamegraph}

-- What `main` runs on: the traced process, the rows that gimli reads of the file at a path, the
-- kernel, the limits of resources, the object with its arrays as they are at first, what the map of stacks yields once the
-- program has run with the arrays, whether the process can be continued, and the files.
pub record World : Type 0 where
  pub sys : System
  pub registers : Registers
  pub gimli : Text → Option (List GimliRow)
  pub kernel : Kernel
  pub bindings : Bindings
  pub limits : Limits
  pub obj : Object
  pub arrays : Maps
  pub user_stack : Maps → List (List ℕ × ℕ)
  pub continues : Bool
  pub files : Files
  pub from_lines : FromLines

-- `no_binary` and `crash` are panics.
pub data RunError : Type 0 where
  no_binary crash no_table no_room not_continued : RunError
  starting : NewError → RunError
  preparing : MainError → RunError
  loading : AttachError → RunError
  graph : GraphError ResolveError → RunError

abbrev pub loaded : {A : Type 0} → Outcome A → Result RunError A
loaded (done a) = ok a
loaded (fail e) = err (loading e)
loaded panic = err crash

abbrev pub graphed : Disk × Result (GraphError ResolveError) Unit → Disk × Result RunError Unit
graphed (d, r) = (d, map_err graph r)

module _ (w : World) where
  -- The tables of the binaries, in their order.
  unfoldable pub tables : List Binary → Result RunError (List (ℕ × List UnwindTableRow))
  unfolding parse_table
  tables [] = ok []
  tables (b ∷ binaries) = do
    rows ← ok_or (w.gimli b.path) no_table
    rest ← tables binaries
    ok ((b.start_addr, parse_table w.registers rows) ∷ rest)

  -- Up to the arrays; the probe is armed before they are written.
  unfoldable pub start_session : (cmd : Text) → Result RunError (BinaryInfo × Maps)
  unfolding new parse_command build_probe load tables fill
  start_session cmd = do
    info ← map_err starting (new w.sys)
    (probe, entry) ← map_err preparing (parse_command cmd)
    first ← ok_or (get_elem? info.map 0) no_binary
    builder ←
        map_err (λ e. preparing (build e))
          (build_probe w.limits w.obj probe entry first.path info.pid)
    fds ← loaded (load w.kernel w.bindings w.obj builder []).0
    binaries ← tables info.map
    arrays ← ok_or (fill binaries info.pid w.arrays) no_room
    ok (info, arrays)

  unfoldable pub end_session : (cmd : Text) → BinaryInfo → Maps → Disk → Disk × Result RunError Unit
  unfolding write_flamegraph resolve_ip
  end_session cmd info arrays d =
      if w.continues
      then graphed
          (write_flamegraph w.files (resolve_ip info.map) w.from_lines (w.user_stack arrays) cmd d)
      else (d, err not_continued)

  unfoldable pub main : (cmd : Text) → Disk → Disk × Result RunError Unit
  unfolding start_session end_session
  main cmd d = elim (start_session cmd) [
    | err e ↦ (d, err e)
    | ok (info, arrays) ↦ end_session cmd info arrays d
  ]
