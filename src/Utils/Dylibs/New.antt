-- ===== src/Utils/Dylibs/New.antt =====
-- bpf-utils/src/dylibs.rs: `BinaryInfo::new`, and the binaries that it collects.
use rust_bpf.Prelude.{
  none, some, ℕ, ◌+◌, ◌%◌, Bool, List, [], ◌∷◌, Option, Result, ok, err, ◌>>=◌, ok_or, map_err,
  to_option, get_elem?, if◌then◌else◌,
}
use rust_bpf.Prelude.Int.{u64_mod}
use rust_bpf.Text.{Text, codes}
use rust_bpf.Utils.Elf.{ElfError, resolve_symbol}
use rust_bpf.Utils.Elf.Open.{Library, OpenError, Elf, open_path, dwarf}
use rust_bpf.Utils.Maps.{AddressEntry, MapsError, load_map_lines}
use rust_bpf.Utils.Dylibs.{Binary}

-- The file system, and the process under the library ptracer. `maps` holds the lines of the
-- process's address map before and behind the run to the breakpoint; a step is `false` where it
-- fails.
pub record System : Type 0 where
  pub exists : Text → Bool
  pub library : Library
  pub to_str : Text → Option Text
  pub spawn : Option ℕ
  pub maps_before : ℕ → Option (List Text)
  pub maps_behind : (pid breakpoint : ℕ) → Option (List Text)
  pub runs_to : (pid breakpoint : ℕ) → Bool

-- `no_mapping` and `no_start` are panics.
pub data NewError : Type 0 where
  io ptrace no_mapping no_start : NewError
  maps : MapsError → NewError
  opening : OpenError → NewError
  elf : ElfError → NewError

pub record BinaryInfo : Type 0 where
  pub pid : ℕ
  pub map : List Binary

abbrev pub read_note : Option (Option (List ℕ)) → Option (List ℕ)
read_note none = none
read_note (some id) = id

unfoldable pub binary_of : System → AddressEntry → Elf → Binary
unfolding dwarf
binary_of sys entry file = record {
  start_addr = entry.start_addr;
  end_addr = entry.end_addr;
  symbols = file.obj.symbols;
  path = file.path;
  utf8_path = sys.to_str file.path;
  id = read_note file.obj.note;
  dwarf = to_option (dwarf sys.library file);
}

-- The loop over the entries of the address map.
unfoldable pub open_entries : System → List AddressEntry → Result NewError (List Binary)
unfolding open_path binary_of
open_entries sys [] = ok []
open_entries sys (entry ∷ entries) = do
  file ← map_err opening (open_path sys.library entry.path)
  binaries ← open_entries sys entries
  ok (binary_of sys entry file ∷ binaries)

-- Where the program starts: the symbol `_start` of the first mapping.
unfoldable pub breakpoint_of : System → AddressEntry → Result NewError ℕ
unfolding resolve_symbol open_path
breakpoint_of sys entry = do
  file ← map_err opening (open_path sys.library entry.path)
  found ← map_err elf (resolve_symbol file.obj.symbols (codes "_start") 0)
  offset ← ok_or found no_start
  ok ((entry.start_addr + offset) % u64_mod)

abbrev pub late_lines : System → (pid breakpoint : ℕ) → Result NewError (List Text)
late_lines sys pid breakpoint =
    if sys.runs_to pid breakpoint then ok_or (sys.maps_behind pid breakpoint) io else err ptrace

-- `BinaryInfo::new`: the libraries are mapped once the program has run to its start.
unfoldable pub new : System → Result NewError BinaryInfo
unfolding breakpoint_of open_entries load_map_lines
new sys = do
  pid ← ok_or sys.spawn ptrace
  early ← ok_or (sys.maps_before pid) io
  entries ← map_err maps (load_map_lines sys.exists early)
  first ← ok_or (get_elem? entries 0) no_mapping
  breakpoint ← breakpoint_of sys first
  late ← late_lines sys pid breakpoint
  entries' ← map_err maps (load_map_lines sys.exists late)
  map ← open_entries sys entries'
  ok (record { pid = pid; map = map })
