-- ===== src/Utils/Dylibs.antt =====
-- bpf-utils/src/dylibs.rs: the binaries of a process, and the symbol of an address in one of them.
pub mod Lookup
pub mod Resolve
pub mod Print
pub mod New
pub mod Collect
pub mod Debug
use rust_bpf.Prelude.{
  ℕ, zero, suc, ◌-◌, List, [], ◌∷◌, Option, none, some, get_elem?, length, ltb, ◌||◌, if◌then◌else◌,
  Result, ok, err,
}
use rust_bpf.Text.{Text}
use rust_bpf.Utils.Elf.{Symbol, ElfError, resolve_address}
use rust_bpf.Utils.Search.{Position, at, before, binary_search}

-- What the library addr2line tells of an offset: an error, no frame, or its function, which may be
-- unknown or have a name that cannot be read, with its place in the sources.
pub data FunctionName : Type 0 where
  no_function bad_function : FunctionName
  function : Text → FunctionName

pub record Location : Type 0 where
  pub file : Option Text
  pub line : Option ℕ
  pub column : Option ℕ

pub data Frame : Type 0 where
  bad_frame no_frame : Frame
  frame : FunctionName → Option Location → Frame

pub record Dwarf : Type 0 where
  pub path : Text
  pub find_frames : ℕ → Frame

-- `utf8_path` is the path if it is UTF-8; `id` is what the file has as its build id, if that can be
-- read.
pub record Binary : Type 0 where
  pub start_addr : ℕ
  pub end_addr : ℕ
  pub symbols : List Symbol
  pub path : Text
  pub utf8_path : Option Text
  pub id : Option (List ℕ)
  pub dwarf : Option Dwarf

-- The start of a binary; the search asks for those of the list only.
abbrev pub start_at : List Binary → ℕ → ℕ
start_at [] i = 0
start_at (b ∷ binaries) zero = b.start_addr
start_at (b ∷ binaries) (suc i) = start_at binaries i

abbrev pub binary_index : Position → ℕ
binary_index (at i) = i
binary_index (before zero) = 0
binary_index (before (suc i)) = i

-- What a lookup ends with: a binary or none, or the panic of an index into an empty list.
pub data Located : Type 0 where
  located : Binary → Located
  outside out_of_bounds : Located

abbrev pub in_range : ℕ → Option Binary → Located
in_range ip none = out_of_bounds
in_range ip (some b) = if ltb ip b.start_addr || ltb b.end_addr ip then outside else located b

unfoldable pub binary : List Binary → ℕ → Located
unfolding binary_search
binary binaries ip =
    in_range ip
      (get_elem? binaries (binary_index (binary_search (start_at binaries) (length binaries) ip)))

pub data ResolveError : Type 0 where
  bad_dwarf no_binaries : ResolveError
  elf : ElfError → ResolveError

abbrev pub elf_symbol : Result ElfError (Option Text) → Result ResolveError (Option Text)
elf_symbol (ok name) = ok name
elf_symbol (err e) = err (elf e)

-- The name that DWARF gives, or else that of the symbol table.
abbrev pub name_in : Binary → ℕ → Option Frame → Result ResolveError (Option Text)
name_in b offset none = elf_symbol (resolve_address b.symbols offset)
name_in b offset (some bad_frame) = err bad_dwarf
name_in b offset (some no_frame) = elf_symbol (resolve_address b.symbols offset)
name_in b offset (some (frame no_function location)) = elf_symbol (resolve_address b.symbols offset)
name_in b offset (some (frame bad_function location)) = err bad_dwarf
name_in b offset (some (frame (function name) location)) = ok (some name)

abbrev pub frame_at : Option Dwarf → ℕ → Option Frame
frame_at none offset = none
frame_at (some dwarf) offset = some (dwarf.find_frames offset)

abbrev pub name_located : ℕ → Located → Result ResolveError (Option Text)
name_located ip (located b) = name_in b (ip - b.start_addr) (frame_at b.dwarf (ip - b.start_addr))
name_located ip outside = ok none
name_located ip out_of_bounds = err no_binaries

-- `resolve_symbol` of the binaries.
unfoldable pub resolve_ip : List Binary → ℕ → Result ResolveError (Option Text)
unfolding binary resolve_address
resolve_ip binaries ip = name_located ip (binary binaries ip)
