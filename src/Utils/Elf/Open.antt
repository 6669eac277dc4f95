-- ===== src/Utils/Elf/Open.antt =====
-- bpf-utils/src/elf.rs: opening a file, its build id, and its debug information.
use rust_bpf.Prelude.{ℕ, Bool, List, Option, Result, ok, ◌>>=◌, ok_or, if◌then◌else◌}
use rust_bpf.Text.{Text}
use rust_bpf.Utils.Elf.{Symbol, build_id}
use rust_bpf.Utils.Dylibs.{Dwarf, Frame}

-- What the object crate parses of a file: the symbols, the build id, which can be an error or not be
-- there, and whether there are debug symbols.
pub record Image : Type 0 where
  pub symbols : List Symbol
  pub note : Option (Option (List ℕ))
  pub has_debug_symbols : Bool

-- The libraries over the file system: the image of a file that can be opened, mapped and parsed,
-- the file that locate_dwarf finds with the debug symbols of an image or of a build id, and what
-- addr2line makes of an image.
pub record Library : Type 0 where
  pub parse : Text → Option Image
  pub locate_debug_symbols : Image → Text → Option Text
  pub locate_debug_build_id : List ℕ → Option Text
  pub context : Image → Option (ℕ → Frame)

-- Where opening stops; the last two are the panics of reading a build id that is not there or is
-- not of twenty bytes.
pub data OpenError : Type 0 where
  no_file not_located no_context bad_note no_build_id bad_length : OpenError

pub record Elf : Type 0 where
  pub obj : Image
  pub path : Text

module _ (lib : Library) where
  -- `Elf::open`.
  unfoldable pub open_path : Text → Result OpenError Elf
  open_path path = do obj ← ok_or (lib.parse path) no_file; ok (record { obj = obj; path = path })

  -- `Dwarf::new`.
  unfoldable pub dwarf_new : Elf → Result OpenError Dwarf
  dwarf_new elf = do
    frames ← ok_or (lib.context elf.obj) no_context
    ok (record { path = elf.path; find_frames = frames })

  -- `Dwarf::open`.
  unfoldable pub dwarf_open : Text → Result OpenError Dwarf
  unfolding open_path dwarf_new
  dwarf_open path = do elf ← open_path path; dwarf_new elf

  -- `Dwarf::open_build_id`.
  unfoldable pub open_build_id : List ℕ → Result OpenError Dwarf
  unfolding dwarf_open
  open_build_id id = do path ← ok_or (lib.locate_debug_build_id id) not_located; dwarf_open path

  unfoldable pub located_dwarf : Elf → Result OpenError Dwarf
  unfolding dwarf_open
  located_dwarf elf = do
    path ← ok_or (lib.locate_debug_symbols elf.obj elf.path) not_located
    dwarf_open path

  -- `Elf::dwarf`: the debug symbols of the file itself, or those of another file.
  unfoldable pub dwarf : Elf → Result OpenError Dwarf
  unfolding dwarf_new located_dwarf
  dwarf elf = if elf.obj.has_debug_symbols then dwarf_new elf else located_dwarf elf

-- `Elf::build_id`.
unfoldable pub elf_build_id : Elf → Result OpenError (List ℕ)
unfolding build_id
elf_build_id elf = do
  note ← ok_or elf.obj.note bad_note
  bytes ← ok_or note no_build_id
  ok_or (build_id bytes) bad_length
