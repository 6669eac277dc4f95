-- ===== src/Utils/Dylibs/Print.antt =====
-- bpf-utils/src/dylibs.rs: source locations, and the texts of frames and of the binaries.
use rust_bpf.Prelude.{ℕ, ◌-◌, List, [], ◌∷◌, ◌++◌, Option, none, some, Result, ok, err, ◌>>=◌}
use rust_bpf.Text.{Text, codes}
use rust_bpf.Text.Number.{show_radix}
use rust_bpf.Text.Pad.{pad_left}
use rust_bpf.Utils.Elf.{build_id, show_build_id}
use rust_bpf.Utils.Dylibs.{
  Binary, Dwarf, Location, Frame, bad_frame, no_frame, frame, frame_at, Located, located, outside,
  out_of_bounds, binary, ResolveError, bad_dwarf, no_binaries, resolve_ip,
}

-- The file itself, where DWARF has no place.
abbrev pub file_of : Binary → Location
file_of b = record { file = b.utf8_path; line = none; column = none }

abbrev pub place_in : Binary → Option Frame → Result ResolveError (Option Location)
place_in b none = ok (some (file_of b))
place_in b (some bad_frame) = err bad_dwarf
place_in b (some no_frame) = ok (some (file_of b))
place_in b (some (frame name none)) = ok (some (file_of b))
place_in b (some (frame name (some location))) = ok (some location)

abbrev pub place_located : ℕ → Located → Result ResolveError (Option Location)
place_located ip (located b) = place_in b (frame_at b.dwarf (ip - b.start_addr))
place_located ip outside = ok none
place_located ip out_of_bounds = err no_binaries

unfoldable pub resolve_location : List Binary → ℕ → Result ResolveError (Option Location)
unfolding binary
resolve_location binaries ip = place_located ip (binary binaries ip)

abbrev pub symbol_or_hex : ℕ → Option Text → Text
symbol_or_hex ip none = codes "0x" ++ show_radix 16 ip
symbol_or_hex ip (some symbol) = symbol

abbrev pub after_colon : Option ℕ → Text
after_colon none = []
after_colon (some n) = b':' ∷ show_radix 10 n

abbrev pub at_file : Option Text → Text
at_file none = []
at_file (some file) = codes "             at " ++ file

abbrev pub location_text : Option Location → Text
location_text none = []
location_text (some location) =
    at_file location.file ++ after_colon location.line ++ after_colon location.column ++ b'\n' ∷ []

-- What `print_frame` prints.
unfoldable pub print_frame : List Binary → (i ip : ℕ) → Result ResolveError Text
unfolding resolve_ip resolve_location show_radix
print_frame binaries i ip = do
  symbol ← resolve_ip binaries ip
  location ← resolve_location binaries ip
  ok (
      pad_left b' ' 4 (show_radix 10 i)
      ++ codes ": "
      ++ symbol_or_hex ip symbol
      ++ b'\n' ∷ location_text location)

abbrev pub dwarf_text : Option Dwarf → Text
dwarf_text none = b'\n' ∷ []
dwarf_text (some dwarf) = b' ' ∷ dwarf.path ++ b'\n' ∷ []

-- The build id of a file; `none` is a panic where there is none, or one of another length.
abbrev pub id_text : Option (List ℕ) → Option Text
id_text none = none
id_text (some bytes) = elim (build_id bytes) [ none ↦ none | some id ↦ some (show_build_id id) ]

abbrev pub binary_text : Binary → Text → Text
binary_text b id =
    codes "0x"
    ++ show_radix 16 b.start_addr
    ++ codes "-0x"
    ++ show_radix 16 b.end_addr
    ++ b' ' ∷ id
    ++ b' ' ∷ b.path
    ++ dwarf_text b.dwarf

abbrev pub text_before : Binary → Option Text → Option Text → Option Text
text_before b none rest = none
text_before b (some id) none = none
text_before b (some id) (some rest) = some (binary_text b id ++ rest)

-- `Display for BinaryInfo`.
unfoldable pub show_binaries : List Binary → Option Text
unfolding build_id show_build_id show_radix
show_binaries [] = some []
show_binaries (b ∷ binaries) = text_before b (id_text b.id) (show_binaries binaries)
