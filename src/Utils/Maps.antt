-- ===== src/Utils/Maps.antt =====
-- bpf-utils/src/maps.rs: where the files of a process are mapped. Whether a file exists is a
-- parameter. The hash map is a list by path here; its order is lost in the sort, but for files that start
-- at the same address.
pub mod Covers
use rust_bpf.Prelude.{
  ℕ, min, max, Bool, List, [], ◌∷◌, ◌++◌, Option, none, some, Result, ok, err, ◌>>=◌, ok_or,
  map_err, if◌then◌else◌, get_elem?,
}
use rust_bpf.Prelude.Int.{u64_mod}
use rust_bpf.Prelude.Sort.{sort_by_key}
use rust_bpf.Text.{Text, text_eq, codes}
use rust_bpf.Text.Split.{split}
use rust_bpf.Text.Number.{IntError, from_str_radix, show_radix}

pub record AddressEntry : Type 0 where
  pub path : Text
  pub start_addr : ℕ
  pub end_addr : ℕ

-- `Display` of an entry.
unfoldable pub show_entry : AddressEntry → Text
unfolding show_radix
show_entry e =
    codes "0x"
    ++ (show_radix 16 e.start_addr ++ (codes "-0x" ++ (show_radix 16 e.end_addr ++ b' ' ∷ e.path)))

-- `Display` of the map: one line for each entry.
unfoldable pub show_map : List AddressEntry → Text
unfolding show_entry
show_map [] = []
show_map (e ∷ entries) = show_entry e ++ b'\n' ∷ show_map entries

-- The error of a number, or the panic of an `unwrap`.
pub data MapsError : Type 0 where
  parse_int : IntError → MapsError
  missing : MapsError

-- The last element of what an iterator has left.
abbrev pub last_of : List Text → Option Text
last_of [] = none
last_of (p ∷ []) = some p
last_of (p ∷ q ∷ ps) = last_of (q ∷ ps)

-- The columns behind the first one.
abbrev pub behind_first : List Text → List Text
behind_first [] = []
behind_first (p ∷ ps) = ps

-- The last column of a line.
unfoldable pub line_path : Text → Result MapsError Text
unfolding split
line_path line = ok_or (last_of (behind_first (split b' ' line))) missing

-- The two addresses of the first column, with a dash between them.
unfoldable pub line_range : Text → Result MapsError (ℕ × ℕ)
unfolding split from_str_radix
line_range line = do
  address ← ok_or (get_elem? (split b' ' line) 0) missing
  let iter = split b'-' address
  first ← ok_or (get_elem? iter 0) missing
  start ← map_err parse_int (from_str_radix u64_mod 16 first)
  second ← ok_or (get_elem? iter 1) missing
  end ← map_err parse_int (from_str_radix u64_mod 16 second)
  ok (start, end)

-- The entry of a path grows to hold the range, or is made of it.
unfoldable pub widen : List AddressEntry → Text → ℕ → ℕ → List AddressEntry
unfolding text_eq
widen [] path start end = record { path = path; start_addr = start; end_addr = end } ∷ []
widen (e ∷ entries) path start end =
    let rest = widen entries path start end in
    if text_eq e.path path
    then record e { start_addr = min e.start_addr start; end_addr = max e.end_addr end } ∷ entries
    else e ∷ rest

-- The end of the loop's body, with the range of the line or its error.
abbrev pub add_range :
    List AddressEntry → Text → Result MapsError (ℕ × ℕ) → Result MapsError (List AddressEntry)
add_range entries path r = r >>= λ range. ok (widen entries path range.0 range.1)

module _ (exists : Text → Bool) where
  -- The body of the loop; a line whose file does not exist is skipped.
  unfoldable pub add_line : List AddressEntry → Text → Result MapsError (List AddressEntry)
  unfolding line_path line_range widen
  add_line entries line = do
    path ← line_path line
    if exists path then add_range entries path (line_range line) else ok entries

  unfoldable pub add_lines : List AddressEntry → List Text → Result MapsError (List AddressEntry)
  unfolding add_line
  add_lines entries [] = ok entries
  add_lines entries (line ∷ lines) = do entries' ← add_line entries line; add_lines entries' lines

-- `load` behind the read: the lines of the file.
unfoldable pub load_map_lines : (Text → Bool) → List Text → Result MapsError (List AddressEntry)
unfolding add_lines sort_by_key
load_map_lines exists lines = do
  entries ← add_lines exists [] lines
  ok (sort_by_key (λ e. e.start_addr) entries)
