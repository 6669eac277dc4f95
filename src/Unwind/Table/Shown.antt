-- ===== src/Unwind/Table/Shown.antt =====
-- ehframe/src/lib.rs: rows and tables as they are printed.
use mathlib.Core.List.{map}
use rust_bpf.Prelude.{ℕ, ◌≡◌, refl, List, [], ◌∷◌, ◌++◌, Option, none, some, All}
use rust_bpf.Text.{Text, codes}
use rust_bpf.Text.Number.{show_radix}
use rust_bpf.Text.Pad.{pad_left, pad_right}
use rust_bpf.Prelude.Sort.{sort_by_key-All}
use rust_bpf.Unwind.Instruction.{
  Registers, GimliRow, UnwindTableRow, IsBuilt, show_instruction, parse_row, show_instruction_built,
}
use rust_bpf.Unwind.Table.{parse_table, map_parse_row-IsBuilt}

abbrev pub hex_six : ℕ → Text
hex_six n = codes "0x" ++ pad_left b'0' 6 (show_radix 16 n)

abbrev pub row_line : UnwindTableRow → Text → Text → Text
row_line row rip rsp =
    hex_six row.start_address
    ++ b'-' ∷ hex_six row.end_address
    ++ b' ' ∷ pad_right 8 rip
    ++ b' ' ∷ pad_right 8 rsp

-- The texts of the two instructions behind the addresses; `none` is a panic of `Display for
-- Instruction`.
abbrev pub row_text : UnwindTableRow → Option Text → Option Text → Option Text
row_text row none rsp = none
row_text row (some rip) none = none
row_text row (some rip) (some rsp) = some (row_line row rip rsp)

unfoldable pub show_row : UnwindTableRow → Option Text
unfolding show_instruction show_radix
show_row row = row_text row (show_instruction row.rip) (show_instruction row.rsp)

abbrev pub line_before : Option Text → Option Text → Option Text
line_before none rest = none
line_before (some line) none = none
line_before (some line) (some rest) = some (line ++ b'\n' ∷ rest)

unfoldable pub show_rows : List UnwindTableRow → Option Text
unfolding show_row
show_rows [] = some []
show_rows (row ∷ rows) = line_before (show_row row) (show_rows rows)

abbrev pub heading : Text
heading =
    pad_right 18 (codes "ip")
    ++ b' ' ∷ pad_right 8 (codes "rip")
    ++ b' ' ∷ pad_right 8 (codes "rsp")

unfoldable pub show_table : List UnwindTableRow → Option Text
unfolding show_rows
show_table rows = line_before (some heading) (show_rows rows)

show_row_total :
    (row : UnwindTableRow)
    → IsBuilt row.rip × IsBuilt row.rsp
    → (t : Text) × (show_row row ≡ some t)
unfolding show_row
show_row_total row built =
    let (rip, e) = show_instruction_built row.rip built.0 in
    let (rsp, f) = show_instruction_built row.rsp built.1 in (row_line row rip rsp, rw (e, f) refl)

show_rows_total :
    (rows : List UnwindTableRow)
    → All (λ row. IsBuilt row.rip × IsBuilt row.rsp) rows
    → (t : Text) × (show_rows rows ≡ some t)
unfolding show_rows
show_rows_total [] built = ([], refl)
show_rows_total (row ∷ rows) built =
    let (line, e) = show_row_total row built.0 in
    let (rest, f) = show_rows_total rows built.1 in (line ++ b'\n' ∷ rest, rw (e, f) refl)

-- A table of any rows of a file can be printed: no `unwrap` of `Display` panics.
pub show_table-parse_table :
    (g : Registers) (rows : List GimliRow) → (t : Text) × (show_table (parse_table g rows) ≡ some t)
unfolding show_table parse_table
show_table-parse_table g rows =
    let built =
      sort_by_key-All (λ r. r.start_address) (λ r. IsBuilt r.rip × IsBuilt r.rsp)
        (map (parse_row g) rows) (map_parse_row-IsBuilt g rows) in
    let (t, e) = show_rows_total (parse_table g rows) built in (heading ++ b'\n' ∷ t, rw e refl)
