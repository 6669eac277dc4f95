-- ===== src/Unwind/Table.antt =====
-- ehframe/src/lib.rs: the table of a file, from the rows that gimli reads in the order of the section.
pub mod Shown
use rust_bpf.Prelude.{List, [], ◌∷◌, ◌++◌, All, ◌≡◌, inl, inr, refl}
use mathlib.Core.List.{map}
use rust_bpf.Prelude.Sort.{
  Any, IsSorted, sort_by_key, sort_by_key-IsSorted, sort_by_key-All, sort_by_key-Any,
}
use rust_bpf.Unwind.Instruction.{
  Registers, GimliRow, UnwindTableRow, parse_row, IsBuilt, rip_instruction-IsBuilt,
  rsp_instruction-IsBuilt,
}

-- `UnwindTable::parse`: the rows of all entries are parsed, then sorted by their starts.
unfoldable pub parse_table : Registers → List GimliRow → List UnwindTableRow
unfolding parse_row sort_by_key
parse_table g rows = sort_by_key (λ row. row.start_address) (map (parse_row g) rows)

pub map_parse_row-IsBuilt :
    (g : Registers) (rows : List GimliRow)
    → All (λ row. IsBuilt row.rip × IsBuilt row.rsp) (map (parse_row g) rows)
unfolding parse_row
map_parse_row-IsBuilt g [] = tt
map_parse_row-IsBuilt g (row ∷ rows) = (
  (rip_instruction-IsBuilt row.ra, rsp_instruction-IsBuilt g row.cfa),
  map_parse_row-IsBuilt g rows,
)

map_parse_row-Any :
    (g : Registers) (before after : List GimliRow) (row : GimliRow)
    → Any (λ r. r ≡ parse_row g row) (map (parse_row g) (before ++ row ∷ after))
map_parse_row-Any g [] after row = inl refl
map_parse_row-Any g (b ∷ before) after row = inr (map_parse_row-Any g before after row)

-- The rows of a table ascend by their starts, each comes from the constructors of `Instruction`,
-- and every row that was read is in the table.
pub parse_table-IsSorted :
    (g : Registers) (before after : List GimliRow) (row : GimliRow)
    → IsSorted (λ r. r.start_address) (parse_table g (before ++ row ∷ after))
      × All (λ r. IsBuilt r.rip × IsBuilt r.rsp) (parse_table g (before ++ row ∷ after))
      × Any (λ r. r ≡ parse_row g row) (parse_table g (before ++ row ∷ after))
unfolding parse_table
parse_table-IsSorted g before after row =
    let rows = map (parse_row g) (before ++ row ∷ after) in
    (
      sort_by_key-IsSorted (λ r. r.start_address) rows,
      sort_by_key-All (λ r. r.start_address) (λ r. IsBuilt r.rip × IsBuilt r.rsp) rows
          (map_parse_row-IsBuilt g (before ++ row ∷ after)),
      sort_by_key-Any (λ r. r.start_address) (λ r. r ≡ parse_row g row) rows
          (map_parse_row-Any g before after row),
    )
