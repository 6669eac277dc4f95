-- ===== src/Utils/Syscall/RoundTrip.antt =====
-- bpf-utils/src/syscall.rs: the table of any dump.
use mathlib.Core.List.{map}
use rust_bpf.Prelude.{
  ℕ, ◌<◌, ◌≡◌, ◌≢◌, refl, ap, ◌∙◌, true, false, List, [], ◌∷◌, ◌++◌, Option, some, All, All-map, ok,
  ◌==◌, arith, if◌then◌else◌,
}
use rust_bpf.Prelude.Int.{u32_mod}
use rust_bpf.Text.{Text}
use rust_bpf.Text.Trim.{is_whitespace}
use rust_bpf.Text.Words.{IsWord, split_whitespace_two}
use rust_bpf.Text.Number.{show_radix}
use rust_bpf.Text.Number.ReadShow.{
  IsShown, show_radix-IsShown, show_radix-ne-nil, from_str_radix-show_radix,
}
use rust_bpf.Utils.Syscall.{Table, table_get, table_insert, table_lines}

-- The table holds the inserted name at its key, and elsewhere what it held.
table_get-table_insert :
    (n m : ℕ) (name : Text) (table : Table)
    → table_get (table_insert n name table) m ≡ (if n == m then some name else table_get table m)
unfolding table_get table_insert
table_get-table_insert n m name [] = refl
table_get-table_insert n m name ((k, old) ∷ table) =
    grind (arith, table_get-table_insert n m name table)

-- A line of the dump.
abbrev pub dump_line : ℕ × Text → Text
dump_line (n, name) = show_radix 10 n ++ b'\t' ∷ name

-- What the rows assign to a key in their order, behind what is there.
abbrev pub assigned : List (ℕ × Text) → ℕ → Option Text → Option Text
assigned [] key old = old
assigned ((n, name) ∷ rows) key old = assigned rows key (if n == key then some name else old)

abbrev pub IsRow : ℕ × Text → Type 0
IsRow (n, name) = (n < u32_mod) × IsWord name × (name ≢ [])

IsShown-white : (c : ℕ) → IsShown c → is_whitespace c ≡ false
unfolding is_whitespace
IsShown-white c h = grind arith

white_tab : is_whitespace b'\t' ≡ true
unfolding is_whitespace
white_tab = refl

-- A dump of rows whose numbers fit 32 bits, and whose names are words and not empty, is read into
-- a table that has the name of the last row at each number, or what it held before.
pub table_lines-assigned :
    (rows : List (ℕ × Text)) (table : Table)
    → All IsRow rows
    → (dumped : Table) × (table_lines (map dump_line rows) table ≡ ok dumped)
      × ((key : ℕ) → table_get dumped key ≡ assigned rows key (table_get table key))
unfolding table_lines
table_lines-assigned [] table h = (table, refl, λ key. refl)
table_lines-assigned ((n, name) ∷ rows) table h =
    let word =
      All-map IsShown (λ c. is_whitespace c ≡ false) IsShown-white (show_radix 10 n)
        (show_radix-IsShown 10 (omega arith) (omega arith) n) in
    let full = show_radix-ne-nil 10 (omega arith) (omega arith) n in
    let words = split_whitespace_two (show_radix 10 n) name b'\t' word full white_tab h.0.1 h.0.2 in
    let read = from_str_radix-show_radix 10 (omega arith) (omega arith) u32_mod n h.0.0 in
    let (dumped, ran, same) = table_lines-assigned rows (table_insert n name table) h.1 in
    (
      dumped,
      rw (words, read) ran,
      λ key. same key ∙ ap (assigned rows key) (table_get-table_insert n key name table),
    )
