-- ===== src/Utils/Kallsyms.antt =====
-- bpf-utils/src/kallsyms.rs: the kernel's symbols.
pub mod Lookup
use rust_bpf.Prelude.{
  ℕ, zero, suc, ◌-◌, ◌+◌, List, [], ◌∷◌, ◌++◌, Option, none, some, get_elem?, length, Result, ok,
  err,
}
use rust_bpf.Prelude.Int.{u64_mod}
use rust_bpf.Text.{Text}
use rust_bpf.Text.Split.{split}
use rust_bpf.Text.Trim.{trim}
use rust_bpf.Text.Number.{IntError, from_str_radix}
use rust_bpf.Utils.Search.{Position, at, before}

pub record KernelSymbol : Type 0 where
  pub symbol : Text
  pub address : ℕ

-- What reading a line can end with besides a symbol: the error of the number, or the panic of an
-- `unwrap`.
pub data LineError : Type 0 where
  parse_int : IntError → LineError
  no_symbol : LineError

abbrev pub line_symbol : Result IntError ℕ → Option Text → Result LineError KernelSymbol
line_symbol (err e) symbol = err (parse_int e)
line_symbol (ok address) none = err no_symbol
line_symbol (ok address) (some symbol) = ok (record { symbol = trim symbol; address = address })

-- The text in front of the first space, which is always there.
abbrev pub first_or_empty : Option Text → Text
first_or_empty none = []
first_or_empty (some s) = s

-- One line of the file: the address, a type that is skipped, and the name.
unfoldable pub parse_line : Text → Result LineError KernelSymbol
unfolding split from_str_radix
parse_line line =
    let iter = split b' ' line in
    line_symbol (from_str_radix u64_mod 16 (first_or_empty (get_elem? iter 0))) (get_elem? iter 2)

abbrev pub cons_symbol :
    Result LineError KernelSymbol
    → Result LineError (List KernelSymbol)
    → Result LineError (List KernelSymbol)
cons_symbol (err e) rest = err e
cons_symbol (ok s) (err e) = err e
cons_symbol (ok s) (ok rest) = ok (s ∷ rest)

-- `load` behind the read: the lines of the file.
unfoldable pub load_lines : List Text → Result LineError (List KernelSymbol)
unfolding parse_line
load_lines [] = ok []
load_lines (line ∷ lines) = cons_symbol (parse_line line) (load_lines lines)

-- The address of a symbol; the search asks for those of the table only.
abbrev pub address_at : List KernelSymbol → ℕ → ℕ
address_at [] i = 0
address_at (s ∷ symbols) zero = s.address
address_at (s ∷ symbols) (suc i) = address_at symbols i

-- The index behind the search: in front of all symbols the subtraction wraps.
abbrev pub index_of : Position → ℕ
index_of (at i) = i
index_of (before zero) = u64_mod - 1
index_of (before (suc i)) = i

abbrev pub with_offset : ℕ → Option KernelSymbol → Option (Text × ℕ)
with_offset address none = none
with_offset address (some s) = some (s.symbol, address - s.address)

-- `symbol`: the name and the offset in it; an index out of bounds panics. The search may be any that
-- does what is documented of `binary_search_by_key`.
unfoldable pub symbol_at :
    (search : (ℕ → ℕ) → ℕ → ℕ → Position) → List KernelSymbol → (address : ℕ) → Option (Text × ℕ)
symbol_at search symbols address =
    with_offset address
      (get_elem? symbols (index_of (search (address_at symbols) (length symbols) address)))
