-- ===== src/Utils/Syscall.antt =====
-- bpf-utils/src/syscall.rs and rlimit.rs: the table of system calls, and the limit of locked memory.
pub mod RoundTrip
use Prim.Native.Nat.{compare, Ordering}
use rust_bpf.Prelude.{
  ℕ, ◌-◌, Bool, List, [], ◌∷◌, Option, none, some, Result, ok, err, ◌>>=◌, ok_or, map_err,
  get_elem?, if◌then◌else◌, not, ◌==◌, ltb,
}
use rust_bpf.Prelude.Int.{u32_mod, u64_mod}
use rust_bpf.Text.{Text}
use rust_bpf.Text.Words.{split_whitespace}
use rust_bpf.Text.Number.{IntError, from_str_radix}

-- `BTreeMap` from numbers to names: its entries by ascending key.
abbrev pub Table : Type 0
Table = List (ℕ × Text)

unfoldable pub table_get : Table → ℕ → Option Text
table_get [] n = none
table_get ((m, name) ∷ table) n = if m == n then some name else table_get table n

-- An insertion replaces what is at the key.
unfoldable pub table_insert : ℕ → Text → Table → Table
table_insert n name [] = (n, name) ∷ []
table_insert n name ((m, old) ∷ table) =
    let rest = table_insert n name table in
    if n == m
    then (n, name) ∷ table
    else if ltb n m
    then (n, name) ∷ (m, old) ∷ table
    else (m, old) ∷ rest

pub data TableError : Type 0 where
  io utf8 no_number no_name : TableError
  parse_int : IntError → TableError
  bail : Text → TableError

-- What the command `ausyscall --dump` leaves: `none` where the bytes are no UTF-8. The output is
-- split into its lines.
pub record Output : Type 0 where
  pub success : Bool
  pub lines : Option (List Text)
  pub stderr : Option Text

-- The loop over the lines behind the first.
unfoldable pub table_lines : List Text → Table → Result TableError Table
unfolding split_whitespace from_str_radix table_insert
table_lines [] table = ok table
table_lines (line ∷ lines) table = do
  let iter = split_whitespace line
  num ← ok_or (get_elem? iter 0) no_number
  syscall ← ok_or (get_elem? iter 1) no_name
  n ← map_err parse_int (from_str_radix u32_mod 10 num)
  table_lines lines (table_insert n syscall table)

-- `skip(1)`.
abbrev pub skip_one : List Text → List Text
skip_one [] = []
skip_one (line ∷ lines) = lines

abbrev pub bail_with : Result TableError Text → Result TableError Table
bail_with (err e) = err e
bail_with (ok message) = err (bail message)

unfoldable pub syscall_table : Option Output → Result TableError Table
unfolding table_lines
syscall_table found = do
  output ← ok_or found io
  let failure = bail_with (ok_or output.stderr utf8)
  let success = ok_or output.lines utf8 >>= λ lines. table_lines (skip_one lines) []
  if output.success then success else failure

-- `increase_memlock_rlimit`: what the two calls return, and the limits that are asked for, the soft
-- one and the hard one; `none` is the error of the operating system.
pub record Limits : Type 0 where
  pub getrlimit : ℕ
  pub setrlimit : (rlim_cur rlim_max : ℕ) → ℕ

abbrev pub rlim_infinity : ℕ
rlim_infinity = u64_mod - 1

unfoldable pub increase_memlock_rlimit : Limits → Option (Unit {0})
increase_memlock_rlimit l =
    if not (l.getrlimit == 0)
    then none
    else if not (l.setrlimit rlim_infinity rlim_infinity == 0)
    then none
    else some tt
