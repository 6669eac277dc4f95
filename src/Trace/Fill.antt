-- ===== src/Trace/Fill.antt =====
-- cargo-trace/src/main.rs: the rows of all binaries are written into the arrays of the probe,
-- which the loaded object has.
pub mod Rows
pub mod Backtrace
use rust_bpf.Prelude.{ℕ, zero, suc, ◌+◌, ◌%◌, List, [], ◌∷◌, Option, none, some}
use rust_bpf.Prelude.Int.{u64_mod}
use rust_bpf.Unwind.Instruction.{UnwindTableRow}
use rust_bpf.Unwind.Execute.{Encoded, encode}
use rust_bpf.Unwind.Probe.{Maps}

infixl 5 ◌>>=◌
abbrev pub ◌>>=◌ {ℓ κ} : {A : Type ℓ} {B : Type κ} → Option A → (A → Option B) → Option B
none >>= next = none
some a >>= next = next a

-- `insert` of an array map, which refuses an index behind its end.
abbrev pub insert {ℓ} : {A : Type ℓ} → List A → ℕ → A → Option (List A)
insert [] i v = none
insert (x ∷ xs) zero v = some (v ∷ xs)
insert (x ∷ xs) (suc i) v = insert xs i v >>= λ ys. some (x ∷ ys)

-- The body of the loop over the rows of a binary.
unfoldable pub fill_row : (start : ℕ) → UnwindTableRow → (i : ℕ) → Maps → Option Maps
unfolding encode
fill_row start row i m = do
  pcs ← insert m.pc i ((start + row.start_address) % u64_mod)
  rips ← insert m.rip i (encode row.rip)
  rsps ← insert m.rsp i (encode row.rsp)
  some (record m { pc = pcs; rip = rips; rsp = rsps })

unfoldable pub fill_rows : (start : ℕ) → List UnwindTableRow → ℕ → Maps → Option (ℕ × Maps)
unfolding fill_row
fill_rows start [] i m = some (i, m)
fill_rows start (row ∷ rows) i m = do m' ← fill_row start row i m; fill_rows start rows (i + 1) m'

-- The loop over the binaries, each with its start address and its table.
unfoldable pub fill_binaries : List (ℕ × List UnwindTableRow) → ℕ → Maps → Option (ℕ × Maps)
unfolding fill_rows
fill_binaries [] i m = some (i, m)
fill_binaries ((start, rows) ∷ binaries) i m = do
  (j, m') ← fill_rows start rows i m
  fill_binaries binaries j m'

-- The loop and the two entries of the configuration: how many rows there are, and the process.
unfoldable pub fill : List (ℕ × List UnwindTableRow) → (pid : ℕ) → Maps → Option Maps
unfolding fill_binaries
fill binaries pid m = do
  (i, m') ← fill_binaries binaries 0 m
  counted ← insert m'.config 0 i
  config ← insert counted 1 pid
  some (record m' { config = config })
