-- ===== src/Trace/Collapse.antt =====
-- cargo-trace/src/main.rs: the collapsed form of the stacks that the probe counted.
pub mod Lines
use rust_bpf.Prelude.{
  ℕ, zero, suc, List, [], ◌∷◌, ◌++◌, Option, none, some, ◌==◌, Result, ok, err, if◌then◌else◌,
  ◌>>=◌,
}
use mathlib.Core.List.{reverse}
use rust_bpf.Text.{Text}
use rust_bpf.Text.Join.{join}
use rust_bpf.Text.Number.{show_radix}

-- `info.resolve_symbol`, whatever it rests on.
abbrev pub Resolver : Type 0 → Type 0
Resolver E = ℕ → Result E (Option Text)

-- One address of a stack in front of the symbols of the rest: an address without a name ends the
-- loop.
abbrev pub push_symbol :
    {E : Type 0} → Result E (Option Text) → Result E (List Text) → Result E (List Text)
push_symbol (err e) rest = err e
push_symbol (ok none) rest = ok []
push_symbol (ok (some symbol)) (ok symbols) = ok (symbol ∷ symbols)
push_symbol (ok (some symbol)) (err e) = err e

-- The loop over the addresses of a stack; a zero ends it.
unfoldable pub stack_symbols : {E : Type 0} → Resolver E → List ℕ → Result E (List Text)
stack_symbols resolve [] = ok []
stack_symbols resolve (ip ∷ ips) =
    let rest = stack_symbols resolve ips in if ip == 0 then ok [] else push_symbol (resolve ip) rest

-- The outermost frame comes first; the count stands behind a space.
unfoldable pub collapsed_line : List Text → (count : ℕ) → Text
unfolding join show_radix
collapsed_line symbols count = join b';' (reverse symbols) ++ b' ' ∷ show_radix 10 count

-- The lines of the file, one for each stack.
unfoldable pub collapse : {E : Type 0} → Resolver E → List (List ℕ × ℕ) → Result E (List Text)
unfolding stack_symbols collapsed_line
collapse resolve [] = ok []
collapse resolve ((stack, count) ∷ stacks) = do
  symbols ← stack_symbols resolve stack
  lines ← collapse resolve stacks
  ok (collapsed_line symbols count ∷ lines)
