-- ===== src/Tests/Utils.antt =====
-- Symbol tables and build ids.
use rust_bpf.Prelude.{ℕ, ◌≡◌, refl, inl, some, ok, List, [], ◌∷◌, replicate, arith}
use rust_bpf.Text.{codes}
use rust_bpf.Utils.Elf.{Symbol, resolve_symbol, resolve_address, build_id}
use rust_bpf.Utils.Elf.Symbols.{resolve_address-resolve_symbol}

abbrev symbols : List Symbol
symbols =
    record { name = some (codes "main"); address = 0x1000; size = 32 }
    ∷ record { name = some (codes "f"); address = 0x1020; size = 16 }
    ∷ []

resolves : resolve_symbol symbols (codes "f") 4 ≡ ok (some 0x1024)
unfolding resolve_symbol
resolves = refl

resolves_back : resolve_address symbols 0x1024 ≡ ok (some (codes "f"))
unfolding resolve_address
resolves_back = refl

resolve_address-resolve_symbol_example : resolve_address symbols 0x1024 ≡ ok (some (codes "f"))
resolve_address-resolve_symbol_example =
    resolve_address-resolve_symbol symbols (codes "f") 4 0x1024 (omega arith, (omega arith, tt))
      ((inl (omega arith), tt), (tt, tt)) resolves

abbrev bytes : List ℕ
bytes = replicate 20 171

is_kept : build_id bytes ≡ some bytes
unfolding build_id
is_kept = refl
