-- ===== src/Utils/Elf.antt =====
-- bpf-utils/src/elf.rs: symbols and build ids. What the object crate reads from a file is data
-- here: the symbols in its order, each with its name if it is UTF-8, and the build id.
pub mod Symbols
pub mod Open
use rust_bpf.Prelude.{
  ℕ, ◌+◌, ◌/◌, ◌%◌, ◌≤◌, ◌<◌, Bool, false, List, [], ◌∷◌, ◌++◌, ◌&&◌, Option, none, some, ltb, leb,
  ◌==◌, if◌then◌else◌, length, Result, ok, err,
}
use rust_bpf.Prelude.Int.{u64_mod}
use rust_bpf.Text.{Text, codes, text_eq}
use rust_bpf.Text.Number.{show_digit}

pub record Symbol : Type 0 where
  pub name : Option Text
  pub address : ℕ
  pub size : ℕ

pub data ElfError : Type 0 where
  offset_out_of_range : Text → ℕ → ElfError
  bad_name : ElfError

-- `sym.name() == Ok(symbol)`.
unfoldable pub is_named : Symbol → Text → Bool
unfolding text_eq
is_named sym symbol = elim sym.name [ none ↦ false | some name ↦ text_eq name symbol ]

-- `Elf::resolve_symbol`: the first symbol of the name decides.
unfoldable pub resolve_symbol : List Symbol → Text → ℕ → Result ElfError (Option ℕ)
unfolding is_named
resolve_symbol [] symbol offset = ok none
resolve_symbol (sym ∷ syms) symbol offset =
    if is_named sym symbol
    then if ltb offset sym.size
      then ok (some ((sym.address + offset) % u64_mod))
      else err (offset_out_of_range symbol offset)
    else resolve_symbol syms symbol offset

-- The test of `resolve_address`; the sum is one of `u64`.
unfoldable pub covers : Symbol → ℕ → Bool
covers sym address = leb sym.address address && ltb address ((sym.address + sym.size) % u64_mod)

-- `sym.name()?`.
unfoldable pub name_of : Symbol → Result ElfError (Option Text)
name_of sym = elim sym.name [ none ↦ err bad_name | some name ↦ ok (some name) ]

-- `Elf::resolve_address`: the first symbol that covers the address gives its name.
unfoldable pub resolve_address : List Symbol → ℕ → Result ElfError (Option Text)
unfolding covers name_of
resolve_address [] address = ok none
resolve_address (sym ∷ syms) address =
    if covers sym address then name_of sym else resolve_address syms address

-- `BuildId::new` copies a slice of exactly 20 bytes; any other length panics.
unfoldable pub build_id : List ℕ → Option (List ℕ)
build_id bytes = if length bytes == 20 then some bytes else none

-- `Display for BuildId`: `{:02x}` of each byte.
unfoldable pub show_build_id : List ℕ → Text
unfolding show_digit
show_build_id [] = []
show_build_id (b ∷ bytes) = show_digit (b / 16) ∷ show_digit (b % 16) ∷ show_build_id bytes
