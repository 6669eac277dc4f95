-- ===== src/Utils/Elf/Symbols.antt =====
-- bpf-utils/src/elf.rs: symbols by name and by address.
use mathlib.Core.Option.{some-injective}
use rust_bpf.Prelude.{
  ℕ, ◌+◌, ◌*◌, ◌≤◌, ◌<◌, ◌≡◌, ◌⊎◌, inl, inr, refl, ap, sym, ◌∙◌, Option-cases, ◌==◌, ==_iff, true,
  false, List, [], ◌∷◌, some, arith, length, All, ok, Bool-cases,
}
use rust_bpf.Prelude.Int.{u64_mod}
use rust_bpf.Text.{Text, text_eq→eq}
use rust_bpf.Utils.Elf.{
  Symbol, is_named, resolve_symbol, covers, name_of, resolve_address, build_id, show_build_id,
}

-- The symbol ends inside the address space.
abbrev pub Fits : Symbol → Type 0
Fits sym = sym.address + sym.size < u64_mod

abbrev pub Apart : Symbol → Symbol → Type 0
Apart sym other =
    (sym.address + sym.size ≤ other.address) ⊎ (other.address + other.size ≤ sym.address)

length-twice : (bytes : List ℕ) → length (show_build_id bytes) ≡ 2 * length bytes
unfolding show_build_id
length-twice [] = refl
length-twice (b ∷ bytes) = omega (arith, length-twice bytes)

-- No other symbol of the table covers an address of the first one.
abbrev pub IsDisjoint : List Symbol → Type 0
IsDisjoint [] = Unit
IsDisjoint (sym ∷ syms) = All (Apart sym) syms × IsDisjoint syms

-- A symbol of that name holds the address.
abbrev pub Holds : Symbol → Text → ℕ → Type 0
Holds sym symbol address =
    (sym.name ≡ some symbol) × (sym.address ≤ address) × (address < sym.address + sym.size)

abbrev pub At : Text → ℕ → List Symbol → Type 0
At symbol address [] = ⊥
At symbol address (sym ∷ syms) = Holds sym symbol address ⊎ At symbol address syms

is_named→eq : (sym : Symbol) (symbol : Text) → is_named sym symbol ≡ true → sym.name ≡ some symbol
unfolding is_named
is_named→eq sym symbol h = elim (Option-cases sym.name) [
  | inl unnamed ↦ absurd (cc (rw unnamed at h))
  | inr (name, e) ↦ e ∙ ap some (text_eq→eq name symbol (rw e at h))
]

resolve_symbol-At :
    (syms : List Symbol) (symbol : Text) (offset address : ℕ)
    → All Fits syms
    → resolve_symbol syms symbol offset ≡ ok (some address)
    → At symbol address syms
unfolding resolve_symbol
resolve_symbol-At [] symbol offset address fits h = cc
resolve_symbol-At (sym ∷ syms) symbol offset address fits h =
    ground (arith, is_named→eq sym symbol, resolve_symbol-At syms symbol offset address fits.1)

-- A symbol that ends before, or begins behind, one that holds the address does not cover it.
not-covers :
    (sym : Symbol) (symbol : Text) (address : ℕ) (syms : List Symbol)
    → Fits sym
    → All (Apart sym) syms
    → At symbol address syms
    → covers sym address ≡ false
unfolding covers
not-covers sym symbol address [] fits apart at = absurd at
not-covers sym symbol address (other ∷ syms) fits apart at =
    ground (arith, not-covers sym symbol address syms fits apart.1)

resolve_address-At :
    (syms : List Symbol) (symbol : Text) (address : ℕ)
    → All Fits syms
    → IsDisjoint syms
    → At symbol address syms
    → resolve_address syms address ≡ ok (some symbol)
unfolding resolve_address covers name_of
resolve_address-At [] symbol address fits apart at = absurd at
resolve_address-At (sym ∷ syms) symbol address fits apart (inl (named, lo, hi)) = ground arith
resolve_address-At (sym ∷ syms) symbol address fits apart (inr at) =
    rw (not-covers sym symbol address syms fits.0 apart.0 at)
      (resolve_address-At syms symbol address fits.1 apart.1 at)

-- In a table of disjoint symbols inside the address space, the address that a name and an offset
-- resolve to resolves back to that name.
pub resolve_address-resolve_symbol :
    (syms : List Symbol) (symbol : Text) (offset address : ℕ)
    → All Fits syms
    → IsDisjoint syms
    → resolve_symbol syms symbol offset ≡ ok (some address)
    → resolve_address syms address ≡ ok (some symbol)
resolve_address-resolve_symbol syms symbol offset address fits apart h =
    resolve_address-At syms symbol address fits apart
      (resolve_symbol-At syms symbol offset address fits h)

-- An address that a name is found for lies in a symbol of that name, if the symbols fit the
-- address space.
pub resolve_address_sound :
    (syms : List Symbol) (address : ℕ) (symbol : Text)
    → All Fits syms
    → resolve_address syms address ≡ ok (some symbol)
    → At symbol address syms
unfolding resolve_address covers name_of
resolve_address_sound [] address symbol fits h = cc
resolve_address_sound (sym ∷ syms) address symbol fits h =
    ground (arith, resolve_address_sound syms address symbol fits.1)

-- A build id that is made of bytes is those bytes, and is printed as forty hexadecimal digits.
pub length-show_build_id :
    (bytes id : List ℕ) → build_id bytes ≡ some id → (id ≡ bytes) × (length (show_build_id id) ≡ 40)
unfolding build_id
length-show_build_id bytes id h = elim (Bool-cases (length bytes == 20)) [
  | inl twenty ↦
      let same = some-injective bytes id (rw twenty at h) in
      (sym same, rw (← same) (length-twice bytes ∙ ap (λ n. 2 * n) ((==_iff _ _).0 twenty)))
  | inr other ↦ absurd (cc (rw other at h))
]
