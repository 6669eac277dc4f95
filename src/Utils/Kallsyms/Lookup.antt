-- ===== src/Utils/Kallsyms/Lookup.antt =====
-- bpf-utils/src/kallsyms.rs: which symbol an address of the kernel is given.
use rust_bpf.Prelude.{
  ℕ, zero, suc, ◌-◌, ◌+◌, ◌≤◌, ◌<◌, ◌≡◌, refl, List, [], ◌∷◌, Option, none, some, get_elem?,
  get_elem?-lt, length, arith, Bool-cases, ltb, ltb→lt, ltb-false→le, inl, inr,
}
use rust_bpf.Prelude.Int.{u64_mod}
use rust_bpf.Text.{Text}
use rust_bpf.Utils.Search.{Position, at, before}
use rust_bpf.Utils.Search.Floor.{Ascends}
use rust_bpf.Utils.Search.Documented.{Finds, Searches}
use rust_bpf.Utils.Kallsyms.{KernelSymbol, address_at, index_of, with_offset, symbol_at}

address_at-get_elem? :
    (symbols : List KernelSymbol) (i : ℕ) {s : KernelSymbol}
    → get_elem? symbols i ≡ some s
    → address_at symbols i ≡ s.address
address_at-get_elem? [] i h = cc
address_at-get_elem? (s ∷ symbols) zero h = cc
address_at-get_elem? (s ∷ symbols) (suc i) h = address_at-get_elem? symbols i h

get_elem?-ge : {A : Type 0} (xs : List A) (i : ℕ) → length xs ≤ i → get_elem? xs i ≡ none
get_elem?-ge [] i h = refl
get_elem?-ge (x ∷ xs) zero h = absurd (omega arith)
get_elem?-ge (x ∷ xs) (suc i) h = get_elem?-ge xs i (omega arith)

get_elem?-some_lt :
    {A : Type 0} (xs : List A) (i : ℕ) {x : A} → get_elem? xs i ≡ some x → i < length xs
get_elem?-some_lt [] i h = cc
get_elem?-some_lt (x ∷ xs) zero h = omega arith
get_elem?-some_lt (x ∷ xs) (suc i) h = let lt = get_elem?-some_lt xs i h in omega (arith, lt)

-- What the lookup of an address yields: a symbol at or below it, with its offset, and no symbol that
-- starts at or below the address starts behind this one; or a panic, and all symbols start above.
abbrev pub Looks : List KernelSymbol → ℕ → Option (Text × ℕ) → Type 0
Looks symbols address none =
    (j : ℕ) (t : KernelSymbol) → get_elem? symbols j ≡ some t → address < t.address
Looks symbols address (some (name, offset)) =
    (i : ℕ) × (s : KernelSymbol) × (get_elem? symbols i ≡ some s)
    × (s.symbol ≡ name)
    × (s.address + offset ≡ address)
    × ((j : ℕ) (t : KernelSymbol)
        → get_elem? symbols j ≡ some t
        → t.address ≤ address
        → t.address ≤ s.address)

found :
    (symbols : List KernelSymbol) (address i : ℕ)
    → i < length symbols
    → address_at symbols i ≤ address
    → ((j : ℕ)
        → j < length symbols
        → address_at symbols j ≤ address
        → address_at symbols j ≤ address_at symbols i)
    → Looks symbols address (with_offset address (get_elem? symbols i))
found symbols address i lt low nearest =
    let (s, e) = get_elem?-lt symbols i lt in
    let at_s = address_at-get_elem? symbols i e in
    rw e (
      i,
      s,
      e,
      refl,
      omega (arith, low, at_s),
      λ j t there below.
          let at_t = address_at-get_elem? symbols j there in
          let near = nearest j (get_elem?-some_lt symbols j there) (omega (arith, at_t, below)) in
          omega (arith, near, at_s, at_t),
    )

placed :
    (symbols : List KernelSymbol) (address : ℕ) (p : Position)
    → length symbols < u64_mod
    → Ascends (address_at symbols) (length symbols)
    → Finds (address_at symbols) (length symbols) address p
    → Looks symbols address (with_offset address (get_elem? symbols (index_of p)))
placed symbols address (at i) few up (lt, same) =
    found symbols address i lt (omega (arith, same)) (λ j inside below. omega (arith, same, below))
placed symbols address (before zero) few up (le, below, above) =
    rw (get_elem?-ge symbols (u64_mod - 1) (omega arith)) (λ j t there.
      let at_t = address_at-get_elem? symbols j there in
      let over = above j (omega arith) (get_elem?-some_lt symbols j there) in
      omega (arith, over, at_t))
placed symbols address (before (suc i)) few up (le, below, above) =
    let under = below i (omega arith) in
    found symbols address i (omega (arith, le)) (omega (arith, under)) (λ j inside low.
      elim (Bool-cases (ltb i j)) [
        | inl behind ↦
            let over = above j (omega (arith, ltb→lt i j behind)) inside in
            absurd (omega (arith, over, low))
        | inr front ↦ up j i (ltb-false→le i j front) (omega (arith, le))
      ])

-- In a table of fewer than 2 ^ 64 symbols whose addresses ascend, perhaps with equal ones, and
-- whichever of equal addresses the search returns, an address is given a symbol that starts at or
-- below it, such that no symbol starts between the two, with the distance from its start; it
-- panics only where all symbols start above it.
pub symbol_at-Looks :
    (search : (ℕ → ℕ) → ℕ → ℕ → Position) (symbols : List KernelSymbol) (address : ℕ)
    → Searches search
    → length symbols < u64_mod
    → Ascends (address_at symbols) (length symbols)
    → Looks symbols address (symbol_at search symbols address)
unfolding symbol_at
symbol_at-Looks search symbols address searches few up =
    placed symbols address _ few up (searches (address_at symbols) (length symbols) address up)
