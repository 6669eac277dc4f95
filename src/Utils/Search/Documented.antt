-- ===== src/Utils/Search/Documented.antt =====
-- What is documented of `binary_search_by_key`, which may return any of equal keys.
use rust_bpf.Prelude.{ℕ, zero, suc, ◌+◌, ◌≤◌, ◌<◌, ◌≡◌, inl, inr, arith}
use rust_bpf.Utils.Search.{Position, at, before, binary_search}
use rust_bpf.Utils.Search.Floor.{Ascends, Places, binary_search-Places}

-- An index whose key is the one that was looked for; or the index in front of which all keys are
-- below it, and from which on all are above.
abbrev pub Finds : (key : ℕ → ℕ) → (size x : ℕ) → Position → Type 0
Finds key size x (at i) = (i < size) × (key i ≡ x)
Finds key size x (before i) =
    (i ≤ size) × ((j : ℕ) → j < i → key j < x) × ((j : ℕ) → i ≤ j → j < size → x < key j)

abbrev pub Searches : ((ℕ → ℕ) → ℕ → ℕ → Position) → Type 0
Searches search =
    (key : ℕ → ℕ) (size x : ℕ) → Ascends key size → Finds key size x (search key size x)

Places-Finds :
    (key : ℕ → ℕ) (size x : ℕ) (p : Position)
    → Ascends key size
    → Places key size x p
    → Finds key size x p
Places-Finds key size x (at i) up (same, lt, next) = (lt, same)
Places-Finds key size x (before zero) up (inl empty) = (
  omega arith,
  (λ j lt. absurd (omega (arith, lt))),
  λ j le lt. absurd (omega (arith, lt, empty)),
)
Places-Finds key size x (before zero) up (inr above) = (
  omega arith,
  (λ j lt. absurd (omega (arith, lt))),
  λ j le lt. let first = up 0 j (omega arith) lt in omega (arith, first, above),
)
Places-Finds key size x (before (suc i)) up (below, lt, next) = (
  omega (arith, lt),
  (λ j under. let ordered = up j i (omega (arith, under)) lt in omega (arith, ordered, below)),
  λ j over inside. elim next [
    | inl last ↦ absurd (omega (arith, over, inside, last))
    | inr above ↦
        let ordered = up (i + 1) j (omega (arith, over)) inside in omega (arith, ordered, above)
  ],
)

-- The search of the standard library as it is written is one of those.
pub binary_search-Searches : Searches binary_search
binary_search-Searches key size x up =
    Places-Finds key size x (binary_search key size x) up (binary_search-Places key size x up)
