-- ===== src/Utils/Search/Floor.antt =====
-- The place of a key that the binary search of the standard library returns.
use rust_bpf.Prelude.{
  ℕ, zero, suc, ◌+◌, ◌-◌, ◌/◌, ◌≤◌, ◌<◌, ◌≡◌, ◌⊎◌, inl, inr, refl, arith, ltb, leb, if◌then◌else◌,
  ◌==◌, Bool-cases, ltb-false→le, ltb→lt, ==_iff, true, false,
}
use rust_bpf.Utils.Search.{Position, at, before, search_base, binary_search}

-- Key `i` is the last one at or below `x`, as far as the key behind it tells; if it is above, it
-- is the first.
abbrev pub IsFloor : (key : ℕ → ℕ) → (size x i : ℕ) → Type 0
IsFloor key size x i = (i < size) × ((i ≡ 0) ⊎ (key i ≤ x)) × ((i + 1 ≡ size) ⊎ (x < key (i + 1)))

-- The loop's invariant, for the part of `size` keys from `base` on.
record Part (key : ℕ → ℕ) (total x size base : ℕ) : Type 0 where
  some_left : 1 ≤ size
  inside : base + size ≤ total
  low : (base ≡ 0) ⊎ (key base ≤ x)
  high : (base + size ≡ total) ⊎ (x < key (base + size))

-- The keys ascend, perhaps with equal ones.
abbrev pub Ascends : (key : ℕ → ℕ) → ℕ → Type 0
Ascends key total = (i j : ℕ) → i ≤ j → j < total → key i ≤ key j

module _ (key : ℕ → ℕ) (total x : ℕ) (up : Ascends key total) where
  halves : (size base : ℕ) → base + size / 2 + (size - size / 2) ≡ base + size
  halves size base = omega arith

  above_half :
      (size base : ℕ)
      → base + size ≤ total
      → ltb x (key (base + size / 2)) ≡ true
      → (base + (size - size / 2) ≡ total) ⊎ (x < key (base + (size - size / 2)))
  above_half size base le h =
      ground
        (arith, ltb→lt x (key (base + size / 2)) h, up (base + size / 2) (base + (size - size / 2)))

  one_left : (size base : ℕ) → size ≤ 1 → Part key total x size base → IsFloor key total x base
  one_left size base le p =
      let one : size ≡ 1 = omega (arith, p.some_left) in
      (omega (arith, p.inside, one), p.low, rw one at p.high)

  Part-step :
      (size base : ℕ)
      → 1 < size
      → Part key total x size base
      → Part key total x
          (size - size / 2)
          (if ltb x (key (base + size / 2)) then base else base + size / 2)
  Part-step size base lt p = elim (Bool-cases (ltb x (key (base + size / 2)))) [
    | inl above ↦ rw above (record {
      some_left = omega arith;
      inside = omega (arith, p.inside);
      low = p.low;
      high = above_half size base p.inside above;
    })
    | inr below ↦ rw below (record {
      some_left = omega arith;
      inside = omega (arith, p.inside);
      low = inr (ltb-false→le x (key (base + size / 2)) below);
      high = rw (halves size base) p.high;
    })
  ]

  search_base-IsFloor :
      (fuel size base : ℕ)
      → size ≤ fuel
      → Part key total x size base
      → IsFloor key total x (search_base key x fuel size base)
  unfolding search_base
  search_base-IsFloor zero size base le p = absurd (omega (arith, p.some_left))
  search_base-IsFloor (suc fuel) size base le p = elim (Bool-cases (leb size 1)) [
    | inl one ↦ rw (one, search_base) (one_left size base (ground arith) p)
    | inr more ↦
        rw (more, search_base)
          (search_base-IsFloor fuel (size - size / 2) _ (ground arith)
            (Part-step size base (ground arith) p))
  ]

-- Where the search puts a key in a list whose keys ascend: at the last key that equals it, or
-- behind the last one below it, or in front of all.
abbrev pub Places : (key : ℕ → ℕ) → (size x : ℕ) → Position → Type 0
Places key size x (at i) = (key i ≡ x) × (i < size) × ((i + 1 ≡ size) ⊎ (x < key (i + 1)))
Places key size x (before zero) = (size ≡ 0) ⊎ (x < key 0)
Places key size x (before (suc i)) = (key i < x) × (i < size) × ((i + 1 ≡ size) ⊎ (x < key (i + 1)))

place_first :
    (key : ℕ → ℕ) (size x i : ℕ)
    → key i == x ≡ false
    → ltb (key i) x ≡ false
    → IsFloor key size x i
    → Places key size x (before i)
place_first key size x zero other above f = inr (ground arith)
place_first key size x (suc i) other above f = absurd (ground (arith, f.1))

place :
    (key : ℕ → ℕ) (size x i : ℕ)
    → IsFloor key size x i
    → Places key size x
        (if key i == x then at i else if ltb (key i) x then before (suc i) else before i)
place key size x i f = elim (Bool-cases (key i == x)) [
  | inl same ↦ rw same ((==_iff (key i) x).0 same, f.0, f.2)
  | inr other ↦ elim (Bool-cases (ltb (key i) x)) [
    | inl below ↦ rw (other, below) (ltb→lt (key i) x below, f.0, f.2)
    | inr above ↦ rw (other, above) (place_first key size x i other above f)
  ]
]

-- The search places a key correctly, whatever the number of keys, if they ascend.
pub binary_search-Places :
    (key : ℕ → ℕ) (size x : ℕ) → Ascends key size → Places key size x (binary_search key size x)
unfolding binary_search
binary_search-Places key zero x up = inl refl
binary_search-Places key (suc n) x up = place key (suc n) x _ (
    search_base-IsFloor key (suc n) x up (suc n) (suc n) 0 (omega arith) (record {
      some_left = omega arith;
      inside = omega arith;
      low = inl refl;
      high = inl (omega arith);
    }))
