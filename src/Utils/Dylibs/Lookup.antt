-- ===== src/Utils/Dylibs/Lookup.antt =====
-- bpf-utils/src/dylibs.rs: which binary an address is looked up in.
use rust_bpf.Prelude.{
  ℕ, zero, suc, ◌+◌, ◌≤◌, ◌<◌, ◌≡◌, ◌⊎◌, inl, inr, refl, List, [], ◌∷◌, some, get_elem?,
  get_elem?-lt, length, arith, ltb, ltb→lt, ltb-false→le, Bool-cases, true, false,
}
use rust_bpf.Utils.Search.{Position, at, before}
use rust_bpf.Utils.Search.Floor.{Ascends, Places, binary_search-Places}
use rust_bpf.Utils.Dylibs.{
  Binary, start_at, binary_index, Located, located, outside, out_of_bounds, in_range, binary,
}

-- No binary behind index `i` starts at or below `ip`, as far as the next one tells.
abbrev pub IsLast : List Binary → (ip i : ℕ) → Type 0
IsLast binaries ip i = (i + 1 ≡ length binaries) ⊎ (ip < start_at binaries (i + 1))

-- A binary is the last one that starts at or below the address, and the address is not behind its
-- end; without one, the address is below all starts, or behind the end of the last binary that
-- starts at or below it; an empty list panics.
abbrev pub Locates : List Binary → ℕ → Located → Type 0
Locates binaries ip (located b) =
    (i : ℕ) × (get_elem? binaries i ≡ some b)
    × (b.start_addr ≤ ip)
    × (ip ≤ b.end_addr)
    × IsLast binaries ip i
Locates binaries ip outside =
    (ip < start_at binaries 0)
    ⊎ ((i : ℕ) × (b : Binary) × (get_elem? binaries i ≡ some b)
        × (b.start_addr ≤ ip)
        × (b.end_addr < ip)
        × IsLast binaries ip i)
Locates binaries ip out_of_bounds = length binaries ≡ 0

start_at-get_elem? :
    (binaries : List Binary) (i : ℕ) {b : Binary}
    → get_elem? binaries i ≡ some b
    → start_at binaries i ≡ b.start_addr
start_at-get_elem? [] i h = cc
start_at-get_elem? (b ∷ binaries) zero h = cc
start_at-get_elem? (b ∷ binaries) (suc i) h = start_at-get_elem? binaries i h

inside :
    (binaries : List Binary) (ip i : ℕ)
    → i < length binaries
    → start_at binaries i ≤ ip
    → IsLast binaries ip i
    → Locates binaries ip (in_range ip (get_elem? binaries i))
inside binaries ip i lt low last =
    let (b, e) = get_elem?-lt binaries i lt in
    let at_b = start_at-get_elem? binaries i e in
    let start : ltb ip b.start_addr ≡ false = ground (arith, at_b) in
    rw e (elim (Bool-cases (ltb b.end_addr ip)) [
      | inl behind ↦
          rw (start, behind) (inr (i, b, e, omega (arith, at_b), ltb→lt _ _ behind, last))
      | inr within ↦ rw (start, within) (i, e, omega (arith, at_b), ltb-false→le _ _ within, last)
    ])

in_front :
    (binaries : List Binary) (ip : ℕ)
    → (length binaries ≡ 0) ⊎ (ip < start_at binaries 0)
    → Locates binaries ip (in_range ip (get_elem? binaries 0))
in_front [] ip h = refl
in_front (b ∷ binaries) ip (inl h) = absurd (omega arith)
in_front (b ∷ binaries) ip (inr h) =
    let below : ltb ip b.start_addr ≡ true = ground arith in rw below (inl h)

placed :
    (binaries : List Binary) (ip : ℕ) (p : Position)
    → Places (start_at binaries) (length binaries) ip p
    → Locates binaries ip (in_range ip (get_elem? binaries (binary_index p)))
placed binaries ip (at i) h = inside binaries ip i h.1 (omega (arith, h.0)) h.2
placed binaries ip (before zero) h = in_front binaries ip h
placed binaries ip (before (suc i)) h = inside binaries ip i h.1 (omega (arith, h.0)) h.2

-- In a list of binaries whose starts ascend, the lookup of an address finds the last binary that
-- starts at or below it, if the address is not behind that binary's end, and none otherwise; it
-- panics on the empty list alone.
pub binary-Locates :
    (binaries : List Binary) (ip : ℕ)
    → Ascends (start_at binaries) (length binaries)
    → Locates binaries ip (binary binaries ip)
unfolding binary
binary-Locates binaries ip up =
    placed binaries ip _ (binary_search-Places (start_at binaries) (length binaries) ip up)
