-- ===== src/Unwind/Search/Rows.antt =====
-- bpf-backtrace/src/lib.rs and cargo-trace/probe/src/main.rs: the result of the search in a table
-- whose starts ascend, and both searches side by side.
use rust_bpf.Prelude.{
  ℕ, zero, suc, ◌+◌, ◌-◌, ◌/◌, ◌^◌, ◌%◌, ◌≤◌, ◌<◌, ◌≡◌, ◌↔◌, refl, sym, ◌∙◌, List, [], ◌∷◌, ◌++◌,
  some, arith, length,
}
use rust_bpf.Prelude.Int.{u64_mod, u32_mod}
use rust_bpf.Unwind.Search.{search_loop, search_user, search_probe, pc_at}
use rust_bpf.Unwind.Search.Finds.{
  Finds, Brackets, search_loop_narrow, Brackets-step, start-Brackets, search_user-Finds,
}

-- Every row starts above the one before it.
abbrev pub Ascends : List ℕ → Type 0
Ascends pcs = (i j : ℕ) → i < j → j < length pcs → pc_at pcs i < pc_at pcs j

-- In an ascending table of two rows or more, and at most 2 ^ 23 + 1, whose first row starts below
-- `ip`, the result splits the rows but the last: those up to it start below `ip`, those behind it
-- do not.
pub search_user_splits :
    (pcs : List ℕ) (ip : ℕ)
    → 2 ≤ length pcs
    → length pcs ≤ 2 ^ 23 + 1
    → Ascends pcs
    → pc_at pcs 0 < ip
    → (j : ℕ) → suc j < length pcs
    → (pc_at pcs j < ip) ↔ (j ≤ search_user pcs ip)
search_user_splits pcs ip lo hi up first j lt =
    splits (search_user pcs ip) (search_user-Finds pcs ip lo hi)
  where
    splits : (i : ℕ) → Finds (pc_at pcs) ip (length pcs - 1) i → (pc_at pcs j < ip) ↔ (j ≤ i)
    splits i f = (λ below. ground (arith, up (suc i) j, up 0 j), λ before. ground (arith, up j i))

-- In an ascending table of at most 2 ^ 23 + 1 rows, an address at which a row other than the first
-- starts is taken to be in the row before it.
pub search_user_at_start :
    (pcs : List ℕ) (k : ℕ)
    → length pcs ≤ 2 ^ 23 + 1
    → Ascends pcs
    → 0 < k
    → k < length pcs
    → search_user pcs (pc_at pcs k) ≡ k - 1
search_user_at_start pcs k hi up pos lt =
    before (search_user pcs (pc_at pcs k)) (search_user-Finds pcs (pc_at pcs k) (omega arith) hi)
  where
    before : (i : ℕ) → Finds (pc_at pcs) (pc_at pcs k) (length pcs - 1) i → i ≡ k - 1
    before i f = ground (arith, up 0 k, up k i, up (i + 1) k)

-- The loop depends neither on the width of the index, as long as no sum of two indices overflows,
-- nor on the starts behind the last row.
search_loop-modulus :
    (m m' : ℕ) (pc pc' : ℕ → ℕ) (ip last : ℕ)
    → 0 < last
    → last + last < m
    → last + last < m'
    → ((j : ℕ) → j ≤ last → pc j ≡ pc' j)
    → (rounds left right i : ℕ) → Brackets pc' ip last left right
    → search_loop m pc ip rounds left right i ≡ search_loop m' pc' ip rounds left right i
search_loop-modulus m m' pc pc' ip last positive h h' same zero left right i b =
    unfold search_loop in refl
search_loop-modulus m m' pc pc' ip last positive h h' same (suc rounds) left right i b =
    search_loop_narrow m pc ip last positive h rounds left right i b.ordered b.inside
    ∙ rw (same ((left + right) / 2) (middle left right b.ordered b.inside)) (
        search_loop-modulus m m' pc pc' ip last positive h h' same rounds _ _ _
          (Brackets-step m' pc' ip last positive h' left right b))
    ∙ sym (search_loop_narrow m' pc' ip last positive h' rounds left right i b.ordered b.inside)
  where
    middle : (l r : ℕ) → l ≤ r → r ≤ last → (l + r) / 2 ≤ last
    middle l r p q = omega arith

pc_at-append : (pcs rest : List ℕ) (j : ℕ) → j < length pcs → pc_at (pcs ++ rest) j ≡ pc_at pcs j
pc_at-append [] rest j h = absurd (omega arith)
pc_at-append (p ∷ pcs) rest zero h = refl
pc_at-append (p ∷ pcs) rest (suc j) h = pc_at-append pcs rest j (omega arith)

-- The probe finds the same row as user space, in a table of two rows or more, and at most 2 ^ 31,
-- at the front of an array.
pub search_probe-search_user :
    (pcs rest : List ℕ) (ip : ℕ)
    → 2 ≤ length pcs
    → length pcs ≤ 2 ^ 31
    → search_probe (some (length pcs)) (pcs ++ rest) ip ≡ search_user pcs ip
unfolding search_probe search_user
search_probe-search_user pcs rest ip lo hi =
    let last = length pcs - 1 in
    let l32 : (length pcs + u32_mod - 1) % u32_mod ≡ last = omega arith in
    let l64 : (length pcs + u64_mod - 1) % u64_mod ≡ last = omega arith in
    rw (l32, l64)
      (search_loop-modulus u32_mod u64_mod (pc_at (pcs ++ rest)) (pc_at pcs) ip last (omega arith)
        (omega arith) (omega arith) (λ j h. pc_at-append pcs rest j (omega arith)) 24 0 last 0
        (start-Brackets u64_mod (pc_at pcs) ip last (omega arith) (omega arith)))
