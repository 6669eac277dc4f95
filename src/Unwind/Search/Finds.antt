-- ===== src/Unwind/Search/Finds.antt =====
-- bpf-backtrace/src/lib.rs: the result of the binary search.
use rust_bpf.Prelude.{
  ℕ, zero, suc, ◌+◌, ◌-◌, ◌/◌, ◌%◌, ◌^◌, ◌≤◌, ◌<◌, ◌≡◌, ◌⊎◌, List, arith, ltb, le→ltb-false, length,
  if◌then◌else◌,
}
use native.Mathlib.Nat.{pow-suc, mod-eq_of_lt}
use rust_bpf.Prelude.Int.{u64_mod}
use rust_bpf.Unwind.Search.{search_loop, search_user, pc_at}

-- Row `i` is the last one below `ip` among the rows before `last`, as far as the rows beside it tell.
abbrev pub Finds : (pc : ℕ → ℕ) → (ip last i : ℕ) → Type 0
Finds pc ip last i =
    (i < last)
    × ((i ≡ 0) ⊎ (pc i < ip))
    × ((i + 1 ≡ last) ⊎ ((i ≡ 0) × (ip ≤ pc 0)) ⊎ (ip ≤ pc (i + 1)))

-- The loop's invariant.
pub record Brackets (pc : ℕ → ℕ) (ip last left right : ℕ) : Type 0 where
  pub ordered : left ≤ right
  pub inside : right ≤ last
  pub low : (left ≡ 0) ⊎ (pc left < ip)
  pub high : (right ≡ last) ⊎ (ip ≤ pc right)
  pub room : (left < right) ⊎ ((left ≡ 0) × (right ≡ 0) × (ip ≤ pc 0))

module _ (modulus : ℕ) (pc : ℕ → ℕ) (ip last : ℕ) (positive : 0 < last)
    (fits : last + last < modulus) where
  -- A round between indices in order, neither above `last`.
  pub search_loop_narrow :
      (rounds left right i : ℕ)
      → left ≤ right
      → right ≤ last
      → search_loop modulus pc ip (suc rounds) left right i
        ≡ search_loop modulus pc ip rounds
            (if ltb (pc ((left + right) / 2)) ip then (left + right) / 2 else left)
            (if ltb (pc ((left + right) / 2)) ip then right else (left + right) / 2)
            ((left + right) / 2)
  unfolding search_loop
  search_loop_narrow rounds left right i o b =
      rw (le→ltb-false right left o, mod-eq_of_lt {n = left + right} {m = modulus} (omega arith))

  pub Brackets-step :
      (left right : ℕ)
      → Brackets pc ip last left right
      → Brackets pc ip last
          (if ltb (pc ((left + right) / 2)) ip then (left + right) / 2 else left)
          (if ltb (pc ((left + right) / 2)) ip then right else (left + right) / 2)
  Brackets-step left right b = ground arith

  Finds-mid :
      (left right : ℕ)
      → Brackets pc ip last left right
      → right - left ≤ 1
      → Finds pc ip last ((left + right) / 2)
  Finds-mid left right b narrow = ground arith

  narrower :
      (left right : ℕ) (n : ℕ)
      → right - left ≤ 2 ^ suc n
      → (if ltb (pc ((left + right) / 2)) ip then right else (left + right) / 2)
          - (if ltb (pc ((left + right) / 2)) ip then (left + right) / 2 else left)
        ≤ 2 ^ n
  narrower left right n h = let double = pow-suc 2 n in ground arith

  -- One round more than the halvings that the width needs: the answer is the last middle.
  search_loop-Finds :
      (n left right i : ℕ)
      → Brackets pc ip last left right
      → right - left ≤ 2 ^ n
      → Finds pc ip last (search_loop modulus pc ip (suc n) left right i)
  search_loop-Finds zero left right i b h =
      rw (search_loop_narrow 0 left right i b.ordered b.inside)
        (unfold search_loop in Finds-mid left right b h)
  search_loop-Finds (suc n) left right i b h =
      rw (search_loop_narrow (suc n) left right i b.ordered b.inside)
        (search_loop-Finds n _ _ _ (Brackets-step left right b) (narrower left right n h))

  pub start-Brackets : Brackets pc ip last 0 last
  start-Brackets = ground arith

-- Twenty-four rounds find the row in a table of two rows or more, and at most 2 ^ 23 + 1, whatever
-- the rows hold: it is not the last row, its start is below `ip` unless it is the first, and the
-- row behind it is the last or starts at `ip` or above, unless the first row does already.
pub search_user-Finds :
    (pcs : List ℕ) (ip : ℕ)
    → 2 ≤ length pcs
    → length pcs ≤ 2 ^ 23 + 1
    → Finds (pc_at pcs) ip (length pcs - 1) (search_user pcs ip)
unfolding search_user
search_user-Finds pcs ip lo hi =
    let last : (length pcs + u64_mod - 1) % u64_mod ≡ length pcs - 1 = omega arith in
    rw last (
      search_loop-Finds u64_mod (pc_at pcs) ip (length pcs - 1) (omega arith) (omega arith) 23 0
        (length pcs - 1) 0
        (start-Brackets u64_mod (pc_at pcs) ip (length pcs - 1) (omega arith) (omega arith))
        (omega arith))
