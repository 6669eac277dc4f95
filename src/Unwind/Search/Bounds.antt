-- ===== src/Unwind/Search/Bounds.antt =====
-- bpf-backtrace/src/lib.rs and cargo-trace/probe/src/main.rs: the index of the binary searches.
use native.Mathlib.Nat.{mod-eq_of_lt}
use rust_bpf.Prelude.{
  ℕ, zero, suc, ◌+◌, ◌-◌, ◌/◌, ◌%◌, ◌^◌, ◌≤◌, ◌<◌, ◌≡◌, List, some, arith, ltb, Bool-cases, inl,
  inr, length, le→ltb-false,
}
use rust_bpf.Prelude.Int.{u32_mod, u64_mod}
use rust_bpf.Unwind.Search.{search_loop, search_user, search_probe, pc_at, max_bin_search_depth}

module _ (modulus : ℕ) (pc : ℕ → ℕ) (ip last : ℕ) (fits : last + last < modulus) where
  -- The indices never leave the table, however many rounds there are.
  search_loop_le :
      (rounds left right i : ℕ)
      → left ≤ right
      → right ≤ last
      → i ≤ last
      → search_loop modulus pc ip rounds left right i ≤ last
  unfolding search_loop
  search_loop_le zero left right i o b h = h
  search_loop_le (suc rounds) left right i o b h =
      let mid = mod-eq_of_lt {n = left + right} {m = modulus} (omega arith) in
      let ordered = le→ltb-false right left o in
      elim (Bool-cases (ltb (pc ((left + right) / 2)) ip)) [
        | inl low ↦
            rw (ordered, mid, low, search_loop)
              (search_loop_le rounds ((left + right) / 2) right ((left + right) / 2) (omega arith) b
                (omega arith))
        | inr high ↦
            rw (ordered, mid, high, search_loop)
              (search_loop_le rounds left ((left + right) / 2) ((left + right) / 2) (omega arith)
                (omega arith) (omega arith))
      ]

-- In a table of at least one row and at most 2 ^ 31, whatever it holds, both searches yield the
-- index of a row.
pub search-lt :
    (pcs : List ℕ) (ip : ℕ)
    → 0 < length pcs
    → length pcs ≤ 2 ^ 31
    → (search_user pcs ip < length pcs) × (search_probe (some (length pcs)) pcs ip < length pcs)
unfolding search_user search_probe
search-lt pcs ip some_rows fit =
    let last = length pcs - 1 in
    let user : (length pcs + u64_mod - 1) % u64_mod ≡ length pcs - 1 = omega arith in
    let probe : (length pcs + u32_mod - 1) % u32_mod ≡ length pcs - 1 = omega arith in
    let user_le =
      search_loop_le u64_mod (pc_at pcs) ip last (omega arith) max_bin_search_depth 0 last 0
        (omega arith) (omega arith) (omega arith) in
    let probe_le =
      search_loop_le u32_mod (pc_at pcs) ip last (omega arith) max_bin_search_depth 0 last 0
        (omega arith) (omega arith) (omega arith) in
    (rw user (omega (arith, user_le)), rw probe (omega (arith, probe_le)))
