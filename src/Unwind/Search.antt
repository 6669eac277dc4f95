-- ===== src/Unwind/Search.antt =====
-- The binary search over the start addresses of the unwind rows: `UnwindMap::binary_search` of
-- bpf-backtrace/src/lib.rs over `usize`, and `binary_search` of cargo-trace/probe/src/main.rs over
-- `u32`. Both run the same loop; `modulus` is that of the index type.
pub mod Finds
pub mod Rows
pub mod Bounds
use rust_bpf.Prelude.{
  ℕ, zero, suc, ◌+◌, ◌-◌, ◌/◌, ◌%◌, List, Option, none, some, ltb, if◌then◌else◌, length, get_or,
}
use rust_bpf.Prelude.Int.{u64_mod, u32_mod}

abbrev pub u64_max : ℕ
u64_max = u64_mod - 1

-- `for _ in 0..rounds { … }`, on the variables `left`, `right` and `i`.
unfoldable pub search_loop : (modulus : ℕ) → (ℕ → ℕ) → ℕ → (rounds left right i : ℕ) → ℕ
search_loop modulus pc ip zero left right i = i
search_loop modulus pc ip (suc rounds) left right i =
    let mid = (left + right) % modulus / 2 in
    let rest =
      search_loop modulus pc ip rounds (if ltb (pc mid) ip then mid else left)
        (if ltb (pc mid) ip then right else mid) mid in
    if ltb right left then i else rest

-- `MAX_BIN_SEARCH_DEPTH`, and the literal of bpf-backtrace.
abbrev pub max_bin_search_depth : ℕ
max_bin_search_depth = 24

-- `self.pc.get(i).copied().unwrap_or(u64::MAX)`.
abbrev pub pc_at : List ℕ → ℕ → ℕ
pc_at pcs i = get_or pcs i u64_max

-- `UnwindMap::binary_search`; the subtraction wraps on an empty table.
unfoldable pub search_user : List ℕ → ℕ → ℕ
search_user pcs ip =
    search_loop u64_mod (pc_at pcs) ip max_bin_search_depth 0 ((length pcs + u64_mod - 1) % u64_mod)
      0

-- `binary_search` of the probe: `len` is what `CONFIG` holds at 0, if it holds anything.
unfoldable pub search_probe : (len : Option ℕ) → List ℕ → ℕ → ℕ
search_probe none pcs ip =
    search_loop u32_mod (pc_at pcs) ip max_bin_search_depth 0 ((1 + u32_mod - 1) % u32_mod) 0
search_probe (some len) pcs ip =
    search_loop u32_mod (pc_at pcs) ip max_bin_search_depth 0 ((len + u32_mod - 1) % u32_mod) 0
