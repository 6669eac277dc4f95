-- ===== src/Utils/Search.antt =====
-- `binary_search_by_key` of the standard library, which bpf-utils/src/kallsyms.rs and
-- bpf-utils/src/dylibs.rs call: halving the size of the part that begins at `base`.
pub mod Floor
pub mod Documented
use rust_bpf.Prelude.{
  ℕ, zero, suc, ◌+◌, ◌-◌, ◌/◌, List, ◌==◌, ltb, leb, if◌then◌else◌, get_or, length,
}

-- `Result<usize, usize>`: the index of the key, or the index at which it could be inserted.
pub data Position : Type 0 where
  at before : ℕ → Position

-- The loop, on fuel; as much as the size is enough.
unfoldable pub search_base : (key : ℕ → ℕ) → ℕ → (fuel size base : ℕ) → ℕ
search_base key x zero size base = base
search_base key x (suc fuel) size base =
    let half = size / 2 in
    let rest =
      search_base key x fuel (size - half)
        (if ltb x (key (base + half)) then base else base + half) in
    if leb size 1 then base else rest

unfoldable pub binary_search : (key : ℕ → ℕ) → (size : ℕ) → ℕ → Position
unfolding search_base
binary_search key zero x = before 0
binary_search key (suc n) x =
    let base = search_base key x (suc n) (suc n) 0 in
    if key base == x then at base else if ltb (key base) x then before (suc base) else before base
