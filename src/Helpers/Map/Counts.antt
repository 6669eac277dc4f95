-- ===== src/Helpers/Map/Counts.antt =====
-- Counters in a hash map of bpf-helpers/src/map.rs, as the BPF programs of the repository keep them.
use mathlib.Core.List.{Mem}
use rust_bpf.Prelude.{
  ℕ, ◌+◌, ◌%◌, ◌<◌, ◌≡◌, ◌≢◌, sym, ap, ◌∙◌, List, ◌∷◌, length, arith, Option, none, some,
}
use rust_bpf.Prelude.Int.{u32_mod}
use rust_bpf.Helpers.Map.{KernelMap, get, insert, pick}
use rust_bpf.Helpers.Map.Hash.{
  HashLaws, Among, get-insert, get-insert_other, insert-Among, insert-Among_known,
}

-- `unwrap_or_default`.
abbrev pub count_of : Option ℕ → ℕ
count_of none = 0
count_of (some n) = n

module _ {K : Type 0} (k : KernelMap K ℕ) where
  -- `count += 1`, which wraps, between `get` and `insert`.
  unfoldable pub bump : k.State → K → k.State
  unfolding get insert
  bump s key = insert k s key ((count_of (get k s key) + 1) % u32_mod)

module _ {K : Type 0} (k : KernelMap K ℕ) (laws : HashLaws k) where
  pub get-bump :
      (s : k.State) (key : K) (keys : List K)
      → Among k s keys
      → length keys < k.def.max_entries
      → count_of (get k (bump k s key) key) ≡ (count_of (get k s key) + 1) % u32_mod
  unfolding bump
  get-bump s key keys among room = ap count_of (get-insert k laws s key _ keys among room)

  pub get-bump_other :
      (s : k.State) (key other : K) → key ≢ other → get k (bump k s key) other ≡ get k s other
  unfolding bump
  get-bump_other s key other ne = get-insert_other k laws s key other _ ne

  module _ (dec : (a b : K) → Dec (a ≡ b)) where
    pub bump-Among :
        (s : k.State) (key : K) (keys : List K)
        → Among k s keys
        → Among k (bump k s key) (key ∷ keys)
    unfolding bump
    bump-Among s key keys among = insert-Among k laws dec s key _ keys among

    pub bump-Among_known :
        (s : k.State) (key : K) (keys : List K)
        → Among k s keys
        → Mem key keys
        → Among k (bump k s key) keys
    unfolding bump
    bump-Among_known s key keys among known = insert-Among_known k laws dec s key _ keys among known

    -- What a count is after another one is taken, at any key.
    pub count-bump :
        (s : k.State) (key other : K) (keys : List K)
        → Among k s keys
        → length keys < k.def.max_entries
        → count_of (get k s other) < u32_mod
        → count_of (get k (bump k s key) other)
          ≡ (count_of (get k s other) + pick (dec key other) 1 0) % u32_mod
    count-bump s key other keys among room lt =
        elim (dec key other)
          as (λ d.
            count_of (get k (bump k s key) other)
            ≡ (count_of (get k s other) + pick d 1 0) % u32_mod) [
              | yes e ↦ rw (sym e) (get-bump s key keys among room)
              | no ne ↦ ap count_of (get-bump_other s key other ne) ∙ omega (arith, lt)
            ]
