-- ===== src/Helpers/Map/Array.antt =====
-- bpf-helpers/src/map.rs: arrays.
use rust_bpf.Prelude.{ℕ, Option, none, some}
use rust_bpf.Helpers.Map.{KernelMap, lookup, update}

module _ {V : Type 0} (k : KernelMap ℕ V) where
  unfoldable pub get : k.State → ℕ → Option V
  unfolding lookup
  get s key = elim (lookup k s key) [ none ↦ none | some value ↦ some value ]

  unfoldable pub insert : k.State → ℕ → V → k.State
  unfolding update
  insert s key value = update k s key value
