-- ===== src/Helpers/Map.antt =====
-- bpf-helpers/src/map.rs: the maps of a BPF program over the helpers of the kernel.
pub mod Hash
pub mod Model
pub mod Counts
pub mod Array
pub mod Program
use rust_bpf.Prelude.{ℕ, ◌%◌, Option, none, some, ◌==◌, if◌then◌else◌}
use rust_bpf.Prelude.Int.{ℤ, u32_mod}

-- `bpf_map_def`, which is all that a `RawMap` holds.
pub record MapDef : Type 0 where
  pub type : ℕ
  pub key_size : ℕ
  pub value_size : ℕ
  pub max_entries : ℕ
  pub map_flags : ℕ

-- The sizes are those of the types of the keys and the values.
unfoldable pub with_max_entries : (type key_size value_size : ℕ) → ℕ → MapDef
with_max_entries type key_size value_size max_entries = record {
  type = type;
  key_size = key_size % u32_mod;
  value_size = value_size % u32_mod;
  max_entries = max_entries % u32_mod;
  map_flags = 0;
}

-- `bpf_map_type` of the kernel's header.
abbrev pub hash_type : ℕ
hash_type = 1

abbrev pub array_type : ℕ
array_type = 2

abbrev pub bpf_any : ℕ
bpf_any = 0

-- The helpers of the kernel on one map, which is made from its definition. A pointer that is null
-- is `none`; a write and a removal yield a status besides.
pub record KernelMap (K V : Type 0) : Type 1 where
  pub State : Type 0
  pub def : MapDef
  pub bpf_map_lookup_elem : State → K → Option V
  pub bpf_map_update_elem : State → K → V → (flags : ℕ) → State × ℤ
  pub bpf_map_delete_elem : State → K → State × ℤ

-- The first value if the proposition holds.
abbrev pub pick : {P V : Type 0} → Dec P → V → V → V
pick (yes p) v w = v
pick (no not_p) v w = w

module _ {K V : Type 0} (k : KernelMap K V) where
  unfoldable pub lookup : k.State → K → Option V
  lookup s key = k.bpf_map_lookup_elem s key

  -- The status is discarded.
  unfoldable pub update : k.State → K → V → k.State
  update s key value = (k.bpf_map_update_elem s key value bpf_any).0

  unfoldable pub delete : k.State → K → k.State
  delete s key = (k.bpf_map_delete_elem s key).0

  -- `get`, `insert` and `remove` of the four hash maps.
  unfoldable pub get : k.State → K → Option V
  unfolding lookup
  get s key = elim (lookup s key) [ none ↦ none | some value ↦ some value ]

  unfoldable pub insert : k.State → K → V → k.State
  unfolding update
  insert s key value = update s key value

  unfoldable pub remove : k.State → K → k.State
  unfolding delete
  remove s key = delete s key
