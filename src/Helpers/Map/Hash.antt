-- ===== src/Helpers/Map/Hash.antt =====
-- What the kernel documents of `BPF_MAP_TYPE_HASH`, and the methods of bpf-helpers/src/map.rs on it.
use mathlib.Core.Logic.Or
use mathlib.Core.List.{Mem, mem-cons}
use rust_bpf.Prelude.{
  ◌<◌, ◌∷◌, ◌≡◌, ◌≢◌, inl, inr, refl, sym, ◌∙◌, List, none, some, length, Option-cases,
}
use rust_bpf.Helpers.Map.{KernelMap, bpf_any, get, insert, remove, lookup, update, delete}

-- A write succeeds if the key is there, or if the keys that are there are among fewer than the map
-- can hold; no write changes what is at another key.
pub record HashLaws {K V : Type 0} (k : KernelMap K V) : Type 0 where
  pub lookup_replaced :
      (s : k.State) (key : K) (v : V)
      → k.bpf_map_lookup_elem s key ≢ none
      → k.bpf_map_lookup_elem (k.bpf_map_update_elem s key v bpf_any).0 key ≡ some v
  pub lookup_added :
      (s : k.State) (key : K) (v : V) (keys : List K)
      → ((other : K) → k.bpf_map_lookup_elem s other ≢ none → Mem other keys)
      → length keys < k.def.max_entries
      → k.bpf_map_lookup_elem (k.bpf_map_update_elem s key v bpf_any).0 key ≡ some v
  pub lookup_other :
      (s : k.State) (key other : K) (v : V)
      → key ≢ other
      → k.bpf_map_lookup_elem (k.bpf_map_update_elem s key v bpf_any).0 other
        ≡ k.bpf_map_lookup_elem s other
  pub lookup_deleted :
      (s : k.State) (key : K) → k.bpf_map_lookup_elem (k.bpf_map_delete_elem s key).0 key ≡ none
  pub lookup_kept :
      (s : k.State) (key other : K)
      → key ≢ other
      → k.bpf_map_lookup_elem (k.bpf_map_delete_elem s key).0 other ≡ k.bpf_map_lookup_elem s other

module _ {K V : Type 0} (k : KernelMap K V) where
  pub get-lookup : (s : k.State) (key : K) → get k s key ≡ k.bpf_map_lookup_elem s key
  unfolding get lookup
  get-lookup s key = elim (Option-cases (k.bpf_map_lookup_elem s key)) [
    | inl e ↦ rw (e, get) refl
    | inr (v, e) ↦ rw (e, get) refl
  ]

  -- The keys that are there are among those of a list.
  abbrev pub Among : k.State → List K → Type 0
  Among s keys = (key : K) → get k s key ≢ none → Mem key keys

module _ {K V : Type 0} (k : KernelMap K V) (laws : HashLaws k) where
  open laws use {lookup_replaced, lookup_added, lookup_other, lookup_deleted, lookup_kept}

  pub get-insert_known :
      (s : k.State) (key : K) (v : V) → get k s key ≢ none → get k (insert k s key v) key ≡ some v
  unfolding insert update
  get-insert_known s key v there =
      get-lookup k _ key ∙ lookup_replaced s key v (λ e. there (get-lookup k s key ∙ e))

  pub get-insert :
      (s : k.State) (key : K) (v : V) (keys : List K)
      → Among k s keys
      → length keys < k.def.max_entries
      → get k (insert k s key v) key ≡ some v
  unfolding insert update
  get-insert s key v keys among room =
      get-lookup k _ key
      ∙ lookup_added s key v keys
          (λ other there. among other (λ e. there (sym (get-lookup k s other) ∙ e))) room

  pub get-insert_other :
      (s : k.State) (key other : K) (v : V)
      → key ≢ other
      → get k (insert k s key v) other ≡ get k s other
  unfolding insert update
  get-insert_other s key other v ne =
      get-lookup k _ other ∙ lookup_other s key other v ne ∙ sym (get-lookup k s other)

  pub get-remove : (s : k.State) (key : K) → get k (remove k s key) key ≡ none
  unfolding remove delete
  get-remove s key = get-lookup k _ key ∙ lookup_deleted s key

  pub get-remove_other :
      (s : k.State) (key other : K) → key ≢ other → get k (remove k s key) other ≡ get k s other
  unfolding remove delete
  get-remove_other s key other ne =
      get-lookup k _ other ∙ lookup_kept s key other ne ∙ sym (get-lookup k s other)

  module _ (dec : (a b : K) → Dec (a ≡ b)) where
    -- A write adds its key at most.
    pub insert-Among :
        (s : k.State) (key : K) (v : V) (keys : List K)
        → Among k s keys
        → Among k (insert k s key v) (key ∷ keys)
    insert-Among s key v keys among other there = elim (dec key other) [
      | yes e ↦ mem-cons.1 (Or.inl (sym e))
      | no ne ↦
          mem-cons.1 (Or.inr (among other (λ e. there (get-insert_other s key other v ne ∙ e))))
    ]

    -- A write of a key of the list adds none.
    pub insert-Among_known :
        (s : k.State) (key : K) (v : V) (keys : List K)
        → Among k s keys
        → Mem key keys
        → Among k (insert k s key v) keys
    insert-Among_known s key v keys among known other there = elim (dec key other) [
      | yes e ↦ rw (sym e) known
      | no ne ↦ among other (λ e. there (get-insert_other s key other v ne ∙ e))
    ]

    pub remove-Among :
        (s : k.State) (key : K) (keys : List K) → Among k s keys → Among k (remove k s key) keys
    remove-Among s key keys among other there = elim (dec key other) [
      | yes e ↦ absurd (there (rw (sym e) (get-remove s key)))
      | no ne ↦ among other (λ e. there (get-remove_other s key other ne ∙ e))
    ]
