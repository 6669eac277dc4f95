-- ===== src/Tests/KernelMaps.antt =====
-- Maps of the kernel that hold any number of keys.
use rust_bpf.Prelude.{
  ℕ, ◌≡◌, ◌≢◌, refl, sym, ◌∙◌, List, [], ◌∷◌, Option, none, some, ok, ok-injective,
}
use rust_bpf.Bpf.Maps.{Bytes, Handle, value_of, get}
use rust_bpf.Prelude.Int.{pos}
use rust_bpf.Helpers.Map.{KernelMap, MapDef, pick}
use rust_bpf.Helpers.Map.Hash.{HashLaws}

module _ {K V : Type 0} (dec : (a b : K) → Dec (a ≡ b)) where
  -- The values by key, with one of them changed.
  abbrev pub assign : (K → Option V) → K → Option V → K → Option V
  assign f key v other = pick (dec key other) v (f other)

  pub assign-same : (f : K → Option V) (key : K) (v : Option V) → assign f key v key ≡ v
  assign-same f key v = elim (dec key key) as (λ d. pick d v (f key) ≡ v) [
    | yes e ↦ refl
    | no ne ↦ absurd (ne refl)
  ]

  pub assign-other :
      (f : K → Option V) (key other : K) (v : Option V)
      → key ≢ other
      → assign f key v other ≡ f other
  assign-other f key other v ne = elim (dec key other) as (λ d. pick d v (f other) ≡ f other) [
    | yes e ↦ absurd (ne e)
    | no _ ↦ refl
  ]

  abbrev pub roomy : MapDef → KernelMap K V
  roomy def = record {
    State = K → Option V;
    def = def;
    bpf_map_lookup_elem = λ f key. f key;
    bpf_map_update_elem = λ f key v flags. (assign f key (some v), pos 0);
    bpf_map_delete_elem = λ f key. (assign f key none, pos 0);
  }

  abbrev pub roomy-HashLaws : (def : MapDef) → HashLaws (roomy def)
  roomy-HashLaws def = record {
    lookup_replaced = λ f key v there. assign-same f key (some v);
    lookup_added = λ f key v keys among room. assign-same f key (some v);
    lookup_other = λ f key other v ne. assign-other f key other (some v) ne;
    lookup_deleted = λ f key. assign-same f key none;
    lookup_kept = λ f key other ne. assign-other f key other none ne;
  }

-- A map without keys.
abbrev pub no_entries : {K V : Type 0} → K → Option V
no_entries key = none

-- Numbers as one byte, and stacks as their addresses.
abbrev pub one_byte : Bytes ℕ
one_byte = record {
  as_bytes = λ n. n ∷ [];
  read = λ bytes. elim bytes [ [] ↦ none | n ∷ rest ↦ some n ];
}

abbrev pub raw : Bytes (List ℕ)
raw = record { as_bytes = λ bytes. bytes; read = λ bytes. some bytes }

module _ {K V : Type 0} (kb : Bytes K) (vb : Bytes V) where
  abbrev pub bytes_of : Option V → Option (List ℕ)
  bytes_of none = none
  bytes_of (some v) = some (vb.as_bytes v)

  abbrev pub found_by : (K → Option V) → Option K → Option (List ℕ)
  found_by f none = none
  found_by f (some key) = bytes_of (f key)

  -- A map of user space that shows what the kernel's map holds, with these keys.
  abbrev pub shown : List (List ℕ) → Handle
  shown listed = record {
    Error = ⊥;
    State = K → Option V;
    lookup = λ f bytes. ok (found_by f (kb.read bytes));
    update = λ f key value. ok f;
    keys = λ f. listed;
  }

  bytes_of-eq-some :
      (found : Option V) (v : V)
      → ((w : V) → vb.read (vb.as_bytes w) ≡ some w)
      → value_of kb vb (shown []) (bytes_of found) ≡ some v
      → found ≡ some v
  bytes_of-eq-some none v back e = e
  bytes_of-eq-some (some w) v back e = sym (back w) ∙ e

  pub shown-sees :
      (listed : List (List ℕ)) (f : K → Option V) (key : K) (v : V)
      → ((k : K) → kb.read (kb.as_bytes k) ≡ some k)
      → ((w : V) → vb.read (vb.as_bytes w) ≡ some w)
      → get kb vb (shown listed) f key ≡ ok (some v)
      → f key ≡ some v
  unfolding get
  shown-sees listed f key v keys values e =
      let answer = found_by f (kb.read (kb.as_bytes key)) in
      let read = ok-injective (value_of kb vb (shown listed) answer) (some v) e in
      let back = keys key in bytes_of-eq-some (f key) v values (rw back at read)
