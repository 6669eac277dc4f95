-- ===== src/Bpf/Maps/Entries.antt =====
-- bpf/src/lib.rs: what the iteration over a map yields.
use mathlib.Core.Logic.Or
use mathlib.Core.Option.{some-injective}
use mathlib.Core.List.{Mem, Mem-prop, mem-cons, not-mem-nil}
use rust_bpf.Prelude.{
  ℕ, ◌≡◌, refl, sym, ap, ◌∙◌, List, [], ◌∷◌, Option, none, some, Result, ok, err, All, Option-cases,
  inl, inr, >>=-eq-ok, ok-injective,
}
use rust_bpf.Bpf.Maps.{Bytes, Handle, filter_map, or_none, with_key, value_of, get, keys, iter}

mem-filter_map :
    {A B : Type 0} (f : A → Option B) (xs : List A) (a : A) (b : B)
    → Mem a xs
    → f a ≡ some b
    → Mem b (filter_map f xs)
unfolding filter_map
mem-filter_map f [] a b m e = absurd (not-mem-nil m)
mem-filter_map f (x ∷ xs) a b m e = elim (Option-cases (f x)) [
  | inl nothing ↦
      rw (nothing, filter_map)
        (Or.elim Mem-prop (mem-cons.0 m) (λ here. absurd (cc))
          (λ there. mem-filter_map f xs a b there e))
  | inr (c, found) ↦
      rw (found, filter_map)
        (Or.elim Mem-prop (mem-cons.0 m) (λ here. mem-cons.1 (Or.inl (cc)))
          (λ there. mem-cons.1 (Or.inr (mem-filter_map f xs a b there e))))
]

All-filter_map :
    {A B : Type 0} (P : B → Type 0) (f : A → Option B)
    → ((a : A) (b : B) → f a ≡ some b → P b)
    → (xs : List A) → All P (filter_map f xs)
unfolding filter_map
All-filter_map P f holds [] = tt
All-filter_map P f holds (x ∷ xs) = elim (Option-cases (f x)) [
  | inl nothing ↦ rw (nothing, filter_map) (All-filter_map P f holds xs)
  | inr (b, found) ↦ rw (found, filter_map) (holds x b found, All-filter_map P f holds xs)
]

-- What the crate zerocopy promises of bytes.
pub record BytesLaws {A : Type 0} (b : Bytes A) : Type 0 where
  pub read-as_bytes : (a : A) → b.read (b.as_bytes a) ≡ some a

with_key-eq-some :
    {E K V : Type 0} (r : Result E (Option V)) (key other : K) (v : V)
    → with_key key (or_none r) ≡ some (other, v)
    → (key ≡ other) × (r ≡ ok (some v))
with_key-eq-some (err e) key other v h = cc
with_key-eq-some (ok none) key other v h = cc
with_key-eq-some (ok (some w)) key other v h =
    let same = some-injective (key, w) (other, v) h in
    (ap (λ p. p.0) same, ap (λ p. ok (some p.1)) same)

value_of-eq-some :
    {K V : Type 0} (kb : Bytes K) (vb : Bytes V) (h : Handle) (found : Option (List ℕ)) (v : V)
    → value_of kb vb h found ≡ some v
    → (bytes : List ℕ) × (found ≡ some bytes)
value_of-eq-some kb vb h none v e = cc
value_of-eq-some kb vb h (some bytes) v e = (bytes, refl)

-- Every entry is what `get` answers.
pub iter-All_get :
    {K V : Type 0} (kb : Bytes K) (vb : Bytes V) (h : Handle) (s : h.State)
    → All (λ entry. get kb vb h s entry.0 ≡ ok (some entry.1)) (iter kb vb h s)
unfolding iter
iter-All_get kb vb h s =
    All-filter_map (λ entry. get kb vb h s entry.0 ≡ ok (some entry.1))
      (λ key. with_key key (or_none (get kb vb h s key)))
      (λ key entry e.
        let (same, got) = with_key-eq-some (get kb vb h s key) key entry.0 entry.1 e in
        rw (sym same) got)
      (keys kb vb h s)

module _ {K V : Type 0} (kb : Bytes K) (vb : Bytes V) (laws : BytesLaws kb) (h : Handle) where
  get-lookup :
      (s : h.State) (key : K) (v : V)
      → get kb vb h s key ≡ ok (some v)
      → (bytes : List ℕ) × (h.lookup s (kb.as_bytes key) ≡ ok (some bytes))
  unfolding get
  get-lookup s key v e =
      let (found, looked, valued) = >>=-eq-ok (h.lookup s (kb.as_bytes key)) _ e in
      let (bytes, same) =
        value_of-eq-some kb vb h found v (ok-injective (value_of kb vb h found) (some v) valued) in
      (bytes, looked ∙ ap ok same)

  -- If the kernel lists every key that it finds, and keys are read back from their bytes, the
  -- iteration over a map yields just the pairs that `get` answers with.
  pub iter-get :
      (s : h.State)
      → ((key : K) (bytes : List ℕ)
          → h.lookup s (kb.as_bytes key) ≡ ok (some bytes)
          → Mem (kb.as_bytes key) (h.keys s))
      → All (λ entry. get kb vb h s entry.0 ≡ ok (some entry.1)) (iter kb vb h s)
        × ((key : K) (v : V) → get kb vb h s key ≡ ok (some v) → Mem (key, v) (iter kb vb h s))
  unfolding iter keys
  iter-get s complete = (
    iter-All_get kb vb h s,
    λ key v got.
        let (bytes, looked) = get-lookup s key v got in
        let listed =
          mem-filter_map kb.read (h.keys s) (kb.as_bytes key) key (complete key bytes looked)
            (laws.read-as_bytes key) in
        mem-filter_map (λ key. with_key key (or_none (get kb vb h s key))) (keys kb vb h s) key
          (key, v) listed (ap (λ r. with_key key (or_none r)) got),
  )
