-- ===== src/Helpers/Map/Model.antt =====
-- The methods of the hash maps of bpf-helpers/src/map.rs against a partial function from keys.
use rust_bpf.Prelude.{
  ℕ, suc, ◌+◌, ◌≤◌, ◌<◌, ◌≡◌, refl, sym, ◌∙◌, List, [], ◌∷◌, Option, none, some, arith, length,
}
use rust_bpf.Helpers.Map.{KernelMap, get, insert, remove, pick}
use rust_bpf.Helpers.Map.Hash.{
  HashLaws, Among, get-insert, get-insert_other, get-remove, get-remove_other, insert-Among,
  remove-Among,
}

-- A call of a method.
pub data MapCall (K V : Type 0) : Type 0 where
  getting : K → MapCall K V
  inserting : K → V → MapCall K V
  removing : K → MapCall K V

-- The calls that may add a key.
abbrev pub inserts : {K V : Type 0} → List (MapCall K V) → ℕ
inserts [] = 0
inserts (getting key ∷ calls) = inserts calls
inserts (inserting key value ∷ calls) = suc (inserts calls)
inserts (removing key ∷ calls) = inserts calls

-- What the calls of `get` answer, on the kernel's map.
unfoldable pub answers :
    {K V : Type 0} (k : KernelMap K V) → k.State → List (MapCall K V) → List (Option V)
unfolding get insert remove
answers k s [] = []
answers k s (getting key ∷ calls) = get k s key ∷ answers k s calls
answers k s (inserting key value ∷ calls) = answers k (insert k s key value) calls
answers k s (removing key ∷ calls) = answers k (remove k s key) calls

module _ {K V : Type 0} (dec : (a b : K) → Dec (a ≡ b)) where
  -- The partial function with one key changed.
  abbrev pub changed : (K → Option V) → K → Option V → K → Option V
  changed f key value other = pick (dec key other) value (f other)

  -- What the calls of `get` answer, on the partial function.
  unfoldable pub model_answers : (K → Option V) → List (MapCall K V) → List (Option V)
  model_answers f [] = []
  model_answers f (getting key ∷ calls) = f key ∷ model_answers f calls
  model_answers f (inserting key value ∷ calls) = model_answers (changed f key (some value)) calls
  model_answers f (removing key ∷ calls) = model_answers (changed f key none) calls

  module _ (k : KernelMap K V) (laws : HashLaws k) where
    -- The map holds what the partial function says.
    abbrev Shows : k.State → (K → Option V) → Type 0
    Shows s f = (key : K) → get k s key ≡ f key

    insert-Shows :
        (s : k.State) (f : K → Option V) (key : K) (v : V)
        → Shows s f
        → (keys : List K) → Among k s keys
        → length keys < k.def.max_entries
        → Shows (insert k s key v) (changed f key (some v))
    insert-Shows s f key v shows keys among room other =
        elim (dec key other) as (λ d. get k (insert k s key v) other ≡ pick d (some v) (f other)) [
          | yes e ↦ rw (sym e) (get-insert k laws s key v keys among room)
          | no ne ↦ get-insert_other k laws s key other v ne ∙ shows other
        ]

    remove-Shows :
        (s : k.State) (f : K → Option V) (key : K)
        → Shows s f
        → Shows (remove k s key) (changed f key none)
    remove-Shows s f key shows other =
        elim (dec key other) as (λ d. get k (remove k s key) other ≡ pick d none (f other)) [
          | yes e ↦ rw (sym e) (get-remove k laws s key)
          | no ne ↦ get-remove_other k laws s key other ne ∙ shows other
        ]

    -- On a hash map as the kernel documents it, any sequence of `get`, `insert` and `remove`
    -- answers as on a partial function from keys that shows what the map holds, if the keys that
    -- are there are among those of a list, and the map has room for these and for one key more at
    -- each insertion.
    pub answers-model_answers :
        (calls : List (MapCall K V)) (s : k.State) (f : K → Option V) (keys : List K)
        → ((key : K) → get k s key ≡ f key)
        → Among k s keys
        → length keys + inserts calls ≤ k.def.max_entries
        → answers k s calls ≡ model_answers f calls
    unfolding answers model_answers
    answers-model_answers [] s f keys shows among room = refl
    answers-model_answers (getting key ∷ calls) s f keys shows among room =
        cc (shows key, answers-model_answers calls s f keys shows among room)
    answers-model_answers (inserting key value ∷ calls) s f keys shows among room =
        let fits = insert-Shows s f key value shows keys among (omega arith) in
        answers-model_answers calls (insert k s key value) (changed f key (some value)) (key ∷ keys)
          fits (insert-Among k laws dec s key value keys among) (omega arith)
    answers-model_answers (removing key ∷ calls) s f keys shows among room =
        answers-model_answers calls (remove k s key) (changed f key none) keys
          (remove-Shows s f key shows) (remove-Among k laws dec s key keys among) room
