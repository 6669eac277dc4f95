-- ===== src/Bpf/Maps.antt =====
-- bpf/src/lib.rs: the typed views of an object's maps from user space.
pub mod Entries
use rust_bpf.Prelude.{
  ℕ, zero, suc, ◌+◌, ◌*◌, List, [], ◌∷◌, Option, none, some, Result, ok, err, ◌>>=◌, map_err,
}

-- The traits of the crate zerocopy: a value as its bytes, and the bytes of the right length as a
-- value.
pub record Bytes (A : Type 0) : Type 0 where
  pub as_bytes : A → List ℕ
  pub read : List ℕ → Option A

-- What libbpf answers about a map.
pub record Handle : Type 1 where
  pub Error : Type 0
  pub State : Type 0
  pub lookup : State → List ℕ → Result Error (Option (List ℕ))
  pub update : State → List ℕ → List ℕ → Result Error State
  pub keys : State → List (List ℕ)

unfoldable pub filter_map : {A B : Type 0} → (A → Option B) → List A → List B
filter_map f [] = []
filter_map f (x ∷ xs) = elim (f x) [ none ↦ filter_map f xs | some b ↦ b ∷ filter_map f xs ]

-- `.ok().unwrap_or_default()`.
abbrev pub or_none : {E A : Type 0} → Result E (Option A) → Option A
or_none (ok found) = found
or_none (err e) = none

-- A value behind its key.
abbrev pub with_key : {K V : Type 0} → K → Option V → Option (K × V)
with_key key none = none
with_key key (some value) = some (key, value)

module _ {K V : Type 0} (kb : Bytes K) (vb : Bytes V) (h : Handle) where
  abbrev pub value_of : Option (List ℕ) → Option V
  value_of none = none
  value_of (some bytes) = vb.read bytes

  unfoldable pub get : h.State → K → Result h.Error (Option V)
  get s key = do found ← h.lookup s (kb.as_bytes key); ok (value_of found)

  unfoldable pub insert : h.State → K → V → Result h.Error h.State
  insert s key value = h.update s (kb.as_bytes key) (vb.as_bytes value)

  unfoldable pub keys : h.State → List K
  unfolding filter_map
  keys s = filter_map kb.read (h.keys s)

  unfoldable pub iter : h.State → List (K × V)
  unfolding keys get filter_map
  iter s = filter_map (λ key. with_key key (or_none (get s key))) (keys s)

-- Words of eight bytes, the lowest first, as the machine stores them; `none` is an access behind
-- the end.
unfoldable pub read_word : ℕ → List ℕ → Option (ℕ × List ℕ)
read_word zero bytes = some (0, bytes)
read_word (suc n) [] = none
read_word (suc n) (b ∷ bytes) = elim (read_word n bytes) [
  | none ↦ none
  | some (w, rest) ↦ some (b + 256 * w, rest)
]

unfoldable pub read_words : ℕ → List ℕ → Option (List ℕ)
unfolding read_word
read_words zero bytes = some []
read_words (suc n) bytes = elim (read_word 8 bytes) [
  | none ↦ none
  | some (w, rest) ↦ elim (read_words n rest) [ none ↦ none | some ws ↦ some (w ∷ ws) ]
]

-- What `raw_stack_trace` fails with; `out_of_bounds` is its unchecked read of too few bytes.
pub data StackError (E : Type 0) : Type 0 where
  failed : E → StackError E
  out_of_bounds : StackError E

abbrev pub frames_of : {E : Type 0} → Option (List ℕ) → Result (StackError E) (Option (List ℕ))
frames_of none = err out_of_bounds
frames_of (some ips) = ok (some ips)

abbrev pub stack_of : {E : Type 0} → Option (List ℕ) → Result (StackError E) (Option (List ℕ))
stack_of none = ok none
stack_of (some bytes) = frames_of (read_words 127 bytes)

unfoldable pub raw_stack_trace :
    (to_ne_bytes : ℕ → List ℕ) (h : Handle)
    → h.State
    → ℕ
    → Result (StackError h.Error) (Option (List ℕ))
unfolding read_words
raw_stack_trace to_ne_bytes h s id = do
  found ← map_err failed (h.lookup s (to_ne_bytes id))
  stack_of found
