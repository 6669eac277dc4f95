-- ===== src/Prelude/Sort.antt =====
-- `sort_unstable_by_key` with a key that is a number, by insertion: elements with equal keys may
-- come in any order there, and come in the order of the list here.
use Prim.Native.Nat.{ℕ, ◌≤◌}
use mathlib.Core.Path.{◌≡◌}
use mathlib.Core.Logic.{◌⊎◌, inl, inr}
use mathlib.Core.Bool.{true, false}
use mathlib.Core.List.{List, [], ◌∷◌}
use native.Mathlib.Omega.{arith}
use rust_bpf.Prelude.Tests.{leb, Bool-cases, if◌then◌else◌}
use rust_bpf.Prelude.Lists.{All}

-- Some element has the property.
abbrev pub Any {ℓ} : {A : Type ℓ} (P : A → Type 0) → List A → Type 0
Any P [] = ⊥
Any P (x ∷ xs) = P x ⊎ Any P xs

unfoldable pub insert_by {ℓ} : {A : Type ℓ} → (A → ℕ) → A → List A → List A
insert_by key e [] = e ∷ []
insert_by key e (f ∷ xs) =
    let rest = insert_by key e xs in if leb (key e) (key f) then e ∷ f ∷ xs else f ∷ rest

unfoldable pub sort_by_key {ℓ} : {A : Type ℓ} → (A → ℕ) → List A → List A
unfolding insert_by
sort_by_key key [] = []
sort_by_key key (e ∷ xs) = insert_by key e (sort_by_key key xs)

-- No element has a smaller key than the one before it.
abbrev pub IsSorted {ℓ} : {A : Type ℓ} → (A → ℕ) → List A → Type 0
IsSorted key [] = Unit
IsSorted key (e ∷ []) = Unit
IsSorted key (e ∷ f ∷ xs) = (key e ≤ key f) × IsSorted key (f ∷ xs)

leb→le : (a b : ℕ) → leb a b ≡ true → a ≤ b
leb→le a b h = ground arith

leb-false→le : (a b : ℕ) → leb a b ≡ false → b ≤ a
leb-false→le a b h = ground arith

module _ {ℓ} {A : Type ℓ} (key : A → ℕ) where
  tail-IsSorted : (e : A) (xs : List A) → IsSorted key (e ∷ xs) → IsSorted key xs
  tail-IsSorted e [] h = tt
  tail-IsSorted e (f ∷ xs) h = h.1

  behind-IsSorted :
      (e f : A) (xs : List A)
      → key f ≤ key e
      → IsSorted key (f ∷ xs)
      → IsSorted key (insert_by key e xs)
      → IsSorted key (f ∷ insert_by key e xs)
  unfolding insert_by
  behind-IsSorted e f [] le h k = (le, k)
  behind-IsSorted e f (g ∷ xs) le h k = elim (Bool-cases (leb (key e) (key g))) [
    | inl low ↦ rw (low, insert_by) (le, rw (low, insert_by) at k)
    | inr high ↦ rw (high, insert_by) (h.0, rw (high, insert_by) at k)
  ]

  insert_by-IsSorted : (e : A) (xs : List A) → IsSorted key xs → IsSorted key (insert_by key e xs)
  unfolding insert_by
  insert_by-IsSorted e [] h = tt
  insert_by-IsSorted e (f ∷ xs) h = elim (Bool-cases (leb (key e) (key f))) [
    | inl low ↦ rw (low, insert_by) (leb→le _ _ low, h)
    | inr high ↦
        rw (high, insert_by)
          (behind-IsSorted e f xs (leb-false→le _ _ high) h
            (insert_by-IsSorted e xs (tail-IsSorted f xs h)))
  ]

  pub sort_by_key-IsSorted : (xs : List A) → IsSorted key (sort_by_key key xs)
  unfolding sort_by_key
  sort_by_key-IsSorted [] = tt
  sort_by_key-IsSorted (e ∷ xs) =
      insert_by-IsSorted e (sort_by_key key xs) (sort_by_key-IsSorted xs)

module _ {ℓ} {A : Type ℓ} (key : A → ℕ) (P : A → Type 0) where
  insert_by-Any : (e : A) (xs : List A) → Any P (e ∷ xs) → Any P (insert_by key e xs)
  unfolding insert_by
  insert_by-Any e [] h = h
  insert_by-Any e (f ∷ xs) h = elim (Bool-cases (leb (key e) (key f))) [
    | inl low ↦ rw (low, insert_by) h
    | inr high ↦
        rw (high, insert_by)
          (elim h [
            | inl here ↦ inr (insert_by-Any e xs (inl here))
            | inr (inl next) ↦ inl next
            | inr (inr there) ↦ inr (insert_by-Any e xs (inr there))
          ])
  ]

  pub sort_by_key-Any : (xs : List A) → Any P xs → Any P (sort_by_key key xs)
  unfolding sort_by_key
  sort_by_key-Any [] h = h
  sort_by_key-Any (e ∷ xs) (inl here) = insert_by-Any e (sort_by_key key xs) (inl here)
  sort_by_key-Any (e ∷ xs) (inr there) =
      insert_by-Any e (sort_by_key key xs) (inr (sort_by_key-Any xs there))

  insert_by-All : (e : A) (xs : List A) → P e → All P xs → All P (insert_by key e xs)
  unfolding insert_by
  insert_by-All e [] p h = (p, tt)
  insert_by-All e (f ∷ xs) p h = elim (Bool-cases (leb (key e) (key f))) [
    | inl low ↦ rw (low, insert_by) (p, h)
    | inr high ↦ rw (high, insert_by) (h.0, insert_by-All e xs p h.1)
  ]

  pub sort_by_key-All : (xs : List A) → All P xs → All P (sort_by_key key xs)
  unfolding sort_by_key
  sort_by_key-All [] h = tt
  sort_by_key-All (e ∷ xs) h = insert_by-All e (sort_by_key key xs) h.0 (sort_by_key-All xs h.1)
