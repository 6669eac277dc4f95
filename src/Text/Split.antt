-- ===== src/Text/Split.antt =====
-- `str::splitn` and `str::rsplitn` with a character pattern, as the lists that the iterators yield.
use rust_bpf.Prelude.{
  ℕ, zero, suc, ◌≡◌, refl, List, [], ◌∷◌, ◌++◌, Option, none, some, get_elem?, arith, ◌==◌,
  if◌then◌else◌, Lacks,
}

-- The text before the first separator, and the text behind it if there is one.
unfoldable pub cut : ℕ → List ℕ → List ℕ × Option (List ℕ)
cut sep [] = ([], none)
cut sep (c ∷ s) = let r = cut sep s in if c == sep then ([], some s) else (c ∷ r.0, r.1)

-- The text behind the last separator, and the text before it if there is one.
unfoldable pub rcut : ℕ → List ℕ → List ℕ × Option (List ℕ)
rcut sep [] = ([], none)
rcut sep (c ∷ s) =
    let r = rcut sep s in
    elim r.1 [
      | some before ↦ (r.0, some (c ∷ before))
      | none ↦ if c == sep then (r.0, some []) else (c ∷ r.0, none)
    ]

-- `s.splitn(n, sep)`.
unfoldable pub splitn : ℕ → ℕ → List ℕ → List (List ℕ)
unfolding cut
splitn zero sep s = []
splitn (suc zero) sep s = s ∷ []
splitn (suc (suc n)) sep s = elim (cut sep s).1 [
  | none ↦ (cut sep s).0 ∷ []
  | some r ↦ (cut sep s).0 ∷ splitn (suc n) sep r
]

-- `s.rsplitn(n, sep)`.
unfoldable pub rsplitn : ℕ → ℕ → List ℕ → List (List ℕ)
unfolding rcut
rsplitn zero sep s = []
rsplitn (suc zero) sep s = s ∷ []
rsplitn (suc (suc n)) sep s = elim (rcut sep s).1 [
  | none ↦ (rcut sep s).0 ∷ []
  | some r ↦ (rcut sep s).0 ∷ rsplitn (suc n) sep r
]

pub cut_at_sep : (sep : ℕ) (a b : List ℕ) → Lacks sep a → cut sep (a ++ sep ∷ b) ≡ (a, some b)
unfolding cut
cut_at_sep sep [] b h = ground arith
cut_at_sep sep (c ∷ a) b h = ground (arith, cut_at_sep sep a b)

pub cut-Lacks : (sep : ℕ) (a : List ℕ) → Lacks sep a → cut sep a ≡ (a, none)
unfolding cut
cut-Lacks sep [] h = refl
cut-Lacks sep (c ∷ a) h = ground (arith, cut-Lacks sep a)

pub Lacks-cut : (sep : ℕ) (s : List ℕ) → Lacks sep (cut sep s).0
unfolding cut
Lacks-cut sep [] = tt
Lacks-cut sep (c ∷ s) = ground (arith, Lacks-cut sep s)

pub rcut-Lacks : (sep : ℕ) (a : List ℕ) → Lacks sep a → rcut sep a ≡ (a, none)
unfolding rcut
rcut-Lacks sep [] h = refl
rcut-Lacks sep (c ∷ a) h = ground (arith, rcut-Lacks sep a)

pub rcut_at_sep : (sep : ℕ) (a b : List ℕ) → Lacks sep b → rcut sep (a ++ sep ∷ b) ≡ (b, some a)
unfolding rcut
rcut_at_sep sep [] b h = ground (arith, rcut-Lacks sep b h)
rcut_at_sep sep (c ∷ a) b h = ground (arith, rcut_at_sep sep a b h)

pub Lacks-rcut : (sep : ℕ) (s : List ℕ) → Lacks sep (rcut sep s).0
unfolding rcut
Lacks-rcut sep [] = tt
Lacks-rcut sep (c ∷ s) = ground (arith, Lacks-rcut sep s)

pub splitn_two :
    (sep n : ℕ) (a b : List ℕ)
    → Lacks sep a
    → splitn (suc (suc n)) sep (a ++ sep ∷ b) ≡ a ∷ splitn (suc n) sep b
unfolding splitn
splitn_two sep n a b h = ground (arith, cut_at_sep sep a b h)

pub splitn_pair : (sep : ℕ) (a b : List ℕ) → Lacks sep a → splitn 2 sep (a ++ sep ∷ b) ≡ a ∷ b ∷ []
unfolding splitn
splitn_pair sep a b h = splitn_two sep 0 a b h

pub splitn_one : (sep n : ℕ) (a : List ℕ) → Lacks sep a → splitn (suc (suc n)) sep a ≡ a ∷ []
unfolding splitn
splitn_one sep n a h = ground (arith, cut-Lacks sep a h)

pub rsplitn_two : (sep : ℕ) (a b : List ℕ) → Lacks sep b → rsplitn 2 sep (a ++ sep ∷ b) ≡ b ∷ a ∷ []
unfolding rsplitn
rsplitn_two sep a b h = ground (arith, rcut_at_sep sep a b h)

pub rsplitn_one : (sep : ℕ) (a : List ℕ) → Lacks sep a → rsplitn 2 sep a ≡ a ∷ []
unfolding rsplitn
rsplitn_one sep a h = ground (arith, rcut-Lacks sep a h)

pub splitn-head :
    (sep n : ℕ) (s : List ℕ) → get_elem? (splitn (suc (suc n)) sep s) 0 ≡ some (cut sep s).0
unfolding splitn
splitn-head sep n s = ground arith

pub rsplitn-head :
    (sep n : ℕ) (s : List ℕ) → get_elem? (rsplitn (suc (suc n)) sep s) 0 ≡ some (rcut sep s).0
unfolding rsplitn
rsplitn-head sep n s = ground arith

-- What a text lacks, its part before a separator lacks.
pub Lacks-cut_of : (b sep : ℕ) (s : List ℕ) → Lacks b s → Lacks b (cut sep s).0
unfolding cut
Lacks-cut_of b sep [] h = tt
Lacks-cut_of b sep (c ∷ s) h = ground (arith, Lacks-cut_of b sep s)

-- `s.split(sep)`: every part, also an empty one.
unfoldable pub push_head : ℕ → List (List ℕ) → List (List ℕ)
push_head c [] = (c ∷ []) ∷ []
push_head c (p ∷ ps) = (c ∷ p) ∷ ps

unfoldable pub split : ℕ → List ℕ → List (List ℕ)
unfolding push_head
split sep [] = [] ∷ []
split sep (c ∷ s) = if c == sep then [] ∷ split sep s else push_head c (split sep s)

pub split-Lacks : (sep : ℕ) (a : List ℕ) → Lacks sep a → split sep a ≡ a ∷ []
unfolding split
split-Lacks sep [] h = refl
split-Lacks sep (c ∷ a) h = ground (arith, split-Lacks sep a)

pub split_at_sep :
    (sep : ℕ) (a b : List ℕ) → Lacks sep a → split sep (a ++ sep ∷ b) ≡ a ∷ split sep b
unfolding split
split_at_sep sep [] b h = ground arith
split_at_sep sep (c ∷ a) b h = ground (arith, split_at_sep sep a b)
