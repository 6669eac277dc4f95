-- ===== src/Text/Find.antt =====
-- `starts_with`, `contains` and `replace` of `str`, for a pattern that is not empty.
use rust_bpf.Prelude.{
  ℕ, zero, suc, ◌-◌, Bool, true, false, ◌&&◌, ◌||◌, List, [], ◌∷◌, ◌++◌, ◌==◌, length,
  if◌then◌else◌,
}

unfoldable pub starts_with : List ℕ → List ℕ → Bool
starts_with s [] = true
starts_with [] (p ∷ pattern) = false
starts_with (c ∷ s) (p ∷ pattern) = c == p && starts_with s pattern

unfoldable pub contains : List ℕ → List ℕ → Bool
unfolding starts_with
contains [] pattern = false
contains (c ∷ s) pattern = starts_with (c ∷ s) pattern || contains s pattern

-- The text behind `skip` characters, with the pattern replaced.
unfoldable pub replace_from : (skip : ℕ) → List ℕ → (pattern by : List ℕ) → List ℕ
unfolding starts_with
replace_from skip [] pattern by = []
replace_from (suc skip) (c ∷ s) pattern by = replace_from skip s pattern by
replace_from zero (c ∷ s) pattern by =
    let behind = replace_from (length pattern - 1) s pattern by in
    let rest = replace_from zero s pattern by in
    if starts_with (c ∷ s) pattern then by ++ behind else c ∷ rest

unfoldable pub replace : List ℕ → (pattern by : List ℕ) → List ℕ
unfolding replace_from
replace s pattern by = replace_from zero s pattern by
