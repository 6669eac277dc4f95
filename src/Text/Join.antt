-- ===== src/Text/Join.antt =====
-- `join` of texts with a separator between them.
use rust_bpf.Prelude.{ℕ, ◌≡◌, ap, ◌∙◌, List, [], ◌∷◌, ◌++◌, All, Lacks}
use rust_bpf.Text.Split.{split, split-Lacks, split_at_sep}

unfoldable pub join : ℕ → List (List ℕ) → List ℕ
join sep [] = []
join sep (p ∷ []) = p
join sep (p ∷ q ∷ ps) = p ++ sep ∷ join sep (q ∷ ps)

pub split-join :
    (sep : ℕ) (p : List ℕ) (ps : List (List ℕ))
    → All (Lacks sep) (p ∷ ps)
    → split sep (join sep (p ∷ ps)) ≡ p ∷ ps
unfolding join
split-join sep p [] h = split-Lacks sep p h.0
split-join sep p (q ∷ ps) h =
    split_at_sep sep p (join sep (q ∷ ps)) h.0 ∙ ap (λ rest. p ∷ rest) (split-join sep q ps h.1)
