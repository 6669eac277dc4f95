-- ===== src/Text/Trim.antt =====
-- `str::trim`, over the characters that Unicode calls white space.
use rust_bpf.Prelude.{ℕ, Bool, List, [], ◌∷◌, ◌&&◌, ◌||◌, ◌==◌, leb, if◌then◌else◌}

unfoldable pub is_whitespace : ℕ → Bool
is_whitespace c =
    leb 9 c && leb c 13
    || c == b' '
    || c == 0x85
    || c == 0xa0
    || c == 0x1680
    || leb 0x2000 c && leb c 0x200a
    || c == 0x2028
    || c == 0x2029
    || c == 0x202f
    || c == 0x205f
    || c == 0x3000

unfoldable pub trim_start : List ℕ → List ℕ
unfolding is_whitespace
trim_start [] = []
trim_start (c ∷ s) = let rest = trim_start s in if is_whitespace c then rest else c ∷ s

-- A white character is dropped where nothing is left behind it.
unfoldable pub trim_last : ℕ → List ℕ → List ℕ
unfolding is_whitespace
trim_last c [] = if is_whitespace c then [] else c ∷ []
trim_last c (d ∷ s) = c ∷ d ∷ s

unfoldable pub trim_end : List ℕ → List ℕ
unfolding trim_last
trim_end [] = []
trim_end (c ∷ s) = trim_last c (trim_end s)

unfoldable pub trim : List ℕ → List ℕ
unfolding trim_start trim_end
trim s = trim_end (trim_start s)
