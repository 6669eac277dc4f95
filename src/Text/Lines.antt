-- ===== src/Text/Lines.antt =====
-- `BufRead::lines`: the lines of a text, each without its newline and a carriage return before it.
use rust_bpf.Prelude.{
  ℕ, ◌≡◌, ◌≢◌, refl, ap, ◌∙◌, Bool, false, List, [], ◌∷◌, ◌++◌, ◌&&◌, ◌==◌, arith, Lacks, All,
  if◌then◌else◌,
}
use rust_bpf.Text.Split.{push_head}

abbrev at_newline : List ℕ → Bool
at_newline [] = false
at_newline (c ∷ s) = c == b'\n'

unfoldable pub lines : List ℕ → List (List ℕ)
unfolding push_head
lines [] = []
lines (c ∷ s) =
    let rest = lines s in
    if c == b'\n' then [] ∷ rest else if c == 13 && at_newline s then rest else push_head c rest

-- What `writeln!` makes of lines.
abbrev pub unlines : List (List ℕ) → List ℕ
unlines [] = []
unlines (line ∷ rest) = line ++ b'\n' ∷ unlines rest

-- A line that is read back: no newline is in it, and no carriage return is its end.
abbrev pub IsLine : List ℕ → Type 0
IsLine [] = Unit
IsLine (c ∷ []) = (c ≢ b'\n') × (c ≢ 13)
IsLine (c ∷ d ∷ s) = (c ≢ b'\n') × IsLine (d ∷ s)

IsLine-head : (c : ℕ) (s : List ℕ) → IsLine (c ∷ s) → c ≢ b'\n'
IsLine-head c [] h = h.0
IsLine-head c (d ∷ s) h = h.0

lines-cons :
    (c d : ℕ) (s : List ℕ) → c ≢ b'\n' → d ≢ b'\n' → lines (c ∷ d ∷ s) ≡ push_head c (lines (d ∷ s))
unfolding lines
lines-cons c d s hc hd = ground arith

lines-line : (line s : List ℕ) → IsLine line → lines (line ++ b'\n' ∷ s) ≡ line ∷ lines s
unfolding lines push_head
lines-line [] s h = refl
lines-line (c ∷ []) s h = ground arith
lines-line (c ∷ d ∷ line) s h =
    lines-cons c d (line ++ b'\n' ∷ s) h.0 (IsLine-head d line h.1)
    ∙ rw (lines-line (d ∷ line) s h.1) refl

pub lines-unlines : (ls : List (List ℕ)) → All IsLine ls → lines (unlines ls) ≡ ls
unfolding lines
lines-unlines [] h = refl
lines-unlines (line ∷ ls) h =
    lines-line line (unlines ls) h.0 ∙ ap (λ rest. line ∷ rest) (lines-unlines ls h.1)

-- A text that ends with a line behind another character.
pub IsLine-append :
    (a : List ℕ) (c : ℕ) (s : List ℕ) → Lacks b'\n' a → IsLine (c ∷ s) → IsLine (a ++ c ∷ s)
IsLine-append [] c s h line = line
IsLine-append (d ∷ []) c s h line = (h.0, line)
IsLine-append (d ∷ e ∷ a) c s h line = (h.0, IsLine-append (e ∷ a) c s h.1 line)

pub IsLine-Lacks : (s : List ℕ) → Lacks b'\n' s → Lacks 13 s → IsLine s
IsLine-Lacks [] h r = tt
IsLine-Lacks (c ∷ []) h r = (h.0, r.0)
IsLine-Lacks (c ∷ d ∷ s) h r = (h.0, IsLine-Lacks (d ∷ s) h.1 r.1)
