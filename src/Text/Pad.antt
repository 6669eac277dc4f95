-- ===== src/Text/Pad.antt =====
-- Widths of the formatting macros: `{:n}` of a text and of a number, and `{:0>n}`.
use rust_bpf.Prelude.{ℕ, ◌-◌, List, ◌++◌, length, replicate}

abbrev pub pad_right : (width : ℕ) → List ℕ → List ℕ
pad_right width s = s ++ replicate (width - length s) b' '

abbrev pub pad_left : (fill width : ℕ) → List ℕ → List ℕ
pad_left fill width s = replicate (width - length s) fill ++ s
