-- ===== src/Tests/Graph.antt =====
-- Drawing the flame graph of two stacks.
use rust_bpf.Prelude.{
  ℕ, zero, suc, ◌≡◌, refl, true, List, [], ◌∷◌, ◌++◌, Option, none, some, Result, ok, err, Lacks,
  arith,
}
use mathlib.Core.Path.{subst}
use rust_bpf.Text.{Text, codes}
use rust_bpf.Trace.Collapse.{Resolver, collapse}
use rust_bpf.Trace.Graph.{Disk, Files, FromLines, GraphError, write_flamegraph}
use rust_bpf.Trace.Graph.Drawn.{Works, Draws, write_flamegraph-Draws}

abbrev named : Resolver Unit
named (suc (suc zero)) = ok (some (codes "main"))
named (suc (suc (suc ip))) = err tt
named _ = ok (some (codes "f"))

some_plain :
    (name shown : Text)
    → Lacks b'\n' name
    → ◌≡◌ {A = Result Unit (Option Text)} (ok (some name)) (ok (some shown))
    → Lacks b'\n' shown
some_plain name shown h same = subst (Lacks b'\n') (cc) h

named-Lacks : (ip : ℕ) (name : Text) → named ip ≡ ok (some name) → Lacks b'\n' name
named-Lacks zero name h = some_plain (codes "f") name (omega arith, tt) h
named-Lacks (suc zero) name h = some_plain (codes "f") name (omega arith, tt) h
named-Lacks (suc (suc zero)) name h =
    some_plain (codes "main") name (omega arith, (omega arith, (omega arith, (omega arith, tt)))) h
named-Lacks (suc (suc (suc ip))) name h = absurd (cc)

abbrev pub files : Files
files = record {
  create = λ path. true;
  opens = λ path. true;
  append = λ file text. (file ++ text, true);
}

pub files-Works : Works files
files-Works = record { creates = λ path. refl; reads = λ path. refl; appends = λ file text. refl }

-- Draws the title and the lines, one behind the other.
abbrev concat_all : List Text → Text
concat_all [] = []
concat_all (line ∷ rest) = line ++ concat_all rest

abbrev pub from_lines : FromLines
from_lines title ls = (title ++ concat_all ls, true)

abbrev pub blank_disk : Disk
blank_disk = record { collapsed = none; svg = none }

abbrev stacks : List (List ℕ × ℕ)
stacks = (1 ∷ 2 ∷ 0 ∷ [], 5) ∷ (2 ∷ [], 12) ∷ []

write_flamegraph-Draws_example :
    Draws named from_lines
      (codes "t")
      stacks
      blank_disk
      (collapse named stacks)
      (write_flamegraph files named from_lines stacks (codes "t") blank_disk)
write_flamegraph-Draws_example =
    write_flamegraph-Draws named named-Lacks files files-Works from_lines stacks (codes "t")
      blank_disk

collapse-stacks : collapse named stacks ≡ ok (codes "main;f 5" ∷ codes "main 12" ∷ [])
unfolding collapse
collapse-stacks = refl

drawn : (write_flamegraph files named from_lines stacks (codes "t") blank_disk).0 ≡ record {
  collapsed = some (codes "main;f 5" ++ b'\n' ∷ codes "main 12" ++ b'\n' ∷ []);
  svg = some (codes "tmain;f 5main 12");
}
unfolding write_flamegraph
drawn = refl

-- The second stack has an address that cannot be resolved.
cut_off :
    write_flamegraph files named from_lines ((2 ∷ [], 1) ∷ (3 ∷ [], 1) ∷ []) (codes "t") blank_disk
    ≡ (
      record { collapsed = some (codes "main 1" ++ b'\n' ∷ []); svg = none },
      err (GraphError.resolve tt),
    )
unfolding write_flamegraph
cut_off = refl
