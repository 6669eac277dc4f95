-- ===== src/Trace/Graph.antt =====
-- cargo-trace/src/main.rs: `write_flamegraph`, over the files that it writes.
pub mod Drawn
use rust_bpf.Prelude.{
  ℕ, Bool, true, false, List, [], ◌∷◌, ◌++◌, Option, none, some, Result, ok, err, if◌then◌else◌,
}
use rust_bpf.Text.{Text, codes}
use rust_bpf.Text.Lines.{lines}
use rust_bpf.Trace.Collapse.{Resolver, stack_symbols, collapsed_line}

-- What the two files hold.
pub record Disk : Type 0 where
  pub collapsed : Option Text
  pub svg : Option Text

-- The operating system: whether a file can be created or opened for reading, and what a file holds
-- once a text was written behind what it held, and whether that succeeded.
pub record Files : Type 0 where
  pub create : Text → Bool
  pub opens : Text → Bool
  pub append : Text → Text → Text × Bool

-- The library inferno: what `from_lines` writes for a title and its lines, and whether it succeeds.
abbrev pub FromLines : Type 0
FromLines = Text → List Text → Text × Bool

pub data GraphError (E : Type 0) : Type 0 where
  io flamegraph : GraphError E
  resolve : E → GraphError E

abbrev pub outcome : {E : Type 0} → Bool → Result (GraphError E) Unit
outcome true = ok tt
outcome false = err flamegraph

-- The loop: what `collapsed.txt` holds behind it, and its result.
module _ {E : Type 0} (files : Files) (name_of : Resolver E) where
  unfoldable pub write_stacks :
      List (List ℕ × ℕ) → (file : Text) → Text × Result (GraphError E) Unit
  unfolding stack_symbols collapsed_line
  write_stacks [] file = (file, ok tt)
  write_stacks ((stack, count) ∷ stacks) file = elim (stack_symbols name_of stack) [
    | err e ↦ (file, err (resolve e))
    | ok symbols ↦
        let written = files.append file (collapsed_line symbols count ++ b'\n' ∷ []) in
        let rest = write_stacks stacks written.0 in if written.1 then rest else (written.0, err io)
  ]

  -- From the reading of `collapsed.txt` on.
  unfoldable pub draw :
      (from_lines : FromLines) (title file : Text) → Disk → Disk × Result (GraphError E) Unit
  unfolding lines
  draw from_lines title file d =
      let graph = from_lines title (lines file) in
      if files.opens (codes "collapsed.txt")
      then if files.create (codes "flamegraph.svg")
        then (record d { svg = some graph.0 }, outcome graph.1)
        else (d, err io)
      else (d, err io)

  unfoldable pub draw_written :
      (from_lines : FromLines) (title : Text)
      → Disk
      → Text × Result (GraphError E) Unit
      → Disk × Result (GraphError E) Unit
  unfolding draw
  draw_written from_lines title d (file, err e) = (record d { collapsed = some file }, err e)
  draw_written from_lines title d (file, ok u) =
      draw from_lines title file (record d { collapsed = some file })

  unfoldable pub write_flamegraph :
      (from_lines : FromLines)
      → List (List ℕ × ℕ)
      → (title : Text) → Disk
      → Disk × Result (GraphError E) Unit
  unfolding write_stacks draw_written
  write_flamegraph from_lines stacks title d =
      if files.create (codes "collapsed.txt")
      then draw_written from_lines title d (write_stacks stacks [])
      else (d, err io)
