-- ===== src/Trace/Graph/Drawn.antt =====
-- cargo-trace/src/main.rs: the lines that the flame graph is drawn of.
use mathlib.Core.List.{reverse, reverse-cons}
use mathlib.Core.Path.{subst}
use rust_bpf.Prelude.{
  ℕ, ◌≡◌, ◌≢◌, refl, sym, ap, ◌∙◌, inl, inr, true, List, [], ◌∷◌, ◌++◌, some, Result, ok, err,
  ◌>>=◌, Result-cases, All, All-append, Lacks, append_assoc, append-nil, arith,
}
use rust_bpf.Text.{Text, codes}
use rust_bpf.Text.Lines.{unlines, IsLine, lines-unlines, IsLine-append, IsLine-Lacks}
use rust_bpf.Text.Join.{join}
use rust_bpf.Text.Number.{show_radix}
use rust_bpf.Text.Number.ReadShow.{show_radix-IsShown, IsShown-Lacks}
use rust_bpf.Trace.Collapse.{Resolver, stack_symbols, collapsed_line, collapse}
use rust_bpf.Trace.Collapse.Lines.{Named, stack_symbols-Named}
use rust_bpf.Trace.Graph.{
  resolve, Disk, Files, FromLines, GraphError, outcome, write_stacks, draw, draw_written,
  write_flamegraph,
}

-- Every file can be created and read, and a text that is written stands behind what was there.
pub record Works (files : Files) : Type 0 where
  pub creates : (path : Text) → files.create path ≡ true
  pub reads : (path : Text) → files.opens path ≡ true
  pub appends : (file text : Text) → files.append file text ≡ (file ++ text, true)

All-reverse : {A : Type 0} (P : A → Type 0) (xs : List A) → All P xs → All P (reverse xs)
All-reverse P [] h = tt
All-reverse P (x ∷ xs) h =
    subst (All P) (sym (reverse-cons x xs))
      (All-append P (reverse xs) (x ∷ []) (All-reverse P xs h.1) (h.0, tt))

Lacks-join : (b sep : ℕ) (ps : List Text) → sep ≢ b → All (Lacks b) ps → Lacks b (join sep ps)
unfolding join
Lacks-join b sep [] ne h = tt
Lacks-join b sep (p ∷ []) ne h = h.0
Lacks-join b sep (p ∷ q ∷ ps) ne h =
    All-append (λ c. c ≢ b) p (sep ∷ join sep (q ∷ ps)) h.0 (ne, Lacks-join b sep (q ∷ ps) ne h.1)

collapsed_line-IsLine :
    (symbols : List Text) (count : ℕ)
    → All (Lacks b'\n') symbols
    → IsLine (collapsed_line symbols count)
unfolding collapsed_line
collapsed_line-IsLine symbols count h =
    let shown = show_radix-IsShown 10 (omega arith) (omega arith) count in
    IsLine-append (join b';' (reverse symbols)) b' ' (show_radix 10 count)
      (Lacks-join b'\n' b';' (reverse symbols) (omega arith) (All-reverse (Lacks b'\n') symbols h))
      (IsLine-Lacks (b' ' ∷ show_radix 10 count)
        (omega arith, IsShown-Lacks b'\n' (show_radix 10 count) (inl refl) shown)
        (omega arith, IsShown-Lacks 13 (show_radix 10 count) (inl refl) shown))

module _ {E : Type 0} (name_of : Resolver E) where
  -- The lines of the stacks in front of the first one that cannot be resolved, which ends with the
  -- error.
  abbrev pub Front : List (List ℕ × ℕ) → E → List Text → Type 0
  Front stacks e before =
      (front : List (List ℕ × ℕ)) × (stack : List ℕ) × (count : ℕ) × (back : List (List ℕ × ℕ))
      × (stacks ≡ front ++ (stack, count) ∷ back)
      × (collapse name_of front ≡ ok before)
      × (stack_symbols name_of stack ≡ err e)

  -- What the loop writes: every line, or those in front of an error.
  abbrev Writes :
      List (List ℕ × ℕ)
      → (file : Text) → Result E (List Text)
      → Text × Result (GraphError E) Unit
      → Type 0
  Writes stacks file (ok ls) written = (written ≡ (file ++ unlines ls, ok tt)) × All IsLine ls
  Writes stacks file (err e) written =
      (before : List Text) × Front stacks e before
      × (written ≡ (file ++ unlines before, err (resolve e)))

  -- What the two files hold behind the run, and how it ends.
  abbrev pub Draws :
      FromLines
      → (title : Text) → List (List ℕ × ℕ)
      → Disk
      → Result E (List Text)
      → Disk × Result (GraphError E) Unit
      → Type 0
  Draws from_lines title stacks d (ok ls) (d', r) =
      (d'.collapsed ≡ some (unlines ls))
      × (d'.svg ≡ some (from_lines title ls).0)
      × (r ≡ outcome (from_lines title ls).1)
  Draws from_lines title stacks d (err e) (d', r) =
      (before : List Text) × Front stacks e before
      × (d'.collapsed ≡ some (unlines before))
      × (d'.svg ≡ d.svg)
      × (r ≡ err (resolve e))

module _ {E : Type 0} (name_of : Resolver E)
    (plain : (ip : ℕ) (name : Text) → name_of ip ≡ ok (some name) → Lacks b'\n' name) where
  Named-Lacks :
      (ips : List ℕ) (symbols : List Text) → Named name_of ips symbols → All (Lacks b'\n') symbols
  Named-Lacks ips [] h = tt
  Named-Lacks [] (symbol ∷ symbols) h = absurd h
  Named-Lacks (ip ∷ ips) (symbol ∷ symbols) (ne, named, h) =
      (plain ip symbol named, Named-Lacks ips symbols h)

  collapse-cons :
      (stack : List ℕ) (count : ℕ) (stacks : List (List ℕ × ℕ)) {symbols : List Text}
      {ls : List Text}
      → stack_symbols name_of stack ≡ ok symbols
      → collapse name_of stacks ≡ ok ls
      → collapse name_of ((stack, count) ∷ stacks) ≡ ok (collapsed_line symbols count ∷ ls)
  unfolding collapse
  collapse-cons stack count stacks resolved collapsed = rw (resolved, collapsed) refl

  behind_line :
      (file line rest : Text)
      → (file ++ (line ++ b'\n' ∷ [])) ++ rest ≡ file ++ (line ++ b'\n' ∷ rest)
  behind_line file line rest =
      append_assoc file (line ++ b'\n' ∷ []) rest
      ∙ ap (λ t. file ++ t) (append_assoc line (b'\n' ∷ []) rest)

  Writes-cons :
      (stack : List ℕ) (count : ℕ) (stacks : List (List ℕ × ℕ)) (file : Text) (symbols : List Text)
      (r : Result E (List Text)) (w : Text × Result (GraphError E) Unit)
      → stack_symbols name_of stack ≡ ok symbols
      → Writes name_of stacks (file ++ (collapsed_line symbols count ++ b'\n' ∷ [])) r w
      → Writes name_of
          ((stack, count) ∷ stacks)
          file
          (r >>= λ ls. ok (collapsed_line symbols count ∷ ls))
          w
  Writes-cons stack count stacks file symbols (ok ls) w resolved (written, are) = (
    written ∙ ap (λ t. (t, ok tt)) (behind_line file (collapsed_line symbols count) (unlines ls)),
    (
      collapsed_line-IsLine symbols count
          (Named-Lacks stack symbols (stack_symbols-Named name_of stack resolved)),
      are,
    ),
  )
  Writes-cons stack count stacks file symbols (err e) w resolved
        (before, (front, bad, n, back, split, collapsed, unresolved), written) =
      (
        collapsed_line symbols count ∷ before,
        (
          (stack, count) ∷ front,
          bad,
          n,
          back,
          ap (λ rest. (stack, count) ∷ rest) split,
          collapse-cons stack count front resolved collapsed,
          unresolved,
        ),
        written
            ∙ ap (λ t. (t, err (resolve e)))
                (behind_line file (collapsed_line symbols count) (unlines before)),
      )

  module _ (files : Files) (works : Works files) where
    write_stacks-Writes :
        (stacks : List (List ℕ × ℕ)) (file : Text)
        → Writes name_of stacks file
            (collapse name_of stacks)
            (write_stacks files name_of stacks file)
    unfolding write_stacks collapse
    write_stacks-Writes [] file = (rw (append-nil file) refl, tt)
    write_stacks-Writes ((stack, count) ∷ stacks) file =
        elim (Result-cases (stack_symbols name_of stack)) [
          | inl (e, failed) ↦
              rw (failed, write_stacks)
                (
                  [],
                  ([], stack, count, stacks, refl, refl, failed),
                  rw (append-nil file, write_stacks) refl,
                )
          | inr (symbols, resolved) ↦
              rw (resolved, works.appends, write_stacks)
                (Writes-cons stack count stacks file symbols (collapse name_of stacks) _ resolved (
                  write_stacks-Writes stacks
                    (file ++ (collapsed_line symbols count ++ b'\n' ∷ []))))
        ]

    draw_written-Draws :
        (from_lines : FromLines) (title : Text) (stacks : List (List ℕ × ℕ)) (d : Disk)
        (r : Result E (List Text)) (w : Text × Result (GraphError E) Unit)
        → Writes name_of stacks [] r w
        → Draws name_of from_lines title stacks d r
            (draw_written files name_of from_lines title d w)
    unfolding draw_written draw
    draw_written-Draws from_lines title stacks d (ok ls) w (written, are) =
        rw (written, works.reads, works.creates, lines-unlines ls are, draw) (refl, refl, refl)
    draw_written-Draws from_lines title stacks d (err e) w (before, front, written) =
        rw written (before, front, refl, refl, refl)

    -- If every file can be created, read and appended to, and no symbol has a newline in its name,
    -- then a run whose symbols can be resolved leaves the collapsed lines, each with a newline, in
    -- `collapsed.txt`, and in `flamegraph.svg` what the library draws of just these lines, and
    -- ends as the library does; at an error of a symbol it ends with that error, the lines of just
    -- the stacks in front of the first one that has the error are in `collapsed.txt`, and
    -- `flamegraph.svg` is as it was.
    pub write_flamegraph-Draws :
        (from_lines : FromLines) (stacks : List (List ℕ × ℕ)) (title : Text) (d : Disk)
        → Draws name_of from_lines title stacks d
            (collapse name_of stacks)
            (write_flamegraph files name_of from_lines stacks title d)
    unfolding write_flamegraph
    write_flamegraph-Draws from_lines stacks title d = rw (works.creates (codes "collapsed.txt")) (
        draw_written-Draws from_lines title stacks d (collapse name_of stacks)
          (write_stacks files name_of stacks []) (write_stacks-Writes stacks []))
