-- ===== src/Unwind/Agree/Stack.antt =====
-- cargo-trace/probe/src/main.rs beside bpf-backtrace/src/lib.rs: whole stacks.
use rust_bpf.Prelude.{
  ℕ, zero, suc, ◌≤◌, ◌≡◌, ◌≢◌, inl, inr, refl, sym, ap, ◌∙◌, List, [], ◌∷◌, ◌++◌, append_assoc,
  arith, ◌==◌, ==_iff, length, set, replicate, length-append, Bool-cases, Option, none, some,
}
use mathlib.Core.Path.{subst}
use rust_bpf.Unwind.Instruction.{Instruction}
use rust_bpf.Unwind.Execute.{Memory, Executed, value, nothing, fault}
use rust_bpf.Unwind.User.{
  UnwindContext, Unwound, unwound, finished, crashed, unwind_context, run_row, set_cfa, set_rip,
  walk_frames,
}
use rust_bpf.Unwind.Probe.{Maps, backtrace_loop, backtrace, max_stack_depth}
use rust_bpf.Unwind.Agree.{Holds, next_frame-unwind_context}

-- The first `n` addresses of a stack, with zeros behind a shorter one.
abbrev pub pad : ℕ → List ℕ → List ℕ
pad zero rips = []
pad (suc n) [] = 0 ∷ pad n []
pad (suc n) (r ∷ rips) = r ∷ pad n rips

pad-[] : (n : ℕ) → pad n [] ≡ replicate n 0
pad-[] zero = refl
pad-[] (suc n) = ap (λ xs. 0 ∷ xs) (pad-[] n)

set-append : (pre rest : List ℕ) (x v : ℕ) → set (pre ++ x ∷ rest) (length pre) v ≡ pre ++ v ∷ rest
set-append [] rest x v = refl
set-append (p ∷ pre) rest x v = ap (λ xs. p ∷ xs) (set-append pre rest x v)

set_rip-finished : (c : UnwindContext) (cfa : ℕ) (e : Executed) → set_rip c cfa e ≢ finished
set_rip-finished c cfa (value ip) h = cc
set_rip-finished c cfa nothing h = cc
set_rip-finished c cfa fault h = cc

set_cfa-finished :
    (mem : Memory) (c : UnwindContext) (i : Instruction) (e : Executed)
    → set_cfa mem c i e ≢ finished
set_cfa-finished mem c i (value cfa) h = set_rip-finished c cfa _ h
set_cfa-finished mem c i nothing h = cc
set_cfa-finished mem c i fault h = cc

run_row-finished :
    (mem : Memory) (c : UnwindContext) (oi os : Option Instruction) → run_row mem c oi os ≢ finished
run_row-finished mem c none os h = cc
run_row-finished mem c (some i) none h = cc
run_row-finished mem c (some i) (some s) h = set_cfa-finished mem c i _ h

unwind_context-finished :
    (mem : Memory) (c : UnwindContext) → unwind_context mem c ≡ finished → c.rip ≡ 0
unfolding unwind_context
unwind_context-finished mem c h = elim (Bool-cases (c.rip == 0)) [
  | inl end ↦ (==_iff c.rip 0).0 end
  | inr more ↦ absurd (run_row-finished mem c _ _ (rw (more, unwind_context) at h))
]

module _ (mem : Memory) (m : Maps) where
  -- The loop, with the frames `pre` already written.
  Fills : (n fuel : ℕ) → UnwindContext → Type 0
  Fills n fuel c =
      (pre : List ℕ)
      → backtrace_loop mem m n (length pre) c.rip c.rsp (pre ++ replicate n 0)
        ≡ pre ++ pad n (c.rip ∷ (walk_frames mem fuel c).0)

  backtrace_loop-Fills_step :
      (n fuel : ℕ) (c c' : UnwindContext)
      → Holds m c.map
      → unwind_context mem c ≡ unwound c'
      → Fills n fuel c'
      → Fills (suc n) (suc fuel) c
  unfolding Fills backtrace_loop walk_frames
  backtrace_loop-Fills_step n fuel c c' t h ih pre =
      let (more, next, same) = next_frame-unwind_context mem m c c' t h in
      let moved : pre ++ c.rip ∷ replicate n 0 ≡ (pre ++ c.rip ∷ []) ++ replicate n 0 =
        sym (append_assoc pre (c.rip ∷ []) (replicate n 0)) in
      let more_of : suc (length pre) ≡ length (pre ++ c.rip ∷ []) =
        omega (arith, length-append pre (c.rip ∷ [])) in
      rw (more, backtrace_loop)
        (rw (next, backtrace_loop)
          (rw (h, walk_frames)
            (rw (set-append pre (replicate n 0) 0 c.rip, moved, more_of)
              (ih (pre ++ c.rip ∷ []) ∙ append_assoc pre (c.rip ∷ []) _))))

  backtrace_loop-Fills_by :
      (n fuel : ℕ) (c : UnwindContext) (u : Unwound)
      → Holds m c.map
      → unwind_context mem c ≡ u
      → (walk_frames mem (suc fuel) c).1 ≢ crashed
      → ((c' : UnwindContext)
          → Holds m c'.map
          → (walk_frames mem fuel c').1 ≢ crashed
          → Fills n fuel c')
      → Fills (suc n) (suc fuel) c
  unfolding Fills backtrace_loop walk_frames
  backtrace_loop-Fills_by n fuel c (unwound c') t h ok ih =
      let (more, next, same) = next_frame-unwind_context mem m c c' t h in
      backtrace_loop-Fills_step n fuel c c' t h
        (ih c' (subst (Holds m) (sym same) t) (rw (h, walk_frames) at ok))
  backtrace_loop-Fills_by n fuel c finished t h ok ih = λ pre.
      let z = unwind_context-finished mem c h in
      rw ((==_iff c.rip 0).1 z, backtrace_loop)
        (rw (h, walk_frames)
          (set-append pre (replicate n 0) 0 c.rip ∙ ap (λ xs. pre ++ c.rip ∷ xs) (sym (pad-[] n))))
  backtrace_loop-Fills_by n fuel c crashed t h ok ih = absurd (ok (rw (h, walk_frames) refl))

  backtrace_loop-Fills :
      (n fuel : ℕ) (c : UnwindContext)
      → Holds m c.map
      → n ≤ fuel
      → (walk_frames mem fuel c).1 ≢ crashed
      → Fills n fuel c
  unfolding Fills backtrace_loop
  backtrace_loop-Fills zero fuel c t le ok = λ pre. refl
  backtrace_loop-Fills (suc n) zero c t le ok = absurd (omega arith)
  backtrace_loop-Fills (suc n) (suc fuel) c t le ok =
      backtrace_loop-Fills_by n fuel c _ t refl ok
        (λ c' t' ok'. backtrace_loop-Fills n fuel c' t' (omega arith) ok')

-- If the arrays of the probe hold the table of user space, the probe writes the stack that user
-- space walks from the same registers, whatever its depth: its own address, then those the
-- callback sees, cut after 48 frames, with zeros behind a shorter stack. The walk has fuel for at
-- least 48 frames and must not panic.
pub backtrace-walk_frames :
    (mem : Memory) (m : Maps) (fuel : ℕ) (c : UnwindContext)
    → Holds m c.map
    → max_stack_depth ≤ fuel
    → (walk_frames mem fuel c).1 ≢ crashed
    → backtrace mem m c.rip c.rsp ≡ pad max_stack_depth (c.rip ∷ (walk_frames mem fuel c).0)
unfolding backtrace Fills
backtrace-walk_frames mem m fuel c t le ok =
    backtrace_loop-Fills mem m max_stack_depth fuel c t le ok []
