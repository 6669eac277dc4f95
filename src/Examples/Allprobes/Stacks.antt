-- ===== src/Examples/Allprobes/Stacks.antt =====
-- examples/allprobes/probe/src/main.rs: the counts of the stacks that `profile` takes.
use rust_bpf.Prelude.{ℕ, ◌+◌, List, [], ◌∷◌, Option, none, some, Result, ok, err, nat_dec}
use rust_bpf.Prelude.Int.{ℤ}
use rust_bpf.Helpers.Map.{KernelMap, pick}
use rust_bpf.Helpers.Map.Hash.{HashLaws}
use rust_bpf.Helpers.Map.Counts.{bump}
use rust_bpf.Helpers.Map.Program.{stack_id, user_stack, kernel_stack}
use rust_bpf.Examples.Allprobes.{kernel_stacks, user_stacks, Program, profile, State}

-- What the helper answers in a run, if it answers with a stack.
abbrev pub ok_of : Result ℤ ℕ → Option ℕ
ok_of (err e) = none
ok_of (ok id) = some id

unfoldable pub kernel_id : Program → Option ℕ
unfolding stack_id
kernel_id (profile f) = ok_of (stack_id f kernel_stacks kernel_stack)
kernel_id _ = none

unfoldable pub user_id : Program → Option ℕ
unfolding stack_id
user_id (profile f) = ok_of (stack_id f user_stacks user_stack)
user_id _ = none

-- Whether a run has the stack.
abbrev pub has : ℕ → Option ℕ → ℕ
has id none = 0
has id (some other) = pick (nat_dec other id) 1 0

-- The runs that have the stack.
unfoldable pub stack_runs : (Program → Option ℕ) → ℕ → List Program → ℕ
stack_runs id_of id [] = 0
stack_runs id_of id (program ∷ programs) = has id (id_of program) + stack_runs id_of id programs

module _ (m : KernelMap ℕ ℕ) (laws : HashLaws m) where
  abbrev bump_some : m.State → Option ℕ → m.State
  bump_some s none = s
  bump_some s (some id) = bump m s id

  bump_runs : (Program → Option ℕ) → m.State → List Program → m.State
  bump_runs id_of s [] = s
  bump_runs id_of s (program ∷ programs) = bump_runs id_of (bump_some s (id_of program)) programs
