-- ===== src/Examples/Allprobes.antt =====
-- examples/allprobes: the programs of probe/src/main.rs and the names of src/main.rs.
pub mod Names
pub mod Totals
pub mod Stacks
pub mod Print
use rust_bpf.Prelude.{ℕ, List, [], ◌∷◌, Result, ok, err}
use rust_bpf.Prelude.Int.{ℤ}
use rust_bpf.Text.{Text, codes}
use rust_bpf.Helpers.Map.{KernelMap, MapDef, with_max_entries, hash_type}
use rust_bpf.Helpers.Map.Counts.{bump}
use rust_bpf.Helpers.Map.Program.{stack_id, user_stack, kernel_stack}

abbrev pub probe_count : MapDef
probe_count = with_max_entries hash_type 4 4 13

abbrev pub user_count : MapDef
user_count = with_max_entries hash_type 4 4 1024

abbrev pub user_stacks : MapDef
user_stacks = with_max_entries 7 4 1016 1024

abbrev pub kernel_count : MapDef
kernel_count = with_max_entries hash_type 4 4 1024

abbrev pub kernel_stacks : MapDef
kernel_stacks = with_max_entries 7 4 1016 1024

-- The programs, each of which the kernel runs at its event. What `profile` is given decides what
-- the helper for stacks answers.
pub data Program : Type 0 where
  kprobe kretprobe uprobe uretprobe usdt tracepoint : Program
  profile : (bpf_get_stackid : MapDef → ℕ → ℤ) → Program
  interval software hardware watchpoint : Program

-- The maps that count.
pub record Kernel : Type 1 where
  pub probes : KernelMap ℕ ℕ
  pub users : KernelMap ℕ ℕ
  pub kernels : KernelMap ℕ ℕ

module _ (k : Kernel) where
  pub record State : Type 0 where
    pub probe_counts : k.probes.State
    pub user_counts : k.users.State
    pub kernel_counts : k.kernels.State

  unfoldable pub increase_counter : State → ℕ → State
  unfolding bump
  increase_counter s n = record s { probe_counts = bump k.probes s.probe_counts n }

  unfoldable pub count_kernel : State → Result ℤ ℕ → State
  unfolding bump
  count_kernel s (err e) = s
  count_kernel s (ok kid) = record s { kernel_counts = bump k.kernels s.kernel_counts kid }

  unfoldable pub count_user : State → Result ℤ ℕ → State
  unfolding bump
  count_user s (err e) = s
  count_user s (ok uid) = record s { user_counts = bump k.users s.user_counts uid }

  unfoldable pub run_program : State → Program → State
  unfolding increase_counter count_kernel count_user stack_id
  run_program s kprobe = increase_counter s 0
  run_program s kretprobe = increase_counter s 1
  run_program s uprobe = increase_counter s 2
  run_program s uretprobe = increase_counter s 3
  run_program s usdt = increase_counter s 4
  run_program s tracepoint = increase_counter s 5
  run_program s (profile bpf_get_stackid) =
      let counted = increase_counter s 6 in
      let kernel = count_kernel counted (stack_id bpf_get_stackid kernel_stacks kernel_stack) in
      count_user kernel (stack_id bpf_get_stackid user_stacks user_stack)
  run_program s interval = increase_counter s 7
  run_program s software = increase_counter s 8
  run_program s hardware = increase_counter s 9
  run_program s watchpoint = increase_counter s 10

  unfoldable pub run_programs : State → List Program → State
  unfolding run_program
  run_programs s [] = s
  run_programs s (program ∷ programs) = run_programs (run_program s program) programs

-- `PROBES`: what the counts are printed under.
abbrev pub probe_names : List Text
probe_names =
    codes "kprobe"
    ∷ codes "kretprobe"
    ∷ codes "uprobe"
    ∷ codes "uretprobe"
    ∷ codes "usdt"
    ∷ codes "tracepoint"
    ∷ codes "profile"
    ∷ codes "interval"
    ∷ codes "software"
    ∷ codes "hardware"
    ∷ codes "watchpoint"
    ∷ codes "kfunc"
    ∷ codes "kretfunc"
    ∷ []
