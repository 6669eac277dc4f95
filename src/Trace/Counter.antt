-- ===== src/Trace/Counter.antt =====
-- cargo-trace/probe/src/main.rs and bpf-helpers/src/pid.rs: the counter of stacks.
pub mod Totals
use rust_bpf.Prelude.{
  ℕ, suc, ◌+◌, ◌/◌, ◌%◌, ◌≡◌, ◌≢◌, ◌≤◌, ◌<◌, ◌⊎◌, List, [], ◌∷◌, Option, none, some, ◌==◌,
  get_elem?, if◌then◌else◌,
}
use rust_bpf.Prelude.Int.{u32_mod}
use rust_bpf.Helpers.Map.{KernelMap}
use rust_bpf.Helpers.Map.Counts.{bump}
use rust_bpf.Unwind.Execute.{Memory}
use rust_bpf.Unwind.Probe.{Maps, backtrace}

-- `PidTgid::pid` and `PidTgid::tgid`.
unfoldable pub pid_of : ℕ → ℕ
pid_of w = w / u32_mod % u32_mod

unfoldable pub tgid_of : ℕ → ℕ
tgid_of w = w % 16

-- One run of the program: the process that it interrupts, its memory and its registers.
pub record Sample : Type 0 where
  pub pid_tgid : ℕ
  pub memory : Memory
  pub rip : ℕ
  pub rsp : ℕ

-- The map `USER_STACK`, whose keys are stacks.
module _ (h : KernelMap (List ℕ) ℕ) (m : Maps) where
  unfoldable pub increment_stack_counter : h.State → Sample → h.State
  unfolding bump pid_of backtrace
  increment_stack_counter s sample = elim (get_elem? m.config 1) [
    | none ↦ s
    | some pid ↦
        if pid_of sample.pid_tgid == pid
        then bump h s (backtrace sample.memory m sample.rip sample.rsp)
        else s
  ]

  -- The runs of the program, one after the other.
  unfoldable pub run_samples : h.State → List Sample → h.State
  unfolding increment_stack_counter
  run_samples s [] = s
  run_samples s (sample ∷ samples) = run_samples (increment_stack_counter s sample) samples
