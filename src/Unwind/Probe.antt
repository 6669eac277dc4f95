-- ===== src/Unwind/Probe.antt =====
-- cargo-trace/probe/src/main.rs: unwinding in the kernel. The arrays hold all their entries, also
-- those that nobody wrote, which are zero.
use rust_bpf.Prelude.{
  ℕ, zero, suc, List, Option, none, some, ◌==◌, true, false, get_elem?, set, replicate,
}
use rust_bpf.Unwind.Execute.{Memory, Encoded, execute_encoded}
use rust_bpf.Unwind.Search.{search_probe}

pub record Maps : Type 0 where
  pub config : List ℕ
  pub pc : List ℕ
  pub rip : List Encoded
  pub rsp : List Encoded

abbrev pub max_stack_depth : ℕ
max_stack_depth = 48

abbrev pub ehframe_entries : ℕ
ehframe_entries = 0xffffff

-- The registers of the next frame; `none` is a `break`.
abbrev pub with_cfa : Memory → (rip rsp : ℕ) → Option Encoded → Option ℕ → Option (ℕ × ℕ)
with_cfa mem ip sp irip none = none
with_cfa mem ip sp none (some cfa) = none
with_cfa mem ip sp (some ins) (some cfa) = elim (execute_encoded mem ins ip sp cfa) [
  | none ↦ some (0, cfa)
  | some w ↦ some (w, cfa)
]

abbrev pub with_rsp : Memory → (rip rsp : ℕ) → Option Encoded → Option Encoded → Option (ℕ × ℕ)
with_rsp mem ip sp irip none = none
with_rsp mem ip sp irip (some ins) = with_cfa mem ip sp irip (execute_encoded mem ins ip sp 0)

unfoldable pub next_frame : Memory → Maps → (rip rsp : ℕ) → Option (ℕ × ℕ)
unfolding execute_encoded search_probe
next_frame mem m ip sp =
    let i = search_probe (get_elem? m.config 0) m.pc ip in
    with_rsp mem ip sp (get_elem? m.rip i) (get_elem? m.rsp i)

-- `for d in 0..MAX_STACK_DEPTH { … }`.
unfoldable pub backtrace_loop : Memory → Maps → (rounds d rip rsp : ℕ) → List ℕ → List ℕ
unfolding next_frame
backtrace_loop mem m zero d ip sp stack = stack
backtrace_loop mem m (suc rounds) d ip sp stack = elim (ip == 0) [
  | true ↦ set stack d ip
  | false ↦ elim (next_frame mem m ip sp) [
    | none ↦ set stack d ip
    | some (ip', sp') ↦ backtrace_loop mem m rounds (suc d) ip' sp' (set stack d ip)
  ]
]

-- `backtrace` on the zeroed array of its caller.
unfoldable pub backtrace : Memory → Maps → (rip rsp : ℕ) → List ℕ
unfolding backtrace_loop
backtrace mem m ip sp = backtrace_loop mem m max_stack_depth 0 ip sp (replicate max_stack_depth 0)
