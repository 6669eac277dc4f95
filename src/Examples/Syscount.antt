-- ===== src/Examples/Syscount.antt =====
-- examples/syscount/probe/src/main.rs: the time that failed system calls take.
pub mod Spans
pub mod Fits
pub mod Totals
pub mod Print
use rust_bpf.Prelude.{
  ℕ, ◌+◌, ◌-◌, ◌%◌, Bool, true, false, not, ◌&&◌, ◌||◌, List, [], ◌∷◌, Option, none, some, ◌==◌,
  if◌then◌else◌,
}
use rust_bpf.Prelude.Int.{ℤ, is_negative, as_u64, u32_mod, u64_mod}
use rust_bpf.Helpers.{Instant, Duration, elapsed}
use rust_bpf.Helpers.Map.{KernelMap, MapDef, with_max_entries, hash_type, get, insert}
use rust_bpf.Trace.Counter.{pid_of}

-- `FILTER_PID`, `FILTER_FAILED`, `FILTER_ERRNO` and `BY_PROCESS`.
pub record Filters : Type 0 where
  pub filter_pid : Option ℕ
  pub filter_failed : Bool
  pub filter_errno : Option ℤ
  pub by_process : Bool

abbrev pub filters : Filters
filters = record {
  filter_pid = none;
  filter_failed = true;
  filter_errno = none;
  by_process = false;
}

abbrev pub start_def : MapDef
start_def = with_max_entries hash_type 8 8 1024

abbrev pub data_def : MapDef
data_def = with_max_entries hash_type 4 16 1024

pub record SyscallInfo : Type 0 where
  pub count : ℕ
  pub time_ns : ℕ

abbrev pub info_of : Option SyscallInfo → SyscallInfo
info_of none = record { count = 0; time_ns = 0 }
info_of (some info) = info

-- The maps `START` and `DATA`.
pub record Kernel : Type 1 where
  pub start : KernelMap ℕ Instant
  pub data_ : KernelMap ℕ SyscallInfo

-- What the tracepoint is entered with: the id of the thread, and what the clock says when it is read.
pub data Event : Type 0 where
  enter : (pid_tgid : ℕ) (now : Instant) → Event
  exit : (pid_tgid : ℕ) (now : Instant) (id ret : ℤ) → Event

-- Another process than the one that is asked for.
unfoldable pub is_other : Option ℕ → ℕ → Bool
unfolding pid_of
is_other none pid_tgid = false
is_other (some pid) pid_tgid = not (pid == pid_of pid_tgid)

-- `ret != -errno`, over 64 bits.
unfoldable pub is_other_error : Option ℤ → ℤ → Bool
unfolding as_u64
is_other_error none ret = false
is_other_error (some errno) ret = not (as_u64 ret == (u64_mod - as_u64 errno) % u64_mod)

-- The guards of `sys_exit`, in their order.
unfoldable pub is_skipped : Filters → ℕ → ℤ → Bool
unfolding is_other is_other_error
is_skipped f pid_tgid ret =
    is_other f.filter_pid pid_tgid
    || f.filter_failed && not (is_negative ret)
    || is_other_error f.filter_errno ret

unfoldable pub key_of : Filters → ℕ → ℤ → ℕ
unfolding pid_of as_u64
key_of f pid_tgid id = if f.by_process then pid_of pid_tgid else as_u64 id % u32_mod

-- `count += 1` and `time_ns += ...`, which wrap.
unfoldable pub add_call : SyscallInfo → Duration → SyscallInfo
add_call entry d = record {
  count = (entry.count + 1) % u64_mod;
  time_ns = (entry.time_ns + d.nanos) % u64_mod;
}

module _ (k : Kernel) (f : Filters) where
  pub record State : Type 0 where
    pub started : k.start.State
    pub infos : k.data_.State

  unfoldable pub sys_enter : State → ℕ → Instant → State
  unfolding is_other insert
  sys_enter s pid_tgid now =
      if is_other f.filter_pid pid_tgid
      then s
      else record s { started = insert k.start s.started pid_tgid now }

  -- The body behind the guards; `none` is the panic of `elapsed`.
  unfoldable pub count_call : State → ℕ → Instant → (key : ℕ) → Option State
  unfolding get insert elapsed add_call
  count_call s pid_tgid now key = elim (get k.start s.started pid_tgid) [
    | none ↦ some s
    | some start ↦ elim (elapsed now start) [
      | none ↦ none
      | some d ↦
          let entry = add_call (info_of (get k.data_ s.infos key)) d in
          some (record s { infos = insert k.data_ s.infos key entry })
    ]
  ]

  unfoldable pub sys_exit : State → ℕ → Instant → (id ret : ℤ) → Option State
  unfolding is_skipped key_of count_call
  sys_exit s pid_tgid now id ret =
      if is_skipped f pid_tgid ret then some s else count_call s pid_tgid now (key_of f pid_tgid id)

  unfoldable pub run_event : State → Event → Option State
  unfolding sys_enter sys_exit
  run_event s (enter pid_tgid now) = some (sys_enter s pid_tgid now)
  run_event s (exit pid_tgid now id ret) = sys_exit s pid_tgid now id ret

  -- The events in their order, as long as none panics.
  unfoldable pub run_events : State → List Event → Option State
  unfolding run_event
  run_events s [] = some s
  run_events s (event ∷ events) = elim (run_event s event) [
    | none ↦ none
    | some s' ↦ run_events s' events
  ]
