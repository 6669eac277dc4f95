-- ===== src/Probes/Attach/Open.antt =====
-- bpf-probes/src/attach.rs: opening, arming and dropping perf events, and `Probe::attach`. A probe
-- is its file descriptor; what is held when a step fails or unwinds is dropped, in order.
use rust_bpf.Prelude.{
  ℕ, ◌-◌, Bool, false, List, [], ◌∷◌, ◌++◌, Option, none, some, ◌==◌, ltb, if◌then◌else◌,
}
use rust_bpf.Prelude.Int.{ℤ, pos, negsuc, u32_mod, is_negative}
use rust_bpf.Text.{Text, codes}
use rust_bpf.Utils.Elf.{resolve_symbol}
use rust_bpf.Utils.Cpu.{online_cpu_ids}
use rust_bpf.Probes.Software
use rust_bpf.Probes.Hardware
use rust_bpf.Probes.Probe.{
  Probe, kprobe, kretprobe, uprobe, uretprobe, usdt, tracepoint, profile, interval, software,
  hardware, watchpoint, kfunc, kretfunc,
}
use rust_bpf.Probes.Attach.Attr.{
  Bindings, clock_attr, software_attr, hardware_attr, kprobe_attr, uprobe_attr, tracepoint_attr,
}
use rust_bpf.Probes.Attach.Kernel.{
  Attr, opened, open_failed, set_bpf, enable, disable, close, Trace, Kernel, io, path_required, elf,
  open_event, set_bpf_event, enable_event, disable_event, close_event, Outcome, done, fail, M,
  ◌>>=◌, ◌>>◌, pure, throw, abort, lift, unwrap, or_throw, after_failure,
}

-- `x as i32` of a `u32`.
unfoldable pub as_i32 : ℕ → ℤ
as_i32 w = if ltb w 0x8000_0000 then pos w else negsuc (u32_mod - w - 1)

-- `pid.map(|pid| pid as i32).unwrap_or(-1)`.
unfoldable pub pid_argument : Option ℕ → ℤ
unfolding as_i32
pid_argument none = negsuc 0
pid_argument (some pid) = as_i32 pid

abbrev pub is_zero : ℤ → Bool
is_zero (pos n) = n == 0
is_zero (negsuc n) = false

-- `count.unwrap_or_else(|| event.default_count())`.
unfoldable pub count_or : Option ℕ → ℕ → ℕ
count_or none d = d
count_or (some c) d = c

-- `if pfd < 0 { return Err(…) } Ok(Self(pfd as _))`.
unfoldable pub open_result : Attr → (pid cpu : ℤ) → (pfd : ℤ) → Outcome ℕ × Trace
open_result attr pid cpu (pos fd) = (done fd, opened attr pid cpu fd ∷ [])
open_result attr pid cpu (negsuc n) = (fail open_event, open_failed attr pid cpu ∷ [])

module _ (k : Kernel) where
  unfoldable pub open_for_cpu : Attr → Option ℕ → ℤ → M ℕ
  unfolding pid_argument open_result
  open_for_cpu attr pid cpu history =
      let at = pid_argument pid in open_result attr at cpu (k.perf_event_open history attr at cpu)

  unfoldable pub open_for_any_cpu : Attr → Option ℕ → M ℕ
  unfolding open_for_cpu
  open_for_any_cpu attr pid = open_for_cpu attr pid (pos 0)

  -- The ioctl methods: a status other than zero is an error.
  unfoldable pub set_bpf_fd : ℕ → ℕ → M (Unit {0})
  set_bpf_fd program fd history =
      let status = k.set_bpf_status history fd program in
      (if is_zero status then done tt else fail set_bpf_event, set_bpf fd program status ∷ [])

  unfoldable pub enable_fd : ℕ → M (Unit {0})
  enable_fd fd history =
      let status = k.enable_status history fd in
      (if is_zero status then done tt else fail enable_event, enable fd status ∷ [])

  unfoldable pub disable_fd : ℕ → M (Unit {0})
  disable_fd fd history =
      let status = k.disable_status history fd in
      (if is_zero status then done tt else fail disable_event, disable fd status ∷ [])

  unfoldable pub close_fd : ℕ → M (Unit {0})
  close_fd fd history =
      let status = k.close_status history fd in
      (if is_negative status then fail close_event else done tt, close fd status ∷ [])

  -- `Drop`: the errors of both calls are only logged.
  unfoldable pub drop_fd : ℕ → Trace → Trace
  unfolding disable_fd close_fd
  drop_fd fd history =
      let disabled = (disable_fd fd history).1 in disabled ++ (close_fd fd (history ++ disabled)).1

  -- The drop of a vector drops its elements in order.
  unfoldable pub drop_fds : List ℕ → Trace → Trace
  unfolding drop_fd
  drop_fds [] history = []
  drop_fds (fd ∷ fds) history =
      let first = drop_fd fd history in first ++ drop_fds fds (history ++ first)

  -- Run a step while `fds` are held.
  unfoldable pub holding : {A : Type 0} → List ℕ → M A → M A
  unfolding drop_fds
  holding fds m history = after_failure (m history) (λ calls. drop_fds fds (history ++ calls))

  -- The `collect` of `open_for_every_cpu`.
  unfoldable pub open_each : Attr → Option ℕ → List ℕ → List ℕ → M (List ℕ)
  unfolding holding open_for_cpu as_i32
  open_each attr pid [] fds = pure fds
  open_each attr pid (cpu ∷ cpus) fds = do
    fd ← holding fds (open_for_cpu attr pid (as_i32 cpu))
    open_each attr pid cpus (fds ++ fd ∷ [])

  unfoldable pub online : M (List ℕ)
  unfolding online_cpu_ids
  online = do
    text ← λ history.
        or_throw (k.read_file history (codes "/sys/devices/system/cpu/online")) io history
    unwrap (online_cpu_ids text)

  unfoldable pub open_for_every_cpu : Attr → Option ℕ → M (List ℕ)
  unfolding open_each online
  open_for_every_cpu attr pid = do cpus ← online; open_each attr pid cpus []

  -- `vec![open?]`.
  unfoldable pub open_one : M Attr → Option ℕ → M (List ℕ)
  unfolding open_for_any_cpu
  open_one m pid = do attr ← m; fd ← open_for_any_cpu attr pid; pure (fd ∷ [])

  -- `Elf::open(path)?`, `resolve_symbol(symbol, offset)?.unwrap()`.
  unfoldable pub symbol_address : Text → Text → ℕ → M ℕ
  unfolding resolve_symbol
  symbol_address path symbol offset = do
    symbols ← λ history. or_throw (k.open_elf history path) io history
    address ← lift elf (resolve_symbol symbols symbol offset)
    unwrap address

  unfoldable pub symbol_attr : Text → Text → (config offset : ℕ) → M Attr
  unfolding symbol_address uprobe_attr
  symbol_attr path symbol config offset = do
    address ← symbol_address path symbol offset
    uprobe_attr k path config address

  unfoldable pub attach_uprobe : Option Text → Text → (config offset : ℕ) → Option ℕ → M (List ℕ)
  unfolding open_one symbol_attr
  attach_uprobe none symbol config offset pid = throw path_required
  attach_uprobe (some path) symbol config offset pid =
      open_one (symbol_attr path symbol config offset) pid

  -- The match of `Probe::attach`; `todo!()` panics.
  unfoldable pub open_probes : Bindings → Probe → Option ℕ → M (List ℕ)
  unfolding open_one open_for_every_cpu attach_uprobe count_or kprobe_attr tracepoint_attr
      clock_attr software_attr hardware_attr
  open_probes b (kprobe symbol offset) pid = open_one (kprobe_attr k symbol 0 offset) pid
  open_probes b (kretprobe symbol) pid = open_one (kprobe_attr k symbol 1 0) pid
  open_probes b (uprobe path symbol offset) pid = attach_uprobe path symbol 0 offset pid
  open_probes b (uretprobe path symbol) pid = attach_uprobe path symbol 1 0 pid
  open_probes b (usdt (some path) probe) pid = abort
  open_probes b (usdt none probe) pid = throw path_required
  open_probes b (tracepoint category name) pid = open_one (tracepoint_attr k category name) pid
  open_probes b (profile i) pid = open_for_every_cpu (clock_attr b i) pid
  open_probes b (interval i) pid = open_one (pure (clock_attr b i)) pid
  open_probes b (software event count) pid =
      open_one (pure (software_attr b event (count_or count (Software.default_count event)))) pid
  open_probes b (hardware event count) pid =
      open_for_every_cpu (hardware_attr b event (count_or count (Hardware.default_count event))) pid
  open_probes b (watchpoint address length mode) pid = abort
  open_probes b (kfunc func) pid = abort
  open_probes b (kretfunc func) pid = abort

  -- The loop behind the match.
  unfoldable pub arm : ℕ → List ℕ → M (Unit {0})
  unfolding set_bpf_fd enable_fd
  arm program [] = pure tt
  arm program (fd ∷ fds) = do set_bpf_fd program fd; enable_fd fd; arm program fds

  -- `Probe::attach`: the vector of probes is dropped if the loop fails.
  unfoldable pub attach : Bindings → Probe → ℕ → Option ℕ → M (List ℕ)
  unfolding open_probes holding arm
  attach b p program pid = do fds ← open_probes b p pid; holding fds (arm program fds); pure fds
