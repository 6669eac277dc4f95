-- ===== src/Probes/Attach/Paths.antt =====
-- bpf-probes/src/lib.rs and attach.rs: which attempts to attach a probe miss a path.
use rust_bpf.Prelude.{
  ℕ, ◌≡◌, ◌≢◌, ◌↔◌, inl, inr, ◌⊎◌, refl, List, [], ◌∷◌, ◌++◌, Option, none, some, Bool-cases,
}
use rust_bpf.Prelude.Int.{ℤ, pos}
use rust_bpf.Text.{Text, codes}
use rust_bpf.Utils.Cpu.{online_cpu_ids}
use rust_bpf.Probes.Software
use rust_bpf.Probes.Hardware
use rust_bpf.Probes.Default.{path_of}
use rust_bpf.Probes.Probe.{
  Probe, kprobe, kretprobe, uprobe, uretprobe, usdt, tracepoint, profile, interval, software,
  hardware, watchpoint, kfunc, kretfunc,
}
use rust_bpf.Probes.Attach.Attr.{
  Bindings, kprobe_attr, tracepoint_attr, clock_attr, software_attr, hardware_attr,
}
use rust_bpf.Probes.Attach.Kernel.{Attr, Trace, Kernel, fail, path_required, or_throw, pure, io, M}
use rust_bpf.Probes.Attach.Open.{
  is_zero, pid_argument, as_i32, set_bpf_fd, enable_fd, holding, online, symbol_attr, open_for_cpu,
  open_for_any_cpu, open_each, open_for_every_cpu, open_one, attach_uprobe, count_or, open_probes,
  arm, attach,
}
use rust_bpf.Probes.Attach.Idle.{open_result-cases}
use rust_bpf.Probes.Attach.Spares.{
  Spares, then_in-Spares, after_failure-Spares, done-Spares, or_throw-Spares, unwrap-Spares,
  Opening-Spares, kprobe_attr-Spares, tracepoint_attr-Spares, symbol_attr-Spares,
}

module _ (k : Kernel) where
  open_for_cpu-Spares :
      (attr : Attr) (pid : Option ℕ) (cpu : ℤ) (history : Trace)
      → Spares (open_for_cpu k attr pid cpu history)
  unfolding open_for_cpu
  open_for_cpu-Spares attr pid cpu history =
      Opening-Spares attr (pid_argument pid) cpu _ (open_result-cases attr (pid_argument pid) cpu _)

  open_one-Spares :
      (m : M Attr) (pid : Option ℕ) (history : Trace)
      → Spares (m history)
      → Spares (open_one k m pid history)
  unfolding open_one open_for_any_cpu
  open_one-Spares m pid history s = then_in-Spares (m history) _ s (λ attr calls.
      then_in-Spares (open_for_cpu k attr pid (pos 0) (history ++ calls)) _
        (open_for_cpu-Spares attr pid (pos 0) _) (λ fd later. done-Spares _ []))

  open_each-Spares :
      (attr : Attr) (pid : Option ℕ) (cpus fds : List ℕ) (history : Trace)
      → Spares (open_each k attr pid cpus fds history)
  unfolding open_each holding
  open_each-Spares attr pid [] fds history = done-Spares _ []
  open_each-Spares attr pid (cpu ∷ cpus) fds history =
      then_in-Spares (holding k fds (open_for_cpu k attr pid (as_i32 cpu)) history) _
        (after_failure-Spares (open_for_cpu k attr pid (as_i32 cpu) history) _
          (open_for_cpu-Spares attr pid (as_i32 cpu) history))
        (λ fd calls. open_each-Spares attr pid cpus (fds ++ fd ∷ []) _)

  open_for_every_cpu-Spares :
      (attr : Attr) (pid : Option ℕ) (history : Trace)
      → Spares (open_for_every_cpu k attr pid history)
  unfolding open_for_every_cpu online
  open_for_every_cpu-Spares attr pid history =
      then_in-Spares (online k history) _
        (then_in-Spares
          (or_throw (k.read_file history (codes "/sys/devices/system/cpu/online")) io history) _
          (or_throw-Spares _ history) (λ text calls. unwrap-Spares (online_cpu_ids text) _))
        (λ cpus calls. open_each-Spares attr pid cpus [] _)

  set_bpf_fd-Spares : (program fd : ℕ) (history : Trace) → Spares (set_bpf_fd k program fd history)
  unfolding set_bpf_fd
  set_bpf_fd-Spares program fd history =
      elim (Bool-cases (is_zero (k.set_bpf_status history fd program))) [
        | inl ok_status ↦ rw ok_status (λ h. cc)
        | inr bad_status ↦ rw bad_status (λ h. cc)
      ]

  enable_fd-Spares : (fd : ℕ) (history : Trace) → Spares (enable_fd k fd history)
  unfolding enable_fd
  enable_fd-Spares fd history = elim (Bool-cases (is_zero (k.enable_status history fd))) [
    | inl ok_status ↦ rw ok_status (λ h. cc)
    | inr bad_status ↦ rw bad_status (λ h. cc)
  ]

  arm-Spares : (program : ℕ) (fds : List ℕ) (history : Trace) → Spares (arm k program fds history)
  unfolding arm
  arm-Spares program [] history = done-Spares _ []
  arm-Spares program (fd ∷ fds) history =
      then_in-Spares (set_bpf_fd k program fd history) _ (set_bpf_fd-Spares program fd history)
        (λ _ calls.
          then_in-Spares (enable_fd k fd (history ++ calls)) _ (enable_fd-Spares fd _)
            (λ _ later. arm-Spares program fds _))

  -- How opening the descriptors of a probe stands to its path.
  Missing : Bindings → Probe → Option ℕ → Trace → Type 0
  Missing b p pid history =
      ((path_of p ≡ some none) × (open_probes k b p pid history ≡ (fail path_required, [])))
      ⊎ ((path_of p ≢ some none) × Spares (open_probes k b p pid history))

  uprobe_path :
      (path : Option Text) (symbol : Text) (config offset : ℕ) (pid : Option ℕ) (history : Trace)
      → ((some path ≡ some none)
          × (attach_uprobe k path symbol config offset pid history ≡ (fail path_required, [])))
        ⊎ ((some path ≢ some none) × Spares (attach_uprobe k path symbol config offset pid history))
  unfolding attach_uprobe
  uprobe_path none symbol config offset pid history = inl (refl, refl)
  uprobe_path (some path) symbol config offset pid history = inr (
    λ h. cc,
    open_one-Spares (symbol_attr k path symbol config offset) pid history
        (symbol_attr-Spares k path symbol config offset history),
  )

  open_probes-Missing :
      (b : Bindings) (p : Probe) (pid : Option ℕ) (history : Trace) → Missing b p pid history
  unfolding Missing open_probes
  open_probes-Missing b (kprobe symbol offset) pid history = inr (
    λ h. cc,
    open_one-Spares (kprobe_attr k symbol 0 offset) pid history
        (kprobe_attr-Spares k symbol 0 offset history),
  )
  open_probes-Missing b (kretprobe symbol) pid history = inr (
    λ h. cc,
    open_one-Spares (kprobe_attr k symbol 1 0) pid history
        (kprobe_attr-Spares k symbol 1 0 history),
  )
  open_probes-Missing b (uprobe path symbol offset) pid history =
      uprobe_path path symbol 0 offset pid history
  open_probes-Missing b (uretprobe path symbol) pid history =
      uprobe_path path symbol 1 0 pid history
  open_probes-Missing b (usdt none probe) pid history = inl (refl, refl)
  open_probes-Missing b (usdt (some path) probe) pid history = inr (λ h. cc, λ h. cc)
  open_probes-Missing b (tracepoint category name) pid history = inr (
    λ h. cc,
    open_one-Spares (tracepoint_attr k category name) pid history
        (tracepoint_attr-Spares k category name history),
  )
  open_probes-Missing b (profile i) pid history =
      inr (λ h. cc, open_for_every_cpu-Spares (clock_attr b i) pid history)
  open_probes-Missing b (interval i) pid history =
      inr (λ h. cc, open_one-Spares (pure (clock_attr b i)) pid history (done-Spares _ []))
  open_probes-Missing b (software event count) pid history = inr (
    λ h. cc,
    open_one-Spares (pure (software_attr b event (count_or count (Software.default_count event))))
        pid history (done-Spares _ []),
  )
  open_probes-Missing b (hardware event count) pid history = inr (
    λ h. cc,
    open_for_every_cpu-Spares
        (hardware_attr b event (count_or count (Hardware.default_count event))) pid history,
  )
  open_probes-Missing b (watchpoint address length mode) pid history = inr (λ h. cc, λ h. cc)
  open_probes-Missing b (kfunc func) pid history = inr (λ h. cc, λ h. cc)
  open_probes-Missing b (kretfunc func) pid history = inr (λ h. cc, λ h. cc)

  -- Attaching fails for a missing path exactly if the probe is of a kind that has a path, and has
  -- none.
  pub attach-path_required :
      (b : Bindings) (p : Probe) (program : ℕ) (pid : Option ℕ) (history : Trace)
      → ((attach k b p program pid history).0 ≡ fail path_required) ↔ (path_of p ≡ some none)
  unfolding attach holding Missing
  attach-path_required b p program pid history = elim (open_probes-Missing b p pid history) [
    | inl (missing, e) ↦ (λ h. missing, λ h. rw (e, attach) refl)
    | inr (there, spares) ↦ (
      λ h. absurd (
          then_in-Spares (open_probes k b p pid history) _ spares
            (λ fds calls.
              then_in-Spares (holding k fds (arm k program fds) (history ++ calls)) _
                (after_failure-Spares (arm k program fds (history ++ calls)) _
                  (arm-Spares program fds _))
                (λ _ later. done-Spares fds []))
            h),
      λ h. absurd (there h),
    )
  ]
