-- ===== src/Probes/Attach/Balance.antt =====
-- bpf-probes/src/attach.rs and `Probe::attach`: who owns the descriptors that are opened.
use mathlib.Core.Path.{subst}
use rust_bpf.Prelude.{
  ℕ, ◌≡◌, inl, inr, refl, sym, ap, List, [], ◌∷◌, ◌++◌, append-nil, Option, none, some,
}
use rust_bpf.Prelude.Int.{ℤ, pos}
use rust_bpf.Text.{Text}
use rust_bpf.Probes.Software
use rust_bpf.Probes.Probe.{
  Probe, kprobe, kretprobe, uprobe, uretprobe, usdt, tracepoint, profile, interval, software,
  hardware, watchpoint, kfunc, kretfunc,
}
use rust_bpf.Probes.Attach.Attr.{Bindings, clock_attr, software_attr, kprobe_attr, tracepoint_attr}
use rust_bpf.Probes.Attach.Kernel.{
  Attr, opened, open_failed, Trace, Kernel, Outcome, done, fail, panic, M, then_in, after_failure,
  pure,
}
use rust_bpf.Probes.Attach.Open.{
  open_for_cpu, open_for_any_cpu, drop_fd, drop_fds, holding, open_each, online, open_for_every_cpu,
  open_one, symbol_attr, attach_uprobe, count_or, open_probes, arm, attach, pid_argument, as_i32,
}
use rust_bpf.Probes.Attach.Idle.{
  opened_fds, closed_fds, opened_fds-append, closed_fds-append, Owns, Owns-prefix, Idle, Idle-Owns,
  Opening, open_result-cases, online-Idle, kprobe_attr-Idle, tracepoint_attr-Idle, symbol_attr-Idle,
  arm-Idle,
}

module _ (k : Kernel) where
  pub drop_fds-closes :
      (fds : List ℕ) (history : Trace)
      → (closed_fds (drop_fds k fds history) ≡ fds) × (opened_fds (drop_fds k fds history) ≡ [])
  unfolding drop_fds
  drop_fds-closes [] history = (refl, refl)
  drop_fds-closes (fd ∷ fds) history =
      let first = drop_fd k fd history in
      let rest = drop_fds-closes fds (history ++ first) in
      unfold drop_fd in (ap (◌∷◌ fd) rest.0, rest.1)

  open_for_cpu-cases :
      (attr : Attr) (pid : Option ℕ) (cpu : ℤ) (history : Trace)
      → Opening attr (pid_argument pid) cpu (open_for_cpu k attr pid cpu history)
  unfolding open_for_cpu
  open_for_cpu-cases attr pid cpu history = open_result-cases _ _ _ _

  open_each-Owns :
      (attr : Attr) (pid : Option ℕ) (cpus held : List ℕ) (history : Trace)
      → Owns held (open_each k attr pid cpus held history)
  unfolding open_each
  open_each-Owns attr pid [] held history = (sym (append-nil held), refl)
  open_each-Owns attr pid (cpu ∷ cpus) held history =
      elim (open_for_cpu-cases attr pid (as_i32 cpu) history) [
        | inl (fd, e) ↦
            rw (holding, e)
              (Owns-prefix held (fd ∷ []) (opened attr (pid_argument pid) (as_i32 cpu) fd ∷ [])
                (open_each k attr pid cpus (held ++ fd ∷ [])
                  (history ++ opened attr (pid_argument pid) (as_i32 cpu) fd ∷ []))
                refl refl (open_each-Owns attr pid cpus (held ++ fd ∷ []) _))
        | inr e ↦
            rw (holding, e)
              (let h =
                  drop_fds-closes held
                    (history ++ open_failed attr (pid_argument pid) (as_i32 cpu) ∷ []) in
                rw (h.0, h.1) (sym (append-nil held)))
      ]

  dropped :
      (fds : List ℕ) (calls history : Trace)
      → opened_fds calls ≡ []
      → closed_fds calls ≡ []
      → closed_fds (calls ++ drop_fds k fds history)
        ≡ fds ++ opened_fds (calls ++ drop_fds k fds history)
  dropped fds calls history o c =
      let h = drop_fds-closes fds history in
      rw
        (
          closed_fds-append calls (drop_fds k fds history),
          opened_fds-append calls (drop_fds k fds history),
          o,
          c,
          h.0,
          h.1,
        )
        (sym (append-nil fds))

  armed-Owns :
      (fds : List ℕ) (armed : Outcome (Unit {0}) × Trace) (history : Trace)
      → Idle armed
      → Owns fds (
          then_in
            (after_failure armed (λ later. drop_fds k fds (history ++ later)))
            (λ _ later. (done fds, [])))
  armed-Owns fds (done _, calls) history idle =
      rw (append-nil calls, idle.0) (sym (append-nil fds), idle.1)
  armed-Owns fds (fail e, calls) history idle = dropped fds calls _ idle.0 idle.1
  armed-Owns fds (panic, calls) history idle = dropped fds calls _ idle.0 idle.1

  -- The descriptors that were opened are handed on if arming them succeeds, and dropped otherwise.
  arm-Owns :
      (program : ℕ) (r : Outcome (List ℕ) × Trace) (history : Trace)
      → Owns [] r
      → Owns [] (
          then_in r (λ fds calls.
            then_in
              (holding k fds (arm k program fds) (history ++ calls))
              (λ _ later. (done fds, []))))
  arm-Owns program (fail e, calls) history h = h
  arm-Owns program (panic, calls) history h = h
  arm-Owns program (done fds, calls) history h =
      let armed = arm k program fds (history ++ calls) in
      unfold holding in
      Owns-prefix [] (opened_fds calls) calls _ refl h.1 (
        subst
          (λ held. Owns held (
            then_in (after_failure armed (λ later. drop_fds k fds ((history ++ calls) ++ later)))
              (λ _ later. (done fds, []))))
          h.0 (armed-Owns fds armed (history ++ calls) (arm-Idle k program fds (history ++ calls))))

  open_one-Owns :
      (m : M Attr) (pid : Option ℕ) (history : Trace)
      → Idle (m history)
      → Owns [] (open_one k m pid history)
  unfolding open_one open_for_any_cpu
  open_one-Owns m pid history idle = Idle-Owns (m history) _ idle (λ attr calls.
      elim (open_for_cpu-cases attr pid (pos 0) (history ++ calls)) [
        | inl (fd, e) ↦ rw e (refl, refl)
        | inr e ↦ rw e refl
      ])

  open_for_every_cpu-Owns :
      (attr : Attr) (pid : Option ℕ) (history : Trace)
      → Owns [] (open_for_every_cpu k attr pid history)
  unfolding open_for_every_cpu
  open_for_every_cpu-Owns attr pid history =
      Idle-Owns (online k history) _ (online-Idle k history)
        (λ cpus calls. open_each-Owns attr pid cpus [] (history ++ calls))

  attach_uprobe-Owns :
      (path : Option Text) (symbol : Text) (config offset : ℕ) (pid : Option ℕ) (history : Trace)
      → Owns [] (attach_uprobe k path symbol config offset pid history)
  unfolding attach_uprobe
  attach_uprobe-Owns none symbol config offset pid history = refl
  attach_uprobe-Owns (some path) symbol config offset pid history =
      open_one-Owns (symbol_attr k path symbol config offset) pid history
        (symbol_attr-Idle k path symbol config offset history)

  pub open_probes-Owns :
      (b : Bindings) (p : Probe) (pid : Option ℕ) (history : Trace)
      → Owns [] (open_probes k b p pid history)
  unfolding open_probes
  open_probes-Owns b (kprobe symbol offset) pid history =
      open_one-Owns (kprobe_attr k symbol 0 offset) pid history
        (kprobe_attr-Idle k symbol 0 offset history)
  open_probes-Owns b (kretprobe symbol) pid history =
      open_one-Owns (kprobe_attr k symbol 1 0) pid history (kprobe_attr-Idle k symbol 1 0 history)
  open_probes-Owns b (uprobe path symbol offset) pid history =
      attach_uprobe-Owns path symbol 0 offset pid history
  open_probes-Owns b (uretprobe path symbol) pid history =
      attach_uprobe-Owns path symbol 1 0 pid history
  open_probes-Owns b (usdt none probe) pid history = refl
  open_probes-Owns b (usdt (some path) probe) pid history = refl
  open_probes-Owns b (tracepoint category name) pid history =
      open_one-Owns (tracepoint_attr k category name) pid history
        (tracepoint_attr-Idle k category name history)
  open_probes-Owns b (profile i) pid history = open_for_every_cpu-Owns _ pid history
  open_probes-Owns b (interval i) pid history =
      open_one-Owns (pure (clock_attr b i)) pid history (refl, refl)
  open_probes-Owns b (software event count) pid history =
      open_one-Owns (pure (software_attr b event (count_or count (Software.default_count event))))
        pid history (refl, refl)
  open_probes-Owns b (hardware event count) pid history = open_for_every_cpu-Owns _ pid history
  open_probes-Owns b (watchpoint address length mode) pid history = refl
  open_probes-Owns b (kfunc func) pid history = refl
  open_probes-Owns b (kretfunc func) pid history = refl

  -- Attaching a probe hands on every descriptor that it opened and closes none, or it fails or
  -- panics and has closed every descriptor that it opened, in the order of opening.
  pub attach-Owns :
      (b : Bindings) (p : Probe) (program : ℕ) (pid : Option ℕ) (history : Trace)
      → Owns [] (attach k b p program pid history)
  unfolding attach
  attach-Owns b p program pid history =
      arm-Owns program (open_probes k b p pid history) history (open_probes-Owns b p pid history)
