-- ===== src/Probes/Attach/Granted.antt =====
-- bpf-probes/src/attach.rs: attaching on a kernel that grants what it is asked for.
use rust_bpf.Prelude.{
  sym, ◌∙◌, append-nil, append_assoc, ℕ, ◌≡◌, refl, ap, List, [], ◌∷◌, ◌++◌, Option, some,
}
use mathlib.Core.List.{map}
use rust_bpf.Probes.Attach.Idle.{opened_fds, opened_fds-append}
use rust_bpf.Prelude.Int.{ℤ, pos}
use rust_bpf.Text.{Text, codes}
use rust_bpf.Utils.Cpu.{online_cpu_ids}
use rust_bpf.Probes.Probe.{
  Probe, kprobe, kretprobe, uprobe, uretprobe, usdt, tracepoint, profile, interval, software,
  hardware, watchpoint, kfunc, kretfunc,
}
use rust_bpf.Probes.Attach.Attr.{Bindings, clock_attr}
use rust_bpf.Probes.Attach.Kernel.{
  Attr, Trace, Kernel, opened, set_bpf, enable, done, M, ◌>>=◌, pure,
}
use rust_bpf.Probes.Attach.Open.{
  pid_argument, open_result, open_for_cpu, open_for_any_cpu, set_bpf_fd, enable_fd, holding,
  open_each, online, open_for_every_cpu, open_one, open_probes, arm, attach, as_i32,
}

-- The process and the CPU that each event was opened for, in order.
abbrev pub opened_for : Trace → List (ℤ × ℤ)
opened_for [] = []
opened_for (opened attr pid cpu fd ∷ calls) = (pid, cpu) ∷ opened_for calls
opened_for (_ ∷ calls) = opened_for calls

opened_for-append : (s t : Trace) → opened_for (s ++ t) ≡ opened_for s ++ opened_for t
opened_for-append [] t = refl
opened_for-append (opened attr pid cpu fd ∷ s) t = ap (◌∷◌ (pid, cpu)) (opened_for-append s t)
opened_for-append (_ ∷ s) t = opened_for-append s t

-- A step that is done at once, whatever was called before, with a value and calls that have the
-- property.
abbrev pub Succeeds : {A : Type 0} → (A → Trace → Type 0) → M A → Type 0
Succeeds {A} P m =
    (history : Trace) → (a : A) × (calls : Trace) × (m history ≡ (done a, calls)) × P a calls

Succeeds-pure : {A : Type 0} (P : A → Trace → Type 0) (a : A) → P a [] → Succeeds P (pure a)
Succeeds-pure P a h history = (a, [], refl, h)

Succeeds->>= :
    {A B : Type 0} (P : A → Trace → Type 0) (Q : B → Trace → Type 0) (m : M A) (f : A → M B)
    → Succeeds P m
    → ((a : A) (calls : Trace) → P a calls → Succeeds (λ b more. Q b (calls ++ more)) (f a))
    → Succeeds Q (m >>= f)
Succeeds->>= P Q m f first next history =
    let (a, calls, ran, h) = first history in
    let (b, more, then_ran, k) = next a calls h (history ++ calls) in
    (b, calls ++ more, rw (ran, then_ran) refl, k)

Succeeds-holding :
    {A : Type 0} (P : A → Trace → Type 0) (k : Kernel) (fds : List ℕ) (m : M A)
    → Succeeds P m
    → Succeeds P (holding k fds m)
unfolding holding
Succeeds-holding P k fds m first history =
    let (a, calls, ran, h) = first history in (a, calls, rw (ran, holding) refl, h)

-- No call of the kernel fails.
pub record Grants (k : Kernel) : Type 0 where
  pub grants_open :
      (history : Trace) (attr : Attr) (pid cpu : ℤ)
      → (fd : ℕ) × (k.perf_event_open history attr pid cpu ≡ pos fd)
  pub grants_set_bpf :
      (history : Trace) (fd program : ℕ) → k.set_bpf_status history fd program ≡ pos 0
  pub grants_enable : (history : Trace) (fd : ℕ) → k.enable_status history fd ≡ pos 0

-- The calls opened no event.
abbrev OpensNone : Unit {0} → Trace → Type 0
OpensNone u calls = (opened_for calls ≡ []) × (opened_fds calls ≡ [])

-- The calls opened one event for the process on each of the CPUs, in their order, and the
-- descriptors are those that were opened.
abbrev pub OpensOn : Option ℕ → List ℤ → List ℕ → Trace → Type 0
OpensOn pid cpus fds calls =
    (opened_for calls ≡ map (λ cpu. (pid_argument pid, cpu)) cpus) × (opened_fds calls ≡ fds)

OpensOn-then :
    (pid : Option ℕ) (cpus : List ℤ) (fds : List ℕ) (calls more : Trace)
    → OpensOn pid cpus fds calls
    → OpensNone tt more
    → OpensOn pid cpus fds (calls ++ more)
OpensOn-then pid cpus fds calls more (on, are) (none_for, no_fds) = (
  opened_for-append calls more ∙ rw (none_for, append-nil (opened_for calls)) on,
  opened_fds-append calls more ∙ rw (no_fds, append-nil (opened_fds calls)) are,
)

-- One event in front of others, whose descriptors stand behind those that are held.
OpensOn-cons :
    (pid : Option ℕ) (cpu : ℤ) (cpus : List ℤ) (fd : ℕ) (held new : List ℕ) (calls more : Trace)
    → OpensOn pid (cpu ∷ []) (fd ∷ []) calls
    → (opened_for more ≡ map (λ cpu. (pid_argument pid, cpu)) cpus)
    → ((held ++ fd ∷ []) ++ opened_fds more ≡ new)
    → (opened_for (calls ++ more) ≡ map (λ cpu. (pid_argument pid, cpu)) (cpu ∷ cpus))
      × (held ++ opened_fds (calls ++ more) ≡ new)
OpensOn-cons pid cpu cpus fd held new calls more (on, is) rest are = (
  opened_for-append calls more ∙ rw (on, rest) refl,
  rw (opened_fds-append calls more, is) (sym (append_assoc held (fd ∷ []) (opened_fds more)) ∙ are),
)

module _ (k : Kernel) (g : Grants k) where
  open_for_cpu-Succeeds :
      (attr : Attr) (pid : Option ℕ) (cpu : ℤ)
      → Succeeds (λ fd calls. OpensOn pid (cpu ∷ []) (fd ∷ []) calls) (open_for_cpu k attr pid cpu)
  unfolding open_for_cpu open_result
  open_for_cpu-Succeeds attr pid cpu history =
      let (fd, granted) = g.grants_open history attr (pid_argument pid) cpu in
      (
        fd,
        opened attr (pid_argument pid) cpu fd ∷ [],
        rw (granted, open_for_cpu) refl,
        (refl, refl),
      )

  open_each-Succeeds :
      (attr : Attr) (pid : Option ℕ) (cpus fds : List ℕ)
      → Succeeds
          (λ new calls.
            (opened_for calls ≡ map (λ cpu. (pid_argument pid, cpu)) (map as_i32 cpus))
            × (fds ++ opened_fds calls ≡ new))
          (open_each k attr pid cpus fds)
  unfolding open_each
  open_each-Succeeds attr pid [] fds = Succeeds-pure _ fds (refl, append-nil fds)
  open_each-Succeeds attr pid (cpu ∷ cpus) fds =
      Succeeds->>= (λ fd calls. OpensOn pid (as_i32 cpu ∷ []) (fd ∷ []) calls) _ _ _
        (Succeeds-holding _ k fds _ (open_for_cpu-Succeeds attr pid (as_i32 cpu)))
        (λ fd calls one history.
          let (new, more, ran, (rest, are)) =
            open_each-Succeeds attr pid cpus (fds ++ fd ∷ []) history in
          (
            new,
            more,
            ran,
            OpensOn-cons pid (as_i32 cpu) (map as_i32 cpus) fd fds new calls more one rest are,
          ))

  arm-Succeeds : (program : ℕ) (fds : List ℕ) → Succeeds OpensNone (arm k program fds)
  unfolding arm set_bpf_fd enable_fd
  arm-Succeeds program [] history = (tt, [], refl, (refl, refl))
  arm-Succeeds program (fd ∷ fds) history =
      let taken = set_bpf fd program (pos 0) ∷ [] in
      let enabled = enable fd (pos 0) ∷ [] in
      let (u, calls, ran, none_open) = arm-Succeeds program fds ((history ++ taken) ++ enabled) in
      (
        tt,
        taken ++ (enabled ++ calls),
        rw
            (
              g.grants_set_bpf history fd program,
              g.grants_enable (history ++ taken) fd,
              ran,
              arm,
              set_bpf_fd,
              enable_fd,
            )
            refl,
        none_open,
      )

  module _ (text : Text) (cpus : List ℕ)
      (reads : (history : Trace)
        → k.read_file history (codes "/sys/devices/system/cpu/online") ≡ some text)
      (lists : online_cpu_ids text ≡ some cpus) where
    online-Succeeds : Succeeds (λ ids calls. (ids ≡ cpus) × (calls ≡ [])) (online k)
    unfolding online
    online-Succeeds history = (cpus, [], rw (reads history, lists, online) refl, (refl, refl))

    open_for_every_cpu-Succeeds :
        (attr : Attr) (pid : Option ℕ)
        → Succeeds (OpensOn pid (map as_i32 cpus)) (open_for_every_cpu k attr pid)
    unfolding open_for_every_cpu
    open_for_every_cpu-Succeeds attr pid =
        Succeeds->>= (λ ids calls. (ids ≡ cpus) × (calls ≡ [])) (OpensOn pid (map as_i32 cpus)) _ _
          online-Succeeds
          (λ ids calls (e, silent) history.
            let (fds, more, ran, h) = open_each-Succeeds attr pid ids [] history in
            (fds, more, ran, rw (silent, sym e) h))

    open_one-Succeeds :
        (attr : Attr) (pid : Option ℕ)
        → Succeeds (OpensOn pid (pos 0 ∷ [])) (open_one k (pure attr) pid)
    unfolding open_one open_for_any_cpu
    open_one-Succeeds attr pid =
        Succeeds->>= {A = Attr} (λ a calls. calls ≡ []) (OpensOn pid (pos 0 ∷ [])) (pure attr) _
          (Succeeds-pure (λ a calls. calls ≡ []) attr refl)
          (λ a calls silent.
            Succeeds->>= (λ fd more. OpensOn pid (pos 0 ∷ []) (fd ∷ []) more) _
              (open_for_cpu k a pid (pos 0)) _ (open_for_cpu-Succeeds a pid (pos 0))
              (λ fd more h. Succeeds-pure _ (fd ∷ []) (rw (silent, append-nil more) h)))

    -- The CPUs that a probe is opened on, if it needs nothing but the list of CPUs.
    abbrev pub Opens : Probe → List ℤ → Type 0
    Opens (profile i) on = on ≡ map as_i32 cpus
    Opens (interval i) on = on ≡ pos 0 ∷ []
    Opens (software event count) on = on ≡ pos 0 ∷ []
    Opens (hardware event count) on = on ≡ map as_i32 cpus
    Opens _ on = ⊥

    open_probes-Succeeds :
        (b : Bindings) (p : Probe) (pid : Option ℕ) (on : List ℤ)
        → Opens p on
        → Succeeds (OpensOn pid on) (open_probes k b p pid)
    unfolding open_probes
    open_probes-Succeeds b (profile i) pid on h =
        rw h (open_for_every_cpu-Succeeds (clock_attr b i) pid)
    open_probes-Succeeds b (interval i) pid on h = rw h (open_one-Succeeds (clock_attr b i) pid)
    open_probes-Succeeds b (software event count) pid on h = rw h (open_one-Succeeds _ pid)
    open_probes-Succeeds b (hardware event count) pid on h =
        rw h (open_for_every_cpu-Succeeds _ pid)
    open_probes-Succeeds b (kprobe s o) pid on h = absurd h
    open_probes-Succeeds b (kretprobe s) pid on h = absurd h
    open_probes-Succeeds b (uprobe f s o) pid on h = absurd h
    open_probes-Succeeds b (uretprobe f s) pid on h = absurd h
    open_probes-Succeeds b (usdt f s) pid on h = absurd h
    open_probes-Succeeds b (tracepoint c s) pid on h = absurd h
    open_probes-Succeeds b (watchpoint a l m) pid on h = absurd h
    open_probes-Succeeds b (kfunc s) pid on h = absurd h
    open_probes-Succeeds b (kretfunc s) pid on h = absurd h

    -- On a kernel that opens every event, and takes and enables every program, and whose list of
    -- CPUs can be read, attaching a profile or a hardware event is done with the descriptors of
    -- one event for the process on each CPU of the list, in its order, and attaching an interval
    -- or a software event with that of one event on CPU 0, whatever was called before; no other
    -- event is opened.
    pub attach-Succeeds :
        (b : Bindings) (p : Probe) (program : ℕ) (pid : Option ℕ) (on : List ℤ)
        → Opens p on
        → Succeeds (OpensOn pid on) (attach k b p program pid)
    unfolding attach
    attach-Succeeds b p program pid on h =
        Succeeds->>= (OpensOn pid on) (OpensOn pid on) (open_probes k b p pid) _
          (open_probes-Succeeds b p pid on h)
          (λ fds calls opens.
            Succeeds->>= OpensNone _ (holding k fds (arm k program fds)) _
              (Succeeds-holding OpensNone k fds _ (arm-Succeeds program fds))
              (λ u more none_open. Succeeds-pure _ fds (
                OpensOn-then pid on fds calls (more ++ []) opens (rw (append-nil more) none_open))))
