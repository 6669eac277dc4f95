-- ===== src/Trace/Session/Prepared.antt =====
-- cargo-trace/src/main.rs: the builder for the text of a probe.
use rust_bpf.Prelude.{
  ℕ, ◌≡◌, refl, Bool, true, false, [], ◌∷◌, Option, none, some, Result, ok, err, ◌>>=◌, ok_or,
  map_err, Bool-cases, Option-cases, inl, inr,
}
use rust_bpf.Text.{Text, codes}
use rust_bpf.Probes.Probe.{
  Probe, kprobe, kretprobe, uprobe, uretprobe, usdt, tracepoint, profile, interval, software,
  hardware, watchpoint, kfunc, kretfunc, ProgramType, perf_event, prog_type, set_default_path,
  show_probe,
}
use rust_bpf.Probes.Printable.{IsPrintable}
use rust_bpf.Probes.Parse.RoundTrip.{parse_probe-show_probe}
use rust_bpf.Utils.Syscall.{Limits, increase_memlock_rlimit}
use rust_bpf.Bpf.{Object}
use rust_bpf.Bpf.Builder.{
  BpfBuilder, rlimit, not_opened, unknown_program, missing_program, attach_probe, new_builder,
}
use rust_bpf.Trace.Session.{
  MainError, unsupported, build, entry_of, with_pid, parse_command, build_probe, prepare,
}

-- The program that runs at a probe, and whether the probe is for the traced process alone: one that
-- is counted or timed is, and one that is hit is not.
abbrev pub runs : Probe → Option (Text × Bool)
runs (kprobe symbol offset) = some (codes "kprobe", false)
runs (kretprobe symbol) = some (codes "kprobe", false)
runs (uprobe path symbol offset) = some (codes "kprobe", false)
runs (uretprobe path symbol) = some (codes "kprobe", false)
runs (usdt path probe) = some (codes "kprobe", false)
runs (profile i) = some (codes "perf_event", true)
runs (interval i) = some (codes "perf_event", true)
runs (software event count) = some (codes "perf_event", true)
runs (hardware event count) = some (codes "perf_event", true)
runs (watchpoint address length mode) = some (codes "perf_event", true)
runs (tracepoint category name) = none
runs (kfunc f) = none
runs (kretfunc f) = none

abbrev pub child_of : Bool → ℕ → Option ℕ
child_of true pid = some pid
child_of false pid = none

-- What comes of a program that the object was asked for.
abbrev pub Builds :
    Probe
    → (path : Text) → (pid : ℕ) → (entry : Text) → Bool
    → Option (Option ℕ)
    → Result MainError BpfBuilder
    → Type 0
Builds p path pid entry alone none r = r ≡ err (build unknown_program)
Builds p path pid entry alone (some none) r = r ≡ err (build missing_program)
Builds p path pid entry alone (some (some program)) r =
    (builder : BpfBuilder) × (r ≡ ok builder)
    × (builder.probes ≡ (set_default_path p path, entry) ∷ [])
    × (builder.child_pid ≡ child_of alone pid)

-- What comes of a probe: an error if no program runs at it, if the limit cannot be lifted, or if the
-- object cannot be opened; or what comes of its program.
abbrev pub Prepares :
    Object
    → Probe
    → (path : Text) → (pid : ℕ) → Option (Text × Bool)
    → Option (Unit {0})
    → Bool
    → Result MainError BpfBuilder
    → Type 0
Prepares obj p path pid none lifted opens r = r ≡ err (unsupported p)
Prepares obj p path pid (some (entry, alone)) none opens r = r ≡ err (build rlimit)
Prepares obj p path pid (some (entry, alone)) (some u) false r = r ≡ err (build not_opened)
Prepares obj p path pid (some (entry, alone)) (some u) true r =
    Builds p path pid entry alone (obj.open_prog entry) r

attach-Builds :
    (obj : Object) (p : Probe) (path : Text) (pid : ℕ) (entry : Text) (alone : Bool)
    (builder : BpfBuilder) (found : Option (Option ℕ))
    → obj.open_prog entry ≡ found
    → builder.probes ≡ []
    → builder.child_pid ≡ child_of alone pid
    → Builds p path pid entry alone found
        (map_err build (attach_probe obj builder (set_default_path p path) entry))
unfolding attach_probe
attach-Builds obj p path pid entry alone builder none e none_yet child = rw (e, attach_probe) refl
attach-Builds obj p path pid entry alone builder (some none) e none_yet child =
    rw (e, attach_probe) refl
attach-Builds obj p path pid entry alone builder (some (some program)) e none_yet child =
    rw (e, attach_probe) (_, refl, rw none_yet refl, child)

-- The two kinds of programs that run.
build-Prepares :
    (limits : Limits) (obj : Object) (p : Probe) (path : Text) (pid : ℕ) (type : ProgramType)
    (entry : Text) (alone : Bool)
    → ((builder : BpfBuilder)
        → builder.child_pid ≡ none
        → (with_pid type pid builder).child_pid ≡ child_of alone pid)
    → ((builder : BpfBuilder) → (with_pid type pid builder).probes ≡ builder.probes)
    → Prepares obj p path pid (some (entry, alone)) (increase_memlock_rlimit limits) obj.opens (
        map_err build (
          new_builder limits obj >>= λ builder.
          attach_probe obj (with_pid type pid builder) (set_default_path p path) entry))
unfolding new_builder set_default_path attach_probe
build-Prepares limits obj p path pid type entry alone child probes =
    elim (Option-cases (increase_memlock_rlimit limits)) [
      | inl refused ↦ rw (refused, new_builder) refl
      | inr (u, lifted) ↦ elim (Bool-cases obj.opens) [
        | inl opens ↦
            rw (lifted, opens, new_builder)
              (attach-Builds obj p path pid entry alone _ (obj.open_prog entry) refl (probes _)
                (child _ refl))
        | inr closed ↦ rw (lifted, closed, new_builder) refl
      ]
    ]

module _ (limits : Limits) (obj : Object) (path : Text) (pid : ℕ) where
  hit :
      (p : Probe)
      → prog_type p ≡ ProgramType.kprobe
      → Prepares obj p path pid
          (some (codes "kprobe", false))
          (increase_memlock_rlimit limits)
          obj.opens
          (map_err build (build_probe limits obj p (codes "kprobe") path pid))
  unfolding build_probe
  hit p e =
      rw (e, build_probe)
        (build-Prepares limits obj p path pid ProgramType.kprobe (codes "kprobe") false
          (λ builder none_yet. none_yet) (λ builder. refl))

  counted :
      (p : Probe)
      → prog_type p ≡ perf_event
      → Prepares obj p path pid
          (some (codes "perf_event", true))
          (increase_memlock_rlimit limits)
          obj.opens
          (map_err build (build_probe limits obj p (codes "perf_event") path pid))
  unfolding build_probe
  counted p e =
      rw (e, build_probe)
        (build-Prepares limits obj p path pid perf_event (codes "perf_event") true
          (λ builder none_yet. refl) (λ builder. refl))

  chosen-Prepares :
      (p : Probe)
      → Prepares obj p path pid (runs p) (increase_memlock_rlimit limits) obj.opens (
          ok_or (entry_of (prog_type p)) (unsupported p) >>= λ entry.
          map_err build (build_probe limits obj p entry path pid))
  unfolding prog_type
  chosen-Prepares (kprobe s o) = hit (kprobe s o) refl
  chosen-Prepares (kretprobe s) = hit (kretprobe s) refl
  chosen-Prepares (uprobe f s o) = hit (uprobe f s o) refl
  chosen-Prepares (uretprobe f s) = hit (uretprobe f s) refl
  chosen-Prepares (usdt f s) = hit (usdt f s) refl
  chosen-Prepares (profile i) = counted (profile i) refl
  chosen-Prepares (interval i) = counted (interval i) refl
  chosen-Prepares (software e c) = counted (software e c) refl
  chosen-Prepares (hardware e c) = counted (hardware e c) refl
  chosen-Prepares (watchpoint a l m) = counted (watchpoint a l m) refl
  chosen-Prepares (tracepoint c n) = refl
  chosen-Prepares (kfunc f) = refl
  chosen-Prepares (kretfunc f) = refl

  chosen-prepare :
      (p : Probe)
      → IsPrintable p
      → prepare limits obj (show_probe p) path pid ≡ (
          ok_or (entry_of (prog_type p)) (unsupported p) >>= λ entry.
          map_err build (build_probe limits obj p entry path pid))
  unfolding prepare parse_command
  chosen-prepare p printable =
      rw (parse_probe-show_probe p printable, prepare)
        (elim (Option-cases (entry_of (prog_type p))) [
          | inl nothing ↦ rw nothing refl
          | inr (entry, found) ↦ rw found refl
        ])

  -- The text of a printable probe is refused as unsupported exactly if it is a tracepoint, a
  -- `kfunc` or a `kretfunc`; else it fails if the limit on locked memory cannot be lifted, if the
  -- object cannot be opened, or if the object has no program `kprobe` for a probe that is hit, or
  -- `perf_event` for one that is counted or timed; and if there is that program, the builder has
  -- this probe alone, with the default path and the entry of its program, and it has the process
  -- exactly for a probe that is counted or timed.
  pub prepare-Prepares :
      (p : Probe)
      → IsPrintable p
      → Prepares obj p path pid
          (runs p)
          (increase_memlock_rlimit limits)
          obj.opens
          (prepare limits obj (show_probe p) path pid)
  prepare-Prepares p printable = rw (chosen-prepare p printable) (chosen-Prepares p)
