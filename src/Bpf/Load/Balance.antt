-- ===== src/Bpf/Load/Balance.antt =====
-- bpf/src/lib.rs: who owns the descriptors that loading opens.
use mathlib.Core.List.{Perm, perm_append_comm}
use mathlib.Core.Path.{subst}
use rust_bpf.Prelude.{
  ℕ, inl, inr, Bool-cases, ◌≡◌, refl, sym, ◌∙◌, List, [], ◌∷◌, ◌++◌, append-nil, Option,
}
use rust_bpf.Text.{Text}
use rust_bpf.Probes.Probe.{Probe}
use rust_bpf.Probes.Attach.Attr.{Bindings}
use rust_bpf.Probes.Attach.Kernel.{
  Trace, Kernel, Outcome, done, fail, panic, M, ◌>>=◌, object, unwrap, or_throw, then_in,
  after_failure,
}
use rust_bpf.Probes.Attach.Open.{drop_fds, holding, attach}
use rust_bpf.Probes.Attach.Idle.{
  regroup, opened_fds, closed_fds, opened_fds-append, closed_fds-append, Owns, Idle-Owns,
  or_throw-Idle, unwrap-Idle,
}
use rust_bpf.Probes.Attach.Balance.{attach-Owns, drop_fds-closes}
use rust_bpf.Bpf.{Object}
use rust_bpf.Bpf.Builder.{BpfBuilder}
use rust_bpf.Bpf.Load.{load_one, load_all, load}

-- A run that began with `held` descriptors: a result is those and all that it opened, in order,
-- and none is closed; a failure or a panic closes them all, each once.
abbrev pub OwnsAll : List ℕ → Outcome (List ℕ) × Trace → Type 0
OwnsAll held (done fds, calls) = (fds ≡ held ++ opened_fds calls) × (closed_fds calls ≡ [])
OwnsAll held (fail e, calls) = Perm (closed_fds calls) (held ++ opened_fds calls)
OwnsAll held (panic, calls) = Perm (closed_fds calls) (held ++ opened_fds calls)

module _ (k : Kernel) where
  load_one-Owns :
      (b : Bindings) (obj : Object) (pid : Option ℕ) (p : Probe) (entry : Text) (history : Trace)
      → Owns [] (load_one k b obj pid p entry history)
  unfolding load_one
  load_one-Owns b obj pid p entry history =
      Idle-Owns (or_throw (obj.prog entry) object history)
        (λ found calls. (unwrap found >>= λ program. attach k b p program pid) (history ++ calls))
        (or_throw-Idle (obj.prog entry) object history)
        (λ found calls.
          Idle-Owns (unwrap found (history ++ calls))
            (λ program more. attach k b p program pid ((history ++ calls) ++ more))
            (unwrap-Idle found (history ++ calls))
            (λ program more. attach-Owns k b p program pid ((history ++ calls) ++ more)))

  -- A failure closes what the failing step had opened, then what was held.
  dropped-Perm :
      (held : List ℕ) (calls history : Trace)
      → closed_fds calls ≡ opened_fds calls
      → Perm
          (closed_fds (calls ++ drop_fds k held history))
          (held ++ opened_fds (calls ++ drop_fds k held history))
  dropped-Perm held calls history e =
      let h = drop_fds-closes k held history in
      rw
        (
          closed_fds-append calls (drop_fds k held history),
          opened_fds-append calls (drop_fds k held history),
          h.0,
          h.1,
          e,
          append-nil (opened_fds calls),
        )
        (perm_append_comm (opened_fds calls) held)

  OwnsAll-prefix :
      (held new : List ℕ) (calls : Trace) (q : Outcome (List ℕ) × Trace)
      → opened_fds calls ≡ new
      → closed_fds calls ≡ []
      → OwnsAll (held ++ new) q
      → OwnsAll held (q.0, calls ++ q.1)
  OwnsAll-prefix held new calls (done fds, t) o c h =
      (h.0 ∙ regroup held new calls t o, rw (closed_fds-append calls t, c) h.1)
  OwnsAll-prefix held new calls (fail e, t) o c h =
      rw (closed_fds-append calls t, c) (subst (Perm (closed_fds t)) (regroup held new calls t o) h)
  OwnsAll-prefix held new calls (panic, t) o c h =
      rw (closed_fds-append calls t, c) (subst (Perm (closed_fds t)) (regroup held new calls t o) h)

  load_step-OwnsAll :
      (held : List ℕ) (one : Outcome (List ℕ) × Trace) (history : Trace) (f : List ℕ → M (List ℕ))
      → Owns [] one
      → ((new : List ℕ) (h : Trace) → OwnsAll (held ++ new) (f new h))
      → OwnsAll held (
          then_in
            (after_failure one (λ calls. drop_fds k held (history ++ calls)))
            (λ new calls. f new (history ++ calls)))
  load_step-OwnsAll held (done new, calls) history f o h =
      OwnsAll-prefix held new calls (f new (history ++ calls)) (sym o.0) o.1 (h new _)
  load_step-OwnsAll held (fail e, calls) history f o h = dropped-Perm held calls _ o
  load_step-OwnsAll held (panic, calls) history f o h = dropped-Perm held calls _ o

  load_all-OwnsAll :
      (b : Bindings) (obj : Object) (pid : Option ℕ) (probes : List (Probe × Text)) (held : List ℕ)
      (history : Trace)
      → OwnsAll held (load_all k b obj pid probes held history)
  unfolding load_all holding
  load_all-OwnsAll b obj pid [] held history = (sym (append-nil held), refl)
  load_all-OwnsAll b obj pid ((p, entry) ∷ probes) held history =
      load_step-OwnsAll held (load_one k b obj pid p entry history) history
        (λ new. load_all k b obj pid probes (held ++ new)) (load_one-Owns b obj pid p entry history)
        (λ new h. load_all-OwnsAll b obj pid probes (held ++ new) h)

  -- Loading hands on the descriptors of all probes, in order, and closes none, or it fails or
  -- panics and has closed each descriptor that it opened exactly once.
  pub load-OwnsAll :
      (b : Bindings) (obj : Object) (builder : BpfBuilder) (history : Trace)
      → OwnsAll [] (load k b obj builder history)
  unfolding load
  load-OwnsAll b obj builder history = elim (Bool-cases obj.loads) [
    | inl loads ↦
        rw (loads, load) (load_all-OwnsAll b obj builder.child_pid builder.probes [] history)
    | inr fails ↦ rw (fails, load) (perm_append_comm [] [])
  ]
