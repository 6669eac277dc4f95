-- ===== src/Probes/Attach/Order.antt =====
-- bpf-probes/src/lib.rs: the order of the calls of `Probe::attach`.
use rust_bpf.Prelude.{
  ℕ, ==_iff, ◌≡◌, refl, sym, ap, ◌∙◌, List, [], ◌∷◌, ◌++◌, append-nil, Option, true, Bool-cases,
  inl, inr,
}
use mathlib.Core.Path.{subst}
use rust_bpf.Prelude.Int.{ℤ, pos, negsuc}
use rust_bpf.Probes.Probe.{Probe}
use rust_bpf.Probes.Attach.Attr.{Bindings}
use rust_bpf.Probes.Attach.Kernel.{
  Trace, Kernel, set_bpf, enable, Outcome, done, fail, panic, then_in, after_failure,
}
use rust_bpf.Probes.Attach.Open.{is_zero, set_bpf_fd, enable_fd, arm, holding, attach}
use rust_bpf.Probes.Attach.Idle.{opened_fds, Owns}
use rust_bpf.Probes.Attach.Balance.{open_probes-Owns}

-- Each descriptor gets the program, then it is enabled, before the next one; every call succeeds.
abbrev pub armed_calls : ℕ → List ℕ → Trace
armed_calls program [] = []
armed_calls program (fd ∷ fds) =
    set_bpf fd program (pos 0) ∷ enable fd (pos 0) ∷ armed_calls program fds

is_zero→eq : (z : ℤ) → is_zero z ≡ true → z ≡ pos 0
is_zero→eq (pos n) h = ap pos ((==_iff n 0).0 h)
is_zero→eq (negsuc n) h = cc

-- The parts of two steps that succeed.
then_in-done :
    {A B : Type 0} (r : Outcome A × Trace) (f : A → Trace → Outcome B × Trace) {b : B}
    {calls : Trace}
    → then_in r f ≡ (done b, calls)
    → (a : A) × (first : Trace) × (second : Trace) × (r ≡ (done a, first))
      × (f a first ≡ (done b, second))
      × (calls ≡ first ++ second)
then_in-done (done a, first) f {b} {calls} h = (a, first, (f a first).1, refl, cc, cc)
then_in-done (fail e, first) f h = cc
then_in-done (panic, first) f h = cc

after_failure-done :
    {A : Type 0} (r : Outcome A × Trace) (cleanup : Trace → Trace) {a : A} {calls : Trace}
    → after_failure r cleanup ≡ (done a, calls)
    → r ≡ (done a, calls)
after_failure-done (done a, calls) cleanup h = h
after_failure-done (fail e, calls) cleanup h = cc
after_failure-done (panic, calls) cleanup h = cc

module _ (k : Kernel) where
  set_bpf_fd-done :
      (program fd : ℕ) (history : Trace) {u : Unit {0}} {calls : Trace}
      → set_bpf_fd k program fd history ≡ (done u, calls)
      → calls ≡ set_bpf fd program (pos 0) ∷ []
  unfolding set_bpf_fd
  set_bpf_fd-done program fd history {u} {calls} h =
      elim (Bool-cases (is_zero (k.set_bpf_status history fd program))) [
        | inl zero ↦
            let z = is_zero→eq (k.set_bpf_status history fd program) zero in cc (rw zero at h, z)
        | inr other ↦ absurd (cc (rw other at h))
      ]

  enable_fd-done :
      (fd : ℕ) (history : Trace) {u : Unit {0}} {calls : Trace}
      → enable_fd k fd history ≡ (done u, calls)
      → calls ≡ enable fd (pos 0) ∷ []
  unfolding enable_fd
  enable_fd-done fd history {u} {calls} h =
      elim (Bool-cases (is_zero (k.enable_status history fd))) [
        | inl zero ↦ let z = is_zero→eq (k.enable_status history fd) zero in cc (rw zero at h, z)
        | inr other ↦ absurd (cc (rw other at h))
      ]

  arm-done :
      (program : ℕ) (fds : List ℕ) (history : Trace) {u : Unit {0}} {calls : Trace}
      → arm k program fds history ≡ (done u, calls)
      → calls ≡ armed_calls program fds
  unfolding arm
  arm-done program [] history h = cc
  arm-done program (fd ∷ fds) history {u} {calls} h =
      let (_, first, second, e, h', c) = then_in-done _ _ h in
      let (_, third, fourth, e', h'', c') = then_in-done _ _ h' in
      let s = set_bpf_fd-done program fd history e in
      let n = enable_fd-done fd _ e' in
      let r = arm-done program fds _ h'' in c ∙ rw (s, c', n, r) refl

  -- A successful attach ends by arming what it opened: each descriptor in the order of opening
  -- gets the program and is then enabled, all calls with success; in front of this stand the calls
  -- that open the descriptors, which are those that it returns.
  pub attach-armed_calls :
      (b : Bindings) (p : Probe) (program : ℕ) (pid : Option ℕ) (history : Trace) {fds : List ℕ}
      {calls : Trace}
      → attach k b p program pid history ≡ (done fds, calls)
      → (opening : Trace) × (calls ≡ opening ++ armed_calls program fds)
        × (opened_fds opening ≡ fds)
  unfolding attach holding
  attach-armed_calls b p program pid history {fds} {calls} h =
      let (opened, opening, rest, e, h', c) = then_in-done _ _ h in
      let (u, arming, last, e', h'', c') = then_in-done _ _ h' in
      let armed = arm-done program opened _ (after_failure-done _ _ e') in
      let same : opened ≡ fds = cc h'' in
      let none_left : last ≡ [] = cc h'' in
      let owned = subst (Owns []) e (open_probes-Owns k b p pid history) in
      (
        opening,
        c
            ∙ rw (c', armed, none_left, same)
                (ap (λ xs. opening ++ xs) (append-nil (armed_calls program fds))),
        sym owned.0 ∙ same,
      )
