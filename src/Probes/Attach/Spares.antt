-- ===== src/Probes/Attach/Spares.antt =====
-- bpf-probes/src/attach.rs: the steps that do not miss a path.
use rust_bpf.Prelude.{ℕ, ◌≢◌, inl, inr, [], ◌++◌, Option, none, some, Result, ok, err, Bool-cases}
use rust_bpf.Prelude.Int.{ℤ, u32_mod, u64_mod}
use rust_bpf.Text.{Text, codes}
use rust_bpf.Text.Trim.{trim}
use rust_bpf.Text.Number.{from_str_radix}
use rust_bpf.Utils.Elf.{resolve_symbol}
use rust_bpf.Probes.Attach.Attr.{
  id_path, kprobe_attr, uprobe_attr, tracepoint_attr, pmu_type, read_number, c_string, has_nul,
}
use rust_bpf.Probes.Attach.Kernel.{
  Attr, Trace, Kernel, Outcome, done, fail, panic, path_required, then_in, after_failure, or_throw,
  unwrap, lift, AttachError, io, elf, parse_int,
}
use rust_bpf.Probes.Attach.Open.{symbol_address, symbol_attr}
use rust_bpf.Probes.Attach.Idle.{Opening}

-- The run does not fail for a missing path.
abbrev pub Spares : {A : Type 0} → Outcome A × Trace → Type 0
Spares r = r.0 ≢ fail path_required

pub then_in-Spares :
    {A B : Type 0} (r : Outcome A × Trace) (f : A → Trace → Outcome B × Trace)
    → Spares r
    → ((a : A) (calls : Trace) → Spares (f a calls))
    → Spares (then_in r f)
then_in-Spares (done a, calls) f s h = h a calls
then_in-Spares (fail e, calls) f s h = λ k. s (cc)
then_in-Spares (panic, calls) f s h = λ k. absurd (cc)

pub after_failure-Spares :
    {A : Type 0} (r : Outcome A × Trace) (cleanup : Trace → Trace)
    → Spares r
    → Spares (after_failure r cleanup)
after_failure-Spares (done a, calls) cleanup s = s
after_failure-Spares (fail e, calls) cleanup s = s
after_failure-Spares (panic, calls) cleanup s = s

pub done-Spares : {A : Type 0} (a : A) (calls : Trace) → Spares (done a, calls)
done-Spares a calls h = cc

pub or_throw-Spares : {A : Type 0} (o : Option A) (history : Trace) → Spares (or_throw o io history)
or_throw-Spares none history h = cc
or_throw-Spares (some a) history h = cc

pub unwrap-Spares : {A : Type 0} (o : Option A) (history : Trace) → Spares (unwrap o history)
unwrap-Spares none history h = cc
unwrap-Spares (some a) history h = cc

pub lift-Spares :
    {E A : Type 0} (f : E → AttachError) (r : Result E A) (history : Trace)
    → ((e : E) → f e ≢ path_required)
    → Spares (lift f r history)
lift-Spares f (ok a) history n h = cc
lift-Spares f (err e) history n h = n e (cc)

pub c_string-Spares : (s : Text) (history : Trace) → Spares (c_string s history)
unfolding c_string
c_string-Spares s history = elim (Bool-cases (has_nul s)) [
  | inl zero ↦ rw zero (λ h. cc)
  | inr clean ↦ rw clean (λ h. cc)
]

pub Opening-Spares :
    (attr : Attr) (pid cpu : ℤ) (r : Outcome ℕ × Trace) → Opening attr pid cpu r → Spares r
Opening-Spares attr pid cpu r (inl (fd, e)) h = cc (e, h)
Opening-Spares attr pid cpu r (inr e) h = cc (e, h)

module _ (k : Kernel) where
  pub read_number-Spares :
      (limit : ℕ) (path : Text) (history : Trace) → Spares (read_number k limit path history)
  unfolding read_number
  read_number-Spares limit path history =
      then_in-Spares (or_throw (k.read_file history path) io history) _ (or_throw-Spares _ history)
        (λ text calls. lift-Spares parse_int (from_str_radix limit 10 (trim text)) _ (λ e h. cc))

  pub pmu_type-Spares : (event : Text) (history : Trace) → Spares (pmu_type k event history)
  unfolding pmu_type
  pmu_type-Spares event history = read_number-Spares u32_mod _ history

  pub kprobe_attr-Spares :
      (symbol : Text) (config offset : ℕ) (history : Trace)
      → Spares (kprobe_attr k symbol config offset history)
  unfolding kprobe_attr
  kprobe_attr-Spares symbol config offset history =
      then_in-Spares (c_string symbol history) _ (c_string-Spares symbol history) (λ name calls.
        then_in-Spares (pmu_type k (codes "kprobe") (history ++ calls)) _
          (pmu_type-Spares (codes "kprobe") _) (λ type later. done-Spares _ []))

  pub uprobe_attr-Spares :
      (path : Text) (config address : ℕ) (history : Trace)
      → Spares (uprobe_attr k path config address history)
  unfolding uprobe_attr
  uprobe_attr-Spares path config address history =
      then_in-Spares (pmu_type k (codes "uprobe") history) _ (pmu_type-Spares (codes "uprobe") _)
        (λ type later. done-Spares _ [])

  pub tracepoint_attr-Spares :
      (category name : Text) (history : Trace) → Spares (tracepoint_attr k category name history)
  unfolding tracepoint_attr
  tracepoint_attr-Spares category name history =
      then_in-Spares (pmu_type k (codes "tracepoint") history) _
        (pmu_type-Spares (codes "tracepoint") _)
        (λ type calls.
          then_in-Spares (read_number k u64_mod (id_path category name) (history ++ calls)) _
            (read_number-Spares u64_mod (id_path category name) _)
            (λ config later. done-Spares _ []))

  pub symbol_attr-Spares :
      (path symbol : Text) (config offset : ℕ) (history : Trace)
      → Spares (symbol_attr k path symbol config offset history)
  unfolding symbol_attr symbol_address
  symbol_attr-Spares path symbol config offset history =
      then_in-Spares (symbol_address k path symbol offset history) _
        (then_in-Spares (or_throw (k.open_elf history path) io history) _
          (or_throw-Spares _ history)
          (λ symbols calls.
            then_in-Spares (lift elf (resolve_symbol symbols symbol offset) (history ++ calls)) _
              (lift-Spares elf (resolve_symbol symbols symbol offset) _ (λ e h. cc))
              (λ address later. unwrap-Spares address _)))
        (λ address calls. uprobe_attr-Spares path config address (history ++ calls))
