-- ===== src/Probes/Attach/Idle.antt =====
-- bpf-probes/src/attach.rs: the descriptors that a run opens and closes, and the steps that do
-- neither.
use rust_bpf.Prelude.{
  ℕ, ◌≡◌, ◌⊎◌, inl, inr, refl, sym, ap, ◌∙◌, List, [], ◌∷◌, ◌++◌, append_assoc, Option, none, some,
  Result, ok, err, Bool-cases,
}
use rust_bpf.Prelude.Int.{ℤ, u32_mod, u64_mod, pos, negsuc}
use rust_bpf.Text.{Text, codes}
use rust_bpf.Text.Trim.{trim}
use rust_bpf.Text.Number.{from_str_radix}
use rust_bpf.Utils.Cpu.{online_cpu_ids}
use rust_bpf.Utils.Elf.{resolve_symbol}
use rust_bpf.Probes.Attach.Attr.{
  id_path, kprobe_attr, uprobe_attr, tracepoint_attr, pmu_type, read_number, c_string, has_nul,
}
use rust_bpf.Probes.Attach.Kernel.{
  Attr, opened, open_failed, close, Trace, Kernel, Outcome, done, fail, panic, open_event, then_in,
  or_throw, unwrap, lift, AttachError, io, elf, parse_int,
}
use rust_bpf.Probes.Attach.Open.{
  set_bpf_fd, enable_fd, online, symbol_address, symbol_attr, open_result, arm,
}

-- The descriptors that the calls opened, and those that they closed, in order.
abbrev pub opened_fds : Trace → List ℕ
opened_fds [] = []
opened_fds (opened attr pid cpu fd ∷ calls) = fd ∷ opened_fds calls
opened_fds (_ ∷ calls) = opened_fds calls

abbrev pub closed_fds : Trace → List ℕ
closed_fds [] = []
closed_fds (close fd status ∷ calls) = fd ∷ closed_fds calls
closed_fds (_ ∷ calls) = closed_fds calls

pub opened_fds-append : (s t : Trace) → opened_fds (s ++ t) ≡ opened_fds s ++ opened_fds t
opened_fds-append [] t = refl
opened_fds-append (opened attr pid cpu fd ∷ s) t = ap (◌∷◌ fd) (opened_fds-append s t)
opened_fds-append (_ ∷ s) t = opened_fds-append s t

pub closed_fds-append : (s t : Trace) → closed_fds (s ++ t) ≡ closed_fds s ++ closed_fds t
closed_fds-append [] t = refl
closed_fds-append (close fd status ∷ s) t = ap (◌∷◌ fd) (closed_fds-append s t)
closed_fds-append (_ ∷ s) t = closed_fds-append s t

-- What a run that began with `held` descriptors does with them and with those that it opened: a
-- result is all of them, in order, and none is closed; a failure or a panic closes each, in order.
abbrev pub Owns : List ℕ → Outcome (List ℕ) × Trace → Type 0
Owns held (done fds, calls) = (fds ≡ held ++ opened_fds calls) × (closed_fds calls ≡ [])
Owns held (fail e, calls) = closed_fds calls ≡ held ++ opened_fds calls
Owns held (panic, calls) = closed_fds calls ≡ held ++ opened_fds calls

pub regroup :
    (held new : List ℕ) (calls t : Trace)
    → opened_fds calls ≡ new
    → (held ++ new) ++ opened_fds t ≡ held ++ opened_fds (calls ++ t)
regroup held new calls t o =
    rw (opened_fds-append calls t, o) (append_assoc held new (opened_fds t))

-- Calls that opened `new` and closed nothing, in front of a run that holds those too.
pub Owns-prefix :
    (held new : List ℕ) (calls : Trace) (q : Outcome (List ℕ) × Trace)
    → opened_fds calls ≡ new
    → closed_fds calls ≡ []
    → Owns (held ++ new) q
    → Owns held (q.0, calls ++ q.1)
Owns-prefix held new calls (done fds, t) o c h =
    (h.0 ∙ regroup held new calls t o, rw (closed_fds-append calls t, c) h.1)
Owns-prefix held new calls (fail e, t) o c h =
    rw (closed_fds-append calls t, c) (h ∙ regroup held new calls t o)
Owns-prefix held new calls (panic, t) o c h =
    rw (closed_fds-append calls t, c) (h ∙ regroup held new calls t o)

-- A run that opens and closes nothing.
abbrev pub Idle : {A : Type 0} → Outcome A × Trace → Type 0
Idle r = (opened_fds r.1 ≡ []) × (closed_fds r.1 ≡ [])

pub Idle-Owns :
    {A : Type 0} (r : Outcome A × Trace) (f : A → Trace → Outcome (List ℕ) × Trace)
    → Idle r
    → ((a : A) (calls : Trace) → Owns [] (f a calls))
    → Owns [] (then_in r f)
Idle-Owns (done a, calls) f idle h = Owns-prefix [] [] calls (f a calls) idle.0 idle.1 (h a calls)
Idle-Owns (fail e, calls) f idle h = idle.1 ∙ sym idle.0
Idle-Owns (panic, calls) f idle h = idle.1 ∙ sym idle.0

pub Idle-then :
    {A B : Type 0} (r : Outcome A × Trace) (f : A → Trace → Outcome B × Trace)
    → Idle r
    → ((a : A) (calls : Trace) → Idle (f a calls))
    → Idle (then_in r f)
Idle-then (done a, calls) f idle h = (
  opened_fds-append calls (f a calls).1 ∙ rw (idle.0, (h a calls).0),
  closed_fds-append calls (f a calls).1 ∙ rw (idle.1, (h a calls).1),
)
Idle-then (fail e, calls) f idle h = idle
Idle-then (panic, calls) f idle h = idle

pub or_throw-Idle :
    {A : Type 0} (o : Option A) (e : AttachError) (history : Trace) → Idle (or_throw o e history)
or_throw-Idle none e history = (refl, refl)
or_throw-Idle (some a) e history = (refl, refl)

pub unwrap-Idle : {A : Type 0} (o : Option A) (history : Trace) → Idle (unwrap o history)
unwrap-Idle none history = (refl, refl)
unwrap-Idle (some a) history = (refl, refl)

pub lift-Idle :
    {E A : Type 0} (f : E → AttachError) (r : Result E A) (history : Trace)
    → Idle (lift f r history)
lift-Idle f (ok a) history = (refl, refl)
lift-Idle f (err e) history = (refl, refl)

pub c_string-Idle : (s : Text) (history : Trace) → Idle (c_string s history)
unfolding c_string
c_string-Idle s history = elim (Bool-cases (has_nul s)) [
  | inl zero ↦ rw zero (refl, refl)
  | inr clean ↦ rw clean (refl, refl)
]

-- The two ways that opening a descriptor ends.
abbrev pub Opening : Attr → (pid cpu : ℤ) → Outcome ℕ × Trace → Type 0
Opening attr pid cpu r =
    ((fd : ℕ) × (r ≡ (done fd, opened attr pid cpu fd ∷ [])))
    ⊎ (r ≡ (fail open_event, open_failed attr pid cpu ∷ []))

pub open_result-cases :
    (attr : Attr) (pid cpu pfd : ℤ) → Opening attr pid cpu (open_result attr pid cpu pfd)
unfolding open_result
open_result-cases attr pid cpu (pos fd) = inl (fd, refl)
open_result-cases attr pid cpu (negsuc n) = inr refl

module _ (k : Kernel) where
  pub online-Idle : (history : Trace) → Idle (online k history)
  unfolding online
  online-Idle history =
      Idle-then (or_throw (k.read_file history _) io history) _ (or_throw-Idle _ io history)
        (λ text calls. unwrap-Idle (online_cpu_ids text) _)

  pub read_number-Idle :
      (limit : ℕ) (path : Text) (history : Trace) → Idle (read_number k limit path history)
  unfolding read_number
  read_number-Idle limit path history =
      Idle-then (or_throw (k.read_file history path) io history) _ (or_throw-Idle _ io history)
        (λ text calls. lift-Idle parse_int (from_str_radix limit 10 (trim text)) _)

  pub pmu_type-Idle : (event : Text) (history : Trace) → Idle (pmu_type k event history)
  unfolding pmu_type
  pmu_type-Idle event history = read_number-Idle u32_mod _ history

  pub kprobe_attr-Idle :
      (symbol : Text) (config offset : ℕ) (history : Trace)
      → Idle (kprobe_attr k symbol config offset history)
  unfolding kprobe_attr
  kprobe_attr-Idle symbol config offset history =
      Idle-then (c_string symbol history) _ (c_string-Idle symbol history) (λ name calls.
        Idle-then (pmu_type k (codes "kprobe") (history ++ calls)) _
          (pmu_type-Idle (codes "kprobe") _) (λ type later. (refl, refl)))

  pub uprobe_attr-Idle :
      (path : Text) (config address : ℕ) (history : Trace)
      → Idle (uprobe_attr k path config address history)
  unfolding uprobe_attr
  uprobe_attr-Idle path config address history =
      Idle-then (pmu_type k (codes "uprobe") history) _ (pmu_type-Idle (codes "uprobe") _)
        (λ type later. (refl, refl))

  pub tracepoint_attr-Idle :
      (category name : Text) (history : Trace) → Idle (tracepoint_attr k category name history)
  unfolding tracepoint_attr
  tracepoint_attr-Idle category name history =
      Idle-then (pmu_type k (codes "tracepoint") history) _ (pmu_type-Idle (codes "tracepoint") _)
        (λ type calls.
          Idle-then (read_number k u64_mod (id_path category name) (history ++ calls)) _
            (read_number-Idle u64_mod (id_path category name) _) (λ config later. (refl, refl)))

  pub symbol_address-Idle :
      (path symbol : Text) (offset : ℕ) (history : Trace)
      → Idle (symbol_address k path symbol offset history)
  unfolding symbol_address
  symbol_address-Idle path symbol offset history =
      Idle-then (or_throw (k.open_elf history path) io history) _ (or_throw-Idle _ io history)
        (λ symbols calls.
          Idle-then (lift elf (resolve_symbol symbols symbol offset) (history ++ calls)) _
            (lift-Idle elf (resolve_symbol symbols symbol offset) _)
            (λ address later. unwrap-Idle address _))

  pub symbol_attr-Idle :
      (path symbol : Text) (config offset : ℕ) (history : Trace)
      → Idle (symbol_attr k path symbol config offset history)
  unfolding symbol_attr
  symbol_attr-Idle path symbol config offset history =
      Idle-then (symbol_address k path symbol offset history) _
        (symbol_address-Idle path symbol offset history)
        (λ address calls. uprobe_attr-Idle path config address (history ++ calls))

  pub arm-Idle : (program : ℕ) (fds : List ℕ) (history : Trace) → Idle (arm k program fds history)
  unfolding arm set_bpf_fd enable_fd
  arm-Idle program [] history = (refl, refl)
  arm-Idle program (fd ∷ fds) history =
      Idle-then (set_bpf_fd k program fd history) _ (refl, refl)
        (λ _ calls.
          Idle-then (enable_fd k fd (history ++ calls)) _ (refl, refl)
            (λ _ later. arm-Idle program fds _))
