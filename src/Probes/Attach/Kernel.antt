-- ===== src/Probes/Attach/Kernel.antt =====
-- What bpf-probes/src/attach.rs asks of the operating system. The kernel is a parameter: it answers
-- from the calls made so far. A step yields an outcome and the calls that it made, in order.
use rust_bpf.Prelude.{ℕ, Bool, List, [], ◌++◌, Option, none, some, Result, ok, err}
use rust_bpf.Prelude.Int.{ℤ}
use rust_bpf.Text.{Text}
use rust_bpf.Text.Number.{IntError}
use rust_bpf.Utils.Elf.{Symbol, ElfError}

-- The fields of `perf_event_attr` that the crate sets; all else is zero. `target` is the text behind
-- the pointer in the union of `kprobe_func` and `uprobe_path`; `sample` is the union of
-- `sample_period` and `sample_freq`, which `freq` tells apart.
pub record Attr : Type 0 where
  pub type : ℕ
  pub config : ℕ
  pub freq : Bool
  pub sample : ℕ
  pub target : Option Text
  pub probe_offset : ℕ

-- The system calls, each with what it was given and what it returned.
pub data Call : Type 0 where
  opened : Attr → (pid cpu : ℤ) → (fd : ℕ) → Call
  open_failed : Attr → (pid cpu : ℤ) → Call
  set_bpf : (fd program : ℕ) → (status : ℤ) → Call
  enable : (fd : ℕ) → (status : ℤ) → Call
  disable : (fd : ℕ) → (status : ℤ) → Call
  close : (fd : ℕ) → (status : ℤ) → Call

abbrev pub Trace : Type 0
Trace = List Call

pub record Kernel : Type 0 where
  pub read_file : Trace → Text → Option Text
  pub open_elf : Trace → Text → Option (List Symbol)
  pub perf_event_open : Trace → Attr → ℤ → ℤ → ℤ
  pub set_bpf_status : Trace → ℕ → ℕ → ℤ
  pub enable_status : Trace → ℕ → ℤ
  pub disable_status : Trace → ℕ → ℤ
  pub close_status : Trace → ℕ → ℤ

pub data AttachError : Type 0 where
  io nul path_required object : AttachError
  parse_int : IntError → AttachError
  elf : ElfError → AttachError
  open_event set_bpf_event enable_event disable_event close_event : AttachError

pub data Outcome (A : Type 0) : Type 0 where
  done : A → Outcome A
  fail : AttachError → Outcome A
  panic : Outcome A

abbrev pub M : Type 0 → Type 0
M A = Trace → Outcome A × Trace

-- The continuation sees the calls of the first step in its history.
abbrev pub then_in :
    {A B : Type 0} → Outcome A × Trace → (A → Trace → Outcome B × Trace) → Outcome B × Trace
then_in (done a, calls) f = let q = f a calls in (q.0, calls ++ q.1)
then_in (fail e, calls) f = (fail e, calls)
then_in (panic, calls) f = (panic, calls)

infixl 5 ◌>>=◌ ◌>>◌
abbrev pub ◌>>=◌ : {A B : Type 0} → M A → (A → M B) → M B
◌>>=◌ m f history = then_in (m history) (λ a calls. f a (history ++ calls))

abbrev pub ◌>>◌ : {B : Type 0} → M (Unit {0}) → M B → M B
m >> k = m >>= λ _. k

abbrev pub pure : {A : Type 0} → A → M A
pure a history = (done a, [])

abbrev pub throw : {A : Type 0} → AttachError → M A
throw e history = (fail e, [])

abbrev pub abort : {A : Type 0} → M A
abort history = (panic, [])

abbrev pub lift : {E A : Type 0} → (E → AttachError) → Result E A → M A
lift f (ok a) = pure a
lift f (err e) = throw (f e)

-- `Option::unwrap`.
abbrev pub unwrap : {A : Type 0} → Option A → M A
unwrap none = abort
unwrap (some a) = pure a

abbrev pub or_throw : {A : Type 0} → Option A → AttachError → M A
or_throw none e = throw e
or_throw (some a) e = pure a

-- Run `cleanup` if `m` fails or unwinds: the drop of what the caller holds.
abbrev pub after_failure : {A : Type 0} → Outcome A × Trace → (Trace → Trace) → Outcome A × Trace
after_failure (done a, calls) cleanup = (done a, calls)
after_failure (fail e, calls) cleanup = (fail e, calls ++ cleanup calls)
after_failure (panic, calls) cleanup = (panic, calls ++ cleanup calls)
