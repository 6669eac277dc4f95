-- ===== src/Examples/Allprobes/Names.antt =====
-- examples/allprobes: the names of the programs in probe/src/main.rs and those of src/main.rs.
use mathlib.Core.List.{Mem, mem-cons}
use mathlib.Core.Logic.Or
use mathlib.Core.Option.{some-injective}
use rust_bpf.Prelude.{
  ℕ, zero, suc, ◌+◌, ◌≡◌, ◌↔◌, ◌<◌, refl, sym, ap, ◌∙◌, Bool, true, false, List, [], ◌∷◌, some,
  get_elem?, arith, nat_dec, if◌then◌else◌, Bool-cases, inl, inr,
}
use rust_bpf.Text.{Text, codes, text_eq, text_eq_self, text_dec}
use rust_bpf.Helpers.Map.{pick}
use rust_bpf.Examples.Allprobes.{
  Program, kprobe, kretprobe, uprobe, uretprobe, usdt, tracepoint, profile, interval, software,
  hardware, watchpoint, probe_names,
}

-- The name of a program's function.
abbrev pub function_name : Program → Text
function_name kprobe = codes "kprobe"
function_name kretprobe = codes "kretprobe"
function_name uprobe = codes "uprobe"
function_name uretprobe = codes "uretprobe"
function_name usdt = codes "usdt"
function_name tracepoint = codes "tracepoint"
function_name (profile bpf_get_stackid) = codes "profile"
function_name interval = codes "interval"
function_name software = codes "software"
function_name hardware = codes "hardware"
function_name watchpoint = codes "watchpoint"

-- The runs of the program of a name.
unfoldable pub runs : Text → List Program → ℕ
unfolding text_dec
runs name [] = 0
runs name (program ∷ programs) =
    pick (text_dec (function_name program) name) 1 0 + runs name programs

-- Where the name stands in the table.
abbrev pub number : Program → ℕ
number kprobe = 0
number kretprobe = 1
number uprobe = 2
number uretprobe = 3
number usdt = 4
number tracepoint = 5
number (profile bpf_get_stackid) = 6
number interval = 7
number software = 8
number hardware = 9
number watchpoint = 10

number-named :
    (program : Program) → get_elem? probe_names (number program) ≡ some (function_name program)
number-named kprobe = refl
number-named kretprobe = refl
number-named uprobe = refl
number-named uretprobe = refl
number-named usdt = refl
number-named tracepoint = refl
number-named (profile _) = refl
number-named interval = refl
number-named software = refl
number-named hardware = refl
number-named watchpoint = refl

-- No text of the list is another one's.
unfoldable occurs : Text → List Text → Bool
unfolding text_eq
occurs t [] = false
occurs t (u ∷ us) = if text_eq u t then true else occurs t us

unfoldable distinct : List Text → Bool
unfolding occurs
distinct [] = true
distinct (t ∷ ts) = if occurs t ts then false else distinct ts

occurs-get_elem? :
    (ts : List Text) (i : ℕ) (t : Text) → get_elem? ts i ≡ some t → occurs t ts ≡ true
unfolding occurs
occurs-get_elem? [] i t h = cc
occurs-get_elem? (u ∷ us) zero t h =
    let same : text_eq u t ≡ true = rw (some-injective u t h) (text_eq_self t) in
    rw (same, occurs) refl
occurs-get_elem? (u ∷ us) (suc i) t h = elim (Bool-cases (text_eq u t)) [
  | inl same ↦ rw (same, occurs) refl
  | inr apart ↦ rw (apart, occurs) (occurs-get_elem? us i t h)
]

not-distinct :
    (u : Text) (us : List Text) (j : ℕ) (t : Text)
    → distinct (u ∷ us) ≡ true
    → some u ≡ some t
    → ¬ (get_elem? us j ≡ some t)
unfolding distinct
not-distinct u us j t all first later =
    let again : occurs u us ≡ true =
      rw (some-injective u t first) (occurs-get_elem? us j t later) in
    absurd (cc (rw (again, distinct) at all))

distinct-get_elem? :
    (ts : List Text) (i j : ℕ) (t : Text)
    → distinct ts ≡ true
    → get_elem? ts i ≡ some t
    → get_elem? ts j ≡ some t
    → i ≡ j
unfolding distinct
distinct-get_elem? [] i j t all hi hj = cc
distinct-get_elem? (u ∷ us) zero zero t all hi hj = refl
distinct-get_elem? (u ∷ us) zero (suc j) t all hi hj = absurd (not-distinct u us j t all hi hj)
distinct-get_elem? (u ∷ us) (suc i) zero t all hi hj = absurd (not-distinct u us i t all hj hi)
distinct-get_elem? (u ∷ us) (suc i) (suc j) t all hi hj = elim (Bool-cases (occurs u us)) [
  | inl again ↦ absurd (cc (rw (again, distinct) at all))
  | inr once ↦ ap suc (distinct-get_elem? us i j t (rw (once, distinct) at all) hi hj)
]

distinct_names : distinct probe_names ≡ true
unfolding distinct text_eq
distinct_names = refl

pub pick_iff : {P Q : Type 0} (p : Dec P) (q : Dec Q) (m n : ℕ) → P ↔ Q → pick p m n ≡ pick q m n
pick_iff (yes a) (yes b) m n same = refl
pick_iff (no a) (no b) m n same = refl
pick_iff (yes a) (no b) m n same = absurd (b (same.0 a))
pick_iff (no a) (yes b) m n same = absurd (a (same.1 b))

pub number-function_name :
    (program : Program) (n : ℕ) (name : Text)
    → get_elem? probe_names n ≡ some name
    → (number program ≡ n) ↔ (function_name program ≡ name)
number-function_name program n name h = (
  λ e. some-injective _ name (sym (number-named program) ∙ ap (get_elem? probe_names) e ∙ h),
  λ e.
      distinct-get_elem? probe_names (number program) n name distinct_names
        (number-named program ∙ ap some e) h,
)

abbrev pub below : ℕ → List ℕ
below zero = []
below (suc n) = n ∷ below n

pub mem-below : (m n : ℕ) → m < n → Mem m (below n)
mem-below m zero h = absurd (omega arith)
mem-below m (suc n) h = elim (nat_dec m n) [
  | yes e ↦ mem-cons.1 (Or.inl e)
  | no ne ↦ mem-cons.1 (Or.inr (mem-below m n (omega arith)))
]

pub number_lt : (program : Program) → number program < 11
number_lt kprobe = omega arith
number_lt kretprobe = omega arith
number_lt uprobe = omega arith
number_lt uretprobe = omega arith
number_lt usdt = omega arith
number_lt tracepoint = omega arith
number_lt (profile _) = omega arith
number_lt interval = omega arith
number_lt software = omega arith
number_lt hardware = omega arith
number_lt watchpoint = omega arith
