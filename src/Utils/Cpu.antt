-- ===== src/Utils/Cpu.antt =====
-- bpf-utils/src/cpu.rs: the ids of the CPUs that are online, from the text of the kernel's list.
-- `none` is a panic of one of the `unwrap`s.
pub mod Ranges
use rust_bpf.Prelude.{
  ℕ, zero, suc, ◌+◌, ◌-◌, List, [], ◌∷◌, ◌++◌, Option, none, some, leb, if◌then◌else◌, get_elem?,
  Result, ok, err,
}
use rust_bpf.Prelude.Int.{u32_mod}
use rust_bpf.Text.{Text}
use rust_bpf.Text.Trim.{trim}
use rust_bpf.Text.Split.{split}
use rust_bpf.Text.Number.{from_str_radix}

infixl 5 ◌>>=◌
abbrev pub ◌>>=◌ {ℓ κ} : {A : Type ℓ} {B : Type κ} → Option A → (A → Option B) → Option B
none >>= f = none
some a >>= f = f a

-- `Result::unwrap`.
abbrev pub unwrap : {E A : Type 0} → Result E A → Option A
unwrap (ok a) = some a
unwrap (err e) = none

unfoldable pub count_up : ℕ → ℕ → List ℕ
count_up zero lo = []
count_up (suc n) lo = lo ∷ count_up n (lo + 1)

-- `lo..=hi`.
unfoldable pub range_inclusive : ℕ → ℕ → List ℕ
unfolding count_up
range_inclusive lo hi = if leb lo hi then count_up (suc (hi - lo)) lo else []

-- `iter.next().map(|i| i.parse().unwrap()).unwrap_or(start)`.
unfoldable pub parse_end : Option Text → ℕ → Option ℕ
parse_end none start = some start
parse_end (some i) start = unwrap (from_str_radix u32_mod 10 i)

-- The closure: the ids of one group.
unfoldable pub group_ids : Text → Option (List ℕ)
unfolding split parse_end range_inclusive
group_ids group = do
  let iter = split b'-' group
  first ← get_elem? iter 0
  start ← unwrap (from_str_radix u32_mod 10 first)
  end ← parse_end (get_elem? iter 1) start
  some (range_inclusive start end)

unfoldable pub groups_ids : List Text → Option (List ℕ)
unfolding group_ids
groups_ids [] = some []
groups_ids (g ∷ gs) = do ids ← group_ids g; rest ← groups_ids gs; some (ids ++ rest)

unfoldable pub online_cpu_ids : Text → Option (List ℕ)
unfolding groups_ids trim split
online_cpu_ids content = groups_ids (split b',' (trim content))
