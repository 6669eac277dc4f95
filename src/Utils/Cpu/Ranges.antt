-- ===== src/Utils/Cpu/Ranges.antt =====
-- bpf-utils/src/cpu.rs: the kernel's list of CPUs, printed and parsed.
use rust_bpf.Prelude.{
  ℕ, ◌≡◌, ◌≢◌, ◌≤◌, ◌<◌, inl, refl, ap, List, [], ◌∷◌, ◌++◌, some, ok, arith, All, All-append,
  Lacks, true, leb, ◌-◌,
}
use mathlib.Core.List.{map}
use rust_bpf.Prelude.Int.{u32_mod}
use rust_bpf.Text.{Text}
use rust_bpf.Text.Split.{split-Lacks, split_at_sep}
use rust_bpf.Text.Join.{join, split-join}
use rust_bpf.Text.Trim.{trim}
use rust_bpf.Text.Number.{show_radix, from_str_radix}
use rust_bpf.Text.Number.ReadShow.{
  IsShown, from_str_radix-show_radix, show_radix-IsShown, IsShown-Lacks,
}
use rust_bpf.Utils.Cpu.{range_inclusive, group_ids, groups_ids, online_cpu_ids}

-- A group of the list as the kernel prints it (`%*pbl`): one number, or two with a dash between them.
pub data Group : Type 0 where
  single : ℕ → Group
  range : ℕ → ℕ → Group

abbrev pub show_group : Group → Text
show_group (single n) = show_radix 10 n
show_group (range lo hi) = show_radix 10 lo ++ b'-' ∷ show_radix 10 hi

abbrev pub IsGroup : Group → Type 0
IsGroup (single n) = n < u32_mod
IsGroup (range lo hi) = (lo ≤ hi) × (hi < u32_mod)

abbrev pub ids_of : Group → List ℕ
ids_of (single n) = n ∷ []
ids_of (range lo hi) = range_inclusive lo hi

abbrev pub all_ids : List Group → List ℕ
all_ids [] = []
all_ids (g ∷ gs) = ids_of g ++ all_ids gs

shown : (n : ℕ) → All IsShown (show_radix 10 n)
shown n = show_radix-IsShown 10 (omega arith) (omega arith) n

show-Lacks_dash : (n : ℕ) → Lacks b'-' (show_radix 10 n)
show-Lacks_dash n = IsShown-Lacks b'-' (show_radix 10 n) (inl refl) (shown n)

show-Lacks_comma : (n : ℕ) → Lacks b',' (show_radix 10 n)
show-Lacks_comma n = IsShown-Lacks b',' (show_radix 10 n) (inl refl) (shown n)

group-Lacks_comma : (g : Group) → Lacks b',' (show_group g)
group-Lacks_comma (single n) = show-Lacks_comma n
group-Lacks_comma (range lo hi) =
    All-append (λ c. c ≢ b',') (show_radix 10 lo) (b'-' ∷ show_radix 10 hi) (show-Lacks_comma lo)
      (omega arith, show-Lacks_comma hi)

read_back : (n : ℕ) → n < u32_mod → from_str_radix u32_mod 10 (show_radix 10 n) ≡ ok n
read_back n h = from_str_radix-show_radix 10 (omega arith) (omega arith) u32_mod n h

one_only : (n : ℕ) → range_inclusive n n ≡ n ∷ []
unfolding range_inclusive
one_only n =
    let within : leb n n ≡ true = ground arith in
    let none_behind : n - n ≡ 0 = omega arith in rw (within, none_behind) refl

group_ids-show_group : (g : Group) → IsGroup g → group_ids (show_group g) ≡ some (ids_of g)
unfolding group_ids
group_ids-show_group (single n) h =
    rw (split-Lacks b'-' (show_radix 10 n) (show-Lacks_dash n))
      (rw (read_back n h) (ap some (one_only n)))
group_ids-show_group (range lo hi) h =
    rw (split_at_sep b'-' (show_radix 10 lo) (show_radix 10 hi) (show-Lacks_dash lo)) (
      rw (split-Lacks b'-' (show_radix 10 hi) (show-Lacks_dash hi))
        (rw (read_back lo (omega arith)) (rw (read_back hi h.1) refl)))

groups_ids-map :
    (gs : List Group) → All IsGroup gs → groups_ids (map show_group gs) ≡ some (all_ids gs)
unfolding groups_ids
groups_ids-map [] h = refl
groups_ids-map (g ∷ gs) h = rw (group_ids-show_group g h.0, groups_ids-map gs h.1)

map-Lacks_comma : (gs : List Group) → All (Lacks b',') (map show_group gs)
map-Lacks_comma [] = tt
map-Lacks_comma (g ∷ gs) = (group-Lacks_comma g, map-Lacks_comma gs)

-- If the trimmed text is that of groups with commas between them, at least one, whose numbers fit
-- 32 bits and whose ranges are in order, it is read as the ids of all groups, in their order.
pub online_cpu_ids-join :
    (content : Text) (g : Group) (gs : List Group)
    → trim content ≡ join b',' (map show_group (g ∷ gs))
    → All IsGroup (g ∷ gs)
    → online_cpu_ids content ≡ some (all_ids (g ∷ gs))
unfolding online_cpu_ids
online_cpu_ids-join content g gs t h = rw t (
    rw (split-join b',' (show_group g) (map show_group gs) (map-Lacks_comma (g ∷ gs)))
      (groups_ids-map (g ∷ gs) h))
