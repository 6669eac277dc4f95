-- ===== src/Tests/Maps.antt =====
-- Maps from both sides, and the table of system calls.
use mathlib.Core.Logic.Or
use mathlib.Core.List.{map, Mem, mem-cons}
use rust_bpf.Prelude.{
  ℕ, ◌≡◌, refl, List, [], ◌∷◌, Option, none, some, ok, All, nat_dec, zero, suc, get_elem?, ltb,
  if◌then◌else◌, ap, ok-injective, arith,
}
use rust_bpf.Text.{Text, codes}
use rust_bpf.Text.Trim.{is_whitespace}
use rust_bpf.Helpers.Map.{
  KernelMap, MapDef, array_type, pick, with_max_entries, hash_type, update, lookup,
}
use rust_bpf.Helpers.Map
use rust_bpf.Helpers.Map.Array
use rust_bpf.Prelude.Int.{pos}
use rust_bpf.Helpers.Map.Model.{
  MapCall, getting, inserting, removing, answers, model_answers, answers-model_answers,
}
use rust_bpf.Bpf.Maps.{get, iter}
use rust_bpf.Bpf.Maps.Entries.{iter-get}
use rust_bpf.Utils.Syscall.{Table, table_lines, table_get}
use rust_bpf.Utils.Syscall.RoundTrip.{dump_line, assigned, table_lines-assigned}
use rust_bpf.Tests.KernelMaps.{roomy, roomy-HashLaws, no_entries, one_byte, shown, bytes_of}
use rust_bpf.Bpf.Maps.{Handle}

abbrev small : MapDef
small = with_max_entries hash_type 4 4 2

abbrev calls : List (MapCall ℕ ℕ)
calls =
    inserting 1 10
    ∷ getting 1
    ∷ inserting 1 11
    ∷ getting 1
    ∷ removing 1
    ∷ getting 1
    ∷ getting 2
    ∷ []

answers-model_answers_example :
    answers (roomy nat_dec small) no_entries calls ≡ model_answers nat_dec no_entries calls
unfolding Map.get lookup with_max_entries
answers-model_answers_example =
    answers-model_answers nat_dec (roomy nat_dec small) (roomy-HashLaws nat_dec small) calls
      no_entries no_entries [] (λ key. refl) (λ key there. absurd (there refl)) (omega arith)

-- A map with the key 1 alone.
abbrev one_entry : ℕ → Option ℕ
one_entry n = pick (nat_dec n 1) (some 10) none

abbrev one_map : Handle
one_map = shown one_byte one_byte ((1 ∷ []) ∷ [])

one_entry-listed :
    (key : ℕ) (bytes : List ℕ)
    → bytes_of one_byte one_byte (one_entry key) ≡ some bytes
    → Mem (key ∷ []) ((1 ∷ []) ∷ [])
one_entry-listed key bytes =
    elim (nat_dec key 1)
      as (λ d.
        bytes_of one_byte one_byte (pick d (some 10) none) ≡ some bytes
        → Mem (key ∷ []) ((1 ∷ []) ∷ [])) [
          | yes e ↦ λ h. mem-cons.1 (Or.inl (ap (λ n. n ∷ []) e))
          | no ne ↦ λ h. absurd (cc)
        ]

iter-get_example :
    All
      (λ entry. get one_byte one_byte one_map one_entry entry.0 ≡ ok (some entry.1))
      (iter one_byte one_byte one_map one_entry)
    × ((key v : ℕ)
        → get one_byte one_byte one_map one_entry key ≡ ok (some v)
        → Mem (key, v) (iter one_byte one_byte one_map one_entry))
iter-get_example =
    iter-get one_byte one_byte (record { read-as_bytes = λ n. refl }) one_map one_entry
      (λ key bytes looked.
        one_entry-listed key bytes
          (ok-injective (bytes_of one_byte one_byte (one_entry key)) (some bytes) looked))

-- Two lines of the dump, of which the second comes again with another name.
abbrev rows : List (ℕ × Text)
rows = (0, codes "read") ∷ (1, codes "write") ∷ (1, codes "send") ∷ []

table_lines-assigned_example :
    (dumped : Table) × (table_lines (map dump_line rows) [] ≡ ok dumped)
    × ((key : ℕ) → table_get dumped key ≡ assigned rows key none)
unfolding table_get is_whitespace
table_lines-assigned_example = table_lines-assigned rows [] (
  (omega arith, (refl, (refl, (refl, (refl, tt)))), λ h. cc),
  (
    (omega arith, (refl, (refl, (refl, (refl, (refl, tt))))), λ h. cc),
    ((omega arith, (refl, (refl, (refl, (refl, tt)))), λ h. cc), tt),
  ),
)

-- An array of three zeros, whose writes behind its end do nothing.
abbrev three : KernelMap ℕ ℕ
three = record {
  State = (i : ℕ) → ℕ;
  def = with_max_entries array_type 4 4 3;
  bpf_map_lookup_elem = λ f i. if ltb i 3 then some (f i) else none;
  bpf_map_update_elem = λ f i v flags. (λ j. pick (nat_dec i j) v (f j), pos 0);
  bpf_map_delete_elem = λ f i. (f, pos 0);
}

abbrev zeros : ℕ → ℕ
zeros i = 0

three-zeros : (i : ℕ) → Array.get three zeros i ≡ get_elem? (0 ∷ 0 ∷ 0 ∷ []) i
unfolding Array.get lookup
three-zeros zero = refl
three-zeros (suc zero) = refl
three-zeros (suc (suc zero)) = refl
three-zeros (suc (suc (suc i))) = ground arith

one_written : Array.get three (Array.insert three zeros 1 7) 1 ≡ some 7
unfolding Array.get Array.insert lookup update
one_written = refl
