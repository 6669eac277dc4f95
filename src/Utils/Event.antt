-- ===== src/Utils/Event.antt =====
-- bpf-utils/src/event.rs: the fields of a tracepoint, from the lines of its format.
pub mod Shown
pub mod RoundTrip
use rust_bpf.Prelude.{
  ℕ, zero, suc, ◌/◌, Bool, true, false, ◌||◌, List, [], ◌∷◌, ◌++◌, Option, none, some, ◌==◌, Result,
  ok, err, ◌>>=◌, ok_or, map_err, get_elem?, if◌then◌else◌,
}
use rust_bpf.Prelude.Int.{u64_mod}
use rust_bpf.Text.{Text, codes, text_eq}
use rust_bpf.Text.Split.{split, rcut, push_head}
use rust_bpf.Text.Number.{IntError, from_str_radix}

pub data FieldFormat : Type 0 where
  simple : (signed : Bool) → (size : ℕ) → FieldFormat
  array : (signed : Bool) → (size len : ℕ) → FieldFormat

-- `parse_error` is the `bail!`, `division_by_zero` a panic.
pub data EventError : Type 0 where
  parse_error division_by_zero : EventError
  parse_int : IntError → EventError

-- `split` with a test of characters.
unfoldable pub split_on : (ℕ → Bool) → Text → List Text
unfolding push_head
split_on is_sep [] = [] ∷ []
split_on is_sep (c ∷ s) =
    let rest = split_on is_sep s in if is_sep c then [] ∷ rest else push_head c rest

abbrev pub is_column_sep : ℕ → Bool
is_column_sep c = c == b':' || c == b';'

abbrev pub is_bracket : ℕ → Bool
is_bracket c = c == b'[' || c == b']'

-- The text between the first two colons or semicolons.
unfoldable pub parse_column : Option Text → Result EventError Text
unfolding split_on
parse_column none = err parse_error
parse_column (some input) = ok_or (get_elem? (split_on is_column_sep input) 1) parse_error

-- The name and, behind a bracket, the length.
abbrev pub name_and_len : Option Text → Option Text → Result EventError (Text × Option ℕ)
name_and_len none len = err parse_error
name_and_len (some name) none = ok (name, none)
name_and_len (some name) (some len) =
    map_err parse_int (from_str_radix u64_mod 10 len) >>= λ n. ok (name, some n)

-- The last word of a declaration, which is split at its brackets.
unfoldable pub parse_decl : Option Text → Result EventError (Text × Option ℕ)
unfolding parse_column rcut split_on from_str_radix
parse_decl input = do
  decl ← parse_column input
  let iter = split_on is_bracket (rcut b' ' decl).0
  name_and_len (get_elem? iter 0) (get_elem? iter 1)

unfoldable pub parse_size : Option Text → Result EventError ℕ
unfolding parse_column from_str_radix
parse_size input = do
  column ← parse_column input
  map_err parse_int (from_str_radix u64_mod 10 column)

unfoldable pub parse_signed : Option Text → Result EventError Bool
unfolding parse_column text_eq
parse_signed input = do
  column ← parse_column input
  if text_eq column (codes "0")
      then ok false
      else if text_eq column (codes "1")
      then ok true
      else err parse_error

-- The size of an element is the size over the length.
abbrev pub field_format : Bool → ℕ → Option ℕ → Result EventError FieldFormat
field_format signed size none = ok (simple signed size)
field_format signed size (some zero) = err division_by_zero
field_format signed size (some (suc n)) = ok (array signed (size / suc n) (suc n))

-- The body of the loop: the columns behind a tab, of which the second is skipped.
unfoldable pub parse_field : Text → Result EventError (Text × FieldFormat)
unfolding split parse_decl parse_size parse_signed
parse_field line = do
  let cols = split 9 line
  decl ← parse_decl (get_elem? cols 1)
  size ← parse_size (get_elem? cols 3)
  signed ← parse_signed (get_elem? cols 4)
  format ← field_format signed size decl.1
  ok (decl.0, format)

abbrev pub cons_field :
    Result EventError (Text × FieldFormat)
    → Result EventError (List (Text × FieldFormat))
    → Result EventError (List (Text × FieldFormat))
cons_field field rest = field >>= λ f. rest >>= λ fs. ok (f ∷ fs)

-- The loop over the lines behind the third: empty ones are skipped, and one that does not begin
-- with a tab ends it.
unfoldable pub parse_fields : List Text → Result EventError (List (Text × FieldFormat))
unfolding parse_field
parse_fields [] = ok []
parse_fields ([] ∷ lines) = parse_fields lines
parse_fields ((c ∷ line) ∷ lines) =
    let rest = parse_fields lines in
    if c == 9 then cons_field (parse_field (c ∷ line)) rest else ok []

abbrev pub skip_three : List Text → List Text
skip_three (a ∷ b ∷ c ∷ lines) = lines
skip_three _ = []

-- `event_format` behind the command that reads the file.
unfoldable pub event_format : List Text → Result EventError (List (Text × FieldFormat))
unfolding parse_fields
event_format lines = parse_fields (skip_three lines)
