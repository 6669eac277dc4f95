-- ===== src/Utils/Event/Shown.antt =====
-- bpf-utils/src/event.rs: the line that the kernel prints of a field, and the splitting of its
-- columns.
use rust_bpf.Prelude.{
  ℕ, ◌/◌, ◌<◌, ◌≡◌, refl, Bool, true, false, [], ◌∷◌, ◌++◌, Option, none, some, ok, All, Lacks,
}
use rust_bpf.Prelude.Int.{u64_mod}
use rust_bpf.Text.{Text, codes}
use rust_bpf.Text.Join.{join}
use rust_bpf.Text.Number.{show_radix}
use rust_bpf.Utils.Event.{
  FieldFormat, simple, array, split_on, is_column_sep, is_bracket, parse_column,
}

-- No character is a separator.
abbrev pub Plain : (ℕ → Bool) → Text → Type 0
Plain is_sep = All (λ c. is_sep c ≡ false)

pub split_on-Plain : (is_sep : ℕ → Bool) (a : Text) → Plain is_sep a → split_on is_sep a ≡ a ∷ []
unfolding split_on
split_on-Plain is_sep [] h = refl
split_on-Plain is_sep (c ∷ a) h = rw (h.0, split_on-Plain is_sep a h.1) refl

pub split_on_at_sep :
    (is_sep : ℕ → Bool) (a b : Text) (sep : ℕ)
    → Plain is_sep a
    → is_sep sep ≡ true
    → split_on is_sep (a ++ sep ∷ b) ≡ a ∷ split_on is_sep b
unfolding split_on
split_on_at_sep is_sep [] b sep h e = rw e refl
split_on_at_sep is_sep (c ∷ a) b sep h e = rw (h.0, split_on_at_sep is_sep a b sep h.1 e) refl

-- One column of a line.
abbrev pub column : Text → Text → Text
column key value = key ++ b':' ∷ (value ++ b';' ∷ [])

pub parse_column-column :
    (key value : Text)
    → Plain is_column_sep key
    → Plain is_column_sep value
    → parse_column (some (column key value)) ≡ ok value
unfolding parse_column
parse_column-column key value k v =
    rw (split_on_at_sep is_column_sep key (value ++ b';' ∷ []) b':' k refl)
      (rw (split_on_at_sep is_column_sep value [] b';' v refl) refl)

-- A field as the kernel declares it.
pub record Field : Type 0 where
  pub type : Text
  pub name : Text
  pub len : Option ℕ
  pub offset : ℕ
  pub size : ℕ
  pub signed : Bool

abbrev pub show_len : Option ℕ → Text
show_len none = []
show_len (some n) = b'[' ∷ (show_radix 10 n ++ b']' ∷ [])

abbrev pub show_signed : Bool → Text
show_signed true = codes "1"
show_signed false = codes "0"

abbrev pub show_decl : Field → Text
show_decl f = f.type ++ b' ' ∷ (f.name ++ show_len f.len)

-- The columns with a tab in front of each.
unfoldable pub show_field : Field → Text
unfolding join
show_field f = join 9 (
    []
    ∷ column (codes "field") (show_decl f)
    ∷ column (codes "offset") (show_radix 10 f.offset)
    ∷ column (codes "size") (show_radix 10 f.size)
    ∷ column (codes "signed") (show_signed f.signed)
    ∷ [])

abbrev pub IsLen : Option ℕ → Type 0
IsLen none = Unit
IsLen (some n) = (0 < n) × (n < u64_mod)

-- No separator stands in the type or the name, and the numbers fit 64 bits.
pub record IsField (f : Field) : Type 0 where
  pub type_columns : Plain is_column_sep f.type
  pub type_tabs : Lacks 9 f.type
  pub name_columns : Plain is_column_sep f.name
  pub name_tabs : Lacks 9 f.name
  pub name_spaces : Lacks b' ' f.name
  pub name_brackets : Plain is_bracket f.name
  pub length_fits : IsLen f.len
  pub size_fits : f.size < u64_mod

abbrev pub format_of : Field → FieldFormat
format_of f = elim f.len [ none ↦ simple f.signed f.size | some n ↦ array f.signed (f.size / n) n ]
