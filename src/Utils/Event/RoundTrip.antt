-- ===== src/Utils/Event/RoundTrip.antt =====
-- bpf-utils/src/event.rs: the line of a field, printed and parsed.
use rust_bpf.Prelude.{
  ℕ, zero, suc, ◌/◌, ◌<◌, ◌≡◌, ◌≢◌, inl, refl, Bool, true, false, List, [], ◌∷◌, ◌++◌, append-nil,
  Option, none, some, ok, get_elem?, arith, All, All-append, All-map, Lacks,
}
use rust_bpf.Prelude.Int.{u64_mod}
use rust_bpf.Text.{Text, codes}
use rust_bpf.Text.Split.{split, rcut, rcut_at_sep}
use rust_bpf.Text.Join.{split-join}
use rust_bpf.Text.Number.{show_radix, from_str_radix}
use rust_bpf.Text.Number.ReadShow.{
  IsShown, from_str_radix-show_radix, show_radix-IsShown, IsShown-Lacks,
}
use rust_bpf.Utils.Event.{
  simple, array, is_column_sep, is_bracket, split_on, name_and_len, parse_decl, parse_size,
  parse_signed, field_format, parse_field,
}
use rust_bpf.Utils.Event.Shown.{
  Plain, split_on-Plain, split_on_at_sep, column, parse_column-column, Field, show_len, show_signed,
  show_decl, show_field, IsLen, IsField, format_of,
}

shown : (n : ℕ) → All IsShown (show_radix 10 n)
shown n = show_radix-IsShown 10 (omega arith) (omega arith) n

number-Plain_columns : (n : ℕ) → Plain is_column_sep (show_radix 10 n)
number-Plain_columns n =
    All-map IsShown (λ c. is_column_sep c ≡ false) (λ c h. ground arith) (show_radix 10 n) (shown n)

number-Plain_brackets : (n : ℕ) → Plain is_bracket (show_radix 10 n)
number-Plain_brackets n =
    All-map IsShown (λ c. is_bracket c ≡ false) (λ c h. ground arith) (show_radix 10 n) (shown n)

number-Lacks_tab : (n : ℕ) → Lacks 9 (show_radix 10 n)
number-Lacks_tab n = IsShown-Lacks 9 (show_radix 10 n) (inl refl) (shown n)

read_number : (n : ℕ) → n < u64_mod → from_str_radix u64_mod 10 (show_radix 10 n) ≡ ok n
read_number n h = from_str_radix-show_radix 10 (omega arith) (omega arith) u64_mod n h

-- What a length lacks that is not a digit or a bracket.
len-All :
    (P : ℕ → Type 0) (len : Option ℕ)
    → ((c : ℕ) → IsShown c → P c)
    → P b'['
    → P b']'
    → All P (show_len len)
len-All P none digits open_bracket close_bracket = tt
len-All P (some n) digits open_bracket close_bracket = (
  open_bracket,
  All-append P (show_radix 10 n) (b']' ∷ []) (All-map IsShown P digits (show_radix 10 n) (shown n))
      (close_bracket, tt),
)

decl-All :
    (P : ℕ → Type 0) (f : Field)
    → All P f.type
    → P b' '
    → All P f.name
    → All P (show_len f.len)
    → All P (show_decl f)
decl-All P f t s n l =
    All-append P f.type (b' ' ∷ (f.name ++ show_len f.len)) t
      (s, All-append P f.name (show_len f.len) n l)

column-Lacks_tab : (key value : Text) → Lacks 9 key → Lacks 9 value → Lacks 9 (column key value)
column-Lacks_tab key value k v =
    All-append (λ c. c ≢ 9) key (b':' ∷ (value ++ b';' ∷ [])) k
      (omega arith, All-append (λ c. c ≢ 9) value (b';' ∷ []) v (omega arith, tt))

decl-Plain : (f : Field) → IsField f → Plain is_column_sep (show_decl f)
decl-Plain f h =
    decl-All (λ c. is_column_sep c ≡ false) f h.type_columns refl h.name_columns
      (len-All (λ c. is_column_sep c ≡ false) f.len (λ c k. ground arith) refl refl)

decl-Lacks_tab : (f : Field) → IsField f → Lacks 9 (show_decl f)
decl-Lacks_tab f h =
    decl-All (λ c. c ≢ 9) f h.type_tabs (omega arith) h.name_tabs
      (len-All (λ c. c ≢ 9) f.len (λ c k. ground arith) (omega arith) (omega arith))

last_word :
    (f : Field) → IsField f → rcut b' ' (show_decl f) ≡ (f.name ++ show_len f.len, some f.type)
last_word f h = rcut_at_sep b' ' f.type (f.name ++ show_len f.len) (
    All-append (λ c. c ≢ b' ') f.name (show_len f.len) h.name_spaces
      (len-All (λ c. c ≢ b' ') f.len (λ c k. ground arith) (omega arith) (omega arith)))

name_and_len-split :
    (name : Text) (len : Option ℕ)
    → Plain is_bracket name
    → IsLen len
    → name_and_len
        (get_elem? (split_on is_bracket (name ++ show_len len)) 0)
        (get_elem? (split_on is_bracket (name ++ show_len len)) 1)
      ≡ ok (name, len)
name_and_len-split name none plain fits =
    rw (append-nil name) (rw (split_on-Plain is_bracket name plain) refl)
name_and_len-split name (some n) plain fits =
    rw (split_on_at_sep is_bracket name (show_radix 10 n ++ b']' ∷ []) b'[' plain refl) (
      rw (split_on_at_sep is_bracket (show_radix 10 n) [] b']' (number-Plain_brackets n) refl)
        (rw (read_number n fits.1) refl))

parse_decl-show_decl :
    (f : Field)
    → IsField f
    → parse_decl (some (column (codes "field") (show_decl f))) ≡ ok (f.name, f.len)
unfolding parse_decl
parse_decl-show_decl f h =
    rw
      (parse_column-column (codes "field") (show_decl f) (refl, (refl, (refl, (refl, (refl, tt)))))
        (decl-Plain f h))
      (rw (last_word f h) (name_and_len-split f.name f.len h.name_brackets h.length_fits))

parse_size-column :
    (n : ℕ) → n < u64_mod → parse_size (some (column (codes "size") (show_radix 10 n))) ≡ ok n
unfolding parse_size
parse_size-column n h =
    rw
      (parse_column-column (codes "size") (show_radix 10 n) (refl, (refl, (refl, (refl, tt))))
        (number-Plain_columns n))
      (rw (read_number n h) refl)

parse_signed-column :
    (b : Bool) → parse_signed (some (column (codes "signed") (show_signed b))) ≡ ok b
unfolding parse_signed
parse_signed-column true = refl
parse_signed-column false = refl

signed-Lacks_tab : (b : Bool) → Lacks 9 (show_signed b)
signed-Lacks_tab true = omega arith
signed-Lacks_tab false = omega arith

field_format-len :
    (signed : Bool) (size : ℕ) (len : Option ℕ)
    → IsLen len
    → field_format signed size len
      ≡ ok (elim len [ none ↦ simple signed size | some n ↦ array signed (size / n) n ])
field_format-len signed size none h = refl
field_format-len signed size (some zero) h = absurd (omega (arith, h.0))
field_format-len signed size (some (suc n)) h = refl

columns : (f : Field) → List Text
columns f =
    column (codes "field") (show_decl f)
    ∷ column (codes "offset") (show_radix 10 f.offset)
    ∷ column (codes "size") (show_radix 10 f.size)
    ∷ column (codes "signed") (show_signed f.signed)
    ∷ []

split-show_field : (f : Field) → IsField f → split 9 (show_field f) ≡ [] ∷ columns f
unfolding show_field columns
split-show_field f h = split-join 9 [] (columns f) (
  tt,
  (
    column-Lacks_tab (codes "field") (show_decl f) (omega arith) (decl-Lacks_tab f h),
    (
      column-Lacks_tab (codes "offset") (show_radix 10 f.offset) (omega arith)
          (number-Lacks_tab f.offset),
      (
        column-Lacks_tab (codes "size") (show_radix 10 f.size) (omega arith)
            (number-Lacks_tab f.size),
        (
          column-Lacks_tab (codes "signed") (show_signed f.signed) (omega arith)
              (signed-Lacks_tab f.signed),
          (tt),
        ),
      ),
    ),
  ),
)

-- The line of a field is read back as its name and its format, where an array has the size of its
-- elements, if no separator stands in the type or the name, the length of an array is not zero,
-- and length and size fit 64 bits.
pub parse_field-show_field :
    (f : Field) → IsField f → parse_field (show_field f) ≡ ok (f.name, format_of f)
unfolding parse_field columns
parse_field-show_field f h = rw (split-show_field f h) (
    rw (parse_decl-show_decl f h) (
      rw (parse_size-column f.size h.size_fits) (
        rw (parse_signed-column f.signed)
          (rw (field_format-len f.signed f.size f.len h.length_fits) refl))))
