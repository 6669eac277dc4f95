-- ===== src/Macros/Fields.antt =====
-- bpf-macros/src/lib.rs: the sizes of the fields of an event.
use native.Mathlib.Nat.{mul-div_cancel}
use rust_bpf.Prelude.{
  ℕ, ◌*◌, ◌/◌, ◌≡◌, ◌<◌, ◌⊎◌, inl, inr, refl, Bool, true, false, List, [], ◌∷◌, Option, none, some,
}
use rust_bpf.Text.{Text, codes, match_text, text_eq}
use rust_bpf.Text.Number.{show_radix}
use rust_bpf.Utils.Event.{FieldFormat, simple, array}
use rust_bpf.Utils.Event.Shown.{Field, format_of}
use rust_bpf.Macros.{FieldType, named, array_of, field_type, simple_type}

-- The integers of the language, with their sizes.
abbrev pub integers : List (Text × ℕ)
integers =
    (codes "i8", 1)
    ∷ (codes "u8", 1)
    ∷ (codes "i16", 2)
    ∷ (codes "u16", 2)
    ∷ (codes "i32", 4)
    ∷ (codes "u32", 4)
    ∷ (codes "i64", 8)
    ∷ (codes "u64", 8)
    ∷ (codes "i128", 16)
    ∷ (codes "u128", 16)
    ∷ []

abbrev pub times : Option ℕ → ℕ → Option ℕ
times none n = none
times (some size) n = some (size * n)

-- `size_of`, where the type exists.
unfoldable pub size_of : FieldType → Option ℕ
unfolding match_text
size_of (named s) = match_text integers s
size_of (array_of ty n) = times (size_of ty) n

-- An integer has this many bytes.
abbrev pub IsWordSize : ℕ → Type 0
IsWordSize n = (n ≡ 1) ⊎ (n ≡ 2) ⊎ (n ≡ 4) ⊎ (n ≡ 8)

simple_type-size_of :
    (signed : Bool) (size : ℕ) → IsWordSize size → size_of (simple_type signed size) ≡ some size
unfolding size_of match_text text_eq show_radix
simple_type-size_of true size (inl e) = rw e refl
simple_type-size_of true size (inr (inl e)) = rw e refl
simple_type-size_of true size (inr (inr (inl e))) = rw e refl
simple_type-size_of true size (inr (inr (inr e))) = rw e refl
simple_type-size_of false size (inl e) = rw e refl
simple_type-size_of false size (inr (inl e)) = rw e refl
simple_type-size_of false size (inr (inr (inl e))) = rw e refl
simple_type-size_of false size (inr (inr (inr e))) = rw e refl

-- The size of a field is that of an integer, or of so many of them as the array has.
abbrev pub IsSized : Option ℕ → ℕ → Type 0
IsSized none size = IsWordSize size
IsSized (some n) size = (word : ℕ) × IsWordSize word × (size ≡ word * n) × (0 < n)

abbrev format_with : Bool → ℕ → Option ℕ → FieldFormat
format_with signed size none = simple signed size
format_with signed size (some n) = array signed (size / n) n

format_with-size_of :
    (signed : Bool) (size : ℕ) (len : Option ℕ)
    → IsSized len size
    → size_of (field_type (format_with signed size len)) ≡ some size
unfolding size_of field_type
format_with-size_of signed size none h = simple_type-size_of signed size h
format_with-size_of signed size (some n) (word, small, e, positive) =
    let back : size / n ≡ word = rw e (mul-div_cancel word positive) in
    rw (back, simple_type-size_of signed word small, e) refl

-- The type of a field has the size that the kernel gives it.
pub field_type-size_of :
    (f : Field) → IsSized f.len f.size → size_of (field_type (format_of f)) ≡ some f.size
field_type-size_of f h = format_with-size_of f.signed f.size f.len h
