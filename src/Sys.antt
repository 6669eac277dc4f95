-- ===== src/Sys.antt =====
-- bpf-helpers-sys/build.rs: the helpers of the kernel as functions of a BPF program.
pub mod Numbering
use rust_bpf.Prelude.{
  ℕ, suc, ◌+◌, Bool, ◌&&◌, List, [], ◌∷◌, ◌++◌, Option, none, some, length, if◌then◌else◌,
}
use rust_bpf.Text.{Text, codes, text_eq}
use rust_bpf.Text.Find.{starts_with, contains, replace}

-- The type of a function: its tokens, printed, and the names of its arguments.
pub record FnType : Type 0 where
  pub printed : Text
  pub inputs : List Text

-- The last segment of a type's path, with its argument in angle brackets.
pub record Segment : Type 0 where
  pub ident : Text
  pub argument : Option FnType

-- An item of the bindings; `none` is a type that is no path.
pub record ForeignItemStatic : Type 0 where
  pub ident : Text
  pub last : Option Segment

-- How the crate quote prints the two pieces of code that a helper is made of: the inlined type, and
-- the body that calls a number with the arguments.
pub record Printer : Type 0 where
  pub inlined : FnType → Text
  pub body : FnType → (call_idx : ℕ) → List Text → Text

abbrev pub is_helper : Text → Segment → Bool
is_helper ident last = starts_with ident (codes "bpf_") && text_eq last.ident (codes "Option")

module _ (p : Printer) where
  -- The text of a helper; one with a `printk` in it is commented out.
  unfoldable pub helper_text : (ident : Text) → FnType → (call_idx : ℕ) → Text
  unfolding replace contains
  helper_text ident fn_ty call_idx =
      let named = replace (p.inlined fn_ty) (codes "fn (") (codes "fn " ++ ident ++ codes " (") in
      let helper = named ++ p.body fn_ty call_idx fn_ty.inputs in
      if contains helper (codes "printk") then codes "/* " ++ helper ++ codes " */" else helper

  -- `none` is the panic of a segment without an argument.
  abbrev pub push_helper : List Text → Text → Option FnType → Option (List Text)
  push_helper helpers ident none = none
  push_helper helpers ident (some fn_ty) =
      some (helpers ++ helper_text ident fn_ty (length helpers + 1) ∷ [])

  unfoldable pub visit_foreign_item_static : List Text → ForeignItemStatic → Option (List Text)
  unfolding helper_text starts_with text_eq
  visit_foreign_item_static helpers item = elim item.last [
    | none ↦ some helpers
    | some last ↦
        if is_helper item.ident last
        then push_helper helpers item.ident last.argument
        else some helpers
  ]

  unfoldable pub visit_file : List Text → List ForeignItemStatic → Option (List Text)
  unfolding visit_foreign_item_static
  visit_file helpers [] = some helpers
  visit_file helpers (item ∷ items) = elim (visit_foreign_item_static helpers item) [
    | none ↦ none
    | some more ↦ visit_file more items
  ]

  abbrev pub concat : List Text → Text
  concat [] = []
  concat (s ∷ ss) = s ++ concat ss

  unfoldable pub gen_helpers : List ForeignItemStatic → Option Text
  unfolding visit_file
  gen_helpers items = elim (visit_file [] items) [
    | none ↦ none
    | some helpers ↦ some (codes "pub use crate::bindings::*;\n" ++ concat helpers)
  ]
