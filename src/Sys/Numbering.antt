-- ===== src/Sys/Numbering.antt =====
-- bpf-helpers-sys/build.rs: the numbers that the helpers call.
use rust_bpf.Prelude.{ℕ, suc, ◌+◌, List, [], ◌∷◌, ◌++◌, Option, none, some, length, if◌then◌else◌}
use rust_bpf.Text.{Text}
use rust_bpf.Sys.{FnType, Segment, ForeignItemStatic, Printer, is_helper, helper_text}

-- The items that become helpers, each with its function; `none` is a segment without an argument.
abbrev pub Found : Type 0
Found = List (Text × FnType)

abbrev pub found_at : Text → Option FnType → Option Found → Option Found
found_at ident none rest = none
found_at ident (some fn_ty) none = none
found_at ident (some fn_ty) (some rest) = some ((ident, fn_ty) ∷ rest)

abbrev pub found_in : ForeignItemStatic → Option Segment → Option Found → Option Found
found_in item none rest = rest
found_in item (some last) rest =
    if is_helper item.ident last then found_at item.ident last.argument rest else rest

unfoldable pub found : List ForeignItemStatic → Option Found
found [] = some []
found (item ∷ items) = found_in item item.last (found items)

-- The helpers called by their places, from a number on.
unfoldable pub numbered : Printer → (call_idx : ℕ) → Found → List Text
unfolding helper_text
numbered p n [] = []
numbered p n ((ident, fn_ty) ∷ rest) = helper_text p ident fn_ty n ∷ numbered p (suc n) rest

abbrev pub numbered_behind : Printer → List Text → Option Found → Option (List Text)
numbered_behind p helpers none = none
numbered_behind p helpers (some items) = some (helpers ++ numbered p (length helpers + 1) items)
