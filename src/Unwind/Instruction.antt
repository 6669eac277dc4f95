-- ===== src/Unwind/Instruction.antt =====
-- ehframe/src/lib.rs: unwind instructions, and the rows that are made from those of gimli. Of
-- gimli's rules there are the cases that the crate tells apart.
use rust_bpf.Prelude.{
  ℕ, suc, ◌≡◌, refl, Bool, true, false, ◌∷◌, ◌++◌, Option, none, some, ◌==◌, if◌then◌else◌,
}
use rust_bpf.Prelude.Int.{ℤ, pos, negsuc}
use rust_bpf.Text.{Text, codes}
use rust_bpf.Text.Number.{show_radix}

pub data Op : Type 0 where
  unimplemented undefined cfa_offset register : Op

pub data Reg : Type 0 where
  rip rsp : Reg

pub record Instruction : Type 0 where
  pub op : Op
  pub reg : Option Reg
  pub offset : Option ℤ

abbrev pub unimpl : Instruction
unimpl = record { op = unimplemented; reg = none; offset = none }

abbrev pub undef : Instruction
undef = record { op = undefined; reg = none; offset = none }

abbrev pub cfa_offset_by : ℤ → Instruction
cfa_offset_by offset = record { op = cfa_offset; reg = none; offset = some offset }

abbrev pub reg_offset : Reg → ℤ → Instruction
reg_offset reg offset = record { op = register; reg = some reg; offset = some offset }

unfoldable pub is_implemented : Instruction → Bool
is_implemented ins = elim ins.op [ unimplemented ↦ false | _ ↦ true ]

unfoldable pub is_defined : Instruction → Bool
is_defined ins = elim ins.op [ unimplemented ↦ false | undefined ↦ false | _ ↦ true ]

-- `{}` of an `i64`, with the sign that `Display for Instruction` puts before it.
unfoldable pub show_signed : ℤ → Text
show_signed (pos n) = b'+' ∷ show_radix 10 n
show_signed (negsuc n) = b'-' ∷ show_radix 10 (suc n)

unfoldable pub show_reg : Reg → Text
show_reg rip = codes "rip"
show_reg rsp = codes "rsp"

-- The arms of `Display for Instruction`; `none` is the panic of an `unwrap`.
unfoldable pub show_parts : Op → Option Reg → Option ℤ → Option Text
unfolding show_signed show_reg
show_parts unimplemented reg offset = some (codes "unimpl")
show_parts undefined reg offset = some (codes "undef")
show_parts cfa_offset reg none = none
show_parts cfa_offset reg (some z) = some (codes "cfa" ++ show_signed z)
show_parts register none offset = none
show_parts register (some r) none = none
show_parts register (some r) (some z) = some (show_reg r ++ show_signed z)

unfoldable pub show_instruction : Instruction → Option Text
unfolding show_parts
show_instruction ins = show_parts ins.op ins.reg ins.offset

-- The shapes that the four constructors of `Instruction` build; its fields are private.
abbrev pub BuiltParts : Op → Option Reg → Option ℤ → Type 0
BuiltParts unimplemented none none = Unit
BuiltParts undefined none none = Unit
BuiltParts cfa_offset none (some z) = Unit
BuiltParts register (some r) (some z) = Unit
BuiltParts _ _ _ = ⊥

abbrev pub IsBuilt : Instruction → Type 0
IsBuilt ins = BuiltParts ins.op ins.reg ins.offset

show_parts_total :
    (op : Op) (reg : Option Reg) (offset : Option ℤ)
    → BuiltParts op reg offset
    → (t : Text) × (show_parts op reg offset ≡ some t)
unfolding show_parts
show_parts_total unimplemented reg offset h = (_, refl)
show_parts_total undefined reg offset h = (_, refl)
show_parts_total cfa_offset none (some z) h = (_, refl)
show_parts_total register (some r) (some z) h = (_, refl)
show_parts_total cfa_offset none none h = absurd h
show_parts_total cfa_offset (some r) offset h = absurd h
show_parts_total register none offset h = absurd h
show_parts_total register (some r) none h = absurd h

-- What gimli's `RegisterRule` and `CfaRule` say, as far as the crate reads them.
pub data RegisterRule : Type 0 where
  undefined other : RegisterRule
  offset : ℤ → RegisterRule

pub data CfaRule : Type 0 where
  register_and_offset : ℕ → ℤ → CfaRule
  expression : CfaRule

pub record GimliRow : Type 0 where
  pub start_address : ℕ
  pub end_address : ℕ
  pub ra : RegisterRule
  pub cfa : CfaRule

pub record UnwindTableRow : Type 0 where
  pub start_address : ℕ
  pub end_address : ℕ
  pub rip : Instruction
  pub rsp : Instruction

-- The numbers that gimli gives to the return address and to the stack pointer.
pub record Registers : Type 0 where
  pub ra : ℕ
  pub rsp : ℕ

unfoldable pub from_gimli : Registers → ℕ → Option Reg
from_gimli g reg = if reg == g.ra then some rip else if reg == g.rsp then some rsp else none

unfoldable pub rip_instruction : RegisterRule → Instruction
rip_instruction RegisterRule.undefined = undef
rip_instruction (offset z) = cfa_offset_by z
rip_instruction other = unimpl

abbrev pub reg_or_unimpl : Option Reg → ℤ → Instruction
reg_or_unimpl none z = unimpl
reg_or_unimpl (some r) z = reg_offset r z

unfoldable pub rsp_instruction : Registers → CfaRule → Instruction
unfolding from_gimli
rsp_instruction g (register_and_offset reg z) = reg_or_unimpl (from_gimli g reg) z
rsp_instruction g expression = unimpl

-- `UnwindTableRow::parse`.
unfoldable pub parse_row : Registers → GimliRow → UnwindTableRow
unfolding rip_instruction rsp_instruction
parse_row g row = record {
  start_address = row.start_address;
  end_address = row.end_address;
  rip = rip_instruction row.ra;
  rsp = rsp_instruction g row.cfa;
}

reg_or_unimpl-IsBuilt : (r : Option Reg) (z : ℤ) → IsBuilt (reg_or_unimpl r z)
reg_or_unimpl-IsBuilt none z = tt
reg_or_unimpl-IsBuilt (some r) z = tt

-- Every instruction of a parsed row is built.
pub rip_instruction-IsBuilt : (rule : RegisterRule) → IsBuilt (rip_instruction rule)
unfolding rip_instruction
rip_instruction-IsBuilt RegisterRule.undefined = tt
rip_instruction-IsBuilt (offset z) = tt
rip_instruction-IsBuilt other = tt

pub rsp_instruction-IsBuilt : (g : Registers) (rule : CfaRule) → IsBuilt (rsp_instruction g rule)
unfolding rsp_instruction
rsp_instruction-IsBuilt g (register_and_offset reg z) = reg_or_unimpl-IsBuilt (from_gimli g reg) z
rsp_instruction-IsBuilt g expression = tt

pub show_instruction_built :
    (ins : Instruction) → IsBuilt ins → (t : Text) × (show_instruction ins ≡ some t)
unfolding show_instruction
show_instruction_built ins built = show_parts_total ins.op ins.reg ins.offset built

-- The instructions of a parsed row can be printed: no `unwrap` of `Display` panics.
pub show_instruction_total :
    (g : Registers) (row : GimliRow)
    → ((t : Text) × (show_instruction (parse_row g row).rip ≡ some t))
      × ((t : Text) × (show_instruction (parse_row g row).rsp ≡ some t))
unfolding show_instruction parse_row
show_instruction_total g row = (
  show_parts_total _ _ _ (rip_instruction-IsBuilt row.ra),
  show_parts_total _ _ _ (rsp_instruction-IsBuilt g row.cfa),
)
