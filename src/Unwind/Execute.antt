-- ===== src/Unwind/Execute.antt =====
-- The interpreters of unwind instructions: `execute_instruction` of bpf-backtrace/src/lib.rs, and
-- that of cargo-trace/probe/src/main.rs over the encoding of cargo-trace/src/main.rs. Memory answers
-- with the eight bytes at an address, or with nothing where it cannot be read.
use rust_bpf.Prelude.{ℕ, ◌≡◌, refl, Option, none, some, ◌==◌, if◌then◌else◌}
use rust_bpf.Prelude.Int.{ℤ, pos, ◌+ℤ◌, as_i64, as_u64}
use rust_bpf.Unwind.Instruction.{
  Op, unimplemented, undefined, cfa_offset, register, Reg, rip, rsp, Instruction, BuiltParts,
  IsBuilt,
}

abbrev pub Memory : Type 0
Memory = ℕ → Option ℕ

-- `(base as i64 + offset) as u64`, which wraps.
unfoldable pub offset_from : ℕ → ℤ → ℕ
unfolding ◌+ℤ◌ as_i64 as_u64
offset_from base z = as_u64 (as_i64 base +ℤ z)

-- What the user space interpreter does: a value, `None`, or a read of unmapped memory.
pub data Executed : Type 0 where
  value : ℕ → Executed
  nothing fault : Executed

-- `*(address as *const u64)`.
abbrev pub dereference : Option ℕ → Executed
dereference none = fault
dereference (some w) = value w

unfoldable pub execute_parts : Memory → Op → Option Reg → Option ℤ → (rip rsp cfa : ℕ) → Executed
unfolding offset_from
execute_parts mem cfa_offset none (some z) ip sp cfa = dereference (mem (offset_from cfa z))
execute_parts mem register (some rip) (some z) ip sp cfa = value (offset_from ip z)
execute_parts mem register (some rsp) (some z) ip sp cfa = value (offset_from sp z)
execute_parts mem _ _ _ ip sp cfa = nothing

-- `execute_instruction` of bpf-backtrace.
unfoldable pub execute : Memory → Instruction → (rip rsp cfa : ℕ) → Executed
unfolding execute_parts
execute mem ins ip sp cfa = execute_parts mem ins.op ins.reg ins.offset ip sp cfa

-- The instruction in the maps of the probe.
pub record Encoded : Type 0 where
  pub op : ℕ
  pub offset : ℤ

unfoldable pub encode_op : Op → Option Reg → ℕ
encode_op cfa_offset none = 1
encode_op register (some rip) = 2
encode_op register (some rsp) = 3
encode_op _ _ = 0

abbrev pub offset_or_zero : Option ℤ → ℤ
offset_or_zero none = pos 0
offset_or_zero (some z) = z

-- `From<ehframe::Instruction>` of cargo-trace/src/main.rs.
unfoldable pub encode : Instruction → Encoded
unfolding encode_op
encode ins = record { op = encode_op ins.op ins.reg; offset = offset_or_zero ins.offset }

-- `execute_instruction` of the probe; `bpf_probe_read` fails where memory cannot be read.
unfoldable pub execute_encoded : Memory → Encoded → (rip rsp cfa : ℕ) → Option ℕ
unfolding offset_from
execute_encoded mem ins ip sp cfa =
    if ins.op == 1
    then mem (offset_from cfa ins.offset)
    else if ins.op == 2
    then some (offset_from ip ins.offset)
    else if ins.op == 3
    then some (offset_from sp ins.offset)
    else none

-- How the probe sees a result of the user space interpreter.
abbrev pub seen : Executed → Option ℕ
seen (value w) = some w
seen nothing = none
seen fault = none

seen-dereference : (o : Option ℕ) → o ≡ seen (dereference o)
seen-dereference none = refl
seen-dereference (some w) = refl

encode_parts :
    (mem : Memory) (op : Op) (reg : Option Reg) (offset : Option ℤ) (ip sp cfa : ℕ)
    → BuiltParts op reg offset
    → execute_encoded mem
        (record { op = encode_op op reg; offset = offset_or_zero offset })
        ip
        sp
        cfa
      ≡ seen (execute_parts mem op reg offset ip sp cfa)
unfolding execute_encoded encode_op execute_parts
encode_parts mem unimplemented reg offset ip sp cfa h = refl
encode_parts mem undefined reg offset ip sp cfa h = refl
encode_parts mem cfa_offset none (some z) ip sp cfa h = seen-dereference (mem (offset_from cfa z))
encode_parts mem register (some rip) (some z) ip sp cfa h = refl
encode_parts mem register (some rsp) (some z) ip sp cfa h = refl
encode_parts mem cfa_offset none none ip sp cfa h = absurd h
encode_parts mem cfa_offset (some r) offset ip sp cfa h = absurd h
encode_parts mem register none offset ip sp cfa h = absurd h
encode_parts mem register (some r) none ip sp cfa h = absurd h

-- On an instruction that a constructor of `Instruction` built, the probe's interpreter of its
-- encoding does what the user space interpreter does on the instruction itself, where unreadable
-- memory is `None` instead of a fault.
pub execute_encoded-encode :
    (mem : Memory) (ins : Instruction) (ip sp cfa : ℕ)
    → IsBuilt ins
    → execute_encoded mem (encode ins) ip sp cfa ≡ seen (execute mem ins ip sp cfa)
unfolding encode execute
execute_encoded-encode mem ins ip sp cfa h = encode_parts mem ins.op ins.reg ins.offset ip sp cfa h
