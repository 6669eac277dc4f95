-- ===== src/Unwind/User.antt =====
-- bpf-backtrace/src/lib.rs: unwinding in user space.
use rust_bpf.Prelude.{
  ℕ, zero, suc, ◌+◌, ◌%◌, List, [], ◌∷◌, ◌++◌, Option, none, some, ◌==◌, true, false, get_elem?,
}
use rust_bpf.Prelude.Int.{u64_mod}
use rust_bpf.Unwind.Instruction.{Instruction, UnwindTableRow}
use rust_bpf.Unwind.Execute.{Memory, Executed, value, nothing, fault, execute}
use rust_bpf.Unwind.Search.{search_user}

pub record UnwindMap : Type 0 where
  pub pc : List ℕ
  pub rip : List Instruction
  pub rsp : List Instruction

abbrev pub empty_map : UnwindMap
empty_map = record { pc = []; rip = []; rsp = [] }

-- The loop over the rows of one binary, which was loaded at `start`.
unfoldable pub load_rows : ℕ → List UnwindTableRow → UnwindMap → UnwindMap
load_rows start [] m = m
load_rows start (row ∷ rows) m = load_rows start rows (record {
  pc = m.pc ++ ((start + row.start_address) % u64_mod) ∷ [];
  rip = m.rip ++ row.rip ∷ [];
  rsp = m.rsp ++ row.rsp ∷ [];
})

-- `UnwindMap::load` behind the reads: the entries of the address map, each with the start of its
-- mapping and the unwind table of its file.
unfoldable pub load_entries : List (ℕ × List UnwindTableRow) → UnwindMap → UnwindMap
unfolding load_rows
load_entries [] m = m
load_entries ((start, rows) ∷ entries) m = load_entries entries (load_rows start rows m)

unfoldable pub load_map : List (ℕ × List UnwindTableRow) → UnwindMap
unfolding load_entries
load_map entries = load_entries entries empty_map

pub record UnwindContext : Type 0 where
  pub map : UnwindMap
  pub rip : ℕ
  pub rsp : ℕ

-- `unwind_context`: true with the new context, false at the end of the stack, or a panic of an
-- index or an `unwrap`, or a read of unmapped memory.
pub data Unwound : Type 0 where
  unwound : UnwindContext → Unwound
  finished crashed : Unwound

-- `self.rip = rip; self.rsp = cfa` with what the two interpreters yield.
abbrev pub set_rip : UnwindContext → ℕ → Executed → Unwound
set_rip c cfa (value ip) = unwound (record c { rip = ip; rsp = cfa })
set_rip c cfa nothing = unwound (record c { rip = 0; rsp = cfa })
set_rip c cfa fault = crashed

abbrev pub set_cfa : Memory → UnwindContext → Instruction → Executed → Unwound
set_cfa mem c irip (value cfa) = set_rip c cfa (execute mem irip c.rip c.rsp cfa)
set_cfa mem c irip nothing = crashed
set_cfa mem c irip fault = crashed

abbrev pub run_row : Memory → UnwindContext → Option Instruction → Option Instruction → Unwound
run_row mem c none irsp = crashed
run_row mem c (some irip) none = crashed
run_row mem c (some irip) (some irsp) = set_cfa mem c irip (execute mem irsp c.rip c.rsp 0)

unfoldable pub unwind_context : Memory → UnwindContext → Unwound
unfolding execute search_user
unwind_context mem c =
    let i = search_user c.map.pc c.rip in
    elim (c.rip == 0) [
      | true ↦ finished
      | false ↦ run_row mem c (get_elem? c.map.rip i) (get_elem? c.map.rsp i)
    ]

-- The loop of `walk_stack`, on fuel: the addresses that the callback sees, and whether the loop came
-- to its end within the fuel.
unfoldable pub walk_frames : Memory → ℕ → UnwindContext → List ℕ × Unwound
unfolding unwind_context
walk_frames mem zero c = ([], unwound c)
walk_frames mem (suc fuel) c = elim (unwind_context mem c) [
  | unwound c' ↦ let rest = walk_frames mem fuel c' in (c'.rip ∷ rest.0, rest.1)
  | finished ↦ ([], finished)
  | crashed ↦ ([], crashed)
]

-- `walk_stack` from the context of its own frame, whose first unwinding is not shown.
unfoldable pub walk_stack : Memory → ℕ → UnwindContext → List ℕ × Unwound
unfolding walk_frames
walk_stack mem fuel c = elim (unwind_context mem c) [
  | unwound c' ↦ walk_frames mem fuel c'
  | finished ↦ walk_frames mem fuel c
  | crashed ↦ ([], crashed)
]
