-- ===== src/Tests/Unwind.antt =====
-- Unwinding a stack of two frames under a table of three rows.
use rust_bpf.Prelude.{
  ltb, inl, inr, ◌+◌, ℕ, zero, suc, ◌-◌, ◌≤◌, ◌<◌, ◌≡◌, ◌≢◌, refl, List, [], ◌∷◌, none, some, ◌==◌,
  length, arith, if◌then◌else◌,
}
use rust_bpf.Prelude.Int.{pos, negsuc}
use rust_bpf.Unwind.Instruction.{
  Instruction, Registers, GimliRow, RegisterRule, register_and_offset, rsp, undef, cfa_offset_by,
  reg_offset,
}
use rust_bpf.Text.{Text}
use rust_bpf.Unwind.Execute.{Memory, encode}
use rust_bpf.Unwind.Search.{search_loop, search_user, search_probe, pc_at}
use rust_bpf.Unwind.Search.Bounds.{search-lt}
use rust_bpf.Unwind.Ends.{HasEnded, walk_frames-HasEnded}
use rust_bpf.Unwind.Table.{parse_table}
use rust_bpf.Unwind.Table.Shown.{show_table, show_table-parse_table}
use rust_bpf.Unwind.Search.Finds.{Finds, search_user-Finds}
use rust_bpf.Unwind.Search.Rows.{Ascends, search_user_at_start, search_probe-search_user}
use rust_bpf.Unwind.User.{
  UnwindMap, UnwindContext, unwound, finished, crashed, unwind_context, walk_frames,
}
use rust_bpf.Unwind.Probe.{Maps, backtrace, max_stack_depth}
use rust_bpf.Unwind.Agree.{Holds}
use rust_bpf.Unwind.Agree.Stack.{pad, backtrace-walk_frames}

abbrev starts : List ℕ
starts = 100 ∷ 200 ∷ 300 ∷ []

-- The return address lies eight bytes below the frame address.
abbrev below_cfa : Instruction
below_cfa = cfa_offset_by (negsuc 7)

abbrev table : UnwindMap
table = record {
  pc = starts;
  rip = undef ∷ below_cfa ∷ undef ∷ [];
  rsp = reg_offset rsp (pos 16) ∷ reg_offset rsp (pos 32) ∷ undef ∷ [];
}

abbrev arrays : Maps
arrays = record {
  config = 3 ∷ 42 ∷ [];
  pc = 100 ∷ 200 ∷ 300 ∷ 0 ∷ [];
  rip = encode undef ∷ encode below_cfa ∷ encode undef ∷ encode undef ∷ [];
  rsp =
      encode (reg_offset rsp (pos 16))
      ∷ encode (reg_offset rsp (pos 32))
      ∷ encode undef
      ∷ encode undef
      ∷ [];
}

-- The word at 1024 is an address in the first row.
abbrev memory : Memory
memory address = if address == 1024 then some 150 else none

abbrev top : UnwindContext
top = record { map = table; rip = 250; rsp = 1000 }

abbrev caller : UnwindContext
caller = record { map = table; rip = 150; rsp = 1032 }

table-Holds : Holds arrays table
table-Holds = record {
  starts = 0 ∷ [];
  rips = encode undef ∷ [];
  rsps = encode undef ∷ [];
  config_is = refl;
  pc_is = refl;
  rip_is = refl;
  rsp_is = refl;
  many = omega arith;
  fits = omega arith;
  built_rip = (tt, (tt, (tt, tt)));
  built_rsp = (tt, (tt, (tt, tt)));
}

first_step : unwind_context memory top ≡ unwound caller
unfolding unwind_context search_loop
first_step = refl

walks : (walk_frames memory 48 top).0 ≡ 150 ∷ 0 ∷ []
unfolding walk_frames search_loop
walks = refl

comes_to_an_end : (walk_frames memory 48 top).1 ≡ finished
unfolding walk_frames search_loop
comes_to_an_end = refl

ends : (walk_frames memory 48 top).1 ≢ crashed
ends h = absurd (cc (rw comes_to_an_end at h))

backtrace-walk_frames_example :
    backtrace memory arrays 250 1000 ≡ pad max_stack_depth (250 ∷ (walk_frames memory 48 top).0)
backtrace-walk_frames_example =
    backtrace-walk_frames memory arrays 48 top table-Holds (omega arith) ends

starts-Ascends : Ascends starts
starts-Ascends zero zero lt h = absurd (omega arith)
starts-Ascends zero (suc zero) lt h = omega arith
starts-Ascends zero (suc (suc zero)) lt h = omega arith
starts-Ascends zero (suc (suc (suc j))) lt h = absurd (omega arith)
starts-Ascends (suc zero) zero lt h = absurd (omega arith)
starts-Ascends (suc zero) (suc zero) lt h = absurd (omega arith)
starts-Ascends (suc zero) (suc (suc zero)) lt h = omega arith
starts-Ascends (suc zero) (suc (suc (suc j))) lt h = absurd (omega arith)
starts-Ascends (suc (suc i)) j lt h = absurd (omega arith)

search_user-Finds_example : Finds (pc_at starts) 250 (length starts - 1) (search_user starts 250)
search_user-Finds_example = search_user-Finds starts 250 (omega arith) (omega arith)

search_user_at_start_example : search_user starts (pc_at starts 1) ≡ 1 - 1
search_user_at_start_example =
    search_user_at_start starts 1 (omega arith) starts-Ascends (omega arith) (omega arith)

search_probe-search_user_example :
    search_probe (some (length starts)) (100 ∷ 200 ∷ 300 ∷ 0 ∷ []) 250 ≡ search_user starts 250
search_probe-search_user_example =
    search_probe-search_user starts (0 ∷ []) 250 (omega arith) (omega arith)

abbrev pub amd64 : Registers
amd64 = record { ra = 16; rsp = 7 }

abbrev pub row : GimliRow
row = record {
  start_address = 100;
  end_address = 200;
  ra = RegisterRule.offset (negsuc 7);
  cfa = register_and_offset 7 (pos 16);
}

-- A table whose frames all grow.
abbrev growing : UnwindContext
growing = record {
  map = record {
    pc = starts;
    rip = undef ∷ below_cfa ∷ undef ∷ [];
    rsp = reg_offset rsp (pos 16) ∷ reg_offset rsp (pos 32) ∷ reg_offset rsp (pos 8) ∷ [];
  };
  rip = 250;
  rsp = 1000;
}

-- Every word below 2040 can be read.
abbrev readable : Memory
readable address = if ltb address 2040 then some 150 else none

unreadable : (a : ℕ) → 2048 ≤ a + 8 → readable a ≡ none
unreadable a h = ground arith

walk_frames-HasEnded_example : HasEnded (walk_frames readable 1049 growing).1
walk_frames-HasEnded_example =
    walk_frames-HasEnded readable 2048 (omega arith) 1049 growing unreadable (omega arith)
      (omega arith) (inr (inl refl), (inl refl, (inr (inl refl), tt)))
      (
        (16, refl, omega arith, omega arith),
        ((32, refl, omega arith, omega arith), ((8, refl, omega arith, omega arith), tt)),
      )
      (omega arith)

search-lt_example : (search_user starts 50 < 3) × (search_probe (some 3) starts 50 < 3)
search-lt_example = search-lt starts 50 (omega arith) (omega arith)

show_table-parse_table_example : (t : Text) × (show_table (parse_table amd64 (row ∷ [])) ≡ some t)
show_table-parse_table_example = show_table-parse_table amd64 (row ∷ [])
