-- ===== src/Tests/Trace.antt =====
-- Filling the arrays of the probe, and collapsing a stack.
use rust_bpf.Prelude.{
  ◌+◌, ◌*◌, Option, true, ℕ, ◌≡◌, refl, List, [], ◌∷◌, none, some, length, length-replicate,
  replicate, get_elem?, arith, ok, ◌==◌, if◌then◌else◌,
}
use mathlib.Core.List.{reverse}
use rust_bpf.Prelude.Int.{pos, negsuc, u32_mod}
use rust_bpf.Text.{Text, codes}
use rust_bpf.Text.Split.{split, rsplitn}
use rust_bpf.Text.Number.{from_str_radix}
use rust_bpf.Unwind.Instruction.{UnwindTableRow, undef, cfa_offset_by, reg_offset, rsp}
use rust_bpf.Unwind.Execute.{Memory, encode}
use rust_bpf.Unwind.Search.{search_loop}
use rust_bpf.Unwind.User.{load_map, walk_frames, finished}
use rust_bpf.Unwind.Probe.{Maps, backtrace, max_stack_depth, ehframe_entries}
use rust_bpf.Unwind.Agree.{Holds}
use rust_bpf.Unwind.Agree.Stack.{pad}
use rust_bpf.Text.{text_dec}
use rust_bpf.Probes.Interval.{hz}
use rust_bpf.Probes.Probe.{Probe, profile, show_probe}
use rust_bpf.Utils.Syscall.{Limits, increase_memlock_rlimit}
use rust_bpf.Bpf.{Object}
use rust_bpf.Helpers.Map
use rust_bpf.Helpers.Map.{KernelMap, with_max_entries, hash_type, lookup}
use rust_bpf.Trace.Counter.{Sample}
use rust_bpf.Trace.Session.{prepare}
use rust_bpf.Trace.Session.Prepared.{Prepares, prepare-Prepares}
use rust_bpf.Tests.KernelMaps.{roomy}
use rust_bpf.Trace.Fill.{fill}
use rust_bpf.Trace.Fill.Rows.{RowsAreBuilt}
use rust_bpf.Trace.Fill.Backtrace.{IsSized, fill-Holds, fill-backtrace}
use rust_bpf.Trace.Collapse.{Resolver, stack_symbols, collapsed_line}
use rust_bpf.Trace.Collapse.Lines.{collapsed_line-split}

-- A list of a given length, which stays shut.
pub filled_with {ℓ} : {A : Type ℓ} (a : A) (n : ℕ) → (xs : List A) × (length xs ≡ n)
filled_with a n = (replicate n a, length-replicate n a)

abbrev pub blank : Maps
blank = record {
  config = replicate 2 0;
  pc = (filled_with 0 ehframe_entries).0;
  rip = (filled_with (encode undef) ehframe_entries).0;
  rsp = (filled_with (encode undef) ehframe_entries).0;
}

pub blank-IsSized : IsSized blank
blank-IsSized = record {
  config_size = refl;
  pc_size = (filled_with 0 ehframe_entries).1;
  rip_size = (filled_with (encode undef) ehframe_entries).1;
  rsp_size = (filled_with (encode undef) ehframe_entries).1;
}

-- One binary at 1000 with two rows.
abbrev loaded : List (ℕ × List UnwindTableRow)
loaded =
    (
      1000,
      record {
        start_address = 16;
        end_address = 64;
        rip = cfa_offset_by (negsuc 7);
        rsp = reg_offset rsp (pos 16);
      }
          ∷ record { start_address = 64; end_address = 96; rip = undef; rsp = undef }
          ∷ [],
    )
    ∷ []

loaded-AreBuilt : RowsAreBuilt loaded
loaded-AreBuilt = (((tt, tt), ((tt, tt), tt)), tt)

fill-Holds_example :
    (m' : Maps) × (fill loaded 42 blank ≡ some m')
    × Holds m' (load_map loaded)
    × (get_elem? m'.config 1 ≡ some 42)
fill-Holds_example =
    fill-Holds loaded 42 blank blank-IsSized loaded-AreBuilt (omega arith) (omega arith)

abbrev all_zero : Memory
all_zero address = some 0

abbrev walked : List ℕ
walked = (walk_frames all_zero 48 (record { map = load_map loaded; rip = 1020; rsp = 5000 })).0

ends :
    (walk_frames all_zero 48 (record { map = load_map loaded; rip = 1020; rsp = 5000 })).1
    ≡ finished
unfolding walk_frames search_loop load_map
ends = refl

fill-backtrace_example :
    (m' : Maps) × (fill loaded 42 blank ≡ some m')
    × (backtrace all_zero m' 1020 5000 ≡ pad max_stack_depth (1020 ∷ walked))
fill-backtrace_example =
    fill-backtrace all_zero loaded 42 48 1020 5000 blank blank-IsSized loaded-AreBuilt (omega arith)
      (omega arith) (omega arith) (λ h. absurd (cc (rw ends at h)))

-- The symbols of two addresses.
abbrev resolve : Resolver ℕ
resolve ip =
    if ip == 7 then ok (some (codes "f")) else if ip == 9 then ok (some (codes "main")) else ok none

two_symbols : stack_symbols resolve (7 ∷ 9 ∷ 0 ∷ []) ≡ ok (codes "f" ∷ codes "main" ∷ [])
unfolding stack_symbols
two_symbols = refl

collapsed_line-split_example :
    (stack shown : Text) × (rsplitn 2 b' ' (collapsed_line (codes "f" ∷ codes "main" ∷ []) 12)
      ≡ shown ∷ stack ∷ [])
    × (split b';' stack ≡ reverse (codes "f" ∷ codes "main" ∷ []))
    × (from_str_radix u32_mod 10 shown ≡ ok 12)
collapsed_line-split_example =
    collapsed_line-split (codes "main") (codes "f" ∷ codes "main" ∷ []) (codes "f" ∷ []) 12 refl
      (omega arith, (omega arith, tt)) (omega arith)

abbrev profiled : Probe
profiled = profile (hz 99)

abbrev programs : Object
programs = record {
  opens = true;
  open_prog = λ entry. some (some 7);
  loads = true;
  prog = λ entry. some (some 7);
}

abbrev lifting : Limits
lifting = record { getrlimit = 0; setrlimit = λ soft hard. 0 }

prepare-Prepares_example :
    Prepares programs profiled
      (codes "/bin/a")
      42
      (some (codes "perf_event", true))
      (increase_memlock_rlimit lifting)
      true
      (prepare lifting programs (show_probe profiled) (codes "/bin/a") 42)
prepare-Prepares_example =
    prepare-Prepares lifting programs (codes "/bin/a") 42 profiled (omega arith)

lifted : increase_memlock_rlimit lifting ≡ some tt
unfolding increase_memlock_rlimit
lifted = refl

abbrev pub stacks : KernelMap (List ℕ) ℕ
stacks = roomy text_dec (with_max_entries hash_type 384 4 1024)

-- The watched process, and another one.
abbrev pub sampled : List Sample
sampled =
    record { pid_tgid = 42 * u32_mod + 42; memory = all_zero; rip = 1020; rsp = 5000 }
    ∷ record { pid_tgid = 43 * u32_mod + 43; memory = all_zero; rip = 1020; rsp = 5000 }
    ∷ []

pub get_counted :
    (f : List ℕ → Option ℕ) (stack : List ℕ) (count : ℕ)
    → f stack ≡ some count
    → Map.get stacks f stack ≡ some count
unfolding Map.get lookup
get_counted f stack count e = rw (e, Map.get) refl

abbrev pub listed : List (List ℕ)
listed = (1020 ∷ replicate 47 0) ∷ []
