-- ===== src/Examples/Allprobes/Print.antt =====
-- examples/allprobes/src/main.rs: the lines that the program prints.
pub mod Lines
use rust_bpf.Prelude.{
  ℕ, suc, ◌<◌, List, [], ◌∷◌, ◌++◌, Option, none, some, Result, ok, err, ◌>>=◌, ◌>>◌, ok_or,
  get_elem?, ltb, if◌then◌else◌,
}
use rust_bpf.Text.{Text, codes}
use rust_bpf.Text.Number.{show_radix}
use rust_bpf.Utils.Search.{Position}
use rust_bpf.Utils.Kallsyms.{KernelSymbol, symbol_at}
use rust_bpf.Bpf.Frames.{frames}
use rust_bpf.Bpf.{Object}
use rust_bpf.Bpf.Builder.{BpfBuilder, BuildError, attach_probe_str}
use rust_bpf.Examples.Allprobes.{probe_names}

-- The probes that are attached, with the programs that they run.
abbrev pub attached : List (Text × Text)
attached =
    (codes "kprobe:finish_task_switch", codes "kprobe")
    ∷ (codes "kretprobe:finish_task_switch", codes "kretprobe")
    ∷ (codes "uprobe:/usr/lib/libc-2.33.so:malloc", codes "uprobe")
    ∷ (codes "uretprobe:/usr/lib/libc-2.33.so:free", codes "uretprobe")
    ∷ (codes "tracepoint:raw_syscalls:sys_enter", codes "tracepoint")
    ∷ (codes "profile:hz:99", codes "profile")
    ∷ (codes "interval:ms:100", codes "interval")
    ∷ (codes "software:cs:1", codes "software")
    ∷ (codes "hardware:cache-misses:1", codes "hardware")
    ∷ []

unfoldable pub attach_all : Object → BpfBuilder → List (Text × Text) → Result BuildError BpfBuilder
unfolding attach_probe_str
attach_all obj builder [] = ok builder
attach_all obj builder ((probe, entry) ∷ probes) = do
  next ← attach_probe_str obj builder probe entry
  attach_all obj next probes

-- One line of the counts by probe; `none` is the panic of an index behind the table.
unfoldable pub probe_line : ℕ × ℕ → Option Text
unfolding show_radix
probe_line (probe, count) = elim (get_elem? probe_names probe) [
  | none ↦ none
  | some name ↦ some (name ++ b' ' ∷ show_radix 10 count)
]

-- The first key of a count by stack.
abbrev pub first_id : List (ℕ × ℕ) → Option ℕ
first_id [] = none
first_id ((id, count) ∷ entries) = some id

-- The lines of the counts by stack, where a stack was there more than once.
unfoldable pub count_lines : (label : Text) → List (ℕ × ℕ) → List Text
unfolding show_radix
count_lines label [] = []
count_lines label ((id, count) ∷ entries) =
    let rest = count_lines label entries in
    if ltb 1 count
    then (label ++ b' ' ∷ show_radix 10 id ++ b' ' ∷ show_radix 10 count) ∷ rest
    else rest

-- The lines of a user stack, from the `i`-th frame on.
unfoldable pub user_lines : (i : ℕ) → List ℕ → List Text
unfolding show_radix
user_lines i [] = []
user_lines i (ip ∷ ips) =
    (codes "  " ++ show_radix 10 i ++ codes ": 0x" ++ show_radix 16 ip) ∷ user_lines (suc i) ips

-- The two lines of a frame of a kernel stack.
unfoldable pub frame_lines : (i ip : ℕ) → Text × ℕ → List Text
unfolding show_radix
frame_lines i ip (sym, offset) =
    (codes "  " ++ show_radix 10 i ++ codes ": " ++ sym ++ b'+' ∷ show_radix 10 offset)
    ∷ (codes "        at 0x" ++ show_radix 16 ip)
    ∷ []

-- The lines of a kernel stack; `none` is the panic of a lookup in front of all symbols.
unfoldable pub kernel_lines :
    (search : (ℕ → ℕ) → ℕ → ℕ → Position)
    → List KernelSymbol
    → (i : ℕ) → List ℕ
    → Option (List Text)
unfolding symbol_at frame_lines
kernel_lines search symbols i [] = some []
kernel_lines search symbols i (ip ∷ ips) = elim (symbol_at search symbols ip) [
  | none ↦ none
  | some found ↦ elim (kernel_lines search symbols (suc i) ips) [
    | none ↦ none
    | some lines ↦ some (frame_lines i ip found ++ lines)
  ]
]

-- The lines of the first user stack behind the counts; `none` is the panic of an `unwrap`, or an
-- error.
unfoldable pub user_report :
    List (ℕ × ℕ) → (raw_stack_trace : ℕ → Option (List ℕ)) → Option (List Text)
unfolding count_lines user_lines frames
user_report entries raw_stack_trace = elim (first_id entries) [
  | none ↦ none
  | some uid ↦ elim (raw_stack_trace uid) [
    | none ↦ none
    | some ips ↦
        some (count_lines (codes "user") entries ++ codes "ustack:" ∷ user_lines 0 (frames ips))
  ]
]

unfoldable pub kernel_report :
    (search : (ℕ → ℕ) → ℕ → ℕ → Position)
    → List (ℕ × ℕ)
    → (raw_stack_trace : ℕ → Option (List ℕ)) → List KernelSymbol
    → Option (List Text)
unfolding count_lines kernel_lines frames
kernel_report search entries raw_stack_trace symbols = elim (first_id entries) [
  | none ↦ none
  | some kid ↦ elim (raw_stack_trace kid) [
    | none ↦ none
    | some ips ↦ elim (kernel_lines search symbols 0 (frames ips)) [
      | none ↦ none
      | some lines ↦ some (count_lines (codes "kernel") entries ++ codes "kstack:" ∷ lines)
    ]
  ]
]
