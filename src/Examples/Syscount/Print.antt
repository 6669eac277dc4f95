-- ===== src/Examples/Syscount/Print.antt =====
-- examples/syscount/src/main.rs: the table that the program prints again and again.
pub mod Lines
use rust_bpf.Prelude.{ℕ, ◌-◌, List, [], ◌∷◌, ◌++◌, Option, none, some, length, replicate}
use rust_bpf.Text.{Text, codes}
use rust_bpf.Text.Pad.{pad_left, pad_right}
use rust_bpf.Text.Number.{show_radix}
use rust_bpf.Utils.Syscall.{Table, table_get}
use rust_bpf.Examples.Syscount.{SyscallInfo}

abbrev pub attached : List (Text × Text)
attached =
    (codes "tracepoint:raw_syscalls:sys_enter", codes "sys_enter")
    ∷ (codes "tracepoint:raw_syscalls:sys_exit", codes "sys_exit")
    ∷ []

abbrev pub heading : Text
heading =
    pad_right 10 (codes "SYSCALL")
    ++ b' ' ∷ pad_right 6 (codes "COUNT")
    ++ b' ' ∷ pad_right 10 (codes "NS")

-- The name, or else the number.
abbrev pub name_or_number : ℕ → Option Text → Text
name_or_number n none = show_radix 10 n
name_or_number n (some name) = name

unfoldable pub info_line : Table → ℕ × SyscallInfo → Text
unfolding table_get show_radix
info_line table (syscall, info) =
    pad_right 10 (name_or_number syscall (table_get table syscall))
    ++ b' ' ∷ pad_left b' ' 6 (show_radix 10 info.count)
    ++ b' ' ∷ pad_left b' ' 10 (show_radix 10 info.time_ns)

-- One round of the loop, over the entries of the map `DATA`.
unfoldable pub info_lines : Table → List (ℕ × SyscallInfo) → List Text
unfolding info_line
info_lines table [] = []
info_lines table (entry ∷ entries) = info_line table entry ∷ info_lines table entries
