-- ===== src/Lib.antt =====
-- The verification of rust-bpf: tracing Linux programs with BPF from Rust.
--
-- The parts of the program and how they interact. cargo-trace (cargo-trace/src/main.rs) reads a
-- probe from its command line, attaches it to a BPF program and collects user stacks. The crate
-- bpf-probes holds the probes: their text form (bpf-probes/src/lib.rs), its parser (parse.rs)
-- and their attachment through perf events (attach.rs). The BPF program of cargo-trace
-- (cargo-trace/probe/src/main.rs) unwinds user stacks in the kernel by a table of rows; the
-- crate ehframe makes the rows, and bpf-backtrace unwinds by the same table in user space.
-- bpf-utils has what these need of the system: symbols, build ids and the list of CPUs. Programs
-- for the kernel are written with bpf-helpers, whose maps the crate bpf reads in user space,
-- with the macros of bpf-macros, and with the functions that bpf-helpers-sys makes of the
-- kernel's helpers; the examples syscount and allprobes show it.
--
-- Which file models which part:
--   Prelude    Boolean tests, lists, results and integers that all modules share
--   Text       text as lists of character codes: the methods of `str` that the crates call
--              (Split, Trim) and the numbers of the standard library (Number)
--   Probes     Events, Software, Hardware, Duration, Interval and Probe model the types of
--              bpf-probes/src/lib.rs and their `Display`; Parse models `FromStr` of parse.rs, with
--              one function per kind of probe; Printable says which probes have a faithful text
--   Probes/Attach   Kernel is the interface to the operating system, Attr models the attributes
--              that attach.rs builds, Open the opening, arming and dropping of descriptors and
--              `Probe::attach`; Idle and Balance are about the owner of a descriptor, Order
--              about the order of the calls, Paths about missing paths
--   Utils      of bpf-utils/src: Elf (elf.rs: symbols, and Open the opening of files), Cpu
--              (cpu.rs), Maps (maps.rs), Kallsyms (kallsyms.rs), Dylibs (dylibs.rs: New the process up to its start, Print the
--              places of addresses and the texts), Event (event.rs), Syscall (syscall.rs and
--              rlimit.rs), and Search, the binary search of the standard library that they call
--   Unwind     Instruction and Table model ehframe/src/lib.rs, Search both binary searches, Execute
--              both interpreters and the encoding between them, User models
--              bpf-backtrace/src/lib.rs and Probe the BPF program; Agree and its child are about both, Ends
--              about walks that end, and Table.Shown about the printing of tables
--   Trace      Fill models how cargo-trace/src/main.rs writes the arrays of the probe, Collapse its
--              lines of collapsed stacks, Graph the files that it writes, Session what it makes of the
--              command line, Counter the counter of stacks in the probe, and Main how `main` puts
--              these together
--   Bpf        Builder, Load, Frames and Maps model bpf/src/lib.rs
--   Helpers    bpf-helpers/src/time.rs, and Map bpf-helpers/src/map.rs: Hash with the laws of
--              the kernel, Array, Counts the counters that programs keep in a map, Program the helpers that
--              answer with a status
--   Macros     bpf-macros/src/lib.rs
--   Sys        bpf-helpers-sys/build.rs
--   Examples   Syscount and Allprobes model the two programs under examples/, the part in the kernel
--              (probe/src/main.rs) and in Print the part in user space (src/main.rs)
--   Tests      the theorems at concrete inputs
--
-- Numbers and failures. Integers of the machine are native numbers with their wrap-around
-- written out: unchecked arithmetic wraps, as in a release build. `usize` has 64 bits. A panic
-- is a value: `none` of an Option where nothing else can fail, `panic` of an Outcome, `crashed`
-- of a step of unwinding, or a constructor of an error type that says so.
--
-- Parameters. The kernel answers system calls and file reads from the calls made so far
-- (Probes.Attach.Kernel.Kernel); the numbers of its headers are Bindings. What the object crate
-- reads from a file is a list of symbols; what gimli reads of a row is GimliRow, with the
-- numbers of the machine's registers. Memory is a partial function from addresses to words. What
-- libbpf answers of an object is Bpf.Object. A map of the kernel is Helpers.Map.KernelMap, whose
-- operations are the helpers; HashLaws is what is documented of hash maps. User space sees a map
-- through Bpf.Maps.Handle, and values through their bytes; where both sides meet, it is a
-- hypothesis that user space reads what the map holds. In Trace and Unwind the arrays of the
-- probe are lists of their full length, where an access outside fails. The process under ptrace
-- is Utils.Dylibs.New.System; what the crates object, locate_dwarf and addr2line make of files
-- is Utils.Elf.Open.Library, and the files of the flame graph are Trace.Graph.Files. The tokens
-- that quote prints are Sys.Printer, and the case of names of the crate heck is an argument.
--
-- Fuel. The loop of `walk_stack` ends only if the stack does, so its model runs on fuel; 48 is
-- what the probe's array holds. The digits of a number take at most as many rounds as its value,
-- and the binary search of the standard library as many as there are keys. All other loops are
-- structural.
--
-- Order. `sort_unstable_by_key` is a sort by insertion here, and the hash map of maps.rs a list,
-- so that elements with equal keys come in one order of those that the program may choose. The
-- binary search of the standard library may return any of equal keys: the lookup of a kernel
-- symbol takes it as an argument (Utils.Search.Documented), and that of a binary, whose starts
-- differ, is the search as it is written.
--
-- Not modelled: the reading of DWARF, the parser of gimli, the loading of objects by libbpf, the
-- build of the traced program and its running on, privileges, the drop of the loaded object at
-- the end of `main`, the output of perf events and printk, the tokens of the macros around what
-- they decide, the generated bindings, and the small example programs, since they are input and
-- output, or calls into libraries.
pub mod Prelude
pub mod Text
pub mod Utils
pub mod Probes
pub mod Unwind
pub mod Tests
pub mod Trace
pub mod Bpf
pub mod Examples
pub mod Sys
pub mod Macros
pub mod Helpers
