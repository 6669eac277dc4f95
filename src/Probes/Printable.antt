-- ===== src/Probes/Printable.antt =====
-- bpf-probes/src/lib.rs and parse.rs: which probes have a text of their own.
use rust_bpf.Prelude.{ℕ, ◌<◌, ◌≡◌, none, some, Lacks}
use rust_bpf.Prelude.Int.{u64_mod}
use rust_bpf.Probes.Duration.{from_secs, from_millis, from_micros}
use rust_bpf.Probes.Interval.{Interval, seconds, millis, micros, hz}
use rust_bpf.Probes.Probe.{
  Probe, kprobe, kretprobe, uprobe, uretprobe, usdt, tracepoint, profile, interval, software,
  hardware, watchpoint, kfunc, kretfunc,
}

-- The duration is a whole number of its unit, as the parser makes it.
abbrev pub IsWhole : Interval → Type 0
IsWhole (seconds d) = (n : ℕ) × (n < u64_mod) × (d ≡ from_secs n)
IsWhole (millis d) = (n : ℕ) × (n < u64_mod) × (d ≡ from_millis n)
IsWhole (micros d) = (n : ℕ) × (n < u64_mod) × (d ≡ from_micros n)
IsWhole (hz freq) = freq < u64_mod

-- No separator stands in a name in front of it, the numbers fit 64 bits, and an event has a count.
abbrev pub IsPrintable : Probe → Type 0
IsPrintable (kprobe symbol offset) = Lacks b'+' symbol × (offset < u64_mod)
IsPrintable (kretprobe symbol) = Unit
IsPrintable (uprobe path symbol offset) = Lacks b':' symbol × Lacks b'+' symbol × (offset < u64_mod)
IsPrintable (uretprobe path symbol) = Lacks b':' symbol
IsPrintable (usdt path probe) = Lacks b':' probe
IsPrintable (tracepoint category name) = Lacks b':' category
IsPrintable (profile i) = IsWhole i
IsPrintable (interval i) = IsWhole i
IsPrintable (software event none) = ⊥
IsPrintable (software event (some c)) = c < u64_mod
IsPrintable (hardware event none) = ⊥
IsPrintable (hardware event (some c)) = c < u64_mod
IsPrintable (watchpoint address length mode) = (address < u64_mod) × (length < u64_mod)
IsPrintable (kfunc func) = Unit
IsPrintable (kretfunc func) = Unit

-- The probe is no event without a count, which is printed with nothing behind its last colon.
abbrev pub HasCount : Probe → Type 0
HasCount (software event none) = ⊥
HasCount (hardware event none) = ⊥
HasCount _ = Unit
