-- ===== src/Probes/Parse.antt =====
-- bpf-probes/src/parse.rs: `Probe::from_str`.
pub mod Args
pub mod RoundTrip
pub mod Sound
pub mod Refusal
use rust_bpf.Prelude.{
  ℕ, ◌&&◌, List, [], ◌∷◌, Option, none, some, ◌==◌, if◌then◌else◌, get_elem?, Result, ok, err,
  ◌>>=◌, ok_or, map_err,
}
use rust_bpf.Prelude.Int.{u64_mod}
use rust_bpf.Text.{Text, codes, match_text}
use rust_bpf.Text.Split.{splitn, rsplitn}
use rust_bpf.Text.Number.{from_str_radix}
use rust_bpf.Probes.Software
use rust_bpf.Probes.Hardware
use rust_bpf.Probes.Events.{Parsed, expected, unsupported_probe, parse_int, parse_mode}
use rust_bpf.Probes.Interval.{parse_u64, parse_interval}
use rust_bpf.Probes.Probe.{
  Probe, ProbeType, kprobe, kretprobe, uprobe, uretprobe, usdt, tracepoint, profile, interval,
  software, hardware, watchpoint, kfunc, kretfunc,
}

-- The arms of the match on the probe's type.
unfoldable pub probe_type : Text → Option ProbeType
unfolding match_text
probe_type = match_text (
    (codes "kprobe", ProbeType.kprobe)
    ∷ (codes "kretprobe", ProbeType.kretprobe)
    ∷ (codes "uprobe", ProbeType.uprobe)
    ∷ (codes "uretprobe", ProbeType.uretprobe)
    ∷ (codes "usdt", ProbeType.usdt)
    ∷ (codes "tracepoint", ProbeType.tracepoint)
    ∷ (codes "profile", ProbeType.profile)
    ∷ (codes "interval", ProbeType.interval)
    ∷ (codes "software", ProbeType.software)
    ∷ (codes "hardware", ProbeType.hardware)
    ∷ (codes "watchpoint", ProbeType.watchpoint)
    ∷ (codes "kfunc", ProbeType.kfunc)
    ∷ (codes "kretfunc", ProbeType.kretfunc)
    ∷ [])

-- `.map(usize::from_str).transpose()?.unwrap_or_default()`.
unfoldable pub parse_offset : Option Text → Parsed ℕ
unfolding parse_u64
parse_offset none = ok 0
parse_offset (some s) = parse_u64 s

-- `if let Some(count) = iter.next() { Some(count.parse()?) } else { None }`.
unfoldable pub parse_count : Option Text → Parsed (Option ℕ)
unfolding parse_u64
parse_count none = ok none
parse_count (some s) = do c ← parse_u64 s; ok (some c)

-- `trim_start_matches("0x")` takes the prefix off as often as it stands there.
unfoldable pub trim_0x : Text → Text
trim_0x [] = []
trim_0x (c ∷ []) = c ∷ []
trim_0x (c ∷ d ∷ s) = let rest = trim_0x s in if c == b'0' && d == b'x' then rest else c ∷ d ∷ s

unfoldable pub parse_kprobe : Text → Parsed Probe
unfolding splitn parse_offset
parse_kprobe args = do
  let iter = splitn 2 b'+' args
  symbol ← ok_or (get_elem? iter 0) (expected (codes "kprobe:symbol"))
  offset ← parse_offset (get_elem? iter 1)
  ok (kprobe symbol offset)

unfoldable pub parse_uprobe : Text → Parsed Probe
unfolding splitn rsplitn parse_offset
parse_uprobe args = do
  let iter = rsplitn 2 b':' args
  target ← ok_or (get_elem? iter 0) (expected (codes "uprobe:path:symbol"))
  let path = get_elem? iter 1
  let parts = splitn 2 b'+' target
  symbol ← ok_or (get_elem? parts 0) (expected (codes "kprobe:symbol"))
  offset ← parse_offset (get_elem? parts 1)
  ok (uprobe path symbol offset)

unfoldable pub parse_uretprobe : Text → Parsed Probe
unfolding rsplitn
parse_uretprobe args = do
  let iter = rsplitn 2 b':' args
  symbol ← ok_or (get_elem? iter 0) (expected (codes "uretprobe:path:symbol"))
  ok (uretprobe (get_elem? iter 1) symbol)

unfoldable pub parse_usdt : Text → Parsed Probe
unfolding rsplitn
parse_usdt args = do
  let iter = rsplitn 2 b':' args
  probe ← ok_or (get_elem? iter 0) (expected (codes "usdt:path:probe"))
  ok (usdt (get_elem? iter 1) probe)

unfoldable pub parse_tracepoint : Text → Parsed Probe
unfolding splitn
parse_tracepoint args = do
  let iter = splitn 2 b':' args
  category ← ok_or (get_elem? iter 0) (expected (codes "tracepoint:category:name"))
  name ← ok_or (get_elem? iter 1) (expected (codes "tracepoint:category:name"))
  ok (tracepoint category name)

unfoldable pub parse_software : Text → Parsed Probe
unfolding splitn parse_count
parse_software args = do
  let iter = splitn 2 b':' args
  text ← ok_or (get_elem? iter 0) (expected (codes "software:event:count"))
  event ← Software.parse text
  count ← parse_count (get_elem? iter 1)
  ok (software event count)

unfoldable pub parse_hardware : Text → Parsed Probe
unfolding splitn parse_count
parse_hardware args = do
  let iter = splitn 2 b':' args
  text ← ok_or (get_elem? iter 0) (expected (codes "hardware:event:count"))
  event ← Hardware.parse text
  count ← parse_count (get_elem? iter 1)
  ok (hardware event count)

unfoldable pub parse_watchpoint : Text → Parsed Probe
unfolding splitn parse_u64 trim_0x
parse_watchpoint args = do
  let iter = splitn 3 b':' args
  start ← ok_or (get_elem? iter 0) (expected (codes "watchpoint:address:length:mode"))
  size ← ok_or (get_elem? iter 1) (expected (codes "watchpoint:address:length:mode"))
  length ← parse_u64 size
  access ← ok_or (get_elem? iter 2) (expected (codes "watchpoint:address:length:mode"))
  mode ← parse_mode access
  address ← map_err parse_int (from_str_radix u64_mod 16 (trim_0x start))
  ok (watchpoint address length mode)

unfoldable pub parse_args : ProbeType → Text → Parsed Probe
parse_args ProbeType.kprobe args = parse_kprobe args
parse_args ProbeType.kretprobe args = ok (kretprobe args)
parse_args ProbeType.uprobe args = parse_uprobe args
parse_args ProbeType.uretprobe args = parse_uretprobe args
parse_args ProbeType.usdt args = parse_usdt args
parse_args ProbeType.tracepoint args = parse_tracepoint args
parse_args ProbeType.profile args = do i ← parse_interval args; ok (profile i)
parse_args ProbeType.interval args = do i ← parse_interval args; ok (interval i)
parse_args ProbeType.software args = parse_software args
parse_args ProbeType.hardware args = parse_hardware args
parse_args ProbeType.watchpoint args = parse_watchpoint args
parse_args ProbeType.kfunc args = ok (kfunc args)
parse_args ProbeType.kretfunc args = ok (kretfunc args)

-- `Probe::from_str`.
unfoldable pub parse_probe : Text → Parsed Probe
unfolding splitn probe_type parse_args
parse_probe s = do
  let iter = splitn 2 b':' s
  type ← ok_or (get_elem? iter 0) (expected (codes "probe_type:probe_args"))
  args ← ok_or (get_elem? iter 1) (expected (codes "probe_type:probe_args"))
  arm ← ok_or (probe_type type) (unsupported_probe type)
  parse_args arm args
