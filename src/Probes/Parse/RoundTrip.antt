-- ===== src/Probes/Parse/RoundTrip.antt =====
-- bpf-probes/src/parse.rs and lib.rs: probes printed and parsed.
use rust_bpf.Prelude.{◌≡◌, refl, ◌∷◌, ◌++◌, Option, none, some, arith, Lacks, ok, ◌∙◌}
use rust_bpf.Text.{Text, codes}
use rust_bpf.Text.Split.{splitn_pair}
use rust_bpf.Probes.Parse.Args.{
  parse_interval-show_interval, rsplitn-show_path, parse_kprobe-show_args, parse_uprobe-show_args,
  parse_software-show_args, parse_hardware-show_args, parse_watchpoint-show_args,
}
use rust_bpf.Probes.Printable.{IsPrintable}
use rust_bpf.Probes.Parse.{
  probe_type, parse_uretprobe, parse_usdt, parse_tracepoint, parse_args, parse_probe,
}
use rust_bpf.Probes.Probe.{
  Probe, kprobe, kretprobe, uprobe, uretprobe, usdt, tracepoint, profile, interval, software,
  hardware, watchpoint, kfunc, kretfunc, show_type, show_args, show_probe, show_path, show_count,
  ProbeType,
}

parse_uretprobe-show_path :
    (path : Option Text) (symbol : Text)
    → Lacks b':' symbol
    → parse_uretprobe (show_path path ++ symbol) ≡ ok (uretprobe path symbol)
unfolding parse_uretprobe
parse_uretprobe-show_path path symbol h =
    let (rest, split, first) = rsplitn-show_path path symbol h in rw split (rw first)

parse_usdt-show_path :
    (path : Option Text) (probe : Text)
    → Lacks b':' probe
    → parse_usdt (show_path path ++ probe) ≡ ok (usdt path probe)
unfolding parse_usdt
parse_usdt-show_path path probe h =
    let (rest, split, first) = rsplitn-show_path path probe h in rw split (rw first)

parse_tracepoint-pair :
    (category name : Text)
    → Lacks b':' category
    → parse_tracepoint (category ++ b':' ∷ name) ≡ ok (tracepoint category name)
unfolding parse_tracepoint
parse_tracepoint-pair category name h = rw (splitn_pair b':' category name h)

pub parse_probe-args :
    (type args : Text) (arm : ProbeType)
    → Lacks b':' type
    → probe_type type ≡ some arm
    → parse_probe (type ++ b':' ∷ args) ≡ parse_args arm args
unfolding parse_probe
parse_probe-args type args arm h e = rw (splitn_pair b':' type args h) (rw e)

-- Every printable probe is read back from its text.
pub parse_probe-show_probe : (p : Probe) → IsPrintable p → parse_probe (show_probe p) ≡ ok p
unfolding show_probe show_type show_args show_count parse_args probe_type
parse_probe-show_probe (kprobe symbol offset) h =
    parse_probe-args (codes "kprobe") _ ProbeType.kprobe (omega arith) refl
    ∙ parse_kprobe-show_args symbol offset h.0 h.1
parse_probe-show_probe (kretprobe symbol) h =
    parse_probe-args (codes "kretprobe") _ ProbeType.kretprobe (omega arith) refl
parse_probe-show_probe (uprobe path symbol offset) h =
    parse_probe-args (codes "uprobe") _ ProbeType.uprobe (omega arith) refl
    ∙ parse_uprobe-show_args path symbol offset h.0 h.1 h.2
parse_probe-show_probe (uretprobe path symbol) h =
    parse_probe-args (codes "uretprobe") _ ProbeType.uretprobe (omega arith) refl
    ∙ parse_uretprobe-show_path path symbol h
parse_probe-show_probe (usdt path probe) h =
    parse_probe-args (codes "usdt") _ ProbeType.usdt (omega arith) refl
    ∙ parse_usdt-show_path path probe h
parse_probe-show_probe (tracepoint category name) h =
    parse_probe-args (codes "tracepoint") _ ProbeType.tracepoint (omega arith) refl
    ∙ parse_tracepoint-pair category name h
parse_probe-show_probe (profile i) h =
    parse_probe-args (codes "profile") _ ProbeType.profile (omega arith) refl
    ∙ rw (parse_interval-show_interval i h)
parse_probe-show_probe (interval i) h =
    parse_probe-args (codes "interval") _ ProbeType.interval (omega arith) refl
    ∙ rw (parse_interval-show_interval i h)
parse_probe-show_probe (software event none) h = absurd h
parse_probe-show_probe (software event (some c)) h =
    parse_probe-args (codes "software") _ ProbeType.software (omega arith) refl
    ∙ parse_software-show_args event c h
parse_probe-show_probe (hardware event none) h = absurd h
parse_probe-show_probe (hardware event (some c)) h =
    parse_probe-args (codes "hardware") _ ProbeType.hardware (omega arith) refl
    ∙ parse_hardware-show_args event c h
parse_probe-show_probe (watchpoint address length mode) h =
    parse_probe-args (codes "watchpoint") _ ProbeType.watchpoint (omega arith) refl
    ∙ parse_watchpoint-show_args address length mode h.0 h.1
parse_probe-show_probe (kfunc func) h =
    parse_probe-args (codes "kfunc") _ ProbeType.kfunc (omega arith) refl
parse_probe-show_probe (kretfunc func) h =
    parse_probe-args (codes "kretfunc") _ ProbeType.kretfunc (omega arith) refl
