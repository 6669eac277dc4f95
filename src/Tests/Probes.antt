-- ===== src/Tests/Probes.antt =====
-- Probes as text.
use rust_bpf.Prelude.{◌≡◌, refl, none, some, true, false, ok, err, arith}
use rust_bpf.Text.{codes}
use rust_bpf.Text.Number.{empty, from_str_radix}
use rust_bpf.Probes.Events.{SoftwareEvent, parse_int, parse_mode}
use rust_bpf.Probes.Probe.{Probe, uprobe, watchpoint, software, show_probe}
use rust_bpf.Probes.Parse.{parse_probe, parse_watchpoint}
use rust_bpf.Probes.Parse.RoundTrip.{parse_probe-show_probe}
use rust_bpf.Probes.Parse.Sound.{parse_probe-show_probe-parse_probe}
use rust_bpf.Probes.Parse.Refusal.{parse_probe-no_count}

abbrev main_of_a : Probe
main_of_a = uprobe (some (codes "/bin/a")) (codes "main") 12

abbrev written : Probe
written = watchpoint 255 8 (record { read = true; write = true; execute = false })

parse_probe-show_probe_example : parse_probe (show_probe main_of_a) ≡ ok main_of_a
parse_probe-show_probe_example =
    parse_probe-show_probe main_of_a (omega arith, omega arith, omega arith)

is_accepted : parse_probe (codes "watchpoint:0xff:8:rw") ≡ ok written
unfolding parse_probe parse_watchpoint from_str_radix parse_mode
is_accepted = refl

parse_probe-show_probe-parse_probe_example : parse_probe (show_probe written) ≡ ok written
parse_probe-show_probe-parse_probe_example =
    parse_probe-show_probe-parse_probe (codes "watchpoint:0xff:8:rw") is_accepted tt

parse_probe-no_count_example :
    parse_probe (show_probe (software SoftwareEvent.dummy none)) ≡ err (parse_int empty)
parse_probe-no_count_example = parse_probe-no_count (software SoftwareEvent.dummy none) (λ h. h)
