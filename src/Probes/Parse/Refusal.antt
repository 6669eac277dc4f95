-- ===== src/Probes/Parse/Refusal.antt =====
-- bpf-probes/src/parse.rs: texts that are refused, and prefixes that are dropped.
use rust_bpf.Prelude.{◌≡◌, refl, sym, Option-cases, inl, inr, ◌∙◌, [], ◌∷◌, ◌++◌, none, arith, err}
use rust_bpf.Text.{Text, codes}
use rust_bpf.Text.Split.{splitn, splitn_pair, cut}
use rust_bpf.Text.Number.{empty, from_str_radix}
use rust_bpf.Probes.Software
use rust_bpf.Probes.Hardware
use rust_bpf.Probes.Events.{parse_int, SoftwareEvent, HardwareEvent}
use rust_bpf.Probes.Interval.{parse_u64}
use rust_bpf.Probes.Printable.{HasCount}
use rust_bpf.Probes.Parse.RoundTrip.{parse_probe-args}
use rust_bpf.Probes.Parse.{
  probe_type, parse_count, parse_software, parse_hardware, parse_watchpoint, trim_0x, parse_args,
  parse_probe,
}
use rust_bpf.Probes.Probe.{
  Probe, ProbeType, software, hardware, show_type, show_args, show_count, show_probe,
}

parse_software-no_count :
    (e : SoftwareEvent) → parse_software (Software.name e ++ b':' ∷ []) ≡ err (parse_int empty)
unfolding parse_software parse_count parse_u64 from_str_radix
parse_software-no_count e =
    rw (splitn_pair b':' (Software.name e) [] (Software.name-Lacks_colon e))
      (rw (Software.parse-name e))

parse_hardware-no_count :
    (e : HardwareEvent) → parse_hardware (Hardware.name e ++ b':' ∷ []) ≡ err (parse_int empty)
unfolding parse_hardware parse_count parse_u64 from_str_radix
parse_hardware-no_count e =
    rw (splitn_pair b':' (Hardware.name e) [] (Hardware.name-Lacks_colon e))
      (rw (Hardware.parse-name e))

skip_0x : (args : Text) → parse_watchpoint (codes "0x" ++ args) ≡ parse_watchpoint args
unfolding parse_watchpoint splitn cut trim_0x
skip_0x args = elim (Option-cases (cut b':' args).1) [
  | inl last ↦ rw (last, splitn, cut) refl
  | inr (rest, more) ↦ rw (more, splitn, cut) refl
]

-- The text of a software or hardware event without a count is refused for the empty number.
pub parse_probe-no_count :
    (p : Probe) → ¬ HasCount p → parse_probe (show_probe p) ≡ err (parse_int empty)
unfolding show_probe show_type show_args show_count parse_args probe_type
parse_probe-no_count (software e none) h =
    parse_probe-args (codes "software") _ ProbeType.software (omega arith) refl
    ∙ parse_software-no_count e
parse_probe-no_count (hardware e none) h =
    parse_probe-args (codes "hardware") _ ProbeType.hardware (omega arith) refl
    ∙ parse_hardware-no_count e
parse_probe-no_count _ h = absurd (h tt)

-- In front of the arguments of a watchpoint, the prefix 0x changes nothing, also when it is
-- written again.
pub parse_watchpoint-0x :
    (args : Text)
    → parse_probe (codes "watchpoint:0x" ++ args) ≡ parse_probe (codes "watchpoint:" ++ args)
unfolding parse_args probe_type
parse_watchpoint-0x args =
    parse_probe-args (codes "watchpoint") (codes "0x" ++ args) ProbeType.watchpoint (omega arith)
      refl
    ∙ skip_0x args
    ∙ sym (parse_probe-args (codes "watchpoint") args ProbeType.watchpoint (omega arith) refl)
