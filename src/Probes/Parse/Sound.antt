-- ===== src/Probes/Parse/Sound.antt =====
-- bpf-probes/src/parse.rs: the probes that the parser makes.
use mathlib.Core.Path.{subst}
use mathlib.Core.Option.{some-injective}
use rust_bpf.Prelude.{
  ℕ, ◌<◌, ◌≡◌, refl, sym, ◌⊎◌, inl, inr, Option, none, some, arith, ok, get_elem?, ok_or, >>=-eq-ok,
  ok-injective, ok_or-eq-ok, map_err, map_err-eq-ok,
}
use rust_bpf.Prelude.Int.{u64_mod}
use rust_bpf.Text.{Text, match_text-All}
use rust_bpf.Text.Split.{
  splitn, cut, rcut, splitn-head, rsplitn-head, Lacks-cut, Lacks-rcut, Lacks-cut_of,
}
use rust_bpf.Text.Number.{from_str_radix}
use rust_bpf.Text.Number.ReadShow.{from_str_radix-lt}
use rust_bpf.Probes.Software
use rust_bpf.Probes.Hardware
use rust_bpf.Probes.Events.{SoftwareEvent, HardwareEvent, parse_mode, parse_int, unsupported_unit}
use rust_bpf.Probes.Interval.{Interval, parse_u64, parse_interval, interval_of_unit, interval_arms}
use rust_bpf.Probes.Printable.{IsWhole, IsPrintable, HasCount}
use rust_bpf.Probes.Parse.RoundTrip.{parse_probe-show_probe}
use rust_bpf.Probes.Parse.{
  probe_type, parse_offset, parse_count, trim_0x, parse_kprobe, parse_uprobe, parse_uretprobe,
  parse_usdt, parse_tracepoint, parse_software, parse_hardware, parse_watchpoint, parse_args,
  parse_probe,
}
use rust_bpf.Probes.Probe.{Probe, software, hardware, show_probe, ProbeType}

abbrev Sound : Probe → Type 0
Sound p = HasCount p → IsPrintable p

parse_u64-lt : (s : Text) (n : ℕ) → parse_u64 s ≡ ok n → n < u64_mod
unfolding parse_u64
parse_u64-lt s n h = from_str_radix-lt u64_mod 10 s n (omega arith) (map_err-eq-ok parse_int _ h)

parse_offset-lt : (o : Option Text) (n : ℕ) → parse_offset o ≡ ok n → n < u64_mod
unfolding parse_offset
parse_offset-lt none n h = ground arith
parse_offset-lt (some s) n h = parse_u64-lt s n h

parse_kprobe-Sound : (args : Text) {p : Probe} → parse_kprobe args ≡ ok p → Sound p
unfolding parse_kprobe
parse_kprobe-Sound args {p} h =
    let (offset, read, made) =
      >>=-eq-ok (parse_offset (get_elem? (splitn 2 b'+' args) 1)) _
        (rw (splitn-head b'+' 0 args) at h) in
    subst Sound (ok-injective _ p made)
      (λ _. (Lacks-cut b'+' args, parse_offset-lt (get_elem? (splitn 2 b'+' args) 1) offset read))

parse_uprobe-Sound : (args : Text) {p : Probe} → parse_uprobe args ≡ ok p → Sound p
unfolding parse_uprobe
parse_uprobe-Sound args {p} h =
    let target = (rcut b':' args).0 in
    let (offset, read, made) =
      >>=-eq-ok (parse_offset (get_elem? (splitn 2 b'+' target) 1)) _
        (rw (rsplitn-head b':' 0 args, splitn-head b'+' 0 target) at h) in
    subst Sound (ok-injective _ p made) (λ _. (
      Lacks-cut_of b':' b'+' target (Lacks-rcut b':' args),
      Lacks-cut b'+' target,
      parse_offset-lt (get_elem? (splitn 2 b'+' target) 1) offset read,
    ))

parse_uretprobe-Sound : (args : Text) {p : Probe} → parse_uretprobe args ≡ ok p → Sound p
unfolding parse_uretprobe
parse_uretprobe-Sound args {p} h =
    subst Sound (ok-injective _ p (rw (rsplitn-head b':' 0 args) at h)) (λ _. Lacks-rcut b':' args)

parse_usdt-Sound : (args : Text) {p : Probe} → parse_usdt args ≡ ok p → Sound p
unfolding parse_usdt
parse_usdt-Sound args {p} h =
    subst Sound (ok-injective _ p (rw (rsplitn-head b':' 0 args) at h)) (λ _. Lacks-rcut b':' args)

parse_tracepoint-Sound : (args : Text) {p : Probe} → parse_tracepoint args ≡ ok p → Sound p
unfolding parse_tracepoint
parse_tracepoint-Sound args {p} h =
    let (name, read, made) =
      >>=-eq-ok (ok_or (get_elem? (splitn 2 b':' args) 1) _) _
        (rw (splitn-head b':' 0 args) at h) in
    subst Sound (ok-injective _ p made) (λ _. Lacks-cut b':' args)

interval_of_unit-IsWhole :
    (unit : Text) (n : ℕ) {i : Interval} → n < u64_mod → interval_of_unit unit n ≡ ok i → IsWhole i
unfolding interval_of_unit
interval_of_unit-IsWhole unit n h e =
    match_text-All (λ _. IsWhole) (interval_arms n) unit (ok_or-eq-ok _ (unsupported_unit unit) e)
      (h, ((n, h, refl), ((n, h, refl), ((n, h, refl), tt))))

parse_interval-IsWhole : (s : Text) {i : Interval} → parse_interval s ≡ ok i → IsWhole i
unfolding parse_interval
parse_interval-IsWhole s {i} h =
    let (text, found, later) =
      >>=-eq-ok (ok_or (get_elem? (splitn 2 b':' s) 1) _) _ (rw (splitn-head b':' 0 s) at h) in
    let (n, read, made) = >>=-eq-ok (parse_u64 text) _ later in
    interval_of_unit-IsWhole (cut b':' s).0 n (parse_u64-lt text n read) made

parse_count-IsCount :
    (o : Option Text) (c : Option ℕ)
    → parse_count o ≡ ok c
    → (c ≡ none) ⊎ ((n : ℕ) × (n < u64_mod) × (c ≡ some n))
unfolding parse_count
parse_count-IsCount none c h = inl (sym (ok-injective none c h))
parse_count-IsCount (some s) c h =
    let (n, read, made) = >>=-eq-ok (parse_u64 s) _ h in
    inr (n, parse_u64-lt s n read, sym (ok-injective (some n) c made))

software-Sound :
    (e : SoftwareEvent) (c : Option ℕ)
    → (c ≡ none) ⊎ ((n : ℕ) × (n < u64_mod) × (c ≡ some n))
    → Sound (software e c)
software-Sound e none h = λ counted. counted
software-Sound e (some n) (inl absent) = absurd (cc)
software-Sound e (some n) (inr (m, small, same)) = λ _. rw (some-injective n m same) small

hardware-Sound :
    (e : HardwareEvent) (c : Option ℕ)
    → (c ≡ none) ⊎ ((n : ℕ) × (n < u64_mod) × (c ≡ some n))
    → Sound (hardware e c)
hardware-Sound e none h = λ counted. counted
hardware-Sound e (some n) (inl absent) = absurd (cc)
hardware-Sound e (some n) (inr (m, small, same)) = λ _. rw (some-injective n m same) small

parse_software-Sound : (args : Text) {p : Probe} → parse_software args ≡ ok p → Sound p
unfolding parse_software
parse_software-Sound args {p} h =
    let count = get_elem? (splitn 2 b':' args) 1 in
    let (e, known, later) =
      >>=-eq-ok (Software.parse (cut b':' args).0) _ (rw (splitn-head b':' 0 args) at h) in
    let (c, read, made) = >>=-eq-ok (parse_count count) _ later in
    subst Sound (ok-injective _ p made) (software-Sound e c (parse_count-IsCount count c read))

parse_hardware-Sound : (args : Text) {p : Probe} → parse_hardware args ≡ ok p → Sound p
unfolding parse_hardware
parse_hardware-Sound args {p} h =
    let count = get_elem? (splitn 2 b':' args) 1 in
    let (e, known, later) =
      >>=-eq-ok (Hardware.parse (cut b':' args).0) _ (rw (splitn-head b':' 0 args) at h) in
    let (c, read, made) = >>=-eq-ok (parse_count count) _ later in
    subst Sound (ok-injective _ p made) (hardware-Sound e c (parse_count-IsCount count c read))

parse_watchpoint-Sound : (args : Text) {p : Probe} → parse_watchpoint args ≡ ok p → Sound p
unfolding parse_watchpoint
parse_watchpoint-Sound args {p} h =
    let iter = splitn 3 b':' args in
    let (start, has_start, h1) = >>=-eq-ok (ok_or (get_elem? iter 0) _) _ h in
    let (size, has_size, h2) = >>=-eq-ok (ok_or (get_elem? iter 1) _) _ h1 in
    let (length, read_length, h3) = >>=-eq-ok (parse_u64 size) _ h2 in
    let (access, has_access, h4) = >>=-eq-ok (ok_or (get_elem? iter 2) _) _ h3 in
    let (mode, read_mode, h5) = >>=-eq-ok (parse_mode access) _ h4 in
    let (address, read_address, made) =
      >>=-eq-ok (map_err parse_int (from_str_radix u64_mod 16 (trim_0x start))) _ h5 in
    subst Sound (ok-injective _ p made) (λ _. (
      from_str_radix-lt u64_mod 16 (trim_0x start) address (omega arith)
          (map_err-eq-ok parse_int _ read_address),
      parse_u64-lt size length read_length,
    ))

parse_args-Sound :
    (arm : ProbeType) (args : Text) {p : Probe} → parse_args arm args ≡ ok p → Sound p
unfolding parse_args
parse_args-Sound ProbeType.kprobe args h = parse_kprobe-Sound args h
parse_args-Sound ProbeType.kretprobe args {p} h = subst Sound (ok-injective _ p h) (λ _. tt)
parse_args-Sound ProbeType.uprobe args h = parse_uprobe-Sound args h
parse_args-Sound ProbeType.uretprobe args h = parse_uretprobe-Sound args h
parse_args-Sound ProbeType.usdt args h = parse_usdt-Sound args h
parse_args-Sound ProbeType.tracepoint args h = parse_tracepoint-Sound args h
parse_args-Sound ProbeType.profile args {p} h =
    let (i, read, made) = >>=-eq-ok (parse_interval args) _ h in
    subst Sound (ok-injective _ p made) (λ _. parse_interval-IsWhole args read)
parse_args-Sound ProbeType.interval args {p} h =
    let (i, read, made) = >>=-eq-ok (parse_interval args) _ h in
    subst Sound (ok-injective _ p made) (λ _. parse_interval-IsWhole args read)
parse_args-Sound ProbeType.software args h = parse_software-Sound args h
parse_args-Sound ProbeType.hardware args h = parse_hardware-Sound args h
parse_args-Sound ProbeType.watchpoint args h = parse_watchpoint-Sound args h
parse_args-Sound ProbeType.kfunc args {p} h = subst Sound (ok-injective _ p h) (λ _. tt)
parse_args-Sound ProbeType.kretfunc args {p} h = subst Sound (ok-injective _ p h) (λ _. tt)

-- Whatever text is accepted, the probe is printable, unless it is an event without a count.
pub parse_probe-IsPrintable :
    (s : Text) {p : Probe} → parse_probe s ≡ ok p → HasCount p → IsPrintable p
unfolding parse_probe
parse_probe-IsPrintable s h =
    let iter = splitn 2 b':' s in
    let (type, has_type, h1) = >>=-eq-ok (ok_or (get_elem? iter 0) _) _ h in
    let (args, has_args, h2) = >>=-eq-ok (ok_or (get_elem? iter 1) _) _ h1 in
    let (arm, known, h3) = >>=-eq-ok (ok_or (probe_type type) _) _ h2 in
    parse_args-Sound arm args h3

-- The text of an accepted probe is accepted again, and names the same probe, unless the probe is
-- an event without a count.
pub parse_probe-show_probe-parse_probe :
    (s : Text) {p : Probe} → parse_probe s ≡ ok p → HasCount p → parse_probe (show_probe p) ≡ ok p
parse_probe-show_probe-parse_probe s {p} h counted =
    parse_probe-show_probe p (parse_probe-IsPrintable s h counted)
