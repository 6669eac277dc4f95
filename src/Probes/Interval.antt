-- ===== src/Probes/Interval.antt =====
-- bpf-probes/src/lib.rs and parse.rs: intervals.
use rust_bpf.Prelude.{ℕ, List, [], ◌∷◌, ◌++◌, get_elem?, ◌>>=◌, ok_or, map_err}
use rust_bpf.Prelude.Int.{u64_mod}
use rust_bpf.Text.{Text, codes, match_text}
use rust_bpf.Text.Split.{splitn}
use rust_bpf.Text.Number.{show_radix, from_str_radix}
use rust_bpf.Probes.Duration
use rust_bpf.Probes.Duration.{Duration}
use rust_bpf.Probes.Events.{Parsed, expected, unsupported_unit, parse_int}

pub data Interval : Type 0 where
  seconds millis micros : Duration → Interval
  hz : ℕ → Interval

-- `Display for Interval`.
unfoldable pub show_interval : Interval → Text
unfolding Duration.as_secs Duration.as_millis Duration.as_micros
show_interval (seconds p) = codes "s:" ++ show_radix 10 (Duration.as_secs p)
show_interval (millis p) = codes "ms:" ++ show_radix 10 (Duration.as_millis p)
show_interval (micros p) = codes "us:" ++ show_radix 10 (Duration.as_micros p)
show_interval (hz freq) = codes "hz:" ++ show_radix 10 freq

-- `u64::from_str` and `usize::from_str`, with the error that `?` makes of theirs.
unfoldable pub parse_u64 : Text → Parsed ℕ
parse_u64 s = map_err parse_int (from_str_radix u64_mod 10 s)

-- The arms of the match on the unit.
abbrev pub interval_arms : ℕ → List (Text × Interval)
interval_arms value =
    (codes "hz", hz value)
    ∷ (codes "s", seconds (Duration.from_secs value))
    ∷ (codes "ms", millis (Duration.from_millis value))
    ∷ (codes "us", micros (Duration.from_micros value))
    ∷ []

unfoldable pub interval_of_unit : Text → ℕ → Parsed Interval
unfolding match_text Duration.from_secs Duration.from_millis Duration.from_micros
interval_of_unit unit value = ok_or (match_text (interval_arms value) unit) (unsupported_unit unit)

-- `Interval::from_str`.
unfoldable pub parse_interval : Text → Parsed Interval
unfolding interval_of_unit splitn
parse_interval s = do
  let iter = splitn 2 b':' s
  unit ← ok_or (get_elem? iter 0) (expected (codes "unit:value"))
  text ← ok_or (get_elem? iter 1) (expected (codes "unit:value"))
  value ← parse_u64 text
  interval_of_unit unit value
