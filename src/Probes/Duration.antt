-- ===== src/Probes/Duration.antt =====
-- What bpf-probes uses of `std::time::Duration`: whole seconds, and the nanoseconds below one second.
use rust_bpf.Prelude.{ℕ, ◌+◌, ◌*◌, ◌/◌, ◌%◌, ◌≡◌, arith}

pub record Duration : Type 0 where
  pub secs : ℕ
  pub nanos : ℕ

-- `Duration::from_secs`, `from_millis` and `from_micros`, and the ways back.
unfoldable pub from_secs : ℕ → Duration
from_secs n = record { secs = n; nanos = 0 }

unfoldable pub from_millis : ℕ → Duration
from_millis n = record { secs = n / 1000; nanos = n % 1000 * 1_000_000 }

unfoldable pub from_micros : ℕ → Duration
from_micros n = record { secs = n / 1_000_000; nanos = n % 1_000_000 * 1000 }

unfoldable pub as_secs : Duration → ℕ
as_secs d = d.secs

unfoldable pub as_millis : Duration → ℕ
as_millis d = d.secs * 1000 + d.nanos / 1_000_000

unfoldable pub as_micros : Duration → ℕ
as_micros d = d.secs * 1_000_000 + d.nanos / 1000

unfoldable pub as_nanos : Duration → ℕ
as_nanos d = d.secs * 1_000_000_000 + d.nanos

pub as_millis-from_millis : (n : ℕ) → as_millis (from_millis n) ≡ n
unfolding as_millis from_millis
as_millis-from_millis n = omega arith

pub as_micros-from_micros : (n : ℕ) → as_micros (from_micros n) ≡ n
unfolding as_micros from_micros
as_micros-from_micros n = omega arith
