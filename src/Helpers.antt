-- ===== src/Helpers.antt =====
-- bpf-helpers/src/time.rs: instants and durations of a BPF program, in nanoseconds.
pub mod Chain
pub mod Map
use rust_bpf.Prelude.{ℕ, ◌+◌, ◌-◌, ◌%◌, Option, none, some, ltb, if◌then◌else◌}
use rust_bpf.Prelude.Int.{u64_mod}

pub record Duration : Type 0 where
  pub nanos : ℕ

pub record Instant : Type 0 where
  pub since_boot : ℕ

-- `Add` and `AddAssign`, which wrap.
unfoldable pub add : Duration → Duration → Duration
add d e = record { nanos = (d.nanos + e.nanos) % u64_mod }

unfoldable pub duration_since : Instant → (earlier : Instant) → Option Duration
duration_since later earlier =
    if ltb later.since_boot earlier.since_boot
    then none
    else some (record { nanos = later.since_boot - earlier.since_boot })

-- `elapsed`, at the time `now` of the kernel's clock; `none` is the panic of `expect`.
unfoldable pub elapsed : (now : Instant) → Instant → Option Duration
unfolding duration_since
elapsed now instant = duration_since now instant
