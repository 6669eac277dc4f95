-- ===== src/Helpers/Chain.antt =====
-- bpf-helpers/src/time.rs: durations between instants.
use rust_bpf.Prelude.{
  ◌+◌, ◌-◌, ◌<◌, ◌≡◌, ◌↔◌, ap, some, ltb, Bool-cases, inl, inr, arith, ltb-false→le, ltb→lt,
}
use mathlib.Core.Option.{some-injective}
use rust_bpf.Prelude.Int.{u64_mod}
use rust_bpf.Helpers.{Duration, Instant, add, duration_since}

-- The duration since an instant is there exactly if the instant is not later, and is what has to
-- be added to it.
pub duration_since_lem :
    (later earlier : Instant) (d : Duration)
    → (duration_since later earlier ≡ some d) ↔ (earlier.since_boot + d.nanos ≡ later.since_boot)
unfolding duration_since
duration_since_lem later earlier d = elim (Bool-cases (ltb later.since_boot earlier.since_boot)) [
  | inl before ↦ (
    λ h. absurd (cc (rw (before, duration_since) at h)),
    λ h. absurd (ground (arith, ltb→lt _ _ before)),
  )
  | inr behind ↦
      rw (behind, duration_since)
        (
          λ h.
              let le = ltb-false→le _ _ behind in
              let same = ap (λ e. e.nanos) (some-injective _ d h) in omega arith,
          λ h.
              let same : later.since_boot - earlier.since_boot ≡ d.nanos = omega (arith, h) in
              ap (λ n. some (record { nanos = n })) same,
        )
]

-- The durations of two spans that follow each other add up to that of the whole, without a
-- wrap-around, if the last instant fits 64 bits.
pub duration_since-add :
    (a b c : Instant) (d e : Duration)
    → c.since_boot < u64_mod
    → duration_since b a ≡ some d
    → duration_since c b ≡ some e
    → duration_since c a ≡ some (add d e)
unfolding add
duration_since-add a b c d e lt h k =
    let first = (duration_since_lem b a d).0 h in
    let second = (duration_since_lem c b e).0 k in (duration_since_lem c a _).1 (omega arith)
