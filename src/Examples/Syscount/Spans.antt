-- ===== src/Examples/Syscount/Spans.antt =====
-- examples/syscount/probe/src/main.rs: the events of the two programs, and the calls they span.
use rust_bpf.Prelude.{
  ℕ, ◌+◌, ◌-◌, ◌%◌, ◌≤◌, ◌≡◌, ◌&&◌, List, [], ◌∷◌, ◌++◌, Option, none, some, ◌==◌, arith,
  if◌then◌else◌, nat_dec,
}
use rust_bpf.Prelude.Int.{is_negative, as_u64, u32_mod}
use rust_bpf.Helpers.{Instant}
use rust_bpf.Helpers.Map.{pick}
use rust_bpf.Examples.Syscount.{Event, enter, exit}

abbrev pub sum : List ℕ → ℕ
sum [] = 0
sum (n ∷ ns) = n + sum ns

pub sum-append : (ns ms : List ℕ) → sum (ns ++ ms) ≡ sum ns + sum ms
sum-append [] ms = omega arith
sum-append (n ∷ ns) ms = omega (arith, sum-append ns ms)

abbrev pub time_of : Event → ℕ
time_of (enter t now) = now.since_boot
time_of (exit t now id ret) = now.since_boot

-- The clock does not go back.
abbrev pub Ticks : ℕ → List Event → Type 0
Ticks floor [] = Unit
Ticks floor (event ∷ events) = (floor ≤ time_of event) × Ticks (time_of event) events

-- When a thread last entered a system call, in the events so far, the latest first.
abbrev pub entered : ℕ → List Event → Option Instant
entered t [] = none
entered t (enter u now ∷ past) = pick (nat_dec u t) (some now) (entered t past)
entered t (exit u now id ret ∷ past) = entered t past

-- The nanoseconds since then.
abbrev pub since : Instant → Option Instant → List ℕ
since now none = []
since now (some start) = (now.since_boot - start.since_boot) ∷ []

-- What an event adds to the times of a system call: that of a call that failed.
unfoldable pub span : (key : ℕ) → List Event → Event → List ℕ
unfolding as_u64
span key past (enter t now) = []
span key past (exit t now id ret) =
    if is_negative ret && as_u64 id % u32_mod == key then since now (entered t past) else []

-- The times of the failed calls of a system call.
unfoldable pub spans : (key : ℕ) → List Event → List Event → List ℕ
unfolding span
spans key past [] = []
spans key past (event ∷ events) = span key past event ++ spans key (event ∷ past) events
