-- ===== src/Examples/Syscount/Totals.antt =====
-- examples/syscount/probe/src/main.rs: what the maps hold after any sequence of system calls.
use rust_bpf.Prelude.{
  ℕ, suc, ◌+◌, ◌%◌, ◌≤◌, ◌<◌, ◌≡◌, refl, sym, ap, Bool, true, false, not, List, [], ◌∷◌, ◌++◌, none,
  some, ◌==◌, length, length-append, arith, if◌then◌else◌, ==_iff, ==-false→ne, Bool-cases,
  Option-cases, inl, inr, le→ltb-false,
}
use rust_bpf.Prelude.Int.{ℤ, is_negative, as_u64, u32_mod, u64_mod}
use rust_bpf.Helpers.{Instant, Duration, elapsed, duration_since}
use rust_bpf.Helpers.Map.{get, insert}
use rust_bpf.Helpers.Map.Hash.{HashLaws, Among, get-insert, get-insert_other}
use rust_bpf.Examples.Syscount.{
  Event, enter, exit, Kernel, State, SyscallInfo, filters, info_of, run_events, run_event,
  sys_enter, sys_exit, count_call, is_skipped, is_other, is_other_error, key_of, add_call,
}
use rust_bpf.Examples.Syscount.Spans.{sum, sum-append, time_of, Ticks, entered, since, span, spans}
use rust_bpf.Examples.Syscount.Fits.{Fits, enter-Fits, exit-Fits, write-Fits}

skipped_iff : (t : ℕ) (ret : ℤ) → is_skipped filters t ret ≡ not (is_negative ret)
unfolding is_skipped is_other is_other_error
skipped_iff t ret = grind arith

module _ (k : Kernel) (start_laws : HashLaws k.start) (data_laws : HashLaws k.data_) where
  -- The entry of a system call.
  abbrev info_at : State k filters → ℕ → SyscallInfo
  info_at s key = info_of (get k.data_ s.infos key)

  abbrev IsWide : SyscallInfo → Type 0
  IsWide info = (info.count < u64_mod) × (info.time_ns < u64_mod)

  -- An entry has grown by calls that took these times.
  abbrev Grows : SyscallInfo → SyscallInfo → List ℕ → Type 0
  Grows old new times =
      (new.count ≡ (old.count + length times) % u64_mod)
      × (new.time_ns ≡ (old.time_ns + sum times) % u64_mod)

  Grows-none : (info : SyscallInfo) → IsWide info → Grows info info []
  Grows-none info wide = (omega (arith, wide.0), omega (arith, wide.1))

  Grows-none_if :
      (b : Bool) (info : SyscallInfo) → IsWide info → Grows info info (if b then [] else [])
  Grows-none_if true info wide = Grows-none info wide
  Grows-none_if false info wide = Grows-none info wide

  insert-Grows :
      (s : k.data_.State) (changed key : ℕ) (d : Duration) (keys : List ℕ)
      → Among k.data_ s keys
      → length keys < k.data_.def.max_entries
      → IsWide (info_of (get k.data_ s key))
      → Grows
          (info_of (get k.data_ s key))
          (info_of (
            get k.data_
              (insert k.data_ s changed (add_call (info_of (get k.data_ s changed)) d))
              key))
          (if changed == key then d.nanos ∷ [] else [])
  unfolding add_call
  insert-Grows s changed key d keys among room wide = elim (Bool-cases (changed == key)) [
    | inl same ↦
        let entry = add_call (info_of (get k.data_ s changed)) d in
        let written = get-insert k.data_ data_laws s changed entry keys among room in
        rw (same, sym ((==_iff changed key).0 same), written) (omega arith, omega arith)
    | inr apart ↦
        let entry = add_call (info_of (get k.data_ s changed)) d in
        let kept =
          get-insert_other k.data_ data_laws s changed key entry (==-false→ne changed key apart) in
        rw (apart, kept) (Grows-none _ wide)
  ]

  -- The body behind the guards, with what it adds to an entry.
  count_call-Grows :
      (s : State k filters) (past : List Event) (floor room t : ℕ) (now : Instant) (id ret : ℤ)
      (changed key : ℕ)
      → Fits k start_laws data_laws s past floor (suc room)
      → floor ≤ now.since_boot
      → IsWide (info_at s key)
      → (s' : State k filters) × (count_call k filters s t now changed ≡ some s')
        × Fits k start_laws data_laws s' (exit t now id ret ∷ past) now.since_boot room
        × Grows
            (info_at s key)
            (info_at s' key)
            (if changed == key then since now (entered t past) else [])
  unfolding count_call elapsed duration_since
  count_call-Grows s past floor room t now id ret changed key fits le wide =
      elim (Option-cases (entered t past)) [
        | inl never ↦
            rw (fits.same t, never, count_call)
              (
                s,
                refl,
                exit-Fits k start_laws data_laws s past floor room t now id ret fits le,
                Grows-none_if (changed == key) (info_at s key) wide,
              )
        | inr (start, e) ↦
            let later =
              le→ltb-false now.since_boot start.since_boot
                (omega (arith, le, fits.before t start e)) in
            rw (fits.same t, e, count_call)
              (rw (later, count_call)
                (
                  _,
                  refl,
                  write-Fits k start_laws data_laws s past floor room t now id ret changed _ fits
                      le,
                  insert-Grows s.infos changed key _ fits.keys fits.keys_among
                      (omega (arith, fits.keys_room)) wide,
                ))
      ]

  -- One event: it does not panic, and an entry grows by the span of the event.
  run_event-Grows :
      (s : State k filters) (past : List Event) (floor room : ℕ) (event : Event) (key : ℕ)
      → Fits k start_laws data_laws s past floor (suc room)
      → floor ≤ time_of event
      → IsWide (info_at s key)
      → (s' : State k filters) × (run_event k filters s event ≡ some s')
        × Fits k start_laws data_laws s' (event ∷ past) (time_of event) room
        × Grows (info_at s key) (info_at s' key) (span key past event)
  unfolding run_event sys_exit sys_enter is_other key_of span
  run_event-Grows s past floor room (enter t now) key fits le wide = (
    sys_enter k filters s t now,
    refl,
    enter-Fits k start_laws data_laws s past floor room t now fits le,
    Grows-none _ wide,
  )
  run_event-Grows s past floor room (exit t now id ret) key fits le wide =
      elim (Bool-cases (is_negative ret)) [
        | inl failed ↦
            rw (skipped_iff t ret, failed, span)
              (count_call-Grows s past floor room t now id ret (as_u64 id % u32_mod) key fits le
                wide)
        | inr fine ↦
            rw (skipped_iff t ret, fine, span)
              (
                s,
                refl,
                exit-Fits k start_laws data_laws s past floor room t now id ret fits le,
                Grows-none _ wide,
              )
      ]

  Grows-append :
      (first middle last : SyscallInfo) (times more : List ℕ)
      → Grows first middle times
      → Grows middle last more
      → Grows first last (times ++ more)
  Grows-append first middle last times more one two = (
    omega (arith, one.0, two.0, length-append times more),
    omega (arith, one.1, two.1, sum-append times more),
  )

  run_events-Grows :
      (events : List Event) (s : State k filters) (past : List Event) (floor key : ℕ)
      → Fits k start_laws data_laws s past floor (length events)
      → Ticks floor events
      → IsWide (info_at s key)
      → (s' : State k filters) × (run_events k filters s events ≡ some s')
        × Grows (info_at s key) (info_at s' key) (spans key past events)
  unfolding run_events spans
  run_events-Grows [] s past floor key fits ticks wide = (s, refl, Grows-none _ wide)
  run_events-Grows (event ∷ events) s past floor key fits ticks wide =
      let (s', ran, fits', grown) =
        run_event-Grows s past floor (length events) event key fits ticks.0 wide in
      let wide' : IsWide (info_at s' key) = (omega (arith, grown.0), omega (arith, grown.1)) in
      let (last, rest, more) =
        run_events-Grows events s' (event ∷ past) (time_of event) key fits' ticks.1 wide' in
      rw (ran, run_events) (last, rest, Grows-append _ _ _ _ _ grown more)

  -- From empty maps, with a clock that does not go back and room for all events, no run of the two
  -- programs panics; then the entry of a system call has the number of its failed calls whose
  -- thread had entered a call before, modulo 2 ^ 64, and the sum of the times since that thread
  -- last entered one, modulo 2 ^ 64.
  pub run_events-spans :
      (events : List Event) (s : State k filters) (key : ℕ)
      → ((t : ℕ) → get k.start s.started t ≡ none)
      → ((t : ℕ) → get k.data_ s.infos t ≡ none)
      → length events ≤ k.start.def.max_entries
      → length events ≤ k.data_.def.max_entries
      → Ticks 0 events
      → (s' : State k filters) × (run_events k filters s events ≡ some s')
        × ((info_of (get k.data_ s'.infos key)).count ≡ length (spans key [] events) % u64_mod)
        × ((info_of (get k.data_ s'.infos key)).time_ns ≡ sum (spans key [] events) % u64_mod)
  run_events-spans events s key no_threads no_infos threads_room keys_room ticks =
      let fits : Fits k start_laws data_laws s [] 0 (length events) = record {
        same = no_threads;
        before = λ t a h. cc;
        threads = [];
        threads_among = λ t there. absurd (there (no_threads t));
        threads_room = omega (arith, threads_room);
        keys = [];
        keys_among = λ t there. absurd (there (no_infos t));
        keys_room = omega (arith, keys_room);
      } in
      let old : info_at s key ≡ record { count = 0; time_ns = 0 } = ap info_of (no_infos key) in
      let (s', ran, grown) =
        run_events-Grows events s [] 0 key fits ticks (rw old (omega arith, omega arith)) in
      (
        s',
        ran,
        omega (arith, grown.0, ap (λ i. i.count) old),
        omega (arith, grown.1, ap (λ i. i.time_ns) old),
      )
