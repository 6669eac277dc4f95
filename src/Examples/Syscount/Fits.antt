-- ===== src/Examples/Syscount/Fits.antt =====
-- examples/syscount/probe/src/main.rs: the maps between two events.
use mathlib.Core.Option.{some-injective}
use rust_bpf.Prelude.{ℕ, suc, ◌+◌, ◌≤◌, ◌≡◌, sym, ◌∙◌, List, ◌∷◌, some, length, arith, nat_dec}
use rust_bpf.Prelude.Int.{ℤ}
use rust_bpf.Helpers.{Instant}
use rust_bpf.Helpers.Map.{get, pick, insert}
use rust_bpf.Helpers.Map.Hash.{HashLaws, Among, get-insert, get-insert_other, insert-Among}
use rust_bpf.Examples.Syscount.{
  Event, enter, exit, Kernel, State, SyscallInfo, filters, sys_enter, is_other,
}
use rust_bpf.Examples.Syscount.Spans.{entered}

module _ (k : Kernel) (start_laws : HashLaws k.start) (data_laws : HashLaws k.data_) where
  -- What holds of the maps behind the events of `past`, with room for `room` more.
  pub record Fits (s : State k filters) (past : List Event) (floor room : ℕ) : Type 0 where
    pub same : (t : ℕ) → get k.start s.started t ≡ entered t past
    pub before : (t : ℕ) (a : Instant) → entered t past ≡ some a → a.since_boot ≤ floor
    pub threads : List ℕ
    pub threads_among : Among k.start s.started threads
    pub threads_room : length threads + room ≤ k.start.def.max_entries
    pub keys : List ℕ
    pub keys_among : Among k.data_ s.infos keys
    pub keys_room : length keys + room ≤ k.data_.def.max_entries

  pub enter-Fits :
      (s : State k filters) (past : List Event) (floor room t : ℕ) (now : Instant)
      → Fits s past floor (suc room)
      → floor ≤ now.since_boot
      → Fits (sys_enter k filters s t now) (enter t now ∷ past) now.since_boot room
  unfolding sys_enter is_other
  enter-Fits s past floor room t now fits le = record {
    same = λ u.
        elim (nat_dec t u)
          as (λ d.
            get k.start (insert k.start s.started t now) u ≡ pick d (some now) (entered u past)) [
              | yes e ↦ rw (sym e) (
                  get-insert k.start start_laws s.started t now fits.threads fits.threads_among
                    (omega (arith, fits.threads_room)))
              | no ne ↦ get-insert_other k.start start_laws s.started t u now ne ∙ fits.same u
            ];
    before = λ u a.
        elim (nat_dec t u)
          as (λ d. pick d (some now) (entered u past) ≡ some a → a.since_boot ≤ now.since_boot) [
            | yes e ↦ λ h. let same = some-injective now a h in rw (sym same) (omega arith)
            | no ne ↦ λ h. omega (arith, le, fits.before u a h)
          ];
    threads = t ∷ fits.threads;
    threads_among =
        insert-Among k.start start_laws nat_dec s.started t now fits.threads fits.threads_among;
    threads_room = omega (arith, fits.threads_room);
    keys = fits.keys;
    keys_among = fits.keys_among;
    keys_room = omega (arith, fits.keys_room);
  }

  -- An exit that changes no map.
  pub exit-Fits :
      (s : State k filters) (past : List Event) (floor room t : ℕ) (now : Instant) (id ret : ℤ)
      → Fits s past floor (suc room)
      → floor ≤ now.since_boot
      → Fits s (exit t now id ret ∷ past) now.since_boot room
  exit-Fits s past floor room t now id ret fits le = record {
    same = fits.same;
    before = λ u a h. omega (arith, le, fits.before u a h);
    threads = fits.threads;
    threads_among = fits.threads_among;
    threads_room = omega (arith, fits.threads_room);
    keys = fits.keys;
    keys_among = fits.keys_among;
    keys_room = omega (arith, fits.keys_room);
  }

  -- An exit that writes an entry.
  pub write-Fits :
      (s : State k filters) (past : List Event) (floor room t : ℕ) (now : Instant) (id ret : ℤ)
      (key : ℕ) (info : SyscallInfo)
      → Fits s past floor (suc room)
      → floor ≤ now.since_boot
      → Fits
          (record s { infos = insert k.data_ s.infos key info })
          (exit t now id ret ∷ past)
          now.since_boot
          room
  write-Fits s past floor room t now id ret key info fits le = record {
    same = fits.same;
    before = λ u a h. omega (arith, le, fits.before u a h);
    threads = fits.threads;
    threads_among = fits.threads_among;
    threads_room = omega (arith, fits.threads_room);
    keys = key ∷ fits.keys;
    keys_among = insert-Among k.data_ data_laws nat_dec s.infos key info fits.keys fits.keys_among;
    keys_room = omega (arith, fits.keys_room);
  }
