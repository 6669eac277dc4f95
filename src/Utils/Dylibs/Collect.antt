-- ===== src/Utils/Dylibs/Collect.antt =====
-- bpf-utils/src/dylibs.rs: the lookup in the binaries of a new process.
use rust_bpf.Prelude.{
  ℕ, zero, suc, ◌≤◌, ◌<◌, ◌≡◌, refl, Bool, List, [], ◌∷◌, ok, >>=-eq-ok, ok-injective, ok_or,
  map_err, map_err-eq-ok, get_elem?, length, arith,
}
use mathlib.Core.Path.{subst}
use rust_bpf.Prelude.Sort.{IsSorted, sort_by_key-IsSorted}
use rust_bpf.Text.{Text}
use rust_bpf.Utils.Elf.Open.{open_path}
use rust_bpf.Utils.Maps.{AddressEntry, load_map_lines, add_lines}
use rust_bpf.Utils.Search.Floor.{Ascends}
use rust_bpf.Utils.Dylibs.{Binary, start_at, binary}
use rust_bpf.Utils.Dylibs.Lookup.{Locates, binary-Locates}
use rust_bpf.Utils.Dylibs.New.{
  System, opening, io, ptrace, no_mapping, maps, BinaryInfo, binary_of, open_entries, breakpoint_of,
  late_lines, new,
}

-- Sorted binaries ascend by their starts.
start_at-first :
    (b : Binary) (binaries : List Binary) (j : ℕ)
    → IsSorted (λ b. b.start_addr) (b ∷ binaries)
    → j < length binaries
    → b.start_addr ≤ start_at binaries j
start_at-first b [] j h lt = absurd (omega (arith, lt))
start_at-first b (c ∷ binaries) zero h lt = h.0
start_at-first b (c ∷ binaries) (suc j) h lt =
    let above = start_at-first c binaries j h.1 (omega (arith, lt)) in omega (arith, above, h.0)

behind-IsSorted :
    (b : Binary) (binaries : List Binary)
    → IsSorted (λ b. b.start_addr) (b ∷ binaries)
    → IsSorted (λ b. b.start_addr) binaries
behind-IsSorted b [] h = tt
behind-IsSorted b (c ∷ binaries) h = h.1

IsSorted-Ascends :
    (binaries : List Binary)
    → IsSorted (λ b. b.start_addr) binaries
    → Ascends (start_at binaries) (length binaries)
IsSorted-Ascends [] h i j le lt = absurd (omega (arith, lt))
IsSorted-Ascends (b ∷ binaries) h zero zero le lt = omega arith
IsSorted-Ascends (b ∷ binaries) h zero (suc j) le lt =
    start_at-first b binaries j h (omega (arith, lt))
IsSorted-Ascends (b ∷ binaries) h (suc i) zero le lt = absurd (omega (arith, le))
IsSorted-Ascends (b ∷ binaries) h (suc i) (suc j) le lt =
    IsSorted-Ascends binaries (behind-IsSorted b binaries h) i j (omega (arith, le))
      (omega (arith, lt))

-- The binaries start where the entries do.
abbrev Same : List AddressEntry → List Binary → Type 0
Same [] [] = Unit
Same [] (b ∷ binaries) = ⊥
Same (e ∷ entries) [] = ⊥
Same (e ∷ entries) (b ∷ binaries) = (b.start_addr ≡ e.start_addr) × Same entries binaries

open_entries-Same :
    (sys : System) (entries : List AddressEntry) {binaries : List Binary}
    → open_entries sys entries ≡ ok binaries
    → Same entries binaries
unfolding open_entries binary_of
open_entries-Same sys [] {binaries} h = subst (Same []) (ok-injective [] binaries h) tt
open_entries-Same sys (entry ∷ entries) {binaries} h =
    let (elf, opened, rest) = >>=-eq-ok (map_err opening (open_path sys.library entry.path)) _ h in
    let (more, all, made) = >>=-eq-ok (open_entries sys entries) _ rest in
    subst (Same (entry ∷ entries)) (ok-injective (binary_of sys entry elf ∷ more) binaries made)
      (refl, open_entries-Same sys entries all)

Same-IsSorted :
    (entries : List AddressEntry) (binaries : List Binary)
    → Same entries binaries
    → IsSorted (λ e. e.start_addr) entries
    → IsSorted (λ b. b.start_addr) binaries
Same-IsSorted [] [] same h = tt
Same-IsSorted [] (b ∷ binaries) same h = absurd same
Same-IsSorted (e ∷ entries) [] same h = tt
Same-IsSorted (e ∷ []) (b ∷ []) same h = tt
Same-IsSorted (e ∷ []) (b ∷ c ∷ binaries) same h = absurd same.1
Same-IsSorted (e ∷ f ∷ entries) (b ∷ []) same h = tt
Same-IsSorted (e ∷ f ∷ entries) (b ∷ c ∷ binaries) same h =
    (omega (arith, same.0, same.1.0, h.0), Same-IsSorted (f ∷ entries) (c ∷ binaries) same.1 h.1)

load_map_lines-IsSorted :
    (exists : Text → Bool) (lines : List Text) {entries : List AddressEntry}
    → load_map_lines exists lines ≡ ok entries
    → IsSorted (λ e. e.start_addr) entries
unfolding load_map_lines
load_map_lines-IsSorted exists lines {entries} h =
    let (found, e, made) = >>=-eq-ok (add_lines exists [] lines) _ h in
    subst (IsSorted (λ e. e.start_addr)) (ok-injective _ entries made)
      (sort_by_key-IsSorted (λ e. e.start_addr) found)

-- The binaries of the files that are mapped.
collected-Locates :
    (sys : System) (late : List Text) (ip : ℕ) {entries : List AddressEntry}
    {binaries : List Binary}
    → load_map_lines sys.exists late ≡ ok entries
    → open_entries sys entries ≡ ok binaries
    → Locates binaries ip (binary binaries ip)
collected-Locates sys late ip {entries} {binaries} loaded opened =
    let same = open_entries-Same sys entries opened in
    let sorted =
      Same-IsSorted entries binaries same (load_map_lines-IsSorted sys.exists late loaded) in
    binary-Locates binaries ip (IsSorted-Ascends binaries sorted)

-- A process that was started has the binaries of the files that are mapped late.
pub new-opened :
    (sys : System) (info : BinaryInfo)
    → new sys ≡ ok info
    → (late : List Text) × (entries : List AddressEntry) × (load_map_lines sys.exists late
        ≡ ok entries)
      × (open_entries sys entries ≡ ok info.map)
unfolding new
new-opened sys info h =
    let (pid, spawned, h1) = >>=-eq-ok (ok_or sys.spawn ptrace) _ h in
    let (early, read_early, h2) = >>=-eq-ok (ok_or (sys.maps_before pid) io) _ h1 in
    let (entries, loaded, h3) = >>=-eq-ok (map_err maps (load_map_lines sys.exists early)) _ h2 in
    let (first, mapped, h4) = >>=-eq-ok (ok_or (get_elem? entries 0) no_mapping) _ h3 in
    let (breakpoint, set, h5) = >>=-eq-ok (breakpoint_of sys first) _ h4 in
    let (late, read_late, h6) = >>=-eq-ok (late_lines sys pid breakpoint) _ h5 in
    let (entries', again, h7) = >>=-eq-ok (map_err maps (load_map_lines sys.exists late)) _ h6 in
    let (binaries, opened, made) = >>=-eq-ok (open_entries sys entries') _ h7 in
    (
      late,
      entries',
      map_err-eq-ok maps (load_map_lines sys.exists late) {a = entries'} again,
      subst (λ i. open_entries sys entries' ≡ ok i.map) {x = record { pid = pid; map = binaries }}
          (ok-injective _ info made) opened,
    )

-- In the binaries of a process that was started, the lookup of an address finds the last binary
-- that starts at or below it, if the address is not behind that binary's end, and none otherwise;
-- it panics on the empty list alone.
pub new-Locates :
    (sys : System) (info : BinaryInfo) (ip : ℕ)
    → new sys ≡ ok info
    → Locates info.map ip (binary info.map ip)
new-Locates sys info ip h =
    let (late, entries, loaded, opened) = new-opened sys info h in
    collected-Locates sys late ip loaded opened
