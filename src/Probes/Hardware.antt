-- ===== src/Probes/Hardware.antt =====
-- bpf-probes/src/lib.rs and parse.rs: hardware events, their names, aliases and default counts.
use mathlib.Core.Path.{subst}
use mathlib.Core.Option.{some-injective}
use rust_bpf.Prelude.{
  List, All, ◌⊎◌, inl, inr, ◌↔◌, ok_or-eq-ok, ◌≡◌, refl, ok, arith, Lacks, ℕ, [], ◌∷◌, Option, none,
  some, ok_or,
}
use rust_bpf.Text.{Text, codes, match_text, match_text-All}
use rust_bpf.Probes.Events.{
  Parsed, unknown_event, HardwareEvent, backend_stalls, branch_instructions, branch_misses,
  bus_cycles, cache_misses, cache_references, cpu_cycles, frontend_stalls, instructions, ref_cycles,
}

unfoldable pub name : HardwareEvent → Text
name backend_stalls = codes "backend-stalls"
name branch_instructions = codes "branch-instructions"
name branch_misses = codes "branch-misses"
name bus_cycles = codes "bus-cycles"
name cache_misses = codes "cache-misses"
name cache_references = codes "cache-references"
name cpu_cycles = codes "cpu-cycles"
name frontend_stalls = codes "frontend-stalls"
name instructions = codes "instructions"
name ref_cycles = codes "ref-cycles"

unfoldable pub alias : HardwareEvent → Option Text
alias branch_instructions = some (codes "branches")
alias cpu_cycles = some (codes "cycles")
alias _ = none

unfoldable pub default_count : HardwareEvent → ℕ
default_count branch_instructions = 100_000
default_count branch_misses = 100_000
default_count bus_cycles = 100_000
default_count _ = 1_000_000

abbrev pub arms : List (Text × HardwareEvent)
arms =
    (codes "backend-stalls", backend_stalls)
    ∷ (codes "branch-instructions", branch_instructions)
    ∷ (codes "branches", branch_instructions)
    ∷ (codes "branch-misses", branch_misses)
    ∷ (codes "bus-cycles", bus_cycles)
    ∷ (codes "cache-misses", cache_misses)
    ∷ (codes "cache-references", cache_references)
    ∷ (codes "cpu-cycles", cpu_cycles)
    ∷ (codes "cycles", cpu_cycles)
    ∷ (codes "frontend-stalls", frontend_stalls)
    ∷ (codes "instructions", instructions)
    ∷ (codes "ref-cycles", ref_cycles)
    ∷ []

unfoldable pub parse : Text → Parsed HardwareEvent
unfolding match_text
parse s = ok_or (match_text arms s) (unknown_event s)

pub parse-name : (e : HardwareEvent) → parse (name e) ≡ ok e
unfolding parse name
parse-name backend_stalls = refl
parse-name _ = refl

parse-alias : (e : HardwareEvent) {t : Text} → alias e ≡ some t → parse t ≡ ok e
unfolding parse alias
parse-alias branch_instructions h =
    subst (λ u. parse u ≡ ok branch_instructions) (some-injective _ _ h) refl
parse-alias _ h = ground arith

-- A text that names the event.
abbrev pub Names : Text → HardwareEvent → Type 0
Names t e = (t ≡ name e) ⊎ (alias e ≡ some t)

arms-Names : All (λ arm. Names arm.0 arm.1) arms
unfolding name alias
arms-Names = (
  inl refl,
  (
    inl refl,
    (
      inr refl,
      (
        inl refl,
        (
          inl refl,
          (inl refl, (inl refl, (inl refl, (inr refl, (inl refl, (inl refl, (inl refl, tt))))))),
        ),
      ),
    ),
  ),
)

-- A text is parsed as an event exactly when it is the event's name or its alias.
pub hardware_parse_iff : (t : Text) (e : HardwareEvent) → (parse t ≡ ok e) ↔ Names t e
unfolding parse
hardware_parse_iff t e = (
  λ h. match_text-All Names arms t (ok_or-eq-ok _ (unknown_event t) h) arms-Names,
  elim [ inl named ↦ rw named (parse-name e) | inr aliased ↦ parse-alias e aliased ],
)

pub name-Lacks_colon : (e : HardwareEvent) → Lacks b':' (name e)
unfolding name
name-Lacks_colon backend_stalls = omega arith
name-Lacks_colon _ = omega arith
