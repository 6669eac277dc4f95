-- ===== src/Probes/Software.antt =====
-- bpf-probes/src/lib.rs and parse.rs: software events, their names, aliases and default counts.
use mathlib.Core.Path.{subst}
use mathlib.Core.Option.{some-injective}
use rust_bpf.Prelude.{
  List, All, ◌⊎◌, inl, inr, ◌↔◌, ok_or-eq-ok, ◌≡◌, refl, ok, arith, Lacks, ℕ, [], ◌∷◌, Option, none,
  some, ok_or,
}
use rust_bpf.Text.{Text, codes, match_text, match_text-All}
use rust_bpf.Probes.Events.{
  Parsed, unknown_event, SoftwareEvent, alignment_faults, bpf_output, context_switches, cpu_clock,
  cpu_migrations, dummy, emulation_faults, major_faults, minor_faults, page_faults, task_clock,
}

unfoldable pub name : SoftwareEvent → Text
name alignment_faults = codes "alignment-faults"
name bpf_output = codes "bpf-output"
name context_switches = codes "context-switches"
name cpu_clock = codes "cpu-clock"
name cpu_migrations = codes "cpu-migrations"
name dummy = codes "dummy"
name emulation_faults = codes "emulation-faults"
name major_faults = codes "major-faults"
name minor_faults = codes "minor-faults"
name page_faults = codes "page-faults"
name task_clock = codes "task-clock"

unfoldable pub alias : SoftwareEvent → Option Text
alias context_switches = some (codes "cs")
alias cpu_clock = some (codes "cpu")
alias page_faults = some (codes "faults")
alias _ = none

unfoldable pub default_count : SoftwareEvent → ℕ
default_count context_switches = 1_000
default_count cpu_clock = 1_000_000
default_count minor_faults = 100
default_count page_faults = 100
default_count _ = 1

abbrev pub arms : List (Text × SoftwareEvent)
arms =
    (codes "alignment-faults", alignment_faults)
    ∷ (codes "bpf-output", bpf_output)
    ∷ (codes "context-switches", context_switches)
    ∷ (codes "cs", context_switches)
    ∷ (codes "cpu-clock", cpu_clock)
    ∷ (codes "cpu", cpu_clock)
    ∷ (codes "cpu-migrations", cpu_migrations)
    ∷ (codes "dummy", dummy)
    ∷ (codes "emulation-faults", emulation_faults)
    ∷ (codes "major-faults", major_faults)
    ∷ (codes "minor-faults", minor_faults)
    ∷ (codes "page-faults", page_faults)
    ∷ (codes "faults", page_faults)
    ∷ (codes "task-clock", task_clock)
    ∷ []

unfoldable pub parse : Text → Parsed SoftwareEvent
unfolding match_text
parse s = ok_or (match_text arms s) (unknown_event s)

pub parse-name : (e : SoftwareEvent) → parse (name e) ≡ ok e
unfolding parse name
parse-name alignment_faults = refl
parse-name _ = refl

parse-alias : (e : SoftwareEvent) {t : Text} → alias e ≡ some t → parse t ≡ ok e
unfolding parse alias
parse-alias context_switches h =
    subst (λ u. parse u ≡ ok context_switches) (some-injective _ _ h) refl
parse-alias _ h = ground arith

-- A text that names the event.
abbrev pub Names : Text → SoftwareEvent → Type 0
Names t e = (t ≡ name e) ⊎ (alias e ≡ some t)

arms-Names : All (λ arm. Names arm.0 arm.1) arms
unfolding name alias
arms-Names = (
  inl refl,
  (
    inl refl,
    (
      inl refl,
      (
        inr refl,
        (
          inl refl,
          (
            inr refl,
            (
              inl refl,
              (
                inl refl,
                (inl refl, (inl refl, (inl refl, (inl refl, (inr refl, (inl refl, tt)))))),
              ),
            ),
          ),
        ),
      ),
    ),
  ),
)

-- A text is parsed as an event exactly when it is the event's name or its alias.
pub software_parse_iff : (t : Text) (e : SoftwareEvent) → (parse t ≡ ok e) ↔ Names t e
unfolding parse
software_parse_iff t e = (
  λ h. match_text-All Names arms t (ok_or-eq-ok _ (unknown_event t) h) arms-Names,
  elim [ inl named ↦ rw named (parse-name e) | inr aliased ↦ parse-alias e aliased ],
)

pub name-Lacks_colon : (e : SoftwareEvent) → Lacks b':' (name e)
unfolding name
name-Lacks_colon alignment_faults = omega arith
name-Lacks_colon _ = omega arith
