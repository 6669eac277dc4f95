-- ===== src/Macros/Entry.antt =====
-- bpf-macros/src/lib.rs: the structure of a tracepoint, from the format of the kernel.
use mathlib.Core.List.{map}
use rust_bpf.Prelude.{
  ◌≡◌, ◌≢◌, refl, ap, sym, ◌∙◌, append-nil, All-append, false, List, [], ◌∷◌, ◌++◌, none, some,
  Result, ok, All, All-append_right, Lacks, Bool-cases, inl, inr, arith,
}
use rust_bpf.Text.{Text, codes, match_text, text_eq, text_eq→eq}
use rust_bpf.Text.Split.{split, split_at_sep, split-Lacks}
use rust_bpf.Text.Join.{join}
use rust_bpf.Utils.Event.{FieldFormat, EventError, event_format, parse_fields}
use rust_bpf.Utils.Event.Shown.{Field, IsField, format_of, show_field}
use rust_bpf.Utils.Event.RoundTrip.{parse_field-show_field}
use rust_bpf.Macros.{FieldType, entry, field_types, tracepoint_entry, known_args}
use rust_bpf.Macros.Fields.{size_of, IsSized, field_type-size_of}

abbrev field_of : Field → Text × FieldFormat
field_of f = (f.name, format_of f)

parse_fields-show_field :
    (fields : List Field) (behind : List Text) (more : List (Text × FieldFormat))
    → All IsField fields
    → parse_fields behind ≡ ok more
    → parse_fields (map show_field fields ++ behind) ≡ ok (map field_of fields ++ more)
unfolding parse_fields show_field join
parse_fields-show_field [] behind more h e = e
parse_fields-show_field (f ∷ fields) behind more h e =
    rw (parse_field-show_field f h.0, parse_fields-show_field fields behind more h.1 e) refl

-- A format as the kernel writes it: the name, the number and a heading, the fields that all events
-- have, a blank line, those of the event, another blank line, and how the event is printed.
abbrev pub format_lines : (name id heading print : Text) → (common own : List Field) → List Text
format_lines name id heading print common own =
    name
    ∷ id
    ∷ heading
    ∷ (map show_field common
        ++ [] ∷ (map show_field own ++ [] ∷ (codes "print fmt: " ++ print) ∷ []))

map-append :
    (common own : List Field)
    → map field_of (common ++ own) ≡ map field_of common ++ map field_of own
map-append [] own = refl
map-append (f ∷ common) own = ap (λ fs. field_of f ∷ fs) (map-append common own)

event_format-format_lines :
    (name id heading print : Text) (common own : List Field)
    → All IsField common
    → All IsField own
    → event_format (format_lines name id heading print common own)
      ≡ ok (map field_of (common ++ own))
unfolding event_format parse_fields
event_format-format_lines name id heading print common own h k =
    let behind = [] ∷ (codes "print fmt: " ++ print) ∷ [] in
    let own_parsed =
      parse_fields-show_field own behind [] k refl
      ∙ ap (λ fs. ok fs) (append-nil (map field_of own)) in
    parse_fields-show_field common ([] ∷ (map show_field own ++ behind)) (map field_of own) h
      own_parsed
    ∙ ap (λ fs. ok fs) (sym (map-append common own))

-- The structure has the kernel's fields, with their names and their sizes.
abbrev pub Matches : List Field → List (Text × FieldType) → Type 0
Matches [] [] = Unit
Matches [] (t ∷ types) = ⊥
Matches (f ∷ fields) [] = ⊥
Matches (f ∷ fields) ((name, type) ∷ types) =
    (name ≡ f.name) × (size_of type ≡ some f.size) × Matches fields types

field_types-Matches :
    (fields : List Field)
    → All (λ f. IsSized f.len f.size) fields
    → Matches fields (field_types (map field_of fields))
field_types-Matches [] h = tt
field_types-Matches (f ∷ fields) h =
    (refl, field_type-size_of f h.0, field_types-Matches fields h.1)

-- A text with a colon is none without.
text_eq_colon :
    (category name word : Text) → Lacks b':' word → text_eq (category ++ b':' ∷ name) word ≡ false
text_eq_colon category name word h = elim (Bool-cases (text_eq (category ++ b':' ∷ name) word)) [
  | inl same ↦
      let e = text_eq→eq (category ++ b':' ∷ name) word same in
      let colon = All-append_right (λ c. c ≢ b':') category (b':' ∷ name) (rw e h) in
      absurd (colon.0 refl)
  | inr apart ↦ apart
]

known_args_colon : (category name : Text) → match_text known_args (category ++ b':' ∷ name) ≡ none
unfolding match_text
known_args_colon category name =
    rw (text_eq_colon category name (codes "kprobe") (ground arith), match_text)
      (rw (text_eq_colon category name (codes "perf_event") (ground arith), match_text)
        (rw (text_eq_colon category name (codes "tracing") (ground arith), match_text) refl))

split_two :
    (category name : Text)
    → Lacks b':' category
    → Lacks b':' name
    → split b':' (category ++ b':' ∷ name) ≡ category ∷ name ∷ []
split_two category name h k =
    split_at_sep b':' category name h ∙ ap (λ parts. category ∷ parts) (split-Lacks b':' name k)

module _ (to_camel_case : Text → Text)
    (read : Text → Text → Result EventError (List (Text × FieldFormat))) where
  -- For a tracepoint whose format is as the kernel writes it, with the fields that all events
  -- have, a blank line, those of the event, a blank line and how the event is printed, the entry
  -- is in a section of tracepoints, and its structure has the fields of both groups in their
  -- order, with their names and with types of their sizes, if no colon stands in the category or
  -- the name, no separator in a field, and each field is an integer of one, two, four or eight
  -- bytes or an array of such integers that is not empty.
  pub entry-Matches :
      (category name ident : Text) (title id heading print : Text) (common own : List Field)
      → Lacks b':' category
      → Lacks b':' name
      → All IsField common
      → All IsField own
      → All (λ f. IsSized f.len f.size) common
      → All (λ f. IsSized f.len f.size) own
      → read category name ≡ event_format (format_lines title id heading print common own)
      → (types : List (Text × FieldType)) × Matches (common ++ own) types
        × (entry to_camel_case read (category ++ b':' ∷ name) ident
            ≡ ok (record {
              event = some (record { struct_ident = to_camel_case name; fields = types });
              arg = to_camel_case name;
              section_name = codes "tracepoint/" ++ ident;
              opened = codes "tracepoint";
              ident = ident;
            }))
  unfolding entry tracepoint_entry
  entry-Matches category name ident title id heading print common own h k shown_common shown_own
        sized_common sized_own file =
      let parsed =
        file ∙ event_format-format_lines title id heading print common own shown_common shown_own in
      let sized = All-append (λ f. IsSized f.len f.size) common own sized_common sized_own in
      (
        field_types (map field_of (common ++ own)),
        field_types-Matches (common ++ own) sized,
        rw (known_args_colon category name, split_two category name h k, parsed) refl,
      )
