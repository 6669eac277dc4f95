-- ===== src/Macros.antt =====
-- bpf-macros/src/lib.rs: the code that the macros make.
pub mod Fields
pub mod Entry
use rust_bpf.Prelude.{
  ℕ, ◌-◌, ◌*◌, ◌%◌, Bool, true, false, List, [], ◌∷◌, ◌++◌, Option, none, some, Result, ok, err,
  ◌>>=◌, ok_or, map_err, get_elem?, length,
}
use rust_bpf.Prelude.Int.{u64_mod}
use rust_bpf.Text.{Text, codes, match_text}
use rust_bpf.Text.Split.{split}
use rust_bpf.Text.Number.{show_radix}
use rust_bpf.Utils.Event.{FieldFormat, simple, array, EventError}

-- A type as the macro writes it.
pub data FieldType : Type 0 where
  named : Text → FieldType
  array_of : FieldType → ℕ → FieldType

abbrev pub sign_letter : Bool → ℕ
sign_letter true = b'i'
sign_letter false = b'u'

abbrev pub simple_type : Bool → ℕ → FieldType
simple_type signed size = named (sign_letter signed ∷ show_radix 10 (size * 8 % u64_mod))

unfoldable pub field_type : FieldFormat → FieldType
unfolding show_radix
field_type (simple signed size) = simple_type signed size
field_type (array signed size len) = array_of (simple_type signed size) len

-- The structure of an event, laid out as in C.
pub record EventStruct : Type 0 where
  pub struct_ident : Text
  pub fields : List (Text × FieldType)

-- What `entry` makes: the structure for a tracepoint, the type of the argument, the section of the
-- function, the module of bpf_helpers that it opens, and its name.
pub record EntryCode : Type 0 where
  pub event : Option EventStruct
  pub arg : Text
  pub section_name : Text
  pub opened : Text
  pub ident : Text

-- The panics of `entry`.
pub data EntryError : Type 0 where
  no_category no_name : EntryError
  event_error : EventError → EntryError

abbrev pub field_types : List (Text × FieldFormat) → List (Text × FieldType)
field_types [] = []
field_types ((name, format) ∷ fields) = (name, field_type format) ∷ field_types fields

abbrev pub event_struct : Text → List (Text × FieldFormat) → EventStruct
event_struct struct_ident format = record {
  struct_ident = struct_ident;
  fields = field_types format;
}

-- The arguments of the programs that are no tracepoints.
abbrev pub known_args : List (Text × Text)
known_args =
    (codes "kprobe", codes "bpf_helpers::kprobe::pt_regs")
    ∷ (codes "perf_event", codes "bpf_helpers::perf_event::bpf_perf_event_data")
    ∷ (codes "tracing", codes "core::ffi::c_void")
    ∷ []

abbrev pub entry_code : (prog_type ident arg : Text) → Option EventStruct → EntryCode
entry_code prog_type ident arg event = record {
  event = event;
  arg = arg;
  section_name = prog_type ++ b'/' ∷ ident;
  opened = prog_type;
  ident = ident;
}

-- The case of the crate heck and the formats of the kernel are parameters.
module _ (to_camel_case : Text → Text)
    (event_format : Text → Text → Result EventError (List (Text × FieldFormat))) where
  unfoldable pub tracepoint_entry : (tracepoint ident : Text) → Result EntryError EntryCode
  unfolding split field_type
  tracepoint_entry tracepoint ident = do
    let iter = split b':' tracepoint
    category ← ok_or (get_elem? iter 0) no_category
    name ← ok_or (get_elem? iter 1) no_name
    let struct_ident = to_camel_case name
    format ← map_err event_error (event_format category name)
    ok (
        entry_code (codes "tracepoint") ident struct_ident
          (some (event_struct struct_ident format)))

  abbrev pub entry_with : (prog_type ident : Text) → Option Text → Result EntryError EntryCode
  entry_with prog_type ident (some arg) = ok (entry_code prog_type ident arg none)
  entry_with prog_type ident none = tracepoint_entry prog_type ident

  unfoldable pub entry : (prog_type ident : Text) → Result EntryError EntryCode
  unfolding match_text tracepoint_entry
  entry prog_type ident = entry_with prog_type ident (match_text known_args prog_type)

-- What `program` makes: the length of the license's section comes from a word of the macro's own.
pub record ProgramCode : Type 0 where
  pub license_len : ℕ
  pub license : Text
  pub version : Text

abbrev pub license_len : ℕ
license_len = length (codes "lincense") - 5

-- The literals are taken as they are; `none` is a missing one.
unfoldable pub program : List Text → Option ProgramCode
program [] = none
program (version ∷ []) = none
program (version ∷ license ∷ rest) =
    some (record { license_len = license_len; license = license; version = version })
