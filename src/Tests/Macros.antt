-- ===== src/Tests/Macros.antt =====
-- The code that the build makes: the entry of a tracepoint, and the helpers of the kernel.
use rust_bpf.Prelude.{◌≡◌, refl, inl, inr, true, false, List, [], ◌∷◌, ◌++◌, none, some, ok, arith}
use rust_bpf.Text.{Text, codes}
use rust_bpf.Text.Number.{show_radix}
use rust_bpf.Utils.Event.{event_format}
use rust_bpf.Utils.Event.Shown.{Field, IsField}
use rust_bpf.Macros.{FieldType, entry}
use rust_bpf.Macros.Entry.{Matches, format_lines, entry-Matches}
use rust_bpf.Sys.{FnType, ForeignItemStatic, Printer}

-- The arguments of a system call.
abbrev args : Field
args = record {
  type = codes "long";
  name = codes "args";
  len = some 6;
  offset = 16;
  size = 48;
  signed = false;
}

args-IsField : IsField args
args-IsField = record {
  type_columns = (refl, (refl, (refl, (refl, tt))));
  type_tabs = omega arith;
  name_columns = (refl, (refl, (refl, (refl, tt))));
  name_tabs = omega arith;
  name_spaces = omega arith;
  name_brackets = (refl, (refl, (refl, (refl, tt))));
  length_fits = omega arith;
  size_fits = omega arith;
}

abbrev camel : Text → Text
camel name = codes "SysEnter"

-- A field that all events have.
abbrev common_pid : Field
common_pid = record {
  type = codes "int";
  name = codes "common_pid";
  len = none;
  offset = 4;
  size = 4;
  signed = true;
}

common_pid-IsField : IsField common_pid
common_pid-IsField = record {
  type_columns = (refl, (refl, (refl, tt)));
  type_tabs = omega arith;
  name_columns = (refl, (refl, (refl, (refl, (refl, (refl, (refl, (refl, (refl, (refl, tt))))))))));
  name_tabs = ground arith;
  name_spaces = ground arith;
  name_brackets =
      (refl, (refl, (refl, (refl, (refl, (refl, (refl, (refl, (refl, (refl, tt))))))))));
  length_fits = tt;
  size_fits = omega arith;
}

abbrev sys_enter : List Text
sys_enter =
    format_lines (codes "name: sys_enter") (codes "ID: 22") (codes "format:")
      (codes "\"NR %ld\", REC->id") (common_pid ∷ []) (args ∷ [])

entry-Matches_example :
    (types : List (Text × FieldType)) × Matches (common_pid ∷ args ∷ []) types
    × (entry camel
          (λ category name. event_format sys_enter)
          (codes "raw_syscalls:sys_enter")
          (codes "sys_enter")
        ≡ ok (record {
          event = some (record { struct_ident = codes "SysEnter"; fields = types });
          arg = codes "SysEnter";
          section_name = codes "tracepoint/sys_enter";
          opened = codes "tracepoint";
          ident = codes "sys_enter";
        }))
entry-Matches_example =
    entry-Matches camel (λ category name. event_format sys_enter) (codes "raw_syscalls")
      (codes "sys_enter") (codes "sys_enter") (codes "name: sys_enter") (codes "ID: 22")
      (codes "format:") (codes "\"NR %ld\", REC->id") (common_pid ∷ []) (args ∷ []) (ground arith)
      (ground arith) (common_pid-IsField, tt) (args-IsField, tt) (inr (inr (inl refl)), tt)
      ((8, inr (inr (inr refl)), refl, omega arith), tt) refl

abbrev lookup_type : FnType
lookup_type = record { printed = codes "fn (map)"; inputs = codes "map" ∷ [] }

abbrev items : List ForeignItemStatic
items =
    record {
      ident = codes "bpf_map_lookup_elem";
      last = some (record { ident = codes "Option"; argument = some lookup_type });
    }
    ∷ record { ident = codes "environ"; last = none }
    ∷ record {
      ident = codes "bpf_ktime_get_ns";
      last = some (record { ident = codes "Option"; argument = some lookup_type });
    }
    ∷ []

abbrev printer : Printer
printer = record {
  inlined = λ fn_ty. codes "pub " ++ fn_ty.printed;
  body = λ fn_ty call_idx inputs. show_radix 10 call_idx;
}
