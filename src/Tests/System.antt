-- ===== src/Tests/System.antt =====
-- The mappings of a process, the fields of a tracepoint, the clock, and default paths.
use rust_bpf.Prelude.{◌≡◌, refl, Bool, true, List, [], ◌∷◌, none, some, ok, All, arith}
use rust_bpf.Prelude.Int.{pos, negsuc}
use rust_bpf.Prelude.Sort.{Any, IsSorted}
use rust_bpf.Text.{Text, codes}
use rust_bpf.Text.Number.{from_str_radix}
use rust_bpf.Utils.Maps.{AddressEntry, line_path, line_range, load_map_lines}
use rust_bpf.Utils.Maps.Covers.{Covers, load_map_lines-Covers}
use rust_bpf.Utils.Event.{parse_field}
use rust_bpf.Utils.Event.Shown.{Field, IsField, show_field, format_of}
use rust_bpf.Utils.Event.RoundTrip.{parse_field-show_field}
use rust_bpf.Helpers.{Duration, Instant, duration_since}
use rust_bpf.Probes.Probe.{Probe, usdt}
use rust_bpf.Unwind.Instruction.{
  Registers, GimliRow, RegisterRule, CfaRule, register_and_offset, IsBuilt, parse_row,
}
use rust_bpf.Unwind.Table.{parse_table, parse_table-IsSorted}

-- One line of the file, and one in front of it.
abbrev code_line : Text
code_line = codes "1000-2000 r-xp 0 08:01 7 /bin/a"

abbrev data_line : Text
data_line = codes "3000-4000 rw-p 0 08:01 7 /bin/a"

abbrev every_file : Text → Bool
every_file path = true

has_path : line_path code_line ≡ ok (codes "/bin/a")
unfolding line_path
has_path = refl

has_range : line_range code_line ≡ ok (0x1000, 0x2000)
unfolding line_range from_str_radix
has_range = refl

abbrev merged : List AddressEntry
merged = record { path = codes "/bin/a"; start_addr = 0x1000; end_addr = 0x4000 } ∷ []

is_loaded : load_map_lines every_file (data_line ∷ code_line ∷ []) ≡ ok merged
unfolding load_map_lines from_str_radix
is_loaded = refl

load_map_lines-Covers_example :
    IsSorted (λ e. e.start_addr) merged × Covers merged (codes "/bin/a") 0x1000 0x2000
load_map_lines-Covers_example =
    load_map_lines-Covers every_file (data_line ∷ []) [] code_line (codes "/bin/a") 0x1000 0x2000
      has_path refl has_range is_loaded

abbrev comm : Field
comm = record {
  type = codes "char";
  name = codes "comm";
  len = some 16;
  offset = 8;
  size = 16;
  signed = true;
}

comm-IsField : IsField comm
comm-IsField = record {
  type_columns = (refl, (refl, (refl, (refl, tt))));
  type_tabs = omega arith;
  name_columns = (refl, (refl, (refl, (refl, tt))));
  name_tabs = omega arith;
  name_spaces = omega arith;
  name_brackets = (refl, (refl, (refl, (refl, tt))));
  length_fits = omega arith;
  size_fits = omega arith;
}

parse_field-show_field_example : parse_field (show_field comm) ≡ ok (codes "comm", format_of comm)
parse_field-show_field_example = parse_field-show_field comm comm-IsField

abbrev at_5 : Instant
at_5 = record { since_boot = 5 }

abbrev at_9 : Instant
at_9 = record { since_boot = 9 }

abbrev at_20 : Instant
at_20 = record { since_boot = 20 }

abbrev four : Duration
four = record { nanos = 4 }

abbrev eleven : Duration
eleven = record { nanos = 11 }

four_passed : duration_since at_9 at_5 ≡ some four
unfolding duration_since
four_passed = refl

eleven_passed : duration_since at_20 at_9 ≡ some eleven
unfolding duration_since
eleven_passed = refl

abbrev no_path : Probe
no_path = usdt none (codes "gc")

abbrev amd64 : Registers
amd64 = record { ra = 16; rsp = 7 }

abbrev later : GimliRow
later = record {
  start_address = 64;
  end_address = 96;
  ra = RegisterRule.undefined;
  cfa = CfaRule.expression;
}

abbrev earlier : GimliRow
earlier = record {
  start_address = 16;
  end_address = 64;
  ra = RegisterRule.offset (negsuc 7);
  cfa = register_and_offset 7 (pos 16);
}

parse_table-IsSorted_example :
    IsSorted (λ r. r.start_address) (parse_table amd64 (later ∷ earlier ∷ []))
    × All (λ r. IsBuilt r.rip × IsBuilt r.rsp) (parse_table amd64 (later ∷ earlier ∷ []))
    × Any (λ r. r ≡ parse_row amd64 earlier) (parse_table amd64 (later ∷ earlier ∷ []))
parse_table-IsSorted_example = parse_table-IsSorted amd64 (later ∷ []) [] earlier
