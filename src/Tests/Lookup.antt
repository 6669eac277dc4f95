-- ===== src/Tests/Lookup.antt =====
-- Lookups of addresses, and the list of CPUs.
use rust_bpf.Prelude.{
  true, ◌==◌, ℕ, zero, suc, ◌+◌, ◌≡◌, refl, List, [], ◌∷◌, ◌++◌, none, some, ok, length, arith,
}
use mathlib.Core.List.{map}
use rust_bpf.Text.{codes}
use rust_bpf.Text.Join.{join}
use rust_bpf.Text.Number.{show_radix}
use rust_bpf.Text.Trim.{trim}
use rust_bpf.Utils.Search.Floor.{Ascends}
use rust_bpf.Utils.Search.{binary_search}
use rust_bpf.Utils.Search.Documented.{binary_search-Searches}
use rust_bpf.Utils.Kallsyms.{KernelSymbol, address_at, symbol_at}
use rust_bpf.Utils.Kallsyms.Lookup.{Looks, symbol_at-Looks}
use rust_bpf.Utils.Dylibs.{Binary, start_at, binary}
use rust_bpf.Utils.Dylibs.{resolve_ip}
use rust_bpf.Utils.Dylibs.Resolve.{Names, resolve_ip_sound}
use rust_bpf.Utils.Dylibs.Lookup.{Locates}
use rust_bpf.Prelude.{false, if◌then◌else◌}
use rust_bpf.Text.{text_eq}
use rust_bpf.Utils.Dylibs.{Frame, no_frame}
use rust_bpf.Utils.Dylibs.Debug.{IsRead, new-IsRead}
use rust_bpf.Prelude.{All}
use rust_bpf.Utils.Elf.Open.{Image, Library}
use rust_bpf.Utils.Dylibs.New.{System, BinaryInfo, new}
use rust_bpf.Utils.Dylibs.Collect.{new-Locates}
use rust_bpf.Text.Number.{from_str_radix}
use rust_bpf.Utils.Cpu.{online_cpu_ids}
use rust_bpf.Utils.Cpu.Ranges.{single, range, show_group, all_ids, online_cpu_ids-join}

abbrev doubles : ℕ → ℕ
doubles i = i + i

abbrev symbols : List KernelSymbol
symbols =
    record { symbol = codes "_stext"; address = 100 }
    ∷ record { symbol = codes "do_fork"; address = 160 }
    ∷ []

symbols-Ascends : Ascends (address_at symbols) (length symbols)
symbols-Ascends zero zero le lt = omega arith
symbols-Ascends zero (suc zero) le lt = omega arith
symbols-Ascends (suc zero) zero le lt = absurd (omega arith)
symbols-Ascends (suc zero) (suc zero) le lt = omega arith
symbols-Ascends i (suc (suc j)) le lt = absurd (omega arith)
symbols-Ascends (suc (suc i)) j le lt = absurd (omega arith)

symbol_at-Looks_example : Looks symbols 170 (symbol_at binary_search symbols 170)
symbol_at-Looks_example =
    symbol_at-Looks binary_search symbols 170 binary_search-Searches (omega arith) symbols-Ascends

abbrev binaries : List Binary
binaries =
    record {
      start_addr = 100;
      end_addr = 150;
      symbols = [];
      path = [];
      utf8_path = none;
      id = none;
      dwarf = none;
    }
    ∷ record {
      start_addr = 400;
      end_addr = 500;
      symbols = [];
      path = [];
      utf8_path = none;
      id = none;
      dwarf = none;
    }
    ∷ []

binaries-Ascends : Ascends (start_at binaries) (length binaries)
binaries-Ascends zero zero le lt = omega arith
binaries-Ascends zero (suc zero) le lt = omega arith
binaries-Ascends (suc zero) zero le lt = absurd (omega arith)
binaries-Ascends (suc zero) (suc zero) le lt = omega arith
binaries-Ascends i (suc (suc j)) le lt = absurd (omega arith)
binaries-Ascends (suc (suc i)) j le lt = absurd (omega arith)

trimmed : trim (codes "0-3,8" ++ 10 ∷ []) ≡ join b',' (map show_group (range 0 3 ∷ single 8 ∷ []))
unfolding trim join show_radix
trimmed = refl

online_cpu_ids-join_example :
    online_cpu_ids (codes "0-3,8" ++ 10 ∷ []) ≡ some (all_ids (range 0 3 ∷ single 8 ∷ []))
online_cpu_ids-join_example =
    online_cpu_ids-join (codes "0-3,8" ++ 10 ∷ []) (range 0 3) (single 8 ∷ []) trimmed
      ((omega arith, omega arith), (omega arith, tt))

abbrev with_symbol : List Binary
with_symbol =
    record {
      start_addr = 1000;
      end_addr = 2000;
      symbols = record { name = some (codes "main"); address = 16; size = 32 } ∷ [];
      path = [];
      utf8_path = none;
      id = none;
      dwarf = none;
    }
    ∷ []

with_symbol-Ascends : Ascends (start_at with_symbol) (length with_symbol)
with_symbol-Ascends zero zero le lt = omega arith
with_symbol-Ascends i (suc j) le lt = absurd (omega arith)
with_symbol-Ascends (suc i) j le lt = absurd (omega arith)

is_main : resolve_ip with_symbol 1020 ≡ ok (some (codes "main"))
unfolding resolve_ip
is_main = refl

resolve_ip_sound_example : Names with_symbol 1020 (codes "main")
resolve_ip_sound_example =
    resolve_ip_sound with_symbol 1020 (codes "main") with_symbol-Ascends
      ((refl, (omega arith, tt)), tt) is_main

-- A process of one file, whose debug symbols are in another one.
abbrev main_image : Image
main_image = record {
  symbols = record { name = some (codes "_start"); address = 16; size = 32 } ∷ [];
  note = none;
  has_debug_symbols = false;
}

abbrev debug_image : Image
debug_image = record { symbols = []; note = none; has_debug_symbols = true }

abbrev no_frames : ℕ → Frame
no_frames offset = no_frame

abbrev library : Library
library = record {
  parse = λ path. if text_eq path (codes "/bin/a") then some main_image else some debug_image;
  locate_debug_symbols = λ image path. some (codes "/debug/a");
  locate_debug_build_id = λ id. none;
  context = λ image. if image.has_debug_symbols then some no_frames else none;
}

abbrev system : System
system = record {
  exists = λ path. true;
  library = library;
  to_str = λ path. some path;
  spawn = some 42;
  maps_before = λ pid. some (codes "1000-2000 r-xp 0 08:01 7 /bin/a" ∷ []);
  maps_behind = λ pid breakpoint. some (codes "1000-3000 r-xp 0 08:01 7 /bin/a" ∷ []);
  runs_to = λ pid breakpoint. breakpoint == 0x1010;
}

abbrev started : BinaryInfo
started = record {
  pid = 42;
  map =
      record {
        start_addr = 0x1000;
        end_addr = 0x3000;
        symbols = main_image.symbols;
        path = codes "/bin/a";
        utf8_path = some (codes "/bin/a");
        id = none;
        dwarf = some (record { path = codes "/debug/a"; find_frames = no_frames });
      }
      ∷ [];
}

starts_up : new system ≡ ok started
unfolding new from_str_radix text_eq
starts_up = refl

new-Locates_example : Locates started.map 0x1020 (binary started.map 0x1020)
new-Locates_example = new-Locates system started 0x1020 starts_up

new-IsRead_example : All (IsRead library) started.map
new-IsRead_example = new-IsRead system started starts_up
