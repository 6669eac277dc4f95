-- ===== src/Utils/Dylibs/Resolve.antt =====
-- bpf-utils/src/dylibs.rs: which symbol of which binary an address is given.
use rust_bpf.Prelude.{
  ℕ, ◌-◌, ◌≤◌, ◌≡◌, List, Option, none, some, get_elem?, length, All, All-get_elem?, Result, ok,
  err,
}
use rust_bpf.Text.{Text}
use rust_bpf.Utils.Elf.{ElfError, resolve_address}
use rust_bpf.Utils.Elf.Symbols.{Fits, At, resolve_address_sound}
use rust_bpf.Utils.Search.Floor.{Ascends}
use rust_bpf.Utils.Dylibs.{
  Binary, start_at, Located, located, outside, out_of_bounds, binary, elf_symbol, name_located,
  resolve_ip,
}
use rust_bpf.Utils.Dylibs.Lookup.{Locates, binary-Locates}

-- A binary without DWARF, whose symbols fit the address space.
abbrev pub IsStripped : Binary → Type 0
IsStripped b = (b.dwarf ≡ none) × All Fits b.symbols

-- A binary of the list holds the address, and a symbol of the name holds its offset.
abbrev pub Names : List Binary → ℕ → Text → Type 0
Names binaries ip name =
    (i : ℕ) × (b : Binary) × (get_elem? binaries i ≡ some b)
    × (b.start_addr ≤ ip)
    × (ip ≤ b.end_addr)
    × At name (ip - b.start_addr) b.symbols

elf_symbol-ok :
    (r : Result ElfError (Option Text)) {name : Option Text} → elf_symbol r ≡ ok name → r ≡ ok name
elf_symbol-ok (ok o) h = cc
elf_symbol-ok (err e) h = absurd (cc)

named :
    (binaries : List Binary) (ip : ℕ) (name : Text) (l : Located)
    → All IsStripped binaries
    → Locates binaries ip l
    → name_located ip l ≡ ok (some name)
    → Names binaries ip name
named binaries ip name (located b) h (i, e, low, high, last) n =
    let (no_dwarf, fits) = All-get_elem? IsStripped binaries i h e in
    (
      i,
      b,
      e,
      low,
      high,
      resolve_address_sound b.symbols (ip - b.start_addr) name fits
          (elf_symbol-ok (resolve_address b.symbols (ip - b.start_addr)) (rw no_dwarf at n)),
    )
named binaries ip name outside h l n = absurd (cc)
named binaries ip name out_of_bounds h l n = absurd (cc)

-- If the binaries ascend by their starts, have no DWARF, and their symbols fit the address space,
-- an address that a name is found for lies in a binary of the list, and its offset there lies in a
-- symbol of that name.
pub resolve_ip_sound :
    (binaries : List Binary) (ip : ℕ) (name : Text)
    → Ascends (start_at binaries) (length binaries)
    → All IsStripped binaries
    → resolve_ip binaries ip ≡ ok (some name)
    → Names binaries ip name
unfolding resolve_ip
resolve_ip_sound binaries ip name up h n =
    named binaries ip name (binary binaries ip) h (binary-Locates binaries ip up) n
