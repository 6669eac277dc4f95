-- ===== src/Utils/Dylibs/Debug.antt =====
-- bpf-utils/src/dylibs.rs and elf.rs: where the symbols and the DWARF of a new process are from.
use mathlib.Core.Path.{subst}
use rust_bpf.Prelude.{
  ◌≡◌, refl, sym, ap, ◌∙◌, Bool, true, false, List, [], ◌∷◌, Option, none, some, ok, ok_or, map_err,
  map_err-eq-ok, >>=-eq-ok, ok-injective, to_option, Bool-cases, Result-cases, inl, inr, All,
  if◌then◌else◌,
}
use rust_bpf.Text.{Text}
use rust_bpf.Utils.Elf.Open.{
  Image, Library, no_file, not_located, no_context, Elf, open_path, dwarf_new, dwarf_open,
  located_dwarf, dwarf,
}
use rust_bpf.Utils.Maps.{AddressEntry}
use rust_bpf.Utils.Dylibs.{Binary, Dwarf}
use rust_bpf.Utils.Dylibs.New.{System, BinaryInfo, opening, binary_of, open_entries, new}
use rust_bpf.Utils.Dylibs.Collect.{new-opened}

pub ok_or-eq-ok : {E A : Type 0} (o : Option A) (e : E) {a : A} → ok_or o e ≡ ok a → o ≡ some a
ok_or-eq-ok none e h = cc
ok_or-eq-ok (some b) e h = cc

module _ (lib : Library) where
  -- The file at the path of the DWARF is what the frames are from.
  abbrev pub FromFile : Dwarf → Type 0
  FromFile dw =
      (source : Image) × (lib.parse dw.path ≡ some source)
      × (lib.context source ≡ some dw.find_frames)

  -- The path is that of the file itself if it has debug symbols, or else that of the file found for
  -- it.
  abbrev pub IsDebugOf : Elf → Option Dwarf → Type 0
  IsDebugOf elf none = Unit
  IsDebugOf elf (some dw) =
      FromFile dw
      × (elf.obj.has_debug_symbols ≡ true → dw.path ≡ elf.path)
      × (elf.obj.has_debug_symbols ≡ false
          → lib.locate_debug_symbols elf.obj elf.path ≡ some dw.path)

  open_path-parse :
      (path : Text) (elf : Elf)
      → open_path lib path ≡ ok elf
      → (elf.path ≡ path) × (lib.parse path ≡ some elf.obj)
  unfolding open_path
  open_path-parse path elf h =
      let (obj, parsed, made) = >>=-eq-ok (ok_or (lib.parse path) no_file) _ h in
      let same = ok-injective (record { obj = obj; path = path }) elf made in
      (
        sym (ap (λ e. e.path) same),
        ok_or-eq-ok (lib.parse path) no_file parsed ∙ ap (λ e. some e.obj) same,
      )

  dwarf_new-FromFile :
      (elf : Elf) (dw : Dwarf)
      → lib.parse elf.path ≡ some elf.obj
      → dwarf_new lib elf ≡ ok dw
      → FromFile dw × (dw.path ≡ elf.path)
  unfolding dwarf_new
  dwarf_new-FromFile elf dw parsed h =
      let (frames, read, made) = >>=-eq-ok (ok_or (lib.context elf.obj) no_context) _ h in
      subst (λ dw. FromFile dw × (dw.path ≡ elf.path))
        (ok-injective (record { path = elf.path; find_frames = frames }) dw made)
        ((elf.obj, parsed, ok_or-eq-ok (lib.context elf.obj) no_context read), refl)

  dwarf_open-FromFile :
      (path : Text) (dw : Dwarf) → dwarf_open lib path ≡ ok dw → FromFile dw × (dw.path ≡ path)
  unfolding dwarf_open
  dwarf_open-FromFile path dw h =
      let (elf, opened, made) = >>=-eq-ok (open_path lib path) _ h in
      let (at, parsed) = open_path-parse path elf opened in
      let (from, same) = dwarf_new-FromFile elf dw (ap lib.parse at ∙ parsed) made in
      (from, same ∙ at)

  dwarf_if :
      (elf : Elf) {b : Bool}
      → elf.obj.has_debug_symbols ≡ b
      → dwarf lib elf ≡ (if b then dwarf_new lib elf else located_dwarf lib elf)
  unfolding dwarf
  dwarf_if elf = ap (λ b. if b then dwarf_new lib elf else located_dwarf lib elf)

  dwarf_ok-IsDebugOf :
      (elf : Elf) (dw : Dwarf)
      → lib.parse elf.path ≡ some elf.obj
      → dwarf lib elf ≡ ok dw
      → IsDebugOf elf (some dw)
  unfolding located_dwarf
  dwarf_ok-IsDebugOf elf dw parsed h = elim (Bool-cases elf.obj.has_debug_symbols) [
    | inl own ↦
        let (from, same) = dwarf_new-FromFile elf dw parsed (sym (dwarf_if elf own) ∙ h) in
        (from, (λ _. same), λ foreign. absurd (cc))
    | inr foreign ↦
        let found = lib.locate_debug_symbols elf.obj elf.path in
        let (path, located, made) =
          >>=-eq-ok (ok_or found not_located) (dwarf_open lib) (sym (dwarf_if elf foreign) ∙ h) in
        let (from, same) = dwarf_open-FromFile path dw made in
        (
          from,
          (λ own. absurd (cc)),
          λ _. ok_or-eq-ok found not_located located ∙ ap (λ path. some path) (sym same),
        )
  ]

  dwarf-IsDebugOf :
      (elf : Elf) → lib.parse elf.path ≡ some elf.obj → IsDebugOf elf (to_option (dwarf lib elf))
  dwarf-IsDebugOf elf parsed = elim (Result-cases (dwarf lib elf)) [
    | inl (e, failed) ↦ rw failed tt
    | inr (dw, read) ↦ rw read (dwarf_ok-IsDebugOf elf dw parsed read)
  ]

-- What a binary says is what the file at its path says, and its DWARF is that file's.
abbrev pub IsRead : Library → Binary → Type 0
IsRead lib b =
    (obj : Image) × (lib.parse b.path ≡ some obj)
    × (b.symbols ≡ obj.symbols)
    × IsDebugOf lib (record { obj = obj; path = b.path }) b.dwarf

binary_of-IsRead :
    (sys : System) (entry : AddressEntry) (elf : Elf)
    → sys.library.parse elf.path ≡ some elf.obj
    → IsRead sys.library (binary_of sys entry elf)
unfolding binary_of
binary_of-IsRead sys entry elf parsed =
    (elf.obj, parsed, refl, dwarf-IsDebugOf sys.library elf parsed)

open_entries-IsRead :
    (sys : System) (entries : List AddressEntry) {binaries : List Binary}
    → open_entries sys entries ≡ ok binaries
    → All (IsRead sys.library) binaries
unfolding open_entries
open_entries-IsRead sys [] {binaries} h =
    subst (All (IsRead sys.library)) (ok-injective [] binaries h) tt
open_entries-IsRead sys (entry ∷ entries) {binaries} h =
    let lib = sys.library in
    let (elf, opened, rest) = >>=-eq-ok (map_err opening (open_path lib entry.path)) _ h in
    let (more, all, made) = >>=-eq-ok (open_entries sys entries) _ rest in
    let (at, parsed) =
      open_path-parse lib entry.path elf
        (map_err-eq-ok opening (open_path lib entry.path) opened) in
    subst (All (IsRead lib)) (ok-injective (binary_of sys entry elf ∷ more) binaries made) (
      binary_of-IsRead sys entry elf (ap lib.parse at ∙ parsed),
      open_entries-IsRead sys entries all,
    )

-- Every binary of a process that was started has the symbols of the file at its path; if it has
-- DWARF, this is read from the file at the DWARF's path, which is the binary's own if its file has
-- debug symbols, and else that of the file located for it.
pub new-IsRead :
    (sys : System) (info : BinaryInfo) → new sys ≡ ok info → All (IsRead sys.library) info.map
new-IsRead sys info h =
    let (late, entries, loaded, opened) = new-opened sys info h in
    open_entries-IsRead sys entries opened
