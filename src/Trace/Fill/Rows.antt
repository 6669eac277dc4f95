-- ===== src/Trace/Fill/Rows.antt =====
-- cargo-trace/src/main.rs: the state of the arrays while rows are written into them.
use rust_bpf.Prelude.{
  ℕ, zero, suc, ◌+◌, ◌%◌, ◌≡◌, refl, sym, ap, ◌∙◌, List, [], ◌∷◌, ◌++◌, some, arith, length,
  length-append, All, All-append,
}
use mathlib.Core.List.{map}
use rust_bpf.Prelude.Int.{u64_mod}
use rust_bpf.Unwind.Instruction.{Instruction, IsBuilt, UnwindTableRow}
use rust_bpf.Unwind.Execute.{Encoded, encode}
use rust_bpf.Unwind.User.{UnwindMap, load_rows, load_entries}
use rust_bpf.Unwind.Probe.{Maps}
use rust_bpf.Trace.Fill.{insert, fill_row, fill_rows, fill_binaries}

-- The instructions of a row come from the constructors of `Instruction`.
abbrev pub RowIsBuilt : UnwindTableRow → Type 0
RowIsBuilt row = IsBuilt row.rip × IsBuilt row.rsp

-- The entry is written behind the elements in front, as long as there is room.
insert-append :
    {A : Type 0} (xs rest : List A) (v : A) (i room : ℕ)
    → length xs ≡ i
    → length rest ≡ suc room
    → (rest' : List A) × (insert (xs ++ rest) i v ≡ some ((xs ++ v ∷ []) ++ rest'))
      × (length rest' ≡ room)
insert-append [] [] v i room n h = absurd (omega arith)
insert-append [] (r ∷ rest) v zero room n h = (rest, refl, omega arith)
insert-append [] (r ∷ rest) v (suc i) room n h = absurd (omega arith)
insert-append (x ∷ xs) rest v zero room n h = absurd (omega arith)
insert-append (x ∷ xs) rest v (suc i) room n h =
    let (rest', e, k) = insert-append xs rest v i room (omega arith) h in (rest', rw e refl, k)

map_encode-append :
    (xs : List Instruction) (x : Instruction)
    → map encode (xs ++ x ∷ []) ≡ map encode xs ++ encode x ∷ []
map_encode-append [] x = refl
map_encode-append (y ∷ xs) x = ap (λ ys. encode y ∷ ys) (map_encode-append xs x)

length-map_encode : (xs : List Instruction) → length (map encode xs) ≡ length xs
length-map_encode [] = refl
length-map_encode (x ∷ xs) = omega (arith, length-map_encode xs)

-- The first `i` entries hold the table, and there is room for `room` more.
pub record Front (i room : ℕ) (m : Maps) (t : UnwindMap) : Type 0 where
  pub starts : List ℕ
  pub rips : List Encoded
  pub rsps : List Encoded
  pub pc_is : m.pc ≡ t.pc ++ starts
  pub rip_is : m.rip ≡ map encode t.rip ++ rips
  pub rsp_is : m.rsp ≡ map encode t.rsp ++ rsps
  pub pc_count : length t.pc ≡ i
  pub rip_count : length t.rip ≡ i
  pub rsp_count : length t.rsp ≡ i
  pub pc_room : length starts ≡ room
  pub rip_room : length rips ≡ room
  pub rsp_room : length rsps ≡ room
  pub built_rip : All IsBuilt t.rip
  pub built_rsp : All IsBuilt t.rsp

abbrev pub pushed : ℕ → UnwindTableRow → UnwindMap → UnwindMap
pushed start row t = record {
  pc = t.pc ++ ((start + row.start_address) % u64_mod) ∷ [];
  rip = t.rip ++ row.rip ∷ [];
  rsp = t.rsp ++ row.rsp ∷ [];
}

fill_row-Front :
    (start : ℕ) (row : UnwindTableRow) (i room : ℕ) (m : Maps) (t : UnwindMap)
    → RowIsBuilt row
    → Front i (suc room) m t
    → (m' : Maps) × (fill_row start row i m ≡ some m')
      × Front (i + 1) room m' (pushed start row t)
      × (m'.config ≡ m.config)
unfolding fill_row
fill_row-Front start row i room m t b f =
    let (starts, pc_e, pc_k) =
      insert-append t.pc f.starts ((start + row.start_address) % u64_mod) i room f.pc_count
        f.pc_room in
    let (rips, rip_e, rip_k) =
      insert-append (map encode t.rip) f.rips (encode row.rip) i room
        (length-map_encode t.rip ∙ f.rip_count) f.rip_room in
    let (rsps, rsp_e, rsp_k) =
      insert-append (map encode t.rsp) f.rsps (encode row.rsp) i room
        (length-map_encode t.rsp ∙ f.rsp_count) f.rsp_room in
    (
      record m { pc = _; rip = _; rsp = _ },
      rw (f.pc_is, f.rip_is, f.rsp_is) (rw pc_e (rw rip_e (rw rsp_e refl))),
      record {
        starts = starts;
        rips = rips;
        rsps = rsps;
        pc_is = refl;
        rip_is = ap (λ xs. xs ++ rips) (sym (map_encode-append t.rip row.rip));
        rsp_is = ap (λ xs. xs ++ rsps) (sym (map_encode-append t.rsp row.rsp));
        pc_count =
            omega (
              arith,
              length-append t.pc (((start + row.start_address) % u64_mod) ∷ []),
              f.pc_count,
            );
        rip_count = omega (arith, length-append t.rip (row.rip ∷ []), f.rip_count);
        rsp_count = omega (arith, length-append t.rsp (row.rsp ∷ []), f.rsp_count);
        pc_room = pc_k;
        rip_room = rip_k;
        rsp_room = rsp_k;
        built_rip = All-append IsBuilt t.rip (row.rip ∷ []) f.built_rip (b.0, tt);
        built_rsp = All-append IsBuilt t.rsp (row.rsp ∷ []) f.built_rsp (b.1, tt);
      },
      refl,
    )

fill_rows-Front :
    (start : ℕ) (rows : List UnwindTableRow) (i room : ℕ) (m : Maps) (t : UnwindMap)
    → All RowIsBuilt rows
    → Front i (length rows + room) m t
    → (m' : Maps) × (fill_rows start rows i m ≡ some (i + length rows, m'))
      × Front (i + length rows) room m' (load_rows start rows t)
      × (m'.config ≡ m.config)
unfolding fill_rows load_rows
fill_rows-Front start [] i room m t b f =
    let same : i + 0 ≡ i = omega arith in
    let less : 0 + room ≡ room = omega arith in (m, rw same refl, rw same (rw less at f), refl)
fill_rows-Front start (row ∷ rows) i room m t b f =
    let behind : suc (length rows) + room ≡ suc (length rows + room) = omega arith in
    let (m', e, f', c) = fill_row-Front start row i (length rows + room) m t b.0 (rw behind at f) in
    let (m'', e', f'', c') =
      fill_rows-Front start rows (i + 1) room m' (pushed start row t) b.1 f' in
    let count : i + 1 + length rows ≡ i + suc (length rows) = omega arith in
    (m'', rw e (rw count at e'), rw count at f'', c' ∙ c)

-- The rows of all binaries.
abbrev pub row_count : List (ℕ × List UnwindTableRow) → ℕ
row_count [] = 0
row_count ((start, rows) ∷ binaries) = length rows + row_count binaries

abbrev pub RowsAreBuilt : List (ℕ × List UnwindTableRow) → Type 0
RowsAreBuilt = All (λ binary. All RowIsBuilt binary.1)

pub fill_binaries-Front :
    (binaries : List (ℕ × List UnwindTableRow)) (i room : ℕ) (m : Maps) (t : UnwindMap)
    → RowsAreBuilt binaries
    → Front i (row_count binaries + room) m t
    → (m' : Maps) × (fill_binaries binaries i m ≡ some (i + row_count binaries, m'))
      × Front (i + row_count binaries) room m' (load_entries binaries t)
      × (m'.config ≡ m.config)
unfolding fill_binaries load_entries
fill_binaries-Front [] i room m t b f =
    let same : i + 0 ≡ i = omega arith in
    let less : 0 + room ≡ room = omega arith in (m, rw same refl, rw same (rw less at f), refl)
fill_binaries-Front ((start, rows) ∷ binaries) i room m t b f =
    let counted : length rows + row_count binaries + room
        ≡ length rows + (row_count binaries + room) =
      omega arith in
    let (m', e, f', c) =
      fill_rows-Front start rows i (row_count binaries + room) m t b.0 (rw counted at f) in
    let (m'', e', f'', c') =
      fill_binaries-Front binaries (i + length rows) room m' (load_rows start rows t) b.1 f' in
    let count : i + length rows + row_count binaries ≡ i + (length rows + row_count binaries) =
      omega arith in
    (m'', rw e (rw count at e'), rw count at f'', c' ∙ c)
