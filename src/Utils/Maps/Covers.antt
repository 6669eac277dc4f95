-- ===== src/Utils/Maps/Covers.antt =====
-- bpf-utils/src/maps.rs: which mappings an entry covers, and the order of the entries.
use rust_bpf.Prelude.{
  ℕ, ◌≡◌, ◌≤◌, inl, inr, refl, List, [], ◌∷◌, ◌++◌, Bool, true, Bool-cases, arith, ok, ok-injective,
  >>=-eq-ok,
}
use mathlib.Core.Path.{subst}
use rust_bpf.Prelude.Sort.{Any, IsSorted, sort_by_key, sort_by_key-IsSorted, sort_by_key-Any}
use rust_bpf.Text.{Text, text_eq, text_eq→eq}
use rust_bpf.Utils.Maps.{
  AddressEntry, line_path, line_range, widen, add_line, add_lines, load_map_lines,
}

-- The entry of the file holds the range.
abbrev pub Spans : AddressEntry → Text → (start end : ℕ) → Type 0
Spans e path start end = (e.path ≡ path) × (e.start_addr ≤ start) × (end ≤ e.end_addr)

-- One of the entries does.
abbrev pub Covers : List AddressEntry → Text → (start end : ℕ) → Type 0
Covers entries path start end = Any (λ e. Spans e path start end) entries

widen-Covers :
    (entries : List AddressEntry) (path : Text) (start end : ℕ)
    → Covers (widen entries path start end) path start end
unfolding widen
widen-Covers [] path start end = inl (refl, omega arith, omega arith)
widen-Covers (e ∷ entries) path start end = elim (Bool-cases (text_eq e.path path)) [
  | inl same ↦ rw (same, widen) (inl (text_eq→eq e.path path same, omega arith, omega arith))
  | inr other ↦ rw (other, widen) (inr (widen-Covers entries path start end))
]

-- What was covered stays covered.
widen-Covers_old :
    (entries : List AddressEntry) (path old : Text) (start end s t : ℕ)
    → Covers entries old s t
    → Covers (widen entries path start end) old s t
unfolding widen
widen-Covers_old [] path old start end s t h = elim h [ ]
widen-Covers_old (e ∷ entries) path old start end s t h = elim (Bool-cases (text_eq e.path path)) [
  | inl same ↦
      rw (same, widen)
        (elim h [
          | inl here ↦ inl (here.0, omega (arith, here.1), omega (arith, here.2))
          | inr there ↦ inr there
        ])
  | inr other ↦
      rw (other, widen)
        (elim h [
          | inl here ↦ inl here
          | inr there ↦ inr (widen-Covers_old entries path old start end s t there)
        ])
]

module _ (exists : Text → Bool) where
  add_line-Covers_old :
      (entries : List AddressEntry) (line : Text) {entries' : List AddressEntry} (path : Text)
      (s t : ℕ)
      → add_line exists entries line ≡ ok entries'
      → Covers entries path s t
      → Covers entries' path s t
  unfolding add_line
  add_line-Covers_old entries line {entries'} path s t h c =
      let (p, e, h') = >>=-eq-ok (line_path line) _ h in
      elim (Bool-cases (exists p)) [
        | inl there ↦
            let (r, e', made) = >>=-eq-ok (line_range line) _ (rw there at h') in
            subst (λ x. Covers x path s t) (ok-injective _ entries' made)
              (widen-Covers_old entries p path r.0 r.1 s t c)
        | inr gone ↦
            subst (λ x. Covers x path s t) (ok-injective entries entries' (rw gone at h')) c
      ]

  add_lines-Covers_old :
      (lines : List Text) (entries : List AddressEntry) {result : List AddressEntry} (path : Text)
      (s t : ℕ)
      → add_lines exists entries lines ≡ ok result
      → Covers entries path s t
      → Covers result path s t
  unfolding add_lines
  add_lines-Covers_old [] entries {result} path s t h c =
      subst (λ x. Covers x path s t) (ok-injective entries result h) c
  add_lines-Covers_old (line ∷ lines) entries path s t h c =
      let (entries', e, h') = >>=-eq-ok (add_line exists entries line) _ h in
      add_lines-Covers_old lines entries' path s t h'
        (add_line-Covers_old entries line path s t e c)

  add_lines-Covers :
      (before after : List Text) (line : Text) (entries : List AddressEntry)
      {result : List AddressEntry} (path : Text) (s t : ℕ)
      → line_path line ≡ ok path
      → exists path ≡ true
      → line_range line ≡ ok (s, t)
      → add_lines exists entries (before ++ line ∷ after) ≡ ok result
      → Covers result path s t
  unfolding add_lines add_line
  add_lines-Covers [] after line entries path s t p there r h =
      let (entries', e, h') = >>=-eq-ok (add_line exists entries line) _ h in
      add_lines-Covers_old after entries' path s t h' (
        subst (λ x. Covers x path s t) (ok-injective _ entries' (rw (p, there, r) at e))
          (widen-Covers entries path s t))
  add_lines-Covers (b ∷ before) after line entries path s t p there r h =
      let (entries', e, h') = >>=-eq-ok (add_line exists entries b) _ h in
      add_lines-Covers before after line entries' path s t p there r h'

  -- If the lines are loaded, the entries ascend by their starts, and the mapping of each line
  -- whose file exists lies inside the entry of that file.
  pub load_map_lines-Covers :
      (before after : List Text) (line : Text) {entries : List AddressEntry} (path : Text) (s t : ℕ)
      → line_path line ≡ ok path
      → exists path ≡ true
      → line_range line ≡ ok (s, t)
      → load_map_lines exists (before ++ line ∷ after) ≡ ok entries
      → IsSorted (λ e. e.start_addr) entries × Covers entries path s t
  unfolding load_map_lines
  load_map_lines-Covers before after line {entries} path s t p there r h =
      let (found, e, made) = >>=-eq-ok (add_lines exists [] (before ++ line ∷ after)) _ h in
      let sorted : sort_by_key (λ e. e.start_addr) found ≡ entries = ok-injective _ entries made in
      (
        subst (IsSorted (λ e. e.start_addr)) sorted
            (sort_by_key-IsSorted (λ e. e.start_addr) found),
        subst (λ x. Covers x path s t) sorted
            (sort_by_key-Any (λ e. e.start_addr) (λ e. Spans e path s t) found
              (add_lines-Covers before after line [] path s t p there r e)),
      )
