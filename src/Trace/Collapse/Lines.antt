-- ===== src/Trace/Collapse/Lines.antt =====
-- cargo-trace/src/main.rs: what the collapsed lines say.
use rust_bpf.Prelude.{
  ℕ, zero, suc, ◌≡◌, ◌≢◌, ◌<◌, ◌⊎◌, inl, inr, refl, List, [], ◌∷◌, Option, none, some, ◌==◌, ==_iff,
  Bool-cases, arith, Result, ok, err, ok-injective, All, Lacks,
}
use mathlib.Core.List.{reverse}
use mathlib.Core.Path.{subst}
use rust_bpf.Prelude.Int.{u32_mod}
use rust_bpf.Text.{Text}
use rust_bpf.Text.Split.{split, rsplitn, rsplitn_two}
use rust_bpf.Text.Join.{join, split-join}
use rust_bpf.Text.Number.{show_radix, from_str_radix}
use rust_bpf.Text.Number.ReadShow.{from_str_radix-show_radix, show_radix-IsShown, IsShown-Lacks}
use rust_bpf.Unwind.Agree.Stack.{pad}
use rust_bpf.Trace.Collapse.{Resolver, push_symbol, stack_symbols, collapsed_line}

-- The first `n` addresses.
abbrev pub first_frames : ℕ → List ℕ → List ℕ
first_frames zero ips = []
first_frames (suc n) [] = []
first_frames (suc n) (ip ∷ ips) = ip ∷ first_frames n ips

-- The zeros that fill the array of the probe change no line: a stack is collapsed as its first
-- frames are, without them.
pub stack_symbols-pad :
    {E : Type 0} (resolve : Resolver E) (n : ℕ) (ips : List ℕ)
    → stack_symbols resolve (pad n ips) ≡ stack_symbols resolve (first_frames n ips)
unfolding stack_symbols
stack_symbols-pad resolve zero ips = refl
stack_symbols-pad resolve (suc n) [] = refl
stack_symbols-pad resolve (suc n) (ip ∷ ips) = rw (stack_symbols-pad resolve n ips)

-- The stack ends where the loop does: at its end, at a zero, or at an address without a name.
abbrev pub Ends : {E : Type 0} → Resolver E → List ℕ → Type 0
Ends resolve [] = Unit
Ends resolve (ip ∷ ips) = (ip ≡ 0) ⊎ (resolve ip ≡ ok none)

-- The symbols are those of the addresses, none of which is zero, up to the end of the loop.
abbrev pub Named : {E : Type 0} → Resolver E → List ℕ → List Text → Type 0
Named resolve ips [] = Ends resolve ips
Named resolve [] (symbol ∷ symbols) = ⊥
Named resolve (ip ∷ ips) (symbol ∷ symbols) =
    (ip ≢ 0) × (resolve ip ≡ ok (some symbol)) × Named resolve ips symbols

Named-push :
    {E : Type 0} (resolve : Resolver E) (ip : ℕ) (ips : List ℕ) (o : Result E (Option Text))
    (rest : Result E (List Text)) {symbols : List Text}
    → ip ≢ 0
    → resolve ip ≡ o
    → ((collected : List Text) → rest ≡ ok collected → Named resolve ips collected)
    → push_symbol o rest ≡ ok symbols
    → Named resolve (ip ∷ ips) symbols
Named-push resolve ip ips (err e) rest z r n h = absurd (cc)
Named-push resolve ip ips (ok none) rest {symbols} z r n h =
    subst (Named resolve (ip ∷ ips)) (ok-injective [] symbols h) (inr r)
Named-push resolve ip ips (ok (some symbol)) (err e) z r n h = absurd (cc)
Named-push resolve ip ips (ok (some symbol)) (ok collected) {symbols} z r n h =
    subst (Named resolve (ip ∷ ips)) (ok-injective (symbol ∷ collected) symbols h)
      (z, r, n collected refl)

-- Symbols that the loop collects are those of the addresses in front of the first zero or the
-- first address without a name, in their order.
pub stack_symbols-Named :
    {E : Type 0} (resolve : Resolver E) (ips : List ℕ) {symbols : List Text}
    → stack_symbols resolve ips ≡ ok symbols
    → Named resolve ips symbols
unfolding stack_symbols
stack_symbols-Named resolve [] {symbols} h = subst (Named resolve []) (ok-injective [] symbols h) tt
stack_symbols-Named resolve (ip ∷ ips) {symbols} h = elim (Bool-cases (ip == 0)) [
  | inl end ↦
      subst (Named resolve (ip ∷ ips)) (ok-injective [] symbols (rw (end, stack_symbols) at h))
        (inl ((==_iff ip 0).0 end))
  | inr more ↦
      Named-push resolve ip ips (resolve ip) (stack_symbols resolve ips) (ground arith) refl
        (λ collected e. stack_symbols-Named resolve ips e) (rw (more, stack_symbols) at h)
]

-- A collapsed line says its stack and its count: what stands behind the last space is the count,
-- and what stands in front, split at the semicolons, is the symbols from the outermost to the
-- innermost, if there is a symbol, none has a semicolon, and the count fits 32 bits.
pub collapsed_line-split :
    (symbol : Text) (symbols outermost : List Text) (count : ℕ)
    → reverse symbols ≡ symbol ∷ outermost
    → All (Lacks b';') (symbol ∷ outermost)
    → count < u32_mod
    → (stack shown : Text) × (rsplitn 2 b' ' (collapsed_line symbols count) ≡ shown ∷ stack ∷ [])
      × (split b';' stack ≡ reverse symbols)
      × (from_str_radix u32_mod 10 shown ≡ ok count)
unfolding collapsed_line
collapsed_line-split symbol symbols outermost count r lacks lt = (
  join b';' (reverse symbols),
  show_radix 10 count,
  rsplitn_two b' ' (join b';' (reverse symbols)) (show_radix 10 count) (
      IsShown-Lacks b' ' (show_radix 10 count) (inl refl)
        (show_radix-IsShown 10 (omega arith) (omega arith) count)),
  rw r (split-join b';' symbol outermost lacks),
  from_str_radix-show_radix 10 (omega arith) (omega arith) u32_mod count lt,
)
