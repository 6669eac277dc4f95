-- ===== src/Text.antt =====
-- What the crates use of the standard library's text functions. A `str` is the list of its
-- characters' codes.
pub mod Split
pub mod Join
pub mod Trim
pub mod Words
pub mod Lines
pub mod Find
pub mod Pad
pub mod Number
use Prim.Native.Char.{code}
use Prim.Native.String.{String}
use mathlib.Core.Path.{sym, subst, subst₂}
use mathlib.Core.Option.{some-injective}
use rust_bpf.Prelude.{
  ℕ, zero, suc, ◌≡◌, refl, ap, ◌↔◌, Bool, true, false, ◌&&◌, List, [], ◌∷◌, ◌++◌, Option, none,
  some, arith, inl, inr, All, Bool-cases, ◌==◌, ==_iff, dec_of, if◌then◌else◌,
}

abbrev pub Text : Type 0
Text = List ℕ

-- The codes of a literal.
abbrev pub codes : String → Text
codes String.[] = []
codes (String.◌∷◌ c s) = code c ∷ codes s

-- Equality of texts, as a `match` on literals tests it.
unfoldable pub text_eq : Text → Text → Bool
text_eq [] [] = true
text_eq [] (d ∷ t) = false
text_eq (c ∷ s) [] = false
text_eq (c ∷ s) (d ∷ t) = c == d && text_eq s t

pub text_eq→eq : (s t : Text) → text_eq s t ≡ true → s ≡ t
unfolding text_eq
text_eq→eq [] [] h = refl
text_eq→eq [] (d ∷ t) h = cc
text_eq→eq (c ∷ s) [] h = cc
text_eq→eq (c ∷ s) (d ∷ t) h = ground (arith, text_eq→eq s t)

pub text_eq_self : (s : Text) → text_eq s s ≡ true
unfolding text_eq
text_eq_self [] = refl
text_eq_self (c ∷ s) = ground (arith, text_eq_self s)

pub text_eq-false→ne : (s t : Text) → text_eq s t ≡ false → ¬ (s ≡ t)
text_eq-false→ne s t apart e =
    absurd (cc (subst (λ u. text_eq s u ≡ true) e (text_eq_self s), apart))

unfoldable pub text_dec : (s t : Text) → Dec (s ≡ t)
unfolding text_eq
text_dec s t = dec_of (text_eq s t) (text_eq→eq s t) (text_eq-false→ne s t)

-- The arms of a `match` on a text, tried in order.
unfoldable pub match_text {ℓ} : {A : Type ℓ} → List (Text × A) → Text → Option A
unfolding text_eq
match_text [] s = none
match_text ((k, a) ∷ arms) s = if text_eq s k then some a else match_text arms s

-- What holds of every arm holds of the text and of the value that a match yields.
pub match_text-All {ℓ κ} :
    {A : Type ℓ} (P : Text → A → Type κ) (arms : List (Text × A)) (s : Text) {a : A}
    → match_text arms s ≡ some a
    → All (λ arm. P arm.0 arm.1) arms
    → P s a
unfolding match_text
match_text-All P [] s e h = absurd (cc)
match_text-All P ((k, b) ∷ arms) s {a} e h = elim (Bool-cases (text_eq s k)) [
  | inl same ↦ subst₂ P (sym (text_eq→eq s k same)) (some-injective b a (rw same at e)) h.0
  | inr other ↦ match_text-All P arms s (rw other at e) h.1
]
