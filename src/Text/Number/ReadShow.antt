-- ===== src/Text/Number/ReadShow.antt =====
-- Numbers printed and parsed, and the characters of a printed number.
use native.Mathlib.Nat.{mod-lt, div-lt_self, div-le_self, div-add-mod'}
use mathlib.Core.List.{concat-ne-nil}
use rust_bpf.Prelude.{
  ℕ, zero, suc, ◌+◌, ◌*◌, ◌/◌, ◌%◌, ◌≤◌, ◌<◌, ◌≡◌, ◌≢◌, ◌⊎◌, inl, inr, refl, ap, ◌∙◌, true, List,
  [], ◌∷◌, ◌++◌, some, arith, ◌==◌, ltb, ltb→lt, lt→ltb, ltb-false→le, Bool-cases, >>=-eq-ok, All,
  All-append, Lacks, ok, err, ◌>>=◌,
}
use rust_bpf.Text.Number.{
  show_digit, to_digit, show_fuel, show_radix, push_digit, read_digits, from_str_radix,
}

-- A digit, or one of the letters a to f.
abbrev pub IsShown : ℕ → Type 0
IsShown c = ((b'0' ≤ c) × (c ≤ b'9')) ⊎ ((b'a' ≤ c) × (c ≤ b'f'))

show_digit-IsShown : (d : ℕ) → d < 16 → IsShown (show_digit d)
unfolding show_digit
show_digit-IsShown d h = ground arith

module _ (radix : ℕ) (two : 2 ≤ radix) (hex : radix ≤ 16) where
  quotient-le : (f n : ℕ) → n ≤ suc f → radix ≤ n → n / radix ≤ f
  quotient-le f n h k = omega (arith, div-lt_self {n = n} {k = radix} (omega arith) (omega arith))

  show_fuel-IsShown : (f n : ℕ) → n ≤ f → All IsShown (show_fuel radix f n)
  unfolding show_fuel
  show_fuel-IsShown zero n h = (show_digit-IsShown n (omega arith), tt)
  show_fuel-IsShown (suc f) n h = elim (Bool-cases (ltb n radix)) [
    | inl one ↦ rw one (show_digit-IsShown n (omega (arith, ltb→lt n radix one)), tt)
    | inr more ↦ rw more (
        All-append IsShown (show_fuel radix f (n / radix)) (show_digit (n % radix) ∷ [])
          (show_fuel-IsShown f (n / radix) (quotient-le f n h (ltb-false→le n radix more)))
          (show_digit-IsShown _ (omega (arith, mod-lt n {m = radix} (omega arith))), tt))
  ]

  to_digit-show_digit : (d : ℕ) → d < radix → to_digit radix (show_digit d) ≡ some d
  unfolding to_digit show_digit
  to_digit-show_digit d h = ground arith

  push_digit-show_digit :
      (limit n d : ℕ)
      → d < radix
      → n * radix + d < limit
      → push_digit radix limit n (show_digit d) ≡ ok (n * radix + d)
  unfolding push_digit
  push_digit-show_digit limit n d h k =
      rw (to_digit-show_digit d h) (rw (lt→ltb (n * radix + d) limit k))

  read_digits-append :
      (limit : ℕ) (s t : List ℕ) (n : ℕ)
      → read_digits radix limit (s ++ t) n
        ≡ (read_digits radix limit s n >>= read_digits radix limit t)
  unfolding read_digits
  read_digits-append limit [] t n = refl
  read_digits-append limit (c ∷ s) t n =
      elim (push_digit radix limit n c)
        as (λ r.
          (r >>= λ m. read_digits radix limit (s ++ t) m)
          ≡ ((r >>= λ m. read_digits radix limit s m) >>= read_digits radix limit t)) [
            | ok m ↦ read_digits-append limit s t m
            | err e ↦ refl
          ]

  read_digits_one :
      (limit n d : ℕ)
      → d < radix
      → n * radix + d < limit
      → read_digits radix limit (show_digit d ∷ []) n ≡ ok (n * radix + d)
  unfolding read_digits
  read_digits_one limit n d h k = rw (push_digit-show_digit limit n d h k)

  read_digits-show_fuel :
      (limit f n : ℕ) → n ≤ f → n < limit → read_digits radix limit (show_fuel radix f n) 0 ≡ ok n
  unfolding show_fuel
  read_digits-show_fuel limit zero n h k =
      read_digits_one limit 0 n (omega arith) (omega arith) ∙ ap ok (omega arith)
  read_digits-show_fuel limit (suc f) n h k = elim (Bool-cases (ltb n radix)) [
    | inl one ↦
        rw one (read_digits_one limit 0 n (ltb→lt n radix one) (omega arith) ∙ ap ok (omega arith))
    | inr more ↦
        let q-le = quotient-le f n h (ltb-false→le n radix more) in
        let whole = div-add-mod' n radix in
        rw
          (
            more,
            read_digits-append,
            read_digits-show_fuel limit f (n / radix) q-le (omega (arith, div-le_self n radix)),
          )
          (read_digits_one limit (n / radix) (n % radix) (mod-lt n (omega arith)) (rw whole k)
            ∙ ap ok whole)
  ]

  -- The text of a number does not begin with a plus, so it is read digit by digit.
  from_str_radix-IsShown :
      (limit : ℕ) (s : List ℕ)
      → s ≢ []
      → All IsShown s
      → from_str_radix limit radix s ≡ read_digits radix limit s 0
  unfolding from_str_radix
  from_str_radix-IsShown limit [] ne h = absurd (ne refl)
  from_str_radix-IsShown limit (c ∷ []) ne h = ground arith
  from_str_radix-IsShown limit (c ∷ d ∷ s) ne h = ground arith

  show_fuel-ne-nil : (f n : ℕ) → show_fuel radix f n ≢ []
  unfolding show_fuel
  show_fuel-ne-nil zero n = cc
  show_fuel-ne-nil (suc f) n = elim (Bool-cases (ltb n radix)) [
    | inl one ↦ rw one (cc)
    | inr more ↦ rw more (concat-ne-nil _ (show_fuel radix f (n / radix)))
  ]

  pub show_radix-IsShown : (n : ℕ) → All IsShown (show_radix radix n)
  unfolding show_radix
  show_radix-IsShown n = show_fuel-IsShown n n (omega arith)

  pub show_radix-ne-nil : (n : ℕ) → show_radix radix n ≢ []
  unfolding show_radix
  show_radix-ne-nil n = show_fuel-ne-nil n n

  -- Every number below the limit of its type is read back from its text.
  pub from_str_radix-show_radix :
      (limit n : ℕ) → n < limit → from_str_radix limit radix (show_radix radix n) ≡ ok n
  unfolding show_radix
  from_str_radix-show_radix limit n k =
      from_str_radix-IsShown limit _ (show_fuel-ne-nil n n) (show_fuel-IsShown n n (omega arith))
      ∙ read_digits-show_fuel limit n n (omega arith) k

push_digit-lt : (radix limit n c : ℕ) {m : ℕ} → push_digit radix limit n c ≡ ok m → m < limit
unfolding push_digit
push_digit-lt radix limit n c h = ground arith

read_digits-lt :
    (radix limit : ℕ) (s : List ℕ) (n r : ℕ)
    → n < limit
    → read_digits radix limit s n ≡ ok r
    → r < limit
unfolding read_digits
read_digits-lt radix limit [] n r h e = ground arith
read_digits-lt radix limit (c ∷ s) n r h e =
    let (m, pushed, later) = >>=-eq-ok (push_digit radix limit n c) _ e in
    read_digits-lt radix limit s m r (push_digit-lt radix limit n c pushed) later

-- Whatever is read is below the limit of its type.
pub from_str_radix-lt :
    (limit radix : ℕ) (s : List ℕ) (r : ℕ)
    → 0 < limit
    → from_str_radix limit radix s ≡ ok r
    → r < limit
unfolding from_str_radix
from_str_radix-lt limit radix [] r h e = cc
from_str_radix-lt limit radix (c ∷ []) r h e = elim (Bool-cases (c == b'+')) [
  | inl plus ↦ absurd (cc (rw plus at e))
  | inr other ↦ read_digits-lt radix limit (c ∷ []) 0 r h (rw other at e)
]
from_str_radix-lt limit radix (c ∷ d ∷ s) r h e = elim (Bool-cases (c == b'+')) [
  | inl plus ↦ read_digits-lt radix limit (d ∷ s) 0 r h (rw plus at e)
  | inr other ↦ read_digits-lt radix limit (c ∷ d ∷ s) 0 r h (rw other at e)
]

-- The characters of a number are none of the separators.
pub IsShown-Lacks :
    (b : ℕ) (s : List ℕ)
    → ltb b b'0' ≡ true ⊎ b ≡ b':' ⊎ ltb b'f' b ≡ true
    → All IsShown s
    → Lacks b s
IsShown-Lacks b [] sep h = tt
IsShown-Lacks b (c ∷ s) sep h = (ground arith, IsShown-Lacks b s sep h.1)
