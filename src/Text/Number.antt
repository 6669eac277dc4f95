-- ===== src/Text/Number.antt =====
-- Numbers in a radix: `{}` and `{:x}` of an unsigned integer, and `from_str` and `from_str_radix`.
pub mod ReadShow
use rust_bpf.Prelude.{
  ℕ, zero, suc, ◌+◌, ◌-◌, ◌*◌, ◌/◌, ◌%◌, List, [], ◌∷◌, ◌++◌, Option, none, some, ◌&&◌, ◌==◌, leb,
  ltb, if◌then◌else◌, Result, ok, err, ◌>>=◌, ok_or,
}

-- `std::num::IntErrorKind`, as far as unsigned parsing yields it.
pub data IntError : Type 0 where
  empty invalid_digit pos_overflow : IntError

-- The character of a digit, in lower case.
unfoldable pub show_digit : ℕ → ℕ
show_digit d = if ltb d 10 then b'0' + d else 87 + d

-- `char::to_digit`.
unfoldable pub to_digit : ℕ → ℕ → Option ℕ
to_digit radix c =
    let d =
      if leb b'0' c && leb c b'9'
      then c - b'0'
      else if leb b'a' c && leb c b'z'
      then c - 87
      else if leb b'A' c && leb c b'Z'
      then c - 55
      else radix in
    if ltb d radix then some d else none

-- The digits of `n`, most significant first; fuel `n` is enough.
unfoldable pub show_fuel : ℕ → ℕ → ℕ → List ℕ
unfolding show_digit
show_fuel radix zero n = show_digit n ∷ []
show_fuel radix (suc f) n =
    let rest = show_fuel radix f (n / radix) ++ show_digit (n % radix) ∷ [] in
    if ltb n radix then show_digit n ∷ [] else rest

unfoldable pub show_radix : ℕ → ℕ → List ℕ
unfolding show_fuel
show_radix radix n = show_fuel radix n n

-- One character of `from_str_radix`: the digit test comes first, then the two checked operations.
unfoldable pub push_digit : ℕ → ℕ → ℕ → ℕ → Result IntError ℕ
unfolding to_digit
push_digit radix limit n c = do
  d ← ok_or (to_digit radix c) invalid_digit
  if ltb (n * radix + d) limit then ok (n * radix + d) else err pos_overflow

unfoldable pub read_digits : ℕ → ℕ → List ℕ → ℕ → Result IntError ℕ
unfolding push_digit
read_digits radix limit [] n = ok n
read_digits radix limit (c ∷ s) n = do m ← push_digit radix limit n c; read_digits radix limit s m

-- `from_str_radix` of an unsigned type below `limit`: a leading plus is allowed, but not alone.
unfoldable pub from_str_radix : ℕ → ℕ → List ℕ → Result IntError ℕ
unfolding read_digits
from_str_radix limit radix [] = err empty
from_str_radix limit radix (c ∷ []) =
    if c == b'+' then err invalid_digit else read_digits radix limit (c ∷ []) 0
from_str_radix limit radix (c ∷ d ∷ s) =
    if c == b'+' then read_digits radix limit (d ∷ s) 0 else read_digits radix limit (c ∷ d ∷ s) 0
