-- ===== src/Updates/Number.antt =====
-- `Number(part)` on a part of a version, which holds no `.` and no `-`: so a number is a natural
-- number rounded to a double, or infinity; `none` is NaN.
pub mod Decimals
use jaritanet.Base.{
  ℕ, zero, suc, ◌+◌, ◌-◌, ◌*◌, ◌/◌, ◌%◌, ◌^◌, ◌<◌, ◌≡◌, refl, Bool, true, false, ◌&&◌, ◌||◌, Option,
  none, some, List, [], ◌∷◌, ◌++◌, arith, ltb, leb, ◌==◌, if◌then◌else◌, ◌>>=◌, Text, codes,
  text_eq, trim, span, is_digit, strip_prefix,
}

pub data Numeral : Type 0 where
  finite : ℕ → Numeral
  infinity : Numeral

bit_length : ℕ → ℕ → ℕ
bit_length zero n = 0
bit_length (suc f) n = elim (n == 0) [ true ↦ 0 | false ↦ suc (bit_length f (n / 2)) ]

-- To the nearest double, ties to the even one; 2 ^ 1024 and above is infinite.
round_double : ℕ → Numeral
unfolding bit_length
round_double n = elim (ltb n (2 ^ 53)) [
  | true ↦ finite n
  | false ↦
      let unit = 2 ^ (bit_length n n - 53) in
      let m = n / unit in
      let r = n % unit in
      let up = ltb unit (2 * r) || (2 * r == unit && m % 2 == 1) in
      let rounded = (if up then m + 1 else m) * unit in
      if ltb rounded (2 ^ 1024) then finite rounded else infinity
]

digit_of : ℕ → ℕ → Option ℕ
digit_of base c =
    let v =
      if is_digit c
      then c - b'0'
      else if leb b'a' c && leb c b'z'
      then c - b'a' + 10
      else if leb b'A' c && leb c b'Z'
      then c - b'A' + 10
      else base in
    if ltb v base then some v else none

digits_from : ℕ → ℕ → Text → Option ℕ
digits_from base acc [] = some acc
digits_from base acc (c ∷ s) = elim (digit_of base c) [
  | none ↦ none
  | some d ↦ digits_from base (acc * base + d) s
]

-- One or more digits.
digits : ℕ → Text → Option ℕ
digits base [] = none
digits base (c ∷ s) = digits_from base 0 (c ∷ s)

without_plus : Text → Text
without_plus s = elim (strip_prefix (codes "+") s) [ none ↦ s | some rest ↦ rest ]

exponent : ℕ → Text → Option ℕ
unfolding digits digits_from digit_of without_plus
exponent n [] = some n
exponent n (c ∷ s) =
    if c == b'e' || c == b'E' then (do m ← digits 10 (without_plus s); some (n * 10 ^ m)) else none

unsigned : Text → Option Numeral
unfolding exponent round_double
unsigned s =
    if text_eq s (codes "Infinity")
    then some infinity
    else let (whole, rest) = span is_digit s in
      (do n ← digits 10 whole; v ← exponent n rest; some (round_double v))

-- `0x`, `0o` and `0b` take digits of their base, with no sign.
based : Text → Option (ℕ × Text)
based (c ∷ x ∷ s) =
    if c == b'0'
    then (if x == b'x' || x == b'X'
        then some (16, s)
        else if x == b'o' || x == b'O'
        then some (8, s)
        else if x == b'b' || x == b'B'
        then some (2, s)
        else none)
    else none
based _ = none

number_of : Text → Option Numeral
unfolding based unsigned without_plus
number_of [] = some (finite 0)
number_of (c ∷ s) = elim (based (c ∷ s)) [
  | some (base, t) ↦ (do n ← digits base t; some (round_double n))
  | none ↦ unsigned (without_plus (c ∷ s))
]

unfoldable pub number : Text → Option Numeral
unfolding number_of trim
number s = number_of (trim s)
