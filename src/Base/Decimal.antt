-- ===== src/Base/Decimal.antt =====
-- A whole number in a template literal: its decimal digits.
use jaritanet.Base.Tests.{ltb, ◌==◌}
use jaritanet.Base.Lists.{All, All-append}
use jaritanet.Base.Slices.{Lacks}
use jaritanet.Base.Strings.{Text, is_digit}
use Prim.Native.Nat.{ℕ, zero, suc, ◌+◌, ◌-◌, ◌*◌, ◌/◌, ◌%◌, ◌<◌}
use mathlib.Core.Path.{◌≡◌, refl, sym, ap, ◌∙◌}
use mathlib.Core.Bool.{true, false}
use mathlib.Core.List.{[], ◌∷◌, ◌++◌, foldl, foldl-append}
use native.Mathlib.Omega.{arith}

decimal_fuel : ℕ → ℕ → Text
decimal_fuel zero n = []
decimal_fuel (suc f) n = elim (ltb n 10) [
  | true ↦ (b'0' + n) ∷ []
  | false ↦ decimal_fuel f (n / 10) ++ (b'0' + n % 10) ∷ []
]

-- `String(n)`; a number has fewer digits than `n + 1`.
unfoldable pub decimal : ℕ → Text
unfolding decimal_fuel
decimal n = decimal_fuel (suc n) n

unfoldable pub digits_value : Text → ℕ
digits_value = foldl (λ n c. n * 10 + (c - b'0')) 0

digits_value-snoc :
    (s : Text) (d : ℕ) → digits_value (s ++ (b'0' + d) ∷ []) ≡ digits_value s * 10 + d
unfolding digits_value
digits_value-snoc s d = rw foldl-append (omega arith)

digits_value-nil : digits_value [] ≡ 0
unfolding digits_value
digits_value-nil = refl

digits_value-decimal_fuel : (f n : ℕ) → n < f → digits_value (decimal_fuel f n) ≡ n
unfolding decimal_fuel
digits_value-decimal_fuel zero n h = elim h [ ]
digits_value-decimal_fuel (suc f) n h = ground (
  arith,
  digits_value-snoc (decimal_fuel f (n / 10)) (n % 10),
  digits_value-snoc [] n,
  digits_value-decimal_fuel f (n / 10),
  digits_value-nil,
)

pub digits_value-decimal : (n : ℕ) → digits_value (decimal n) ≡ n
unfolding decimal
digits_value-decimal n = digits_value-decimal_fuel (suc n) n (omega arith)

pub decimal_injective : (m n : ℕ) → decimal m ≡ decimal n → m ≡ n
decimal_injective m n e = sym (digits_value-decimal m) ∙ ap digits_value e ∙ digits_value-decimal n

digit_apart : (u d : ℕ) → d < 10 → is_digit u ≡ false → ((b'0' + d) == u) ≡ false
digit_apart u d l h = ground arith

decimal_fuel-Lacks : (u f n : ℕ) → is_digit u ≡ false → Lacks u (decimal_fuel f n)
unfolding decimal_fuel
decimal_fuel-Lacks u zero n h = tt
decimal_fuel-Lacks u (suc f) n h =
    (elim (ltb n 10)
        as (λ b.
          ltb n 10 ≡ b
          → Lacks u (elim b [
            | true ↦ (b'0' + n) ∷ []
            | false ↦ decimal_fuel f (n / 10) ++ (b'0' + n % 10) ∷ []
          ])) [
            | true ↦ λ e. (digit_apart u n (ground arith) h, tt)
            | false ↦ λ e.
                All-append (λ c. (c == u) ≡ false) (decimal_fuel f (n / 10)) _
                  (decimal_fuel-Lacks u f (n / 10) h) (digit_apart u (n % 10) (omega arith) h, tt)
          ])
      refl

-- A numeral has digits only.
pub decimal-Lacks : (u n : ℕ) → is_digit u ≡ false → Lacks u (decimal n)
unfolding decimal
decimal-Lacks u n h = decimal_fuel-Lacks u (suc n) n h

digit-IsDigit : (d : ℕ) → d < 10 → is_digit (b'0' + d) ≡ true
digit-IsDigit d l = ground arith

decimal_fuel-digits : (f n : ℕ) → All (λ c. is_digit c ≡ true) (decimal_fuel f n)
unfolding decimal_fuel
decimal_fuel-digits zero n = tt
decimal_fuel-digits (suc f) n =
    (elim (ltb n 10)
        as (λ b.
          ltb n 10 ≡ b
          → All (λ c. is_digit c ≡ true)
              (elim b [
                | true ↦ (b'0' + n) ∷ []
                | false ↦ decimal_fuel f (n / 10) ++ (b'0' + n % 10) ∷ []
              ])) [
                | true ↦ λ e. (digit-IsDigit n (ground arith), tt)
                | false ↦ λ e.
                    All-append (λ c. is_digit c ≡ true) (decimal_fuel f (n / 10)) _
                      (decimal_fuel-digits f (n / 10)) (digit-IsDigit (n % 10) (omega arith), tt)
              ])
      refl

pub decimal-digits : (n : ℕ) → All (λ c. is_digit c ≡ true) (decimal n)
unfolding decimal
decimal-digits n = decimal_fuel-digits (suc n) n
