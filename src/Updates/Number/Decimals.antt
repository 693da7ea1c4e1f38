-- ===== src/Updates/Number/Decimals.antt =====
-- `Number(part)` on parts that are written in decimal digits alone.
use mathlib.Core.List.{foldl, reverse, reverse-cons, reverse-reverse}
use jaritanet.Base.{
  ℕ, ◌+◌, ◌-◌, ◌*◌, ◌^◌, ◌<◌, ◌≡◌, ◌≢◌, ap, refl, codes, lt→ltb, Bool, true, false, some, none, [],
  ◌∷◌, arith, Text, is_digit, is_space, drop_while, trim, span, strip_prefix, text_eq, All,
  All-append, All_map,
}
use jaritanet.Base.Decimal.{digits_value}
use jaritanet.Updates.Number.{
  finite, digit_of, digits_from, digits, round_double, exponent, unsigned, based, without_plus,
  number_of, number,
}

abbrev pub AreDigits : Text → Type 0
AreDigits = All (λ c. is_digit c ≡ true)

digits_from-value :
    (s : Text) (acc : ℕ)
    → AreDigits s
    → digits_from 10 acc s ≡ some (foldl (λ n c. n * 10 + (c - b'0')) acc s)
unfolding digits_from digit_of
digits_from-value [] acc h = refl
digits_from-value (c ∷ s) acc (p, h) = ground (arith, digits_from-value s (acc * 10 + (c - b'0')) h)

digits-value : (s : Text) → s ≢ [] → AreDigits s → digits 10 s ≡ some (digits_value s)
unfolding digits digits_value
digits-value [] n h = absurd (n refl)
digits-value (c ∷ s) n h = digits_from-value (c ∷ s) 0 h

drop_while_keeps : (p : ℕ → Bool) (s : Text) → All (λ c. p c ≡ false) s → drop_while p s ≡ s
unfolding drop_while
drop_while_keeps p [] h = refl
drop_while_keeps p (c ∷ s) h = rw h.0

All-reverse :
    (p : ℕ → Bool) (s : Text) → All (λ c. p c ≡ false) s → All (λ c. p c ≡ false) (reverse s)
All-reverse p [] h = tt
All-reverse p (c ∷ s) (q, h) =
    rw reverse-cons (All-append (λ c. p c ≡ false) (reverse s) (c ∷ []) (All-reverse p s h) (q, tt))

digit_no_space : (c : ℕ) → is_digit c ≡ true → is_space c ≡ false
unfolding is_space
digit_no_space c h = ground arith

trim-digits : (s : Text) → AreDigits s → trim s ≡ s
unfolding trim
trim-digits s h =
    let plain = All_map s digit_no_space h in
    rw (drop_while_keeps is_space s plain) (
      rw (drop_while_keeps is_space (reverse s) (All-reverse is_space s plain)) (reverse-reverse s))

span-digits : (s : Text) → AreDigits s → span is_digit s ≡ (s, [])
unfolding span
span-digits [] h = refl
span-digits (c ∷ s) (p, h) = rw (p, span-digits s h)

not_based : (s : Text) → AreDigits s → based s ≡ none
unfolding based
not_based [] h = refl
not_based (c ∷ []) h = refl
not_based (c ∷ x ∷ s) (p, (q, h)) = ground arith

no_plus : (s : Text) → AreDigits s → without_plus s ≡ s
unfolding without_plus strip_prefix
no_plus [] h = refl
no_plus (c ∷ s) (p, h) = ground arith

not_infinity : (s : Text) → AreDigits s → text_eq s (codes "Infinity") ≡ false
unfolding text_eq
not_infinity [] h = refl
not_infinity (c ∷ s) (p, h) = ground arith

round_small : (n : ℕ) → n < 2 ^ 53 → round_double n ≡ finite n
unfolding round_double
round_small n h = rw (lt→ltb n (2 ^ 53) h, round_double)

unsigned-digits :
    (s : Text)
    → s ≢ []
    → AreDigits s
    → digits_value s < 2 ^ 53
    → unsigned s ≡ some (finite (digits_value s))
unfolding unsigned exponent
unsigned-digits s n h b =
    rw (not_infinity s h, span-digits s h, digits-value s n h)
      (ap some (round_small (digits_value s) b))

number_of-digits :
    (s : Text)
    → s ≢ []
    → AreDigits s
    → digits_value s < 2 ^ 53
    → number_of s ≡ some (finite (digits_value s))
unfolding number_of
number_of-digits [] n h b = absurd (n refl)
number_of-digits (c ∷ s) n h b =
    rw (not_based (c ∷ s) h, no_plus (c ∷ s) h, number_of) (unsigned-digits (c ∷ s) n h b)

pub number-digits :
    (s : Text)
    → s ≢ []
    → AreDigits s
    → digits_value s < 2 ^ 53
    → number s ≡ some (finite (digits_value s))
unfolding number
number-digits s n h b = rw (trim-digits s h) (number_of-digits s n h b)
