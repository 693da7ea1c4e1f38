-- ===== src/Infra/TailnetPolicy/Hosts.antt =====
-- The first host of a network, `firstHost` of packages/infra/src/tailnet-policy.ts.
use jaritanet.Base.{
  ℕ, suc, ◌≡◌, refl, ap, ◌∙◌, true, false, ◌==◌, not, some, [], ◌∷◌, ◌++◌, map, Text, codes, All,
  All-append, join, any, is_digit,
}
use jaritanet.Base.Decimal.{decimal, digits_value-decimal, decimal-digits, decimal-Lacks}
use jaritanet.Base.Slices.{Lacks, split-join, split_first-append}
use jaritanet.Dns.{is_dot}
use jaritanet.Infra.TailnetPolicy.{number, written, up_one, is_slash, first_host}

-- An address of four numbers.
abbrev pub dotted : ℕ → ℕ → ℕ → ℕ → Text
dotted a b c d =
    decimal a
    ++ (codes "." ++ (decimal b ++ (codes "." ++ (decimal c ++ (codes "." ++ decimal d)))))

no_others : (s : Text) → All (λ c. is_digit c ≡ true) s → any (λ c. not (is_digit c)) s ≡ false
unfolding any
no_others [] h = refl
no_others (c ∷ s) (p, h) = rw (p, no_others s h) refl

number-decimal : (n : ℕ) → number (decimal n) ≡ some n
unfolding number
number-decimal n = rw (no_others (decimal n) (decimal-digits n), digits_value-decimal n) refl

dotted-Lacks : (a b c d : ℕ) → Lacks b'/' (dotted a b c d)
dotted-Lacks a b c d =
    let P = λ (x : ℕ). (x == b'/') ≡ false in
    let part = λ (n : ℕ). decimal-Lacks b'/' n refl in
    All-append P (decimal a) _ (part a) (
      refl,
      All-append P (decimal b) _ (part b)
          (refl, All-append P (decimal c) _ (part c) (refl, part d)),
    )

-- The first host of a network is the address behind its own.
pub first_host-dotted :
    (a b c d : ℕ) (bits : Text)
    → first_host (dotted a b c d ++ (codes "/" ++ bits)) ≡ dotted a b c (suc d)
unfolding first_host up_one written join
first_host-dotted a b c d bits =
    let part = λ (n : ℕ). decimal-Lacks b'.' n refl in
    let parts =
      split-join is_dot b'.' refl (decimal a) (decimal b ∷ decimal c ∷ decimal d ∷ [])
        (part a, (part b, (part c, (part d, tt)))) in
    rw (split_first-append is_slash (dotted a b c d) b'/' bits (dotted-Lacks a b c d) refl) (
      ap (λ ts. join (codes ".") (up_one (map number ts))) parts
      ∙ rw (number-decimal a, number-decimal b, number-decimal c, number-decimal d) refl)
