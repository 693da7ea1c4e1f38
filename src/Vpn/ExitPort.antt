-- ===== src/Vpn/ExitPort.antt =====
-- `deriveExitPort` of packages/vpn/src/exit.ts: a port from a hash of the exit's name.
use jaritanet.Base.{
  ℕ, ◌+◌, ◌*◌, ◌%◌, ◌^◌, ◌≤◌, ◌<◌, Bool, ◌&&◌, [], ◌∷◌, leb, ltb, ◌-◌, ◌≡◌, ap, ◌∙◌, Bool-cases,
  inl, inr, if◌then◌else◌, Text, arith,
}

-- A UTF-16 surrogate, of the first and of the second half of a pair.
abbrev is_high : ℕ → Bool
is_high c = leb 0xd800 c && leb c 0xdbff

abbrev is_low : ℕ → Bool
is_low c = leb 0xdc00 c && leb c 0xdfff

-- A whole number with its sign; `negsuc n` is one below the negative of `n`.
pub data ℤ : Type 0 where
  pos negsuc : ℕ → ℤ

-- What a shift makes of its result: an integer of 32 bits with its sign.
unfoldable int32 : ℕ → ℤ
int32 n = let low = n % 2 ^ 32 in if ltb low (2 ^ 31) then pos low else negsuc (2 ^ 32 - 1 - low)

plus : ℤ → ℕ → ℤ
plus (pos n) m = pos (n + m)
plus (negsuc n) m = if ltb n m then pos (m - n - 1) else negsuc (n - m)

-- `x >>> 0`
to_uint32 : ℤ → ℕ
to_uint32 (pos n) = n % 2 ^ 32
to_uint32 (negsuc n) = 2 ^ 32 - 1 - n % 2 ^ 32

-- `((h << 5) + h + c) >>> 0`
unfoldable pub mix : ℕ → ℕ → ℕ
unfolding int32 plus to_uint32
mix h c = to_uint32 (plus (int32 (h * 32)) (h + c))

-- `for (const ch of name)` takes a surrogate pair as one character, whose first unit is hashed.
unfoldable pub hash_from : ℕ → Text → ℕ
unfolding mix
hash_from h [] = h
hash_from h (c ∷ []) = mix h c
hash_from h (c ∷ d ∷ s) =
    let pair = hash_from (mix h c) s in
    let single = hash_from (mix h c) (d ∷ s) in if is_high c && is_low d then pair else single

unfoldable pub derive_exit_port : Text → ℕ
unfolding hash_from
derive_exit_port name = 20000 + hash_from 5381 name % 10000

negative :
    (low m : ℕ) → low < 2 ^ 32 → to_uint32 (plus (negsuc (2 ^ 32 - 1 - low)) m) ≡ (low + m) % 2 ^ 32
unfolding plus to_uint32
negative low m l = ground arith

to_uint32-plus : (n m : ℕ) → to_uint32 (plus (int32 n) m) ≡ (n + m) % 2 ^ 32
unfolding int32 plus to_uint32
to_uint32-plus n m = elim (Bool-cases (ltb (n % 2 ^ 32) (2 ^ 31))) [
  | inl e ↦ rw e (omega arith)
  | inr e ↦ rw e (negative (n % 2 ^ 32) m (omega arith) ∙ omega arith)
]

mix_eq : (h c : ℕ) → mix h c ≡ (h * 33 + c) % 2 ^ 32
unfolding mix
mix_eq h c = to_uint32-plus (h * 32) (h + c) ∙ ap (λ n. n % 2 ^ 32) (omega arith)

-- The hash as it is defined, on whole numbers without a bound.
abbrev pub djb2 : ℕ → Text → ℕ
djb2 h [] = h
djb2 h (c ∷ s) = djb2 (h * 33 + c) s

-- The first unit of each character.
unfoldable pub first_units : Text → Text
first_units [] = []
first_units (c ∷ []) = c ∷ []
first_units (c ∷ d ∷ s) =
    let pair = first_units s in
    let single = first_units (d ∷ s) in c ∷ (if is_high c && is_low d then pair else single)

djb2_mod : (g h : ℕ) (s : Text) → g % 2 ^ 32 ≡ h % 2 ^ 32 → djb2 g s % 2 ^ 32 ≡ djb2 h s % 2 ^ 32
djb2_mod g h [] e = e
djb2_mod g h (c ∷ s) e = djb2_mod (g * 33 + c) (h * 33 + c) s (omega (arith, e))

hash_from-djb2 : (h : ℕ) (s : Text) → h < 2 ^ 32 → hash_from h s ≡ djb2 h (first_units s) % 2 ^ 32
unfolding hash_from first_units
hash_from-djb2 h [] l = omega arith
hash_from-djb2 h (c ∷ []) l = mix_eq h c
hash_from-djb2 h (c ∷ d ∷ s) l =
    let bound : mix h c < 2 ^ 32 = rw (mix_eq h c) (omega arith) in
    let same : mix h c % 2 ^ 32 ≡ (h * 33 + c) % 2 ^ 32 = omega (arith, mix_eq h c) in
    elim (Bool-cases (is_high c && is_low d)) [
      | inl e ↦
          rw e (
            hash_from-djb2 (mix h c) s bound ∙ djb2_mod (mix h c) (h * 33 + c) (first_units s) same)
      | inr e ↦ rw e (
          hash_from-djb2 (mix h c) (d ∷ s) bound
          ∙ djb2_mod (mix h c) (h * 33 + c) (first_units (d ∷ s)) same)
    ]

-- The port of a name is 20000 and the last four digits of the djb2 hash of its characters' first
-- units, taken modulo 2 ^ 32 once; so it is from 20000 to 29999.
pub derive_exit_port-djb2 :
    (name : Text)
    → (derive_exit_port name ≡ 20000 + djb2 5381 (first_units name) % 2 ^ 32 % 10000)
      × (20000 ≤ derive_exit_port name)
      × (derive_exit_port name ≤ 29999)
unfolding derive_exit_port
derive_exit_port-djb2 name =
    (ap (λ h. 20000 + h % 10000) (hash_from-djb2 5381 name (omega arith)), omega arith, omega arith)
