-- ===== src/Invite/Base58/Digits.antt =====
-- The digits of base 58: what the encoder writes, the decoder reads as the same number.
use bork.Base.{
  ℕ, zero, suc, ◌+◌, ◌*◌, ◌/◌, ◌%◌, ◌^◌, ◌≡◌, ◌≤◌, ◌<◌, refl, sym, ap, ◌∙◌, inl, inr, Bool, true,
  false, ◌&&◌, ◌==◌, [], ◌∷◌, All, length, get_or, Option, none, some, Bool-cases, arith,
}
use bork.Base.Bytes.{Bytes, IsByte, be_get, be_get-lt}
use native.Mathlib.Nat.{pow-suc}
use bork.Invite.Base58.{place_in, base58_alphabet, base58_index, base58_radix, digits58, value58}

is_some_of : ℕ → Option ℕ → Bool
is_some_of d none = false
is_some_of d (some i) = i == d

is_some_of_lem : (d : ℕ) (o : Option ℕ) → is_some_of d o ≡ true → o ≡ some d
unfolding is_some_of
is_some_of_lem d none e = cc
is_some_of_lem d (some i) e = ground (arith, e)

-- Whether each digit below `n` stands in the alphabet where the index says.
digits_found : ℕ → Bool
digits_found zero = true
digits_found (suc n) = is_some_of n (base58_index (get_or base58_alphabet n 0)) && digits_found n

all_found : digits_found 58 ≡ true
unfolding digits_found is_some_of place_in
all_found = refl

found_below :
    (n d : ℕ) → digits_found n ≡ true → d < n → base58_index (get_or base58_alphabet d 0) ≡ some d
unfolding digits_found
found_below zero d e h = elim h [ ]
found_below (suc n) d e h = elim (Bool-cases (d == n)) [
  | inl top ↦
      let same : d ≡ n = ground (arith, top) in
      rw same (is_some_of_lem n (base58_index (get_or base58_alphabet n 0)) (ground (arith, e)))
  | inr low ↦ found_below n d (ground (arith, e)) (ground (arith, low, h))
]

next_digit :
    (value c digit : ℕ) (encoded : Bytes)
    → base58_index c ≡ some digit
    → value58 value (c ∷ encoded) ≡ value58 (value * base58_radix + digit) encoded
unfolding value58
next_digit value c digit encoded e = rw (e, value58) refl

below_one : (value : ℕ) → value < 1 → value ≡ 0
below_one value h = omega arith

value58-digits58 :
    (fuel value : ℕ) (encoded : Bytes)
    → value < 58 ^ fuel
    → value58 0 (digits58 fuel value encoded) ≡ value58 value encoded
unfolding digits58
value58-digits58 zero value encoded h =
    ap (λ t. value58 t encoded) (sym (below_one value (omega arith)))
value58-digits58 (suc fuel) value encoded h =
    let digit = value % base58_radix in
    let place = found_below 58 digit all_found (omega arith) in
    elim (Bool-cases (value == 0)) [
      | inl done ↦ ground (arith, done)
      | inr more ↦ rw more (
          value58-digits58 fuel (value / base58_radix) (get_or base58_alphabet digit 0 ∷ encoded)
            (omega (arith, h, pow-suc 58 fuel))
          ∙ next_digit (value / base58_radix) (get_or base58_alphabet digit 0) digit encoded place
          ∙ ap (λ t. value58 t encoded) (omega arith))
    ]

-- Two digits are more than one byte.
byte_digits : (n : ℕ) → 256 ^ n ≤ 58 ^ (2 * n)
byte_digits zero = omega arith
byte_digits (suc n) =
    let double : 2 * suc n ≡ suc (suc (2 * n)) = omega arith in
    rw double
      (omega (arith, byte_digits n, pow-suc 256 n, pow-suc 58 (suc (2 * n)), pow-suc 58 (2 * n)))

-- The rounds that `encode_base58` gives its loop are enough: for any string of bytes, the decoder reads
-- in the digits written the number that the bytes stand for.
pub value58_of_digits :
    (input : Bytes)
    → All IsByte input
    → value58 0 (digits58 (2 * length input) (be_get input) []) ≡ some (be_get input)
unfolding value58
value58_of_digits input b =
    value58-digits58 (2 * length input) (be_get input) []
      (omega (arith, be_get-lt input b, byte_digits (length input)))
