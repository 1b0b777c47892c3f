-- ===== src/Invite/Base58.antt =====
-- internal/invite/base58.go: base 58 over byte strings. `big.Int` is a natural number: `SetBytes` reads
-- it in big-endian order, and `Bytes` writes it without leading zeros.
pub mod Digits
use bork.Base.{
  ℕ, zero, suc, ◌+◌, ◌-◌, ◌*◌, ◌/◌, ◌%◌, Bool, true, false, if◌then◌else◌, ◌==◌, List, [], ◌∷◌,
  ◌++◌, length, get_or, Option, none, some, Result, ok, err,
}
use bork.Base.Bytes.{Bytes, be_get}

-- The alphabet, as bytes.
abbrev pub base58_alphabet : Bytes
base58_alphabet =
    49 ∷ 50 ∷ 51 ∷ 52 ∷ 53 ∷ 54 ∷ 55 ∷ 56 ∷ 57 ∷ 65 ∷ 66 ∷ 67 ∷ 68 ∷ 69 ∷ 70 ∷ 71 ∷ 72 ∷ 74 ∷ 75
    ∷ 76 ∷ 77 ∷ 78 ∷ 80 ∷ 81 ∷ 82 ∷ 83 ∷ 84 ∷ 85 ∷ 86 ∷ 87 ∷ 88 ∷ 89 ∷ 90 ∷ 97 ∷ 98 ∷ 99 ∷ 100 ∷ 101
    ∷ 102 ∷ 103 ∷ 104 ∷ 105 ∷ 106 ∷ 107 ∷ 109 ∷ 110 ∷ 111 ∷ 112 ∷ 113 ∷ 114 ∷ 115 ∷ 116 ∷ 117 ∷ 118
    ∷ 119 ∷ 120 ∷ 121 ∷ 122 ∷ []

abbrev pub base58_radix : ℕ
base58_radix = 58

-- `base58Index[character]`, with `none` for -1: the place in the alphabet.
unfoldable pub place_in : ℕ → Bytes → Option ℕ
place_in character [] = none
place_in character (c ∷ cs) =
    if c == character
    then some 0
    else elim (place_in character cs) as (λ x. Option ℕ) [ none ↦ none | some i ↦ some (suc i) ]

abbrev pub base58_index : ℕ → Option ℕ
base58_index character = place_in character base58_alphabet

-- How many of the first bytes are `first`.
unfoldable pub leading : ℕ → Bytes → ℕ
leading first [] = 0
leading first (b ∷ bs) = let rest = leading first bs in if b == first then suc rest else 0

unfoldable pub repeat_byte : ℕ → ℕ → Bytes
repeat_byte zero b = []
repeat_byte (suc n) b = b ∷ repeat_byte n b

-- The loop over `value`, on fuel: a byte makes less than two digits. The code appends the digits and turns them round at the end: each
-- stands before the digits that are there already.
unfoldable pub digits58 : ℕ → ℕ → Bytes → Bytes
digits58 zero value encoded = encoded
digits58 (suc fuel) value encoded =
    let rest =
      digits58 fuel (value / base58_radix)
        (get_or base58_alphabet (value % base58_radix) 0 ∷ encoded) in
    if value == 0 then encoded else rest

unfoldable pub encode_base58 : Bytes → Bytes
unfolding digits58
encode_base58 input =
    repeat_byte (leading 0 input) (get_or base58_alphabet 0 0)
    ++ digits58 (2 * length input) (be_get input) []

pub data Base58Error : Type 0 where
  value_empty character_invalid : Base58Error

-- The loop over `encoded`.
unfoldable pub value58 : ℕ → Bytes → Option ℕ
value58 value [] = some value
value58 value (c ∷ cs) = elim (base58_index c) [
  | none ↦ none
  | some digit ↦ value58 (value * base58_radix + digit) cs
]

-- `big.Int.Bytes`, on fuel: a digit makes less than one byte.
unfoldable pub minimal_bytes : ℕ → ℕ → Bytes → Bytes
minimal_bytes zero value written = written
minimal_bytes (suc fuel) value written =
    let rest = minimal_bytes fuel (value / 256) (value % 256 ∷ written) in
    if value == 0 then written else rest

unfoldable pub decode_base58 : Bytes → Result Base58Error Bytes
decode_base58 encoded =
    if length encoded == 0
    then err value_empty
    else elim (value58 0 encoded) as (λ x. Result Base58Error Bytes) [
      | none ↦ err character_invalid
      | some value ↦ ok (
          repeat_byte (leading (get_or base58_alphabet 0 0) encoded) 0
          ++ minimal_bytes (length encoded) value [])
    ]
