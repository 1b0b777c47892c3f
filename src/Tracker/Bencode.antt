-- ===== src/Tracker/Bencode.antt =====
-- internal/networking/discovery/tracker/bencode.go: the decoder of one tracker response, less what it
-- does with the peers. The decoder's `data` is an argument; its `pos` comes back beside each value.
-- After an error nobody looks at `pos`.
pub mod Bounds
pub mod Skip
use bork.Base.{
  ℕ, zero, suc, ◌+◌, ◌-◌, ◌*◌, ◌^◌, Bool, true, false, not, if◌then◌else◌, ◌==◌, ◌=/=◌, ltb, leb,
  ◌||◌, ◌&&◌, List, [], ◌∷◌, length, drop, take, get_or, Option, none, some, Result, ok, err,
  reject, or_missing, ◌>>=◌, ◌>>◌,
}
use bork.Base.Bytes.{Bytes}

abbrev pub max_http_tracker_response_size : ℕ
max_http_tracker_response_size = 64 * 1024

abbrev pub max_bencode_depth : ℕ
max_bencode_depth = 8

abbrev pub max_bencode_string_length : ℕ
max_bencode_string_length = max_http_tracker_response_size

abbrev pub max_bencode_key_length : ℕ
max_bencode_key_length = 128

pub data BencodeError : Type 0 where
  nested_too_deeply wrong_value_type collection_truncated : BencodeError
  string_invalid string_length_truncated string_length_not_canonical : BencodeError
  string_length_invalid string_too_long string_truncated : BencodeError
  integer_invalid integer_truncated integer_digit_invalid integer_not_canonical : BencodeError
  negative_zero integer_too_long integer_out_of_range : BencodeError
  value_truncated list_truncated dictionary_truncated key_order_invalid value_type_invalid :
      BencodeError
  out_of_fuel : BencodeError

-- `int64`, and what `strconv.ParseInt` reads.
pub data ℤ : Type 0 where
  pos negsuc : ℕ → ℤ

-- The byte at a place, 0 past the end: what `take` answers.
abbrev pub byte_at : Bytes → ℕ → ℕ
byte_at packet here = get_or packet here 0

unfoldable pub take_byte : Bytes → ℕ → ℕ × ℕ
take_byte packet here =
    if leb (length packet) here then (0, here) else (byte_at packet here, here + 1)

abbrev pub is_digit : ℕ → Bool
is_digit c = leb 48 c && leb c 57

-- `bytes.IndexByte`
unfoldable pub index_byte : ℕ → Bytes → Option ℕ
index_byte c [] = none
index_byte c (b ∷ bs) =
    if b == c then some 0 else elim (index_byte c bs) [ none ↦ none | some i ↦ some (suc i) ]

-- `bytes.Compare(a, b) < 0`
unfoldable pub bytes_lt : Bytes → Bytes → Bool
bytes_lt a [] = false
bytes_lt [] (b ∷ bs) = true
bytes_lt (a ∷ cs) (b ∷ bs) = let rest = bytes_lt cs bs in if a == b then rest else ltb a b

-- `strconv.ErrSyntax` and `strconv.ErrRange`.
pub data NumError : Type 0 where
  syntax range : NumError

-- `strconv.ParseUint` at base 10 and 64 bits, with the value of the digits before.
unfoldable pub parse_uint : ℕ → Bytes → Result NumError ℕ
parse_uint value [] = ok value
parse_uint value (c ∷ cs) =
    let rest = parse_uint (value * 10 + (c - 48)) cs in
    if not (is_digit c)
    then err syntax
    else if leb (2 ^ 64) (value * 10 + (c - 48))
    then err range
    else rest

unfoldable pub enter_value : ℕ → Result BencodeError (Unit {0})
enter_value depth = reject (ltb max_bencode_depth depth) nested_too_deeply

unfoldable pub begin_collection : Bytes → ℕ → ℕ → ℕ → Result BencodeError ℕ
begin_collection packet here depth marker = do
  enter_value depth
  reject ((take_byte packet here).0 =/= marker) wrong_value_type
  ok (take_byte packet here).1

-- Whether the collection ends here, and where the next byte stands.
unfoldable pub end_collection : Bytes → ℕ → Result BencodeError (Bool × ℕ)
end_collection packet here =
    if leb (length packet) here
    then err collection_truncated
    else if byte_at packet here =/= 101
    then ok (false, here)
    else ok (true, here + 1)

-- `strconv.ParseUint(encoded, 10, 64)` and what follows it, up to the length limit.
unfoldable pub parse_length : Bytes → Result BencodeError ℕ
parse_length encoded = elim (parse_uint 0 encoded) [
  | err syntax ↦ err string_length_invalid
  | err range ↦ err string_too_long
  | ok value ↦ if ltb max_bencode_string_length value then err string_too_long else ok value
]

unfoldable pub parse_raw_string : Bytes → ℕ → Result BencodeError (Bytes × ℕ)
parse_raw_string packet here = do
  reject (leb (length packet) here || not (is_digit (byte_at packet here))) string_invalid
  separator ← or_missing (index_byte 58 (drop here packet)) string_length_truncated
  let encoded = take separator (drop here packet)
  reject (ltb 1 (length encoded) && byte_at encoded 0 == 48) string_length_not_canonical
  size ← parse_length encoded
  let start = here + separator + 1
  reject (ltb (length packet - start) size) string_truncated
  ok (take size (drop start packet), start + size)

unfoldable pub parse_string : Bytes → ℕ → ℕ → Result BencodeError (Bytes × ℕ)
parse_string packet here depth = do enter_value depth; parse_raw_string packet here

abbrev pub signed : Bool → ℕ → ℤ
signed true zero = pos zero
signed true (suc n) = negsuc n
signed false n = pos n

-- `strconv.ParseInt(encoded, 10, 64)` on what stands behind the sign.
unfoldable pub parse_digits : Bool → Bytes → Result BencodeError ℤ
parse_digits negative digits = elim (parse_uint 0 digits) [
  | err syntax ↦ err integer_digit_invalid
  | err range ↦ err integer_out_of_range
  | ok value ↦
      if ltb (if negative then 2 ^ 63 else 2 ^ 63 - 1) value
      then err integer_out_of_range
      else ok (signed negative value)
]

unfoldable pub parse_raw_integer : Bytes → ℕ → Result BencodeError (ℤ × ℕ)
parse_raw_integer packet here = do
  reject ((take_byte packet here).0 =/= 105) integer_invalid
  let start = (take_byte packet here).1
  separator ← or_missing (index_byte 101 (drop start packet)) integer_truncated
  let encoded = take separator (drop start packet)
  let negative = ltb 0 (length encoded) && byte_at encoded 0 == 45
  let digits = if negative then drop 1 encoded else encoded
  reject (length digits == 0) integer_truncated
  reject (byte_at encoded 0 == 43) integer_digit_invalid
  reject (byte_at digits 0 == 48 && ltb 1 (length digits)) integer_not_canonical
  reject (negative && byte_at digits 0 == 48) negative_zero
  reject (ltb 20 (length encoded)) integer_too_long
  value ← parse_digits negative digits
  ok (value, start + separator + 1)

unfoldable pub parse_integer : Bytes → ℕ → ℕ → Result BencodeError (ℤ × ℕ)
parse_integer packet here depth = do enter_value depth; parse_raw_integer packet here

-- Whether a key may stand after the one before it, `none` for the first.
unfoldable pub valid_key : Option Bytes → Bytes → Bool
valid_key previous key = not (
    length key == 0
    || (ltb max_bencode_key_length (length key)
        || elim previous [ none ↦ false | some p ↦ not (bytes_lt p key) ]))

unfoldable mutual
  -- `skipValue`, on fuel that every call and every round of its two loops takes one of.
  pub skip_value : ℕ → Bytes → ℕ → ℕ → Result BencodeError ℕ
  skip_value zero packet here depth = err out_of_fuel
  skip_value (suc fuel) packet here depth = do
    enter_value depth
    reject (leb (length packet) here) value_truncated
    elim (byte_at packet here == 105) [
      | true ↦ parse_raw_integer packet here >>= (λ r. ok r.1)
      | false ↦ elim (byte_at packet here == 108) [
        | true ↦ skip_list fuel packet (here + 1) depth
        | false ↦ elim (byte_at packet here == 100) [
          | true ↦ skip_dictionary fuel packet (here + 1) depth none
          | false ↦ elim (is_digit (byte_at packet here)) [
            | true ↦ parse_raw_string packet here >>= (λ r. ok r.1)
            | false ↦ err value_type_invalid
          ]
        ]
      ]
    ]

  pub skip_list : ℕ → Bytes → ℕ → ℕ → Result BencodeError ℕ
  skip_list zero packet here depth = err out_of_fuel
  skip_list (suc fuel) packet here depth = do
    reject (leb (length packet) here) list_truncated
    elim (byte_at packet here == 101) [
      | true ↦ ok (here + 1)
      | false ↦
          skip_value fuel packet here (depth + 1) >>= (λ after. skip_list fuel packet after depth)
    ]

  pub skip_dictionary : ℕ → Bytes → ℕ → ℕ → Option Bytes → Result BencodeError ℕ
  skip_dictionary zero packet here depth previous = err out_of_fuel
  skip_dictionary (suc fuel) packet here depth previous = do
    reject (leb (length packet) here) dictionary_truncated
    elim (byte_at packet here == 101) [
      | true ↦ ok (here + 1)
      | false ↦ parse_string packet here (depth + 1) >>= (λ (key, at).
          reject (not (valid_key previous key)) key_order_invalid
          >> (skip_value fuel packet at (depth + 1)
              >>= (λ after. skip_dictionary fuel packet after depth (some key))))
    ]
