-- ===== src/Tracker/Tests.antt =====
-- The theorem on skipping a value at a concrete packet: a dictionary from "a" to the list of 7.
use bork.Base.{ℕ, ◌+◌, ◌-◌, ◌*◌, ◌≡◌, ◌<◌, ◌≢◌, ◌⊎◌, List, [], ◌∷◌, length, ok, err, refl}
use bork.Tracker.Bencode.{
  BencodeError, out_of_fuel, skip_value, enter_value, parse_string, parse_raw_string, index_byte,
  parse_length, parse_uint, valid_key, parse_raw_integer, take_byte, parse_digits,
}
use bork.Tracker.Bencode.Skip.{skip_value-ends}

abbrev packet : List ℕ
packet = 100 ∷ 49 ∷ 58 ∷ 97 ∷ 108 ∷ 105 ∷ 55 ∷ 101 ∷ 101 ∷ 101 ∷ []

packet_skipped : skip_value 21 packet 0 1 ≡ ok 10
unfolding skip_value enter_value parse_string parse_raw_string index_byte parse_length parse_uint
    valid_key parse_raw_integer take_byte parse_digits
packet_skipped = refl

skip_value-ends_example :
    ((after : ℕ) × (skip_value (2 * (length packet - 0) + 1) packet 0 1 ≡ ok after) × (0 < after))
    ⊎ ((e : BencodeError) × (skip_value (2 * (length packet - 0) + 1) packet 0 1 ≡ err e)
        × (e ≢ out_of_fuel))
skip_value-ends_example = skip_value-ends packet 0 1
