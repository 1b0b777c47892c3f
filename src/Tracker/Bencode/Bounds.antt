-- ===== src/Tracker/Bencode/Bounds.antt =====
-- A string or an integer that is read takes a byte at least, and no error of theirs is that of the fuel.
use bork.Base.{
  ℕ, ◌≡◌, ◌<◌, ◌≢◌, refl, inl, inr, Bool, true, false, if◌then◌else◌, ◌==◌, ltb, ◌&&◌, length, drop,
  take, Result, ok, err, reject, ◌>>=◌, ◌>>◌, ◌⊎◌, sym, ap, subst, ◌∙◌, Option-cases, Result-cases,
  arith,
}
use bork.Base.Bytes.{Bytes}
use bork.Tracker.Bencode.{
  BencodeError, out_of_fuel, ℤ, byte_at, index_byte, parse_uint, syntax, range, parse_length,
  parse_digits, parse_raw_string, parse_raw_integer, take_byte,
}

raw_string_progress :
    (packet : Bytes) (here : ℕ) {value : Bytes} {after : ℕ}
    → parse_raw_string packet here ≡ ok (value, after)
    → here < after
unfolding parse_raw_string
raw_string_progress packet here {value} {after} e =
    elim (Option-cases (index_byte 58 (drop here packet))) [
      | inl absent ↦ absurd (ground (arith, absent))
      | inr (separator, found) ↦
          elim (Result-cases (parse_length (take separator (drop here packet)))) [
            | inr (_, bad) ↦ absurd (ground (arith, found, bad))
            | inl (size, good) ↦ ground (arith, found, good)
          ]
    ]

-- A result that is past `here`, or an error of the packet and not of the fuel.
abbrev pub Fine {ℓ} : {A : Type ℓ} → (A → ℕ) → ℕ → Result BencodeError A → Type 0
Fine place here (ok a) = here < place a
Fine place here (err e) = e ≢ out_of_fuel

Fine-bind {ℓ} :
    {A : Type ℓ} (place : A → ℕ) (here : ℕ) (r : Result BencodeError A)
    (f : A → Result BencodeError ℕ)
    → Fine place here r
    → ((a : A) → here < place a → Fine (λ n. n) (place a) (f a) ⊎ (f a ≡ ok (place a)))
    → Fine (λ n. n) here (r >>= f)
Fine-bind place here (err e) f h k = h
Fine-bind place here (ok a) f h k = elim (k a h) [
  | inr same ↦ subst (Fine (λ n. n) here) (sym same) h
  | inl later ↦ weaken (f a) later
]
  where
    weaken : (r : Result BencodeError ℕ) → Fine (λ n. n) (place a) r → Fine (λ n. n) here r
    weaken (ok n) p = omega arith
    weaken (err e) p = p

Fine-reject {ℓ} :
    {A : Type ℓ} (place : A → ℕ) (here : ℕ) (test : Bool) (e : BencodeError)
    (rest : Result BencodeError A)
    → e ≢ out_of_fuel
    → (test ≡ false → Fine place here rest)
    → Fine place here (reject test e >> rest)
Fine-reject place here true e rest h k = h
Fine-reject place here false e rest h k = k refl

parse_length_fuel : (encoded : Bytes) → parse_length encoded ≢ err out_of_fuel
unfolding parse_length
parse_length_fuel encoded e = elim (Result-cases (parse_uint 0 encoded)) [
  | inl (value, good) ↦ ground (arith, good)
  | inr (syntax, bad) ↦ ground (arith, bad)
  | inr (range, bad) ↦ ground (arith, bad)
]

raw_string_fuel : (packet : Bytes) (here : ℕ) → parse_raw_string packet here ≢ err out_of_fuel
unfolding parse_raw_string
raw_string_fuel packet here e = elim (Option-cases (index_byte 58 (drop here packet))) [
  | inl absent ↦ ground (arith, absent)
  | inr (separator, found) ↦
      elim (Result-cases (parse_length (take separator (drop here packet)))) [
        | inr (_, bad) ↦
            ground (arith, found, bad, parse_length_fuel (take separator (drop here packet)))
        | inl (size, good) ↦ ground (arith, found, good)
      ]
]

pub Fine-raw_string :
    (packet : Bytes) (here : ℕ) → Fine (λ r. r.1) here (parse_raw_string packet here)
Fine-raw_string packet here = elim (Result-cases (parse_raw_string packet here)) [
  | inl ((value, after), good) ↦
      rw good (raw_string_progress packet here {value = value} {after = after} good)
  | inr (e, bad) ↦ rw bad (λ same. raw_string_fuel packet here (bad ∙ ap err same))
]

abbrev pub end_of : ℤ × ℕ → ℕ
end_of r = r.1

parse_digits_fuel :
    (negative : Bool) (digits : Bytes) → parse_digits negative digits ≢ err out_of_fuel
unfolding parse_digits
parse_digits_fuel negative digits e = elim (Result-cases (parse_uint 0 digits)) [
  | inl (value, good) ↦ ground (arith, good)
  | inr (syntax, bad) ↦ ground (arith, bad)
  | inr (range, bad) ↦ ground (arith, bad)
]

-- The text of the integer at `here`, up to its end, and its digits.
abbrev text_of : Bytes → ℕ → ℕ → Bytes
text_of packet here separator = take separator (drop (take_byte packet here).1 packet)

abbrev minus_of : Bytes → Bool
minus_of text = ltb 0 (length text) && byte_at text 0 == 45

abbrev digits_of : Bytes → Bytes
digits_of text = if minus_of text then drop 1 text else text

raw_integer_progress :
    (packet : Bytes) (here : ℕ) {value : ℤ} {after : ℕ}
    → parse_raw_integer packet here ≡ ok (value, after)
    → here < after
unfolding parse_raw_integer take_byte
raw_integer_progress packet here {value} {after} e =
    elim (Option-cases (index_byte 101 (drop (take_byte packet here).1 packet))) [
      | inl absent ↦ absurd (ground (arith, absent))
      | inr (separator, found) ↦
          let text = text_of packet here separator in
          elim (Result-cases (parse_digits (minus_of text) (digits_of text))) [
            | inl (number, good) ↦ ground (arith, found, good)
            | inr (_, bad) ↦ absurd (ground (arith, found, bad))
          ]
    ]

raw_integer_fuel : (packet : Bytes) (here : ℕ) → parse_raw_integer packet here ≢ err out_of_fuel
unfolding parse_raw_integer take_byte
raw_integer_fuel packet here e =
    elim (Option-cases (index_byte 101 (drop (take_byte packet here).1 packet))) [
      | inl absent ↦ (ground (arith, absent))
      | inr (separator, found) ↦
          let text = text_of packet here separator in
          elim (Result-cases (parse_digits (minus_of text) (digits_of text))) [
            | inl (number, good) ↦ ground (arith, found, good)
            | inr (_, bad) ↦
                (ground (arith, found, bad, parse_digits_fuel (minus_of text) (digits_of text)))
          ]
    ]

pub Fine-raw_integer :
    (packet : Bytes) (here : ℕ) → Fine end_of here (parse_raw_integer packet here)
Fine-raw_integer packet here = elim (Result-cases (parse_raw_integer packet here)) [
  | inl ((value, after), good) ↦
      rw good (raw_integer_progress packet here {value = value} {after = after} good)
  | inr (e, bad) ↦ rw bad (λ same. raw_integer_fuel packet here (bad ∙ ap err same))
]
