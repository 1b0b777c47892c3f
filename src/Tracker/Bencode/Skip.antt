-- ===== src/Tracker/Bencode/Skip.antt =====
-- Skipping a value ends: each call goes a level down or takes a byte, and each round of a loop takes one.
use bork.Base.{
  ℕ, zero, suc, ◌+◌, ◌-◌, ◌*◌, ◌≡◌, ◌≤◌, ◌<◌, ◌≢◌, inl, inr, Bool, true, false, ◌==◌, ltb, leb,
  length, Option, none, some, Result, ok, err, reject, ◌>>=◌, ◌>>◌, ◌⊎◌, Bool-cases, Result-cases,
  arith,
}
use bork.Base.Bytes.{Bytes}
use bork.Tracker.Bencode.{
  BencodeError, out_of_fuel, key_order_invalid, byte_at, is_digit, parse_raw_string,
  parse_raw_integer, parse_string, max_bencode_depth, enter_value, skip_value, skip_list,
  skip_dictionary,
}
use bork.Tracker.Bencode.Bounds.{Fine, Fine-raw_string, Fine-raw_integer}

abbrev IsPast : ℕ → Result BencodeError ℕ → Type 0
IsPast here r = Fine (λ n. n) here r

-- The three functions with this fuel, from every place where it is enough.
record Enough (fuel : ℕ) : Type 0 where
  value :
      (packet : Bytes) (here depth : ℕ)
      → 2 * (length packet - here) + 1 ≤ fuel
      → IsPast here (skip_value fuel packet here depth)
  list :
      (packet : Bytes) (here depth : ℕ)
      → 2 * (length packet - here) + 2 ≤ fuel
      → IsPast here (skip_list fuel packet here depth)
  dictionary :
      (packet : Bytes) (here depth : ℕ) (previous : Option Bytes)
      → 2 * (length packet - here) + 2 ≤ fuel
      → IsPast here (skip_dictionary fuel packet here depth previous)

IsPast-weaken : (a b : ℕ) (r : Result BencodeError ℕ) → a ≤ b → IsPast b r → IsPast a r
IsPast-weaken a b (ok n) h p = omega arith
IsPast-weaken a b (err e) h p = p

-- What follows a value that is read.
IsPast-string :
    (packet : Bytes) (here : ℕ) → IsPast here (parse_raw_string packet here >>= (λ r. ok r.1))
IsPast-string packet here = elim (Result-cases (parse_raw_string packet here)) [
  | inl (r, good) ↦ rw good (rw good at (Fine-raw_string packet here))
  | inr (e, bad) ↦ rw bad (rw bad at (Fine-raw_string packet here))
]

IsPast-integer :
    (packet : Bytes) (here : ℕ) → IsPast here (parse_raw_integer packet here >>= (λ r. ok r.1))
IsPast-integer packet here = elim (Result-cases (parse_raw_integer packet here)) [
  | inl (r, good) ↦ rw good (rw good at (Fine-raw_integer packet here))
  | inr (e, bad) ↦ rw bad (rw bad at (Fine-raw_integer packet here))
]

Enough-value :
    (fuel : ℕ)
    → Enough fuel
    → (packet : Bytes) (here depth : ℕ) → 2 * (length packet - here) + 1 ≤ suc fuel
    → IsPast here (skip_value (suc fuel) packet here depth)
unfolding skip_value enter_value
Enough-value fuel v packet here depth h = elim (Bool-cases (ltb max_bencode_depth depth)) [
  | inl deep ↦ rw deep (λ e. cc)
  | inr level ↦ elim (Bool-cases (leb (length packet) here)) [
    | inl out ↦ rw (level, out) (λ e. cc)
    | inr inside ↦ elim (Bool-cases (byte_at packet here == 105)) [
      | inl i ↦ rw (level, inside, i) (IsPast-integer packet here)
      | inr not_i ↦ elim (Bool-cases (byte_at packet here == 108)) [
        | inl l ↦
            rw (level, inside, not_i, l)
              (IsPast-weaken here (here + 1) _ (omega arith)
                (v.list packet (here + 1) depth (ground (arith, inside, h))))
        | inr not_l ↦ elim (Bool-cases (byte_at packet here == 100)) [
          | inl d ↦
              rw (level, inside, not_i, not_l, d)
                (IsPast-weaken here (here + 1) _ (omega arith)
                  (v.dictionary packet (here + 1) depth none (ground (arith, inside, h))))
          | inr not_d ↦ elim (Bool-cases (is_digit (byte_at packet here))) [
            | inl digit ↦ rw (level, inside, not_i, not_l, not_d, digit) (IsPast-string packet here)
            | inr other ↦ rw (level, inside, not_i, not_l, not_d, other) (λ e. cc)
          ]
        ]
      ]
    ]
  ]
]

Enough-list :
    (fuel : ℕ)
    → Enough fuel
    → (packet : Bytes) (here depth : ℕ) → 2 * (length packet - here) + 2 ≤ suc fuel
    → IsPast here (skip_list (suc fuel) packet here depth)
unfolding skip_list
Enough-list fuel v packet here depth h = elim (Bool-cases (leb (length packet) here)) [
  | inl out ↦ rw out (λ e. cc)
  | inr inside ↦ elim (Bool-cases (byte_at packet here == 101)) [
    | inl last ↦ rw (inside, last) (omega arith)
    | inr more ↦
        let first = v.value packet here (depth + 1) (omega (arith, h)) in
        elim (Result-cases (skip_value fuel packet here (depth + 1))) [
          | inr (e, bad) ↦ rw (inside, more, bad) (rw bad at first)
          | inl (after, good) ↦
              let past : here < after = rw good at first in
              rw (inside, more, good)
                (IsPast-weaken here after _ (omega (arith, past))
                  (v.list packet after depth (ground (arith, inside, past, h))))
        ]
  ]
]

-- The rounds of a dictionary behind its key.
Enough-entry :
    (fuel : ℕ)
    → Enough fuel
    → (packet : Bytes) (here at_value depth : ℕ) (key : Bytes) (test : Bool) → here < at_value
    → here < length packet
    → 2 * (length packet - here) + 2 ≤ suc fuel
    → IsPast here (
        reject test key_order_invalid
        >> (skip_value fuel packet at_value (depth + 1)
            >>= (λ after. skip_dictionary fuel packet after depth (some key))))
Enough-entry fuel v packet here at_value depth key true a b h = λ e. cc
Enough-entry fuel v packet here at_value depth key false a b h =
    let first = v.value packet at_value (depth + 1) (omega arith) in
    elim (Result-cases (skip_value fuel packet at_value (depth + 1))) [
      | inr (e, bad) ↦ rw bad (rw bad at first)
      | inl (after, good) ↦
          let past : at_value < after = rw good at first in
          rw good (
            IsPast-weaken here after _ (omega arith)
              (v.dictionary packet after depth (some key) (omega arith)))
    ]

Enough-dictionary :
    (fuel : ℕ)
    → Enough fuel
    → (packet : Bytes) (here depth : ℕ) (previous : Option Bytes)
    → 2 * (length packet - here) + 2 ≤ suc fuel
    → IsPast here (skip_dictionary (suc fuel) packet here depth previous)
unfolding skip_dictionary parse_string enter_value
Enough-dictionary fuel v packet here depth previous h =
    elim (Bool-cases (leb (length packet) here)) [
      | inl out ↦ rw out (λ e. cc)
      | inr inside ↦ elim (Bool-cases (byte_at packet here == 101)) [
        | inl last ↦ rw (inside, last) (omega arith)
        | inr more ↦ elim (Bool-cases (ltb max_bencode_depth (depth + 1))) [
          | inl deep ↦ rw (inside, more, deep) (λ e. cc)
          | inr level ↦
              let text = Fine-raw_string packet here in
              elim (Result-cases (parse_raw_string packet here)) [
                | inr (e, bad) ↦ rw (inside, more, level, bad) (rw bad at text)
                | inl ((key, at_value), good) ↦
                    let past : here < at_value = rw good at text in
                    rw (inside, more, level, good)
                      (Enough-entry fuel v packet here at_value depth key _ past
                        (ground (arith, inside)) h)
              ]
        ]
      ]
    ]

Enough-all : (fuel : ℕ) → Enough fuel
Enough-all zero = record {
  value = λ packet here depth h. absurd (omega arith);
  list = λ packet here depth h. absurd (omega arith);
  dictionary = λ packet here depth previous h. absurd (omega arith);
}
Enough-all (suc fuel) = record {
  value = Enough-value fuel (Enough-all fuel);
  list = Enough-list fuel (Enough-all fuel);
  dictionary = Enough-dictionary fuel (Enough-all fuel);
}

-- Given twice as many rounds as bytes are left, and one more, skipping a value never runs out of them,
-- whatever the packet, the place and the depth: it ends past where it began, or in another error.
pub skip_value-ends :
    (packet : Bytes) (here depth : ℕ)
    → ((after : ℕ) × (skip_value (2 * (length packet - here) + 1) packet here depth ≡ ok after)
        × (here < after))
      ⊎ ((e : BencodeError) × (skip_value (2 * (length packet - here) + 1) packet here depth
            ≡ err e)
          × (e ≢ out_of_fuel))
skip_value-ends packet here depth =
    let fuel : ℕ = 2 * (length packet - here) + 1 in
    let fine = (Enough-all fuel).value packet here depth (omega arith) in
    elim (Result-cases (skip_value fuel packet here depth)) [
      | inl (after, good) ↦ inl (after, good, rw good at fine)
      | inr (e, bad) ↦ inr (e, bad, rw bad at fine)
    ]
