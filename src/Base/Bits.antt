-- ===== src/Base/Bits.antt =====
-- Single bits of a word: what `&`, `|`, `<<` and `%` do to them, at every width.
use bork.Base.Tests.{◌==◌, ltb, if◌then◌else◌}
use Prim.Native.Nat.{ℕ, zero, suc, ◌+◌, ◌-◌, ◌*◌, ◌/◌, ◌%◌, ◌^◌, ◌≤◌, ◌<◌, min, max}
use Prim.Native.Nat.{bit_and, bit_or, digits, bit_and-bitwise, bit_or-bitwise}
use Prim.Native.Nat.pow
use native.Mathlib.Nat.{add-zero, pow-suc, div-add-mod, div-div-eq-div-mul}
use mathlib.Core.Path.{◌≡◌, refl, ap, ◌∙◌}
use native.Mathlib.Omega.{arith}

-- The count that `digits` recurs on does not matter once it covers the first number.
digits_enough :
    (none_left : ℕ → ℕ) (join : ℕ → ℕ → ℕ) (fuel more x y : ℕ)
    → x ≤ fuel
    → x ≤ more
    → digits none_left join fuel x y ≡ digits none_left join more x y
digits_enough none_left join zero zero x y h k = refl
digits_enough none_left join zero (suc more) zero y h k = refl
digits_enough none_left join zero (suc more) (suc x) y h k = elim h [ ]
digits_enough none_left join (suc fuel) zero zero y h k = refl
digits_enough none_left join (suc fuel) zero (suc x) y h k = elim k [ ]
digits_enough none_left join (suc fuel) (suc more) zero y h k = refl
digits_enough none_left join (suc fuel) (suc more) (suc x) y h k =
    ap (λ t. t * 2 + join (suc x % 2) (y % 2))
      (digits_enough none_left join fuel more (suc x / 2) (y / 2) (omega arith) (omega arith))

and_half : (a b : ℕ) → bit_and a b ≡ min (a % 2) (b % 2) + 2 * bit_and (a / 2) (b / 2)
and_half zero b = omega (arith, bit_and-bitwise 0 b, bit_and-bitwise 0 (b / 2))
and_half (suc a) b =
    let half : ℕ = suc a / 2 in
    let lower = digits_enough (λ c. 0) min a half half (b / 2) (omega arith) (omega arith) in
    omega (arith, lower, bit_and-bitwise half (b / 2), bit_and-bitwise (suc a) b)

or_half : (a b : ℕ) → bit_or a b ≡ max (a % 2) (b % 2) + 2 * bit_or (a / 2) (b / 2)
or_half zero b = omega (arith, bit_or-bitwise 0 b, bit_or-bitwise 0 (b / 2))
or_half (suc a) b =
    let half : ℕ = suc a / 2 in
    let lower = digits_enough (λ c. c) max a half half (b / 2) (omega arith) (omega arith) in
    omega (arith, lower, bit_or-bitwise half (b / 2), bit_or-bitwise (suc a) b)

-- Bit `k` of `x`, as 0 or 1.
unfoldable pub bit : ℕ → ℕ → ℕ
bit zero x = x % 2
bit (suc k) x = bit k (x / 2)

pub bit-le : (k x : ℕ) → bit k x ≤ 1
unfolding bit
bit-le zero x = omega arith
bit-le (suc k) x = bit-le k (x / 2)

pub bit-zero : (k : ℕ) → bit k 0 ≡ 0
unfolding bit
bit-zero zero = refl
bit-zero (suc k) = bit-zero k

pow_half : (k : ℕ) → 2 ^ suc k ≡ 2 * 2 ^ k
pow_half k = omega (arith, pow-suc 2 k)

and-zero_below : (n a : ℕ) → a ≤ n → bit_and a 0 ≡ 0
and-zero_below n zero h = bit_and-bitwise 0 0
and-zero_below zero (suc a) h = elim h [ ]
and-zero_below (suc n) (suc a) h =
    omega (arith, and_half (suc a) 0, and-zero_below n (suc a / 2) (omega arith))

or-zero_below : (n a : ℕ) → a ≤ n → bit_or a 0 ≡ a
or-zero_below n zero h = bit_or-bitwise 0 0
or-zero_below zero (suc a) h = elim h [ ]
or-zero_below (suc n) (suc a) h =
    omega (arith, or_half (suc a) 0, or-zero_below n (suc a / 2) (omega arith))

-- `x & (1 << k)`
pub bit_and-pow : (k x : ℕ) → bit_and x (2 ^ k) ≡ bit k x * 2 ^ k
unfolding bit
bit_and-pow zero x =
    omega (arith, and_half x 1, and-zero_below (x / 2) (x / 2) (omega arith), pow.zero 2)
bit_and-pow (suc k) x = omega (
  arith,
  ap (bit_and x) (pow_half k),
  and_half x (2 * 2 ^ k),
  ap (bit_and (x / 2)) (half_double (2 ^ k)),
  bit_and-pow k (x / 2),
  ap (λ (t : ℕ). bit k (x / 2) * t) (pow_half k),
)
  where
    half_double : (t : ℕ) → 2 * t / 2 ≡ t
    half_double t = omega arith

-- `x | (1 << k)`
pub bit-bit_or-pow : (k j x : ℕ) → bit j (bit_or x (2 ^ k)) ≡ (if j == k then 1 else bit j x)
unfolding bit
bit-bit_or-pow zero zero x = omega (arith, or_half x 1, pow.zero 2)
bit-bit_or-pow zero (suc j) x = ground (arith, ap (bit j) upper)
  where
    upper : bit_or x (2 ^ zero) / 2 ≡ x / 2
    upper = omega (arith, or_half x 1, or-zero_below (x / 2) (x / 2) (omega arith))
bit-bit_or-pow (suc k) zero x = ground (arith, or_half x (2 ^ suc k), pow_half k)
bit-bit_or-pow (suc k) (suc j) x = ground (arith, ap (bit j) upper, bit-bit_or-pow k j (x / 2))
  where
    halved : 2 ^ suc k / 2 ≡ 2 ^ k
    halved = omega (arith, pow_half k)

    upper : bit_or x (2 ^ suc k) / 2 ≡ bit_or (x / 2) (2 ^ k)
    upper = omega (arith, or_half x (2 ^ suc k), ap (bit_or (x / 2)) halved, pow_half k)

pub bit_or-pow-lt : (n k x : ℕ) → x < 2 ^ n → k < n → bit_or x (2 ^ k) < 2 ^ n
bit_or-pow-lt zero k x h p = elim p [ ]
bit_or-pow-lt (suc n) zero x h p =
    omega (arith, or_half x 1, or-zero_below (x / 2) (x / 2) (omega arith), pow.zero 2, pow_half n)
bit_or-pow-lt (suc n) (suc k) x h p = omega (
  arith,
  or_half x (2 ^ suc k),
  ap (bit_or (x / 2)) halved,
  bit_or-pow-lt n k (x / 2) (omega (arith, pow_half n)) (omega arith),
  pow_half n,
)
  where
    halved : 2 ^ suc k / 2 ≡ 2 ^ k
    halved = omega (arith, pow_half k)

-- `x | 1` where the lowest bit is clear.
pub bit_or-one : (x : ℕ) → x % 2 ≡ 0 → bit_or x 1 ≡ x + 1
bit_or-one x h = omega (arith, or_half x 1, or-zero_below (x / 2) (x / 2) (omega arith))

-- Bits below the width survive a truncation, the others are dropped.
mod_double : (m x : ℕ) → x % (2 * m) ≡ x / 2 % m * 2 + x % 2
mod_double m x = omega (
  arith,
  div-add-mod x (2 * m),
  div-add-mod (x / 2) m,
  ap (λ (t : ℕ). m * t) (div-div-eq-div-mul x 2 m),
)

half_of_mod : (m x : ℕ) → x % (2 * m) / 2 ≡ x / 2 % m
half_of_mod m x = omega (arith, mod_double m x)

low_of_mod : (m x : ℕ) → 0 < m → x % (2 * m) % 2 ≡ x % 2
low_of_mod m x h = omega (arith, mod_double m x)

pub bit-mod : (n j x : ℕ) → bit j (x % 2 ^ n) ≡ (if ltb j n then bit j x else 0)
unfolding bit
bit-mod zero j x = ground (arith, ap (bit j) (mod_one x), bit-zero j)
  where
    mod_one : (y : ℕ) → y % 2 ^ zero ≡ 0
    mod_one y = omega arith
bit-mod (suc n) zero x = ground (arith, low_of_mod (2 ^ n) x, pow_half n)
bit-mod (suc n) (suc j) x = ground (
  arith,
  ap (bit j) (ap (λ t. x % t / 2) (pow_half n) ∙ half_of_mod (2 ^ n) x),
  bit-mod n j (x / 2),
)

-- `x << s` before it is truncated.
pub bit-shift : (s j x : ℕ) → bit j (x * 2 ^ s) ≡ (if ltb j s then 0 else bit (j - s) x)
unfolding bit
bit-shift zero j x = ground (arith, ap (bit j) whole)
  where
    whole : x * 2 ^ zero ≡ x
    whole = omega arith
bit-shift (suc s) zero x = ground (arith, ap (λ (t : ℕ). x * t) (pow_half s))
bit-shift (suc s) (suc j) x = ground (arith, ap (bit j) upper, bit-shift s j x)
  where
    upper : x * 2 ^ suc s / 2 ≡ x * 2 ^ s
    upper = omega (arith, ap (λ (t : ℕ). x * t) (pow_half s))

-- A number below `2 ^ n` has no bit from `n` on.
pub bit_above : (n j x : ℕ) → x < 2 ^ n → n ≤ j → bit j x ≡ 0
unfolding bit
bit_above zero j x h p = ap (bit j) (omega (arith, pow.zero 2)) ∙ bit-zero j
bit_above (suc n) zero x h p = elim p [ ]
bit_above (suc n) (suc j) x h p = bit_above n j (x / 2) (omega (arith, pow_half n)) (omega arith)

pub shift-lt : (d n x : ℕ) → x < 2 ^ n → x * 2 ^ d < 2 ^ (n + d)
shift-lt zero n x h = ground (arith, ap (λ t. 2 ^ t) (add-zero n))
shift-lt (suc d) n x h = ground (
  arith,
  shift-lt d n x h,
  ap (λ t. 2 ^ t) (whole n d),
  pow_half (n + d),
  ap (λ (t : ℕ). x * t) (pow_half d),
)
  where
    whole : (a b : ℕ) → a + suc b ≡ suc (a + b)
    whole a b = omega arith
