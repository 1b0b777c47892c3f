-- ===== src/Base/Bytes.antt =====
-- Byte strings as lists of numbers, and the big-endian words of encoding/binary.
use bork.Base.Lists.{length, length-append, All, All-append}
use Prim.Native.Nat.{ℕ, zero, suc, ◌+◌, ◌*◌, ◌/◌, ◌%◌, ◌^◌, ◌<◌}
use Prim.Native.Nat.pow
use native.Mathlib.Nat.{pow-suc}
use mathlib.Core.Path.{◌≡◌, refl, ap, ◌∙◌}
use mathlib.Core.List.{List, [], ◌∷◌, ◌++◌}
use native.Mathlib.Omega.{arith}

abbrev pub Bytes : Type 0
Bytes = List ℕ

abbrev pub IsByte : ℕ → Type 0
IsByte b = b < 256

-- `binary.BigEndian.PutUintN`: the `n` low bytes of `v`, highest first.
unfoldable pub be_put : ℕ → ℕ → Bytes
be_put zero v = []
be_put (suc n) v = be_put n (v / 256) ++ (v % 256 ∷ [])

-- `binary.BigEndian.UintN` on a slice of that width.
be_from : ℕ → Bytes → ℕ
be_from acc [] = acc
be_from acc (b ∷ bs) = be_from (acc * 256 + b) bs

unfoldable pub be_get : Bytes → ℕ
unfolding be_from
be_get bs = be_from 0 bs

be_from-append :
    (acc : ℕ) (xs : Bytes) (b : ℕ) → be_from acc (xs ++ (b ∷ [])) ≡ be_from acc xs * 256 + b
unfolding be_from
be_from-append acc [] b = refl
be_from-append acc (x ∷ xs) b = be_from-append (acc * 256 + x) xs b

pub length-be_put : (n v : ℕ) → length (be_put n v) ≡ n
unfolding be_put
length-be_put zero v = refl
length-be_put (suc n) v =
    omega (arith, length-append (be_put n (v / 256)) (v % 256 ∷ []), length-be_put n (v / 256))

pub be_put-IsByte : (n v : ℕ) → All IsByte (be_put n v)
unfolding be_put
be_put-IsByte zero v = tt
be_put-IsByte (suc n) v =
    All-append IsByte (be_put n (v / 256)) _ (be_put-IsByte n (v / 256)) (omega arith)

-- A word that fits its width is read back.
pub be_get-be_put : (n v : ℕ) → v < 256 ^ n → be_get (be_put n v) ≡ v
unfolding be_get be_put
be_get-be_put zero v h = omega (arith, pow.zero 256)
be_get-be_put (suc n) v h =
    be_from-append 0 (be_put n (v / 256)) (v % 256)
    ∙ omega (arith, be_get-be_put n (v / 256) (omega (arith, pow-suc 256 n)))

-- The first byte of a string is its highest.
be_from-eq : (acc : ℕ) (xs : Bytes) → be_from acc xs ≡ acc * 256 ^ length xs + be_from 0 xs
unfolding be_from
be_from-eq acc [] = omega (arith, pow.zero 256)
be_from-eq acc (x ∷ xs) = omega (
  arith,
  be_from-eq (acc * 256 + x) xs,
  be_from-eq (0 * 256 + x) xs,
  ap (λ (t : ℕ). acc * t) (pow-suc 256 (length xs)),
)

pub be_get-cons : (x : ℕ) (xs : Bytes) → be_get (x ∷ xs) ≡ x * 256 ^ length xs + be_get xs
unfolding be_get be_from
be_get-cons x xs = omega (arith, be_from-eq (0 * 256 + x) xs)

pub be_get-lt : (xs : Bytes) → All IsByte xs → be_get xs < 256 ^ length xs
unfolding be_get be_from
be_get-lt [] h = omega (arith, pow.zero 256)
be_get-lt (x ∷ xs) h = grind (arith, be_get-cons x xs, be_get-lt xs h.1, pow-suc 256 (length xs))

be_put-cons :
    (n x y : ℕ) → x < 256 → y < 256 ^ n → be_put (suc n) (x * 256 ^ n + y) ≡ x ∷ be_put n y
unfolding be_put
be_put-cons zero x y hx hy = ap (λ t. t ∷ []) (omega (arith, pow.zero 256))
be_put-cons (suc n) x y hx hy =
    rw (upper, lower, be_put-cons n x (y / 256) hx (omega (arith, pow-suc 256 n)))
  where
    upper : (x * 256 ^ suc n + y) / 256 ≡ x * 256 ^ n + y / 256
    upper = omega (arith, ap (λ (t : ℕ). x * t) (pow-suc 256 n))

    lower : (x * 256 ^ suc n + y) % 256 ≡ y % 256
    lower = omega (arith, ap (λ (t : ℕ). x * t) (pow-suc 256 n))

-- A byte string is written again from the word that it stands for.
pub be_put-be_get : (n : ℕ) (xs : Bytes) → length xs ≡ n → All IsByte xs → be_put n (be_get xs) ≡ xs
be_put-be_get zero [] e h = unfold be_put in refl
be_put-be_get zero (x ∷ xs) e h = absurd (omega arith)
be_put-be_get (suc n) [] e h = absurd (omega arith)
be_put-be_get (suc n) (x ∷ xs) e h =
    let tail : length xs ≡ n = omega arith in
    let split : be_get (x ∷ xs) ≡ x * 256 ^ n + be_get xs = rw (← tail) (be_get-cons x xs) in
    let fits : be_get xs < 256 ^ n = rw (← tail) (be_get-lt xs h.1) in
    rw (split, be_put-cons n x (be_get xs) h.0 fits) (ap (λ t. x ∷ t) (be_put-be_get n xs tail h.1))
