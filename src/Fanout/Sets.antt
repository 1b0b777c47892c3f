-- ===== src/Fanout/Sets.antt =====
-- Lists of peers as sets.
use bork.Base.{
  ℕ, ◌≡◌, ◌≤◌, ◌<◌, refl, ap, ◌∙◌, inl, inr, Bool, true, not, ◌==◌, ◌=/=◌, ◌||◌, ◌&&◌, List, [],
  ◌∷◌, ◌++◌, length, keep, keep-true, keep-false, Bool-cases, ==_iff, ==-self, arith,
}
use bork.Fanout.{has, insert_sorted, sort_ids}
use bork.Fanout.Plan.{as_set, uncover}

pub has-append : (x : ℕ) (xs ys : List ℕ) → has x (xs ++ ys) ≡ (has x xs || has x ys)
unfolding has
has-append x [] ys = refl
has-append x (y ∷ xs) ys = ground (arith, has-append x xs ys)

has-insert_sorted : (x y : ℕ) (ys : List ℕ) → has x (insert_sorted y ys) ≡ (x == y || has x ys)
unfolding has insert_sorted
has-insert_sorted x y [] = refl
has-insert_sorted x y (z ∷ zs) = ground (arith, has-insert_sorted x y zs)

pub has-sort_ids : (x : ℕ) (xs : List ℕ) → has x (sort_ids xs) ≡ has x xs
unfolding has sort_ids
has-sort_ids x [] = refl
has-sort_ids x (y ∷ ys) = ground (arith, has-insert_sorted x y (sort_ids ys), has-sort_ids x ys)

has_same : (x y : ℕ) (xs : List ℕ) → (x == y) ≡ true → has y xs ≡ true → has x xs ≡ true
has_same x y xs e h = ap (λ t. has t xs) ((==_iff x y).0 e) ∙ h

pub has-as_set : (x : ℕ) (xs : List ℕ) → has x (as_set xs) ≡ has x xs
unfolding has as_set
has-as_set x [] = refl
has-as_set x (y ∷ ys) = elim (Bool-cases (has y (as_set ys))) [
  | inl known ↦ ground (arith, known, has-as_set x ys, has_same x y (as_set ys))
  | inr new ↦ ground (arith, new, has-as_set x ys)
]

pub has-keep : (x y : ℕ) (xs : List ℕ) → has y (keep (λ z. z =/= x) xs) ≡ (y =/= x && has y xs)
unfolding has
has-keep x y [] = ground arith
has-keep x y (z ∷ zs) = elim (Bool-cases (z =/= x)) [
  | inl kept ↦ ap (has y) (keep-true (λ t. t =/= x) z zs kept) ∙ elim (Bool-cases (y == z)) [
    | inl same ↦ ground (arith, kept, same, has-keep x y zs, (==_iff y z).0 same)
    | inr other ↦ ground (arith, kept, other, has-keep x y zs)
  ]
  | inr gone ↦ ap (has y) (keep-false (λ t. t =/= x) z zs gone) ∙ elim (Bool-cases (y == z)) [
    | inl same ↦ ground (arith, gone, same, has-keep x y zs, (==_iff y z).0 same)
    | inr other ↦ ground (arith, gone, other, has-keep x y zs)
  ]
]

length-keep : (p : ℕ → Bool) (xs : List ℕ) → length (keep p xs) ≤ length xs
length-keep p [] = omega arith
length-keep p (x ∷ xs) = elim (Bool-cases (p x)) [
  | inl kept ↦ omega (arith, ap length (keep-true p x xs kept), length-keep p xs)
  | inr gone ↦ omega (arith, ap length (keep-false p x xs gone), length-keep p xs)
]

length-keep_lt :
    (x : ℕ) (xs : List ℕ) → has x xs ≡ true → length (keep (λ z. z =/= x) xs) < length xs
unfolding has
length-keep_lt x [] h = absurd (ground (arith, h))
length-keep_lt x (y ∷ ys) h = elim (Bool-cases (y =/= x)) [
  | inl kept ↦ omega (
    arith,
    ap length (keep-true (λ t. t =/= x) y ys kept),
    length-keep_lt x ys (ground (arith, h, kept, (==_iff x y).0)),
  )
  | inr gone ↦
      omega (arith, ap length (keep-false (λ t. t =/= x) y ys gone), length-keep (λ t. t =/= x) ys)
]

pub has-uncover :
    (x : ℕ) (uncovered cs : List ℕ)
    → has x (uncover uncovered cs) ≡ (has x uncovered && not (has x cs))
unfolding has uncover
has-uncover x uncovered [] = ground arith
has-uncover x uncovered (c ∷ cs) =
    ground (arith, has-uncover x (keep (λ y. y =/= c) uncovered) cs, has-keep c x uncovered)

length-uncover : (uncovered cs : List ℕ) → length (uncover uncovered cs) ≤ length uncovered
unfolding uncover
length-uncover uncovered [] = omega arith
length-uncover uncovered (c ∷ cs) =
    omega (
      arith,
      length-uncover (keep (λ y. y =/= c) uncovered) cs,
      length-keep (λ y. y =/= c) uncovered,
    )

pub length-uncover_lt :
    (uncovered cs : List ℕ)
    → ((x : ℕ) → has x cs ≡ true → has x uncovered ≡ true)
    → 0 < length cs
    → length (uncover uncovered cs) < length uncovered
unfolding uncover
length-uncover_lt uncovered [] sub h = absurd (omega (arith, h))
length-uncover_lt uncovered (c ∷ cs) sub h =
    let known = sub c (unfold has in ground (arith, ==-self c)) in
    omega
      (arith, length-uncover (keep (λ y. y =/= c) uncovered) cs, length-keep_lt c uncovered known)

pub has_nonempty : (x : ℕ) (xs : List ℕ) → has x xs ≡ true → 0 < length xs
unfolding has
has_nonempty x [] h = absurd (ground (arith, h))
has_nonempty x (y ∷ ys) h = omega arith
