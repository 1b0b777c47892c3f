-- ===== src/Base/Map.antt =====
-- A Go map with number keys, as an association list in insertion order. `insert` replaces the
-- value of a key that is there, so a key stands at most once.
use bork.Base.Tests.{◌==◌, if◌then◌else◌, Bool-cases}
use bork.Base.Lists.{total, length, All}
use Prim.Native.Nat.{ℕ, ◌+◌, ◌≤◌}
use mathlib.Core.Path.{◌≡◌, refl, subst}
use mathlib.Core.Logic.{◌≢◌, inl, inr}
use mathlib.Core.Option.{Option, none, some}
use mathlib.Core.List.{List, [], ◌∷◌}
use native.Mathlib.Omega.{arith}

abbrev pub Map {ℓ} : Type ℓ → Type ℓ
Map V = List (ℕ × V)

abbrev pub value_or {ℓ κ} : {V : Type ℓ} {B : Type κ} → (V → B) → B → Option V → B
value_or f d none = d
value_or f d (some v) = f v

module _ {ℓ} {V : Type ℓ} where
  unfoldable pub lookup : ℕ → Map V → Option V
  lookup key [] = none
  lookup key ((here, v) ∷ rest) = if key == here then some v else lookup key rest

  unfoldable pub insert : ℕ → V → Map V → Map V
  insert key v [] = (key, v) ∷ []
  insert key v ((here, old) ∷ rest) =
      if key == here then (key, v) ∷ rest else (here, old) ∷ insert key v rest

  unfoldable pub delete : ℕ → Map V → Map V
  delete key [] = []
  delete key ((here, old) ∷ rest) = if key == here then rest else (here, old) ∷ delete key rest

  -- The keys are distinct.
  abbrev pub Fresh : ℕ → Map V → Type 0
  Fresh key = All (λ e. key ≢ e.0)

  abbrev pub Distinct : Map V → Type 0
  Distinct [] = Unit {0}
  Distinct ((here, v) ∷ rest) = Fresh here rest × Distinct rest

  -- A measure added up over the values.
  abbrev pub total_values : (V → ℕ) → Map V → ℕ
  total_values f = total (λ e. f e.1)

  pub lookup-insert :
      (key here : ℕ) (v : V) (m : Map V)
      → lookup here (insert key v m) ≡ (if key == here then some v else lookup here m)
  unfolding lookup insert
  lookup-insert key here v [] = ground arith
  lookup-insert key here v ((i, old) ∷ rest) = ground (arith, lookup-insert key here v rest)

  pub lookup-insert_self : (key : ℕ) (v : V) (m : Map V) → lookup key (insert key v m) ≡ some v
  lookup-insert_self key v m = ground (arith, lookup-insert key key v m)

  pub lookup-delete_ne :
      (key here : ℕ) (m : Map V) → key ≢ here → lookup here (delete key m) ≡ lookup here m
  unfolding lookup delete
  lookup-delete_ne key here [] h = refl
  lookup-delete_ne key here ((i, old) ∷ rest) h = ground (arith, lookup-delete_ne key here rest h)

  lookup-Fresh : (key : ℕ) (m : Map V) → Fresh key m → lookup key m ≡ none
  unfolding lookup
  lookup-Fresh key [] h = refl
  lookup-Fresh key ((i, old) ∷ rest) h = ground (arith, lookup-Fresh key rest h.1)

  pub lookup-delete_self : (key : ℕ) (m : Map V) → Distinct m → lookup key (delete key m) ≡ none
  unfolding lookup delete
  lookup-delete_self key [] h = refl
  lookup-delete_self key ((i, old) ∷ rest) h =
      ground (arith, lookup-delete_self key rest h.1, lookup-Fresh i rest h.0)

  Fresh-insert : (i key : ℕ) (v : V) (m : Map V) → i ≢ key → Fresh i m → Fresh i (insert key v m)
  unfolding insert
  Fresh-insert i key v [] h f = (h, tt)
  Fresh-insert i key v ((here, old) ∷ rest) h f = ground (arith, Fresh-insert i key v rest h f.1)

  pub insert-Distinct : (key : ℕ) (v : V) (m : Map V) → Distinct m → Distinct (insert key v m)
  unfolding insert
  insert-Distinct key v [] d = (tt, tt)
  insert-Distinct key v ((here, old) ∷ rest) d =
      ground (arith, insert-Distinct key v rest d.1, Fresh-insert here key v rest)

  Fresh-delete : (i key : ℕ) (m : Map V) → Fresh i m → Fresh i (delete key m)
  unfolding delete
  Fresh-delete i key [] f = tt
  Fresh-delete i key ((here, old) ∷ rest) f = ground (arith, Fresh-delete i key rest f.1)

  pub delete-Distinct : (key : ℕ) (m : Map V) → Distinct m → Distinct (delete key m)
  unfolding delete
  delete-Distinct key [] d = tt
  delete-Distinct key ((here, old) ∷ rest) d =
      ground (arith, delete-Distinct key rest d.1, Fresh-delete here key rest)

  -- What a write and a removal do to a total: the old value leaves it.
  pub total-insert :
      (f : V → ℕ) (key : ℕ) (v : V) (m : Map V)
      → total_values f (insert key v m) + value_or f 0 (lookup key m) ≡ total_values f m + f v
  unfolding insert lookup
  total-insert f key v [] = omega arith
  total-insert f key v ((here, old) ∷ rest) = ground (arith, total-insert f key v rest)

  pub total-delete :
      (f : V → ℕ) (key : ℕ) (m : Map V)
      → total_values f (delete key m) + value_or f 0 (lookup key m) ≡ total_values f m
  unfolding delete lookup
  total-delete f key [] = omega arith
  total-delete f key ((here, old) ∷ rest) = ground (arith, total-delete f key rest)

  pub value-le-total :
      (f : V → ℕ) (key : ℕ) (m : Map V) → value_or f 0 (lookup key m) ≤ total_values f m
  value-le-total f key m = omega (arith, total-delete f key m)

  -- A property of every value.
  abbrev pub Every {κ} : (ℕ → V → Type κ) → Map V → Type κ
  Every P = All (λ e. P e.0 e.1)

  pub Every-lookup {κ} :
      (P : ℕ → V → Type κ) (key : ℕ) (m : Map V) (v : V)
      → Every P m
      → lookup key m ≡ some v
      → P key v
  unfolding lookup
  Every-lookup P key [] v h e = cc
  Every-lookup P key ((here, old) ∷ rest) v h e = elim (Bool-cases (key == here)) [
    | inl hit ↦
        let same : here ≡ key = ground (arith, hit) in
        let held : old ≡ v = ground (arith, hit) in
        subst (λ t. P t v) same (subst (P here) held h.0)
    | inr miss ↦ Every-lookup P key rest v h.1 (ground (arith, miss))
  ]

  pub Every-insert {κ} :
      (P : ℕ → V → Type κ) (key : ℕ) (v : V) (m : Map V)
      → Every P m
      → P key v
      → Every P (insert key v m)
  unfolding insert
  Every-insert P key v [] h p = (p, tt)
  Every-insert P key v ((here, old) ∷ rest) h p = ground (arith, Every-insert P key v rest h.1 p)

  pub Every-delete {κ} :
      (P : ℕ → V → Type κ) (key : ℕ) (m : Map V) → Every P m → Every P (delete key m)
  unfolding delete
  Every-delete P key [] h = tt
  Every-delete P key ((here, old) ∷ rest) h = ground (arith, Every-delete P key rest h.1)

  -- Two measures that agree on every value have the same total.
  pub total-Every {κ} :
      (P : ℕ → V → Type κ) (f g : V → ℕ) (m : Map V)
      → ((key : ℕ) (v : V) → P key v → f v ≡ g v)
      → Every P m
      → total_values f m ≡ total_values g m
  total-Every P f g [] same h = refl
  total-Every P f g ((key, v) ∷ rest) same h =
      omega (arith, same key v h.0, total-Every P f g rest same h.1)

  -- A new key makes the map one longer.
  pub length-insert_new :
      (key : ℕ) (v : V) (m : Map V) → lookup key m ≡ none → length (insert key v m) ≡ length m + 1
  unfolding insert lookup
  length-insert_new key v [] h = omega arith
  length-insert_new key v ((here, old) ∷ rest) h = elim (Bool-cases (key == here)) [
    | inl hit ↦ ground (arith, hit, h)
    | inr miss ↦ ground (arith, miss, length-insert_new key v rest (ground (arith, miss)))
  ]
