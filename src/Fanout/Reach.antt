-- ===== src/Fanout/Reach.antt =====
-- Whom a plan reaches, and what a round does to it.
use bork.Base.{
  ℕ, ◌≡◌, ◌⊎◌, refl, sym, ap, subst, ◌∙◌, inl, inr, true, if◌then◌else◌, ◌==◌, ◌=/=◌, List, [], ◌∷◌,
  ◌++◌, Option-cases, none, Bool-cases, ==_iff, ==-self, arith,
}
use bork.Base.Map.{lookup, insert, lookup-insert, value_or}
use bork.Fanout.{has}
use bork.Fanout.Plan.{OutboundFanout, assigned, assign, assign_all, deploy}
use bork.Fanout.Sets.{has-append}

-- A destination, or assigned to one.
abbrev pub IsTold : OutboundFanout → ℕ → Type 0
IsTold plan x =
    (d : ℕ) × (has d plan.destinations ≡ true) × ((x ≡ d) ⊎ (has x (assigned plan d) ≡ true))

-- A plan that says all that another says.
pub record Extends (p q : OutboundFanout) : Type 0 where
  pub destinations : (d : ℕ) → has d p.destinations ≡ true → has d q.destinations ≡ true
  pub assigned_to : (d x : ℕ) → has x (assigned p d) ≡ true → has x (assigned q d) ≡ true

Extends-refl : (p : OutboundFanout) → Extends p p
Extends-refl p = record { destinations = λ d h. h; assigned_to = λ d x h. h }

Extends-trans : {p q r : OutboundFanout} → Extends p q → Extends q r → Extends p r
Extends-trans h k = record {
  destinations = λ d e. k.destinations d (h.destinations d e);
  assigned_to = λ d x e. k.assigned_to d x (h.assigned_to d x e);
}

pub Extends-IsTold : {p q : OutboundFanout} (x : ℕ) → Extends p q → IsTold p x → IsTold q x
Extends-IsTold x h (d, there, inl same) = (d, h.destinations d there, inl same)
Extends-IsTold x h (d, there, inr told) = (d, h.destinations d there, inr (h.assigned_to d x told))

assigned-assign :
    (p : OutboundFanout) (f l d : ℕ)
    → assigned (assign p f l) d ≡ (if f == d then assigned p f ++ (l ∷ []) else assigned p d)
assigned-assign p f l d =
    ap (value_or (λ xs. xs) []) (lookup-insert f d (assigned p f ++ (l ∷ [])) p.assignments)
    ∙ ground (arith, Bool-cases (f == d))

has_more : (x l : ℕ) (xs : List ℕ) → has x xs ≡ true → has x (xs ++ (l ∷ [])) ≡ true
has_more x l xs h = ground (arith, has-append x xs (l ∷ []), h)

has_last : (l : ℕ) (xs : List ℕ) → has l (xs ++ (l ∷ [])) ≡ true
unfolding has
has_last l xs = ground (arith, has-append l xs (l ∷ []), ==-self l)

assign-Extends : (p : OutboundFanout) (f l : ℕ) → Extends p (assign p f l)
assign-Extends p f l = record {
  destinations = λ d h. h;
  assigned_to = λ d x h.
      let now = assigned-assign p f l d in
      elim (Bool-cases (f == d)) [
        | inl same ↦
            let here : f ≡ d = (==_iff f d).0 same in
            let told : has x (assigned p f) ≡ true = ap (λ t. has x (assigned p t)) here ∙ h in
            ap (has x) (now ∙ ground (arith, same)) ∙ has_more x l (assigned p f) told
        | inr other ↦ ap (has x) (now ∙ ground (arith, other)) ∙ h
      ];
}

assign_told : (p : OutboundFanout) (f l : ℕ) → has l (assigned (assign p f l) f) ≡ true
assign_told p f l =
    ap (has l) (assigned-assign p f l f ∙ ground (arith, ==-self f)) ∙ has_last l (assigned p f)

assign_all-Extends : (p : OutboundFanout) (f : ℕ) (xs : List ℕ) → Extends p (assign_all p f xs)
unfolding assign_all
assign_all-Extends p f [] = Extends-refl p
assign_all-Extends p f (x ∷ xs) = elim (Bool-cases (x =/= f)) [
  | inl other ↦
      rw (other, assign_all)
        (Extends-trans (assign-Extends p f x) (assign_all-Extends (assign p f x) f xs))
  | inr same ↦ rw (same, assign_all) (assign_all-Extends p f xs)
]

assign_all_told :
    (p : OutboundFanout) (f x : ℕ) (xs : List ℕ)
    → has x xs ≡ true
    → (x =/= f) ≡ true
    → has x (assigned (assign_all p f xs) f) ≡ true
unfolding assign_all has
assign_all_told p f x [] h apart = absurd (ground (arith, h))
assign_all_told p f x (y ∷ ys) h apart = elim (Bool-cases (x == y)) [
  | inl same ↦
      let here : x ≡ y = (==_iff x y).0 same in
      let told = (assign_all-Extends (assign p f x) f ys).assigned_to f x (assign_told p f x) in
      subst (λ t. has x (assigned (assign_all (if t =/= f then assign p f t else p) f ys) f) ≡ true)
        here (rw apart told)
  | inr other ↦
      assign_all_told (if y =/= f then assign p f y else p) f x ys (ground (arith, other, h)) apart
]

destinations-assign_all :
    (p : OutboundFanout) (f : ℕ) (xs : List ℕ) → (assign_all p f xs).destinations ≡ p.destinations
unfolding assign_all
destinations-assign_all p f [] = refl
destinations-assign_all p f (x ∷ xs) =
    destinations-assign_all (if x =/= f then assign p f x else p) f xs
    ∙ ground (arith, Bool-cases (x =/= f))

-- The plan of a round before the last test.
abbrev chosen : OutboundFanout → ℕ → List ℕ → OutboundFanout
chosen p f xs = assign_all (record p { destinations = p.destinations ++ (f ∷ []) }) f xs

chosen-Extends : (p : OutboundFanout) (f : ℕ) (xs : List ℕ) → Extends p (chosen p f xs)
chosen-Extends p f xs =
    let q : OutboundFanout = record p { destinations = p.destinations ++ (f ∷ []) } in
    Extends-trans {q = q}
      (record { destinations = λ d h. has_more d f p.destinations h; assigned_to = λ d x h. h })
      (assign_all-Extends q f xs)

-- An empty assignment where there is none says nothing new.
assigned-nil :
    (q : OutboundFanout) (f d : ℕ)
    → lookup f q.assignments ≡ none
    → assigned (record q { assignments = insert f [] q.assignments }) d ≡ assigned q d
assigned-nil q f d absent =
    ap (value_or (λ xs. xs) []) (lookup-insert f d [] q.assignments) ∙ elim (Bool-cases (f == d)) [
      | inl same ↦
          let here : f ≡ d = (==_iff f d).0 same in
          let nothing : lookup d q.assignments ≡ none =
            ap (λ t. lookup t q.assignments) (sym here) ∙ absent in
          ground (arith, same, nothing)
      | inr other ↦ ground (arith, other)
    ]

deploy-chosen : (p : OutboundFanout) (f : ℕ) (xs : List ℕ) → Extends (chosen p f xs) (deploy p f xs)
unfolding deploy
deploy-chosen p f xs =
    let q : OutboundFanout = chosen p f xs in
    elim (Option-cases (lookup f q.assignments)) [
      | inr (told, held) ↦ rw (held, deploy) (Extends-refl q)
      | inl absent ↦
          rw (absent, deploy)
            (record {
              destinations = λ d h. h;
              assigned_to = λ d x h. ap (has x) (assigned-nil q f d absent) ∙ h;
            })
    ]

pub deploy-Extends : (p : OutboundFanout) (f : ℕ) (xs : List ℕ) → Extends p (deploy p f xs)
deploy-Extends p f xs =
    Extends-trans {q = chosen p f xs} (chosen-Extends p f xs) (deploy-chosen p f xs)

-- A round reaches all that it covers.
pub deploy-IsTold :
    (p : OutboundFanout) (f x : ℕ) (xs : List ℕ) → has x xs ≡ true → IsTold (deploy p f xs) x
deploy-IsTold p f x xs h =
    let q : OutboundFanout = record p { destinations = p.destinations ++ (f ∷ []) } in
    let there : has f (chosen p f xs).destinations ≡ true =
      ap (has f) (destinations-assign_all q f xs) ∙ has_last f p.destinations in
    let reached : IsTold (chosen p f xs) x = elim (Bool-cases (x =/= f)) [
      | inl other ↦ (f, there, inr (assign_all_told q f x xs h other))
      | inr same ↦ (f, there, inl (ground (arith, same, (==_iff x f).0)))
    ] in
    Extends-IsTold x (deploy-chosen p f xs) reached
