-- ===== src/Fanout/Justified.antt =====
-- What a plan says is so: it deploys direct peers, and assigns to each listeners that it sees.
use bork.Base.{
  ℕ, zero, suc, ◌≡◌, ◌⊎◌, sym, ap, subst, ◌∙◌, inl, inr, Bool, true, ◌==◌, ◌=/=◌, ◌||◌, List, [],
  ◌∷◌, ◌++◌, All, length, Bool-cases, Option-cases, ==_iff, ==-self, arith,
}
use bork.Base.Map.{Map, lookup, Every, Every-insert, Every-lookup}
use bork.Fanout.{has}
use bork.Fanout.Plan.{
  TopologyPeer, OutboundFanout, neighbors_of, assigned, assign, assign_all, deploy, uncover,
  build_rounds,
}
use bork.Fanout.Sets.{has-sort_ids, has-uncover}
use bork.Fanout.Reach.{IsTold}
use bork.Fanout.Selection.{
  Claims, Covers, candidate-Covers, selection, selection-Chosen, selection_sub,
}

-- A peer is reached: it is a destination and direct, or assigned to a destination that is direct and
-- has a claim on it that holds until after now.
abbrev pub Reached : List ℕ → Map TopologyPeer → ℕ → OutboundFanout → ℕ → Type 0
Reached direct topology now plan x =
    (d : ℕ) × (has d plan.destinations ≡ true)
    × (has d direct ≡ true)
    × ((x ≡ d) ⊎ ((has x (assigned plan d) ≡ true) × Claims now x (neighbors_of topology d)))

All-has {κ} : (P : ℕ → Type κ) (x : ℕ) (xs : List ℕ) → All P xs → has x xs ≡ true → P x
unfolding has
All-has P x [] h e = absurd (ground (arith, e))
All-has P x (y ∷ ys) h e = elim (Bool-cases (x == y)) [
  | inl same ↦ subst P (sym ((==_iff x y).0 same)) h.0
  | inr other ↦ All-has P x ys h.1 (ground (arith, other, e))
]

has-All {κ} : (P : ℕ → Type κ) (xs : List ℕ) → ((x : ℕ) → has x xs ≡ true → P x) → All P xs
unfolding has
has-All P [] h = tt
has-All P (x ∷ xs) h =
    (h x (ground (arith, ==-self x)), has-All P xs (λ y e. h y (ground (arith, e))))

All-last {κ} : (P : ℕ → Type κ) (x : ℕ) (xs : List ℕ) → All P xs → P x → All P (xs ++ (x ∷ []))
All-last P x [] h p = (p, tt)
All-last P x (y ∷ ys) h p = (h.0, All-last P x ys h.1 p)

module _ (listeners direct : List ℕ) (topology : Map TopologyPeer) (now : ℕ) where
  -- The forwarder may be told of the peer.
  abbrev pub Serves : ℕ → ℕ → Type 0
  Serves f x = (has x listeners ≡ true) × Claims now x (neighbors_of topology f)

  pub record IsJustified (plan : OutboundFanout) : Type 0 where
    pub destinations : All (λ d. has d direct ≡ true) plan.destinations
    pub assignments : Every (λ f xs. All (Serves f) xs) plan.assignments

  assigned-Serves : (p : OutboundFanout) (f : ℕ) → IsJustified p → All (Serves f) (assigned p f)
  assigned-Serves p f v = elim (Option-cases (lookup f p.assignments)) [
    | inl absent ↦ rw absent tt
    | inr (xs, held) ↦
        rw held (Every-lookup (λ g ys. All (Serves g) ys) f p.assignments xs v.assignments held)
  ]

  pub IsTold-Reached :
      (p : OutboundFanout) (x : ℕ) → IsJustified p → IsTold p x → Reached direct topology now p x
  IsTold-Reached p x v (d, there, told) =
      let near = All-has (λ g. has g direct ≡ true) d p.destinations v.destinations there in
      elim told [
        | inl same ↦ (d, there, near, inl same)
        | inr held ↦
            let serves = All-has (Serves d) x (assigned p d) (assigned-Serves p d v) held in
            (d, there, near, inr (held, serves.1))
      ]

  assign-IsJustified :
      (p : OutboundFanout) (f x : ℕ) → Serves f x → IsJustified p → IsJustified (assign p f x)
  assign-IsJustified p f x h v = record {
    destinations = v.destinations;
    assignments =
        Every-insert (λ g ys. All (Serves g) ys) f (assigned p f ++ (x ∷ [])) p.assignments
          v.assignments (All-last (Serves f) x (assigned p f) (assigned-Serves p f v) h);
  }

  assign_all-IsJustified :
      (p : OutboundFanout) (f : ℕ) (xs : List ℕ)
      → All (λ x. (has x listeners ≡ true) × Covers topology now f x) xs
      → IsJustified p
      → IsJustified (assign_all p f xs)
  unfolding assign_all
  assign_all-IsJustified p f [] h v = v
  assign_all-IsJustified p f (x ∷ xs) ((listens, covers), h) v = elim (Bool-cases (x =/= f)) [
    | inr same ↦ rw (same, assign_all) (assign_all-IsJustified p f xs h v)
    | inl other ↦
        let claims : Claims now x (neighbors_of topology f) = elim covers [
          | inl same ↦ absurd (ground (arith, other, (==_iff x f).1 same))
          | inr claims ↦ claims
        ] in
        rw (other, assign_all)
          (assign_all-IsJustified (assign p f x) f xs h
            (assign-IsJustified p f x (listens, claims) v))
  ]

  deploy-IsJustified :
      (p : OutboundFanout) (f : ℕ) (xs : List ℕ)
      → has f direct ≡ true
      → All (λ x. (has x listeners ≡ true) × Covers topology now f x) xs
      → IsJustified p
      → IsJustified (deploy p f xs)
  unfolding deploy
  deploy-IsJustified p f xs near h v =
      let q : OutboundFanout = record p { destinations = p.destinations ++ (f ∷ []) } in
      let q' : OutboundFanout = assign_all q f xs in
      let v' = assign_all-IsJustified q f xs h (record {
        destinations = All-last (λ d. has d direct ≡ true) f p.destinations v.destinations near;
        assignments = v.assignments;
      }) in
      elim (Option-cases (lookup f q'.assignments)) [
        | inr (told, held) ↦ rw (held, deploy) v'
        | inl absent ↦
            rw (absent, deploy)
              (record {
                destinations = v'.destinations;
                assignments =
                    Every-insert (λ g ys. All (Serves g) ys) f [] q'.assignments v'.assignments tt;
              })
      ]

  pub build_rounds-IsJustified :
      (rounds : ℕ) (uncovered : List ℕ) (plan : OutboundFanout)
      → ((x : ℕ) → has x uncovered ≡ true → has x listeners ≡ true)
      → IsJustified plan
      → IsJustified (build_rounds rounds direct topology now uncovered plan).0
  unfolding build_rounds
  build_rounds-IsJustified zero uncovered plan sub v = v
  build_rounds-IsJustified (suc rounds) uncovered plan sub v =
      let sel : ℕ × List ℕ = selection topology now direct uncovered in
      let stop : Bool = length uncovered == 0 || (sel.0 == 0 || length sel.1 == 0) in
      elim (Bool-cases stop) [
        | inl stops ↦ rw (stops, build_rounds) v
        | inr goes ↦ elim (selection-Chosen topology now direct uncovered) [
          | inl empty ↦ absurd (ground (arith, goes, ap length empty))
          | inr (all, there) ↦
              let near : has sel.0 direct ≡ true = sym (has-sort_ids sel.0 direct) ∙ there in
              let covered =
                has-All (λ x. (has x listeners ≡ true) × Covers topology now sel.0 x) sel.1
                  (λ x h. (
                    sub x (selection_sub topology now direct uncovered x h),
                    candidate-Covers topology now x sel.0 uncovered (sym (ap (has x) all) ∙ h),
                  )) in
              rw (goes, build_rounds)
                (build_rounds-IsJustified rounds (uncover uncovered sel.1) (deploy plan sel.0 sel.1)
                  (λ x h. sub x (ground (arith, h, has-uncover x uncovered sel.1)))
                  (deploy-IsJustified plan sel.0 sel.1 near covered v))
        ]
      ]
