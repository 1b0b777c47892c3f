-- ===== src/Fanout/Selection.antt =====
-- Whom a forwarder covers, and what a round selects: of the forwarders, one that covers most.
use bork.Base.{
  ℕ, ◌≡◌, ◌≤◌, ◌<◌, ◌⊎◌, refl, sym, ap, subst, ◌∙◌, inl, inr, true, if◌then◌else◌, ◌==◌, ltb, ◌&&◌,
  List, [], ◌∷◌, length, Bool-cases, ==_iff, ==-self, arith,
}
use bork.Base.Map.{Map}
use bork.Fanout.{has, sort_ids}
use bork.Fanout.Plan.{TopologyPeer, live_neighbors, neighbors_of, candidate, select}
use bork.Fanout.Sets.{has-sort_ids, has_nonempty}

live_sub :
    (x : ℕ) (uncovered : List ℕ) (now : ℕ) (m : Map ℕ)
    → has x (live_neighbors uncovered now m) ≡ true
    → has x uncovered ≡ true
unfolding live_neighbors has
live_sub x uncovered now [] h = absurd (ground (arith, h))
live_sub x uncovered now ((n, until) ∷ rest) h =
    elim (Bool-cases (has n uncovered && ltb now until)) [
      | inr gone ↦ live_sub x uncovered now rest (ground (arith, gone, h))
      | inl live ↦ elim (Bool-cases (x == n)) [
        | inl same ↦ ap (λ t. has t uncovered) ((==_iff x n).0 same) ∙ ground (arith, live)
        | inr other ↦ live_sub x uncovered now rest (ground (arith, live, other, h))
      ]
    ]

-- One of the claims is on this peer, and holds until after now.
abbrev pub Claims : ℕ → ℕ → Map ℕ → Type 0
Claims now x [] = ⊥
Claims now x ((neighbor, until) ∷ rest) = ((x ≡ neighbor) × (now < until)) ⊎ Claims now x rest

live_held :
    (x : ℕ) (uncovered : List ℕ) (now : ℕ) (m : Map ℕ)
    → Claims now x m
    → has x uncovered ≡ true
    → has x (live_neighbors uncovered now m) ≡ true
unfolding live_neighbors has
live_held x uncovered now [] claims u = absurd claims
live_held x uncovered now ((n, until) ∷ rest) (inl (here, h)) u =
    let known : has n uncovered ≡ true = ap (λ i. has i uncovered) (sym here) ∙ u in
    ground (arith, (==_iff x n).1 here, h, known)
live_held x uncovered now ((n, until) ∷ rest) (inr later) u =
    ground (arith, live_held x uncovered now rest later u)

live-Claims :
    (x : ℕ) (uncovered : List ℕ) (now : ℕ) (m : Map ℕ)
    → has x (live_neighbors uncovered now m) ≡ true
    → Claims now x m
unfolding live_neighbors has
live-Claims x uncovered now [] h = absurd (ground (arith, h))
live-Claims x uncovered now ((n, until) ∷ rest) h =
    elim (Bool-cases (has n uncovered && ltb now until)) [
      | inr gone ↦ inr (live-Claims x uncovered now rest (ground (arith, gone, h)))
      | inl live ↦ elim (Bool-cases (x == n)) [
        | inl same ↦ inl ((==_iff x n).0 same, ground (arith, live))
        | inr other ↦ inr (live-Claims x uncovered now rest (ground (arith, live, other, h)))
      ]
    ]

module _ (topology : Map TopologyPeer) (now : ℕ) where
  pub candidate_sub :
      (x f : ℕ) (uncovered : List ℕ)
      → has x (candidate uncovered topology now f) ≡ true
      → has x uncovered ≡ true
  unfolding candidate
  candidate_sub x f uncovered h =
      let claimed : List ℕ = live_neighbors uncovered now (neighbors_of topology f) in
      let before = sym (has-sort_ids x (if has f uncovered then f ∷ claimed else claimed)) ∙ h in
      let sub = live_sub x uncovered now (neighbors_of topology f) in
      elim (Bool-cases (has f uncovered)) [
        | inr covered ↦ sub (ground (arith, covered, before))
        | inl known ↦ elim (Bool-cases (x == f)) [
          | inl same ↦ ap (λ t. has t uncovered) ((==_iff x f).0 same) ∙ known
          | inr other ↦ sub (unfold has in ground (arith, known, other, before))
        ]
      ]

  -- A forwarder covers itself, and a peer on which it has a claim that holds.
  abbrev pub Covers : ℕ → ℕ → Type 0
  Covers f x = (x ≡ f) ⊎ Claims now x (neighbors_of topology f)

  pub candidate-Covers :
      (x f : ℕ) (uncovered : List ℕ)
      → has x (candidate uncovered topology now f) ≡ true
      → Covers f x
  unfolding candidate
  candidate-Covers x f uncovered h =
      let claimed : List ℕ = live_neighbors uncovered now (neighbors_of topology f) in
      let before = sym (has-sort_ids x (if has f uncovered then f ∷ claimed else claimed)) ∙ h in
      let claims = live-Claims x uncovered now (neighbors_of topology f) in
      elim (Bool-cases (x == f)) [
        | inl same ↦ inl ((==_iff x f).0 same)
        | inr other ↦
            inr (claims (unfold has in ground (arith, other, before, Bool-cases (has f uncovered))))
      ]

  pub candidate_held :
      (x f : ℕ) (uncovered : List ℕ)
      → Covers f x
      → has x uncovered ≡ true
      → has x (candidate uncovered topology now f) ≡ true
  unfolding candidate has
  candidate_held x f uncovered (inl same) u =
      let claimed : List ℕ = live_neighbors uncovered now (neighbors_of topology f) in
      let known : has f uncovered ≡ true = ap (λ t. has t uncovered) (sym same) ∙ u in
      has-sort_ids x (if has f uncovered then f ∷ claimed else claimed)
      ∙ ground (arith, known, (==_iff x f).1 same)
  candidate_held x f uncovered (inr claims) u =
      let claimed : List ℕ = live_neighbors uncovered now (neighbors_of topology f) in
      let there = live_held x uncovered now (neighbors_of topology f) claims u in
      has-sort_ids x (if has f uncovered then f ∷ claimed else claimed)
      ∙ ground (arith, there, Bool-cases (has f uncovered))

  -- What is selected: nothing, or a forwarder with all that it covers.
  abbrev pub Chosen : List ℕ → List ℕ → ℕ × List ℕ → Type 0
  Chosen uncovered fs best =
      (best.1 ≡ []) ⊎ ((best.1 ≡ candidate uncovered topology now best.0) × (has best.0 fs ≡ true))

  pub select-Chosen :
      (uncovered all fs : List ℕ) (best : ℕ × List ℕ)
      → ((f : ℕ) → has f fs ≡ true → has f all ≡ true)
      → Chosen uncovered all best
      → Chosen uncovered all (select uncovered topology now best fs)
  unfolding select has
  select-Chosen uncovered all [] best sub v = v
  select-Chosen uncovered all (f ∷ fs) best sub v =
      let covers : List ℕ = candidate uncovered topology now f in
      let sub' = λ (g : ℕ) (h : has g fs ≡ true). sub g (ground (arith, h)) in
      elim (Bool-cases (ltb (length best.1) (length covers))) [
        | inl more ↦
            rw (more, select)
              (select-Chosen uncovered all fs (f, covers) sub'
                (inr (refl, sub f (ground (arith, ==-self f)))))
        | inr less ↦ rw (less, select) (select-Chosen uncovered all fs best sub' v)
      ]

  select_grows :
      (uncovered fs : List ℕ) (best : ℕ × List ℕ)
      → length best.1 ≤ length (select uncovered topology now best fs).1
  unfolding select
  select_grows uncovered [] best = omega arith
  select_grows uncovered (f ∷ fs) best =
      let covers : List ℕ = candidate uncovered topology now f in
      elim (Bool-cases (ltb (length best.1) (length covers))) [
        | inl more ↦
            let later = select_grows uncovered fs (f, covers) in
            rw (more, select) (ground (arith, more, later))
        | inr less ↦ rw (less, select) (select_grows uncovered fs best)
      ]

  pub select_most :
      (uncovered fs : List ℕ) (best : ℕ × List ℕ) (f : ℕ)
      → has f fs ≡ true
      → length (candidate uncovered topology now f)
        ≤ length (select uncovered topology now best fs).1
  unfolding select has
  select_most uncovered [] best f h = absurd (ground (arith, h))
  select_most uncovered (g ∷ gs) best f h =
      let covers : List ℕ = candidate uncovered topology now g in
      let best' : ℕ × List ℕ = if ltb (length best.1) (length covers) then (g, covers) else best in
      elim (Bool-cases (f == g)) [
        | inr other ↦ select_most uncovered gs best' f (ground (arith, other, h))
        | inl same ↦
            let here : f ≡ g = (==_iff f g).0 same in
            let later = select_grows uncovered gs best' in
            let size : length (candidate uncovered topology now f) ≤ length best'.1 =
              subst (λ t. length (candidate uncovered topology now t) ≤ length best'.1) (sym here)
                (elim (Bool-cases (ltb (length best.1) (length covers))) [
                  | inl more ↦ rw more (omega arith)
                  | inr less ↦ rw less (ground (arith, less))
                ]) in
            omega (arith, size, later)
      ]

  -- What a round selects.
  abbrev pub selection : List ℕ → List ℕ → ℕ × List ℕ
  selection direct uncovered = select uncovered topology now (0, []) (sort_ids direct)

  pub selection-Chosen :
      (direct uncovered : List ℕ) → Chosen uncovered (sort_ids direct) (selection direct uncovered)
  selection-Chosen direct uncovered =
      select-Chosen uncovered (sort_ids direct) (sort_ids direct) (0, []) (λ f h. h) (inl refl)

  pub selection_sub :
      (direct uncovered : List ℕ) (x : ℕ)
      → has x (selection direct uncovered).1 ≡ true
      → has x uncovered ≡ true
  selection_sub direct uncovered x h = elim (selection-Chosen direct uncovered) [
    | inl empty ↦
        absurd (omega (arith, has_nonempty x (selection direct uncovered).1 h, ap length empty))
    | inr (all, there) ↦
        candidate_sub x (selection direct uncovered).0 uncovered (sym (ap (has x) all) ∙ h)
  ]
