-- ===== src/Fanout/Covers.antt =====
-- The plan reaches every listener that can be reached.
use bork.Base.{
  ℕ, zero, suc, ◌≡◌, ◌≤◌, ◌<◌, ◌⊎◌, sym, ap, ◌∙◌, inl, inr, Bool, true, false, ◌==◌, ◌||◌, List, [],
  length, Bool-cases, ==_iff, arith,
}
use bork.Base.Map.{Map}
use bork.Fanout.{has, sort_ids}
use bork.Fanout.Plan.{
  TopologyPeer, OutboundFanout, no_fanout, as_set, candidate, uncover, deploy, build_rounds,
  build_fanout_plan,
}
use bork.Fanout.Sets.{has-sort_ids, has-as_set, has-uncover, length-uncover_lt, has_nonempty}
use bork.Fanout.Reach.{IsTold, Extends-IsTold, deploy-Extends, deploy-IsTold}
use bork.Fanout.Justified.{Reached, IsJustified, IsTold-Reached, build_rounds-IsJustified}
use bork.Fanout.Selection.{
  Covers, candidate_held, select_most, selection, selection-Chosen, selection_sub,
}

module _ (topology : Map TopologyPeer) (now : ℕ) where
  -- The loop does not stop while a forwarder covers an uncovered peer.
  selection_goes_on :
      (direct uncovered : List ℕ) (f x : ℕ)
      → has 0 direct ≡ false
      → has f direct ≡ true
      → Covers topology now f x
      → has x uncovered ≡ true
      → (length uncovered == 0
          || ((selection topology now direct uncovered).0 == 0
              || length (selection topology now direct uncovered).1 == 0))
        ≡ false
  selection_goes_on direct uncovered f x no_zero known covers u =
      let sel : ℕ × List ℕ = selection topology now direct uncovered in
      let held =
        has_nonempty x (candidate uncovered topology now f)
          (candidate_held topology now x f uncovered covers u) in
      let most =
        select_most topology now uncovered (sort_ids direct) (0, []) f
          (has-sort_ids f direct ∙ known) in
      let some_left = has_nonempty x uncovered u in
      let some_covered : 0 < length sel.1 = omega (arith, held, most) in
      let named : (sel.0 == 0) ≡ false = elim (Bool-cases (sel.0 == 0)) [
        | inr set ↦ set
        | inl zero_id ↦ elim (selection-Chosen topology now direct uncovered) [
          | inl empty ↦ absurd (omega (arith, some_covered, ap length empty))
          | inr (all, there) ↦
              let here : sel.0 ≡ 0 = (==_iff sel.0 0).0 zero_id in
              let in_direct : has 0 direct ≡ true =
                sym (has-sort_ids 0 direct)
                ∙ (ap (λ t. has t (sort_ids direct)) (sym here) ∙ there) in
              absurd (ground (arith, no_zero, in_direct))
        ]
      ] in
      ground (arith, some_left, some_covered, named)

  -- While the loop runs, every listener is reached or still uncovered.
  build_rounds-IsTold :
      (rounds : ℕ) (direct uncovered : List ℕ) (plan : OutboundFanout) (f x : ℕ)
      → length uncovered ≤ rounds
      → has 0 direct ≡ false
      → has f direct ≡ true
      → Covers topology now f x
      → IsTold plan x ⊎ (has x uncovered ≡ true)
      → IsTold (build_rounds rounds direct topology now uncovered plan).0 x
  unfolding build_rounds
  build_rounds-IsTold zero direct uncovered plan f x h no_zero known covers (inl r) = r
  build_rounds-IsTold zero direct uncovered plan f x h no_zero known covers (inr u) =
      absurd (omega (arith, has_nonempty x uncovered u, h))
  build_rounds-IsTold (suc rounds) direct uncovered plan f x h no_zero known covers served =
      let sel : ℕ × List ℕ = selection topology now direct uncovered in
      let stop : Bool = length uncovered == 0 || (sel.0 == 0 || length sel.1 == 0) in
      elim (Bool-cases stop) [
        | inl stops ↦ elim served [
          | inl r ↦ rw (stops, build_rounds) r
          | inr u ↦
              absurd (
                ground
                  (arith, stops, selection_goes_on direct uncovered f x no_zero known covers u))
        ]
        | inr goes ↦
            let fewer =
              length-uncover_lt uncovered sel.1 (selection_sub topology now direct uncovered)
                (ground (arith, goes)) in
            let still : IsTold (deploy plan sel.0 sel.1) x
                ⊎ (has x (uncover uncovered sel.1) ≡ true) =
              elim served [
                | inl r ↦ inl (Extends-IsTold x (deploy-Extends plan sel.0 sel.1) r)
                | inr u ↦ elim (Bool-cases (has x sel.1)) [
                  | inl now_covered ↦ inl (deploy-IsTold plan sel.0 x sel.1 now_covered)
                  | inr left ↦ inr (ground (arith, has-uncover x uncovered sel.1, u, left))
                ]
              ] in
            rw (goes, build_rounds)
              (build_rounds-IsTold rounds direct (uncover uncovered sel.1) (deploy plan sel.0 sel.1)
                f x (omega (arith, h, fewer)) no_zero known covers still)
      ]

-- Where no direct peer has the zero id, the plan reaches every listener that is a direct peer or whom a
-- direct peer claims as a neighbor until after now: it is a destination and direct, or assigned to a
-- destination that is direct and has such a claim on it. And whatever the plan says is so: every
-- destination is direct, and all that are assigned to a peer are listeners on which it has such a claim.
pub build_fanout_plan-Reached :
    (listeners direct : List ℕ) (topology : Map TopologyPeer) (now f x : ℕ)
    → has 0 direct ≡ false
    → has f direct ≡ true
    → has x listeners ≡ true
    → Covers topology now f x
    → Reached direct topology now (build_fanout_plan listeners direct topology now) x
      × IsJustified listeners direct topology now (build_fanout_plan listeners direct topology now)
unfolding build_fanout_plan
build_fanout_plan-Reached listeners direct topology now f x no_zero known listening covers =
    let uncovered : List ℕ = as_set (sort_ids listeners) in
    let same = λ (y : ℕ). has-as_set y (sort_ids listeners) ∙ has-sort_ids y listeners in
    let told =
      build_rounds-IsTold topology now (length uncovered) direct uncovered no_fanout f x
        (omega arith) no_zero known covers (inr (same x ∙ listening)) in
    let justified =
      build_rounds-IsJustified listeners direct topology now (length uncovered) uncovered no_fanout
        (λ y h. sym (same y) ∙ h) (record { destinations = tt; assignments = tt }) in
    (IsTold-Reached listeners direct topology now _ x justified told, justified)
