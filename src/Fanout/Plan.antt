-- ===== src/Fanout/Plan.antt =====
-- fanout.go: `buildFanoutPlan`. Sets and maps of the source are lists; a loop over a map runs in the
-- order of its list.
use bork.Base.{
  ℕ, zero, suc, if◌then◌else◌, ◌==◌, ◌=/=◌, ltb, ◌||◌, ◌&&◌, List, [], ◌∷◌, ◌++◌, length, keep,
  none, some,
}
use bork.Base.Map.{Map, lookup, insert, value_or}
use bork.Fanout.{has, sort_ids}

-- `topologyPeer`; `neighbors` says until when each claim holds.
pub record TopologyPeer : Type 0 where
  pub last_seen : ℕ
  pub neighbors : Map ℕ

pub record OutboundFanout : Type 0 where
  pub activate_at : ℕ
  pub destinations : List ℕ
  pub assignments : Map (List ℕ)

abbrev pub no_fanout : OutboundFanout
no_fanout = record { activate_at = 0; destinations = []; assignments = [] }

-- `uncovered` at the start: a set, so each listener once.
unfoldable pub as_set : List ℕ → List ℕ
as_set [] = []
as_set (x ∷ xs) = let rest = as_set xs in if has x rest then rest else x ∷ rest

-- The uncovered peers that are claimed as neighbors until after now.
unfoldable pub live_neighbors : List ℕ → ℕ → Map ℕ → List ℕ
live_neighbors uncovered now [] = []
live_neighbors uncovered now ((neighbor, expires_at) ∷ rest) =
    let others = live_neighbors uncovered now rest in
    if has neighbor uncovered && ltb now expires_at then neighbor ∷ others else others

abbrev pub neighbors_of : Map TopologyPeer → ℕ → Map ℕ
neighbors_of topology forwarder = value_or (λ p. p.neighbors) [] (lookup forwarder topology)

-- `candidate`: what a forwarder would cover.
unfoldable pub candidate : List ℕ → Map TopologyPeer → ℕ → ℕ → List ℕ
unfolding live_neighbors
candidate uncovered topology now forwarder =
    let claimed = live_neighbors uncovered now (neighbors_of topology forwarder) in
    sort_ids (if has forwarder uncovered then forwarder ∷ claimed else claimed)

-- The loop over the forwarders: the first that covers most.
unfoldable pub select : List ℕ → Map TopologyPeer → ℕ → ℕ × List ℕ → List ℕ → ℕ × List ℕ
unfolding candidate
select uncovered topology now best [] = best
select uncovered topology now best (f ∷ fs) =
    let covers = candidate uncovered topology now f in
    select uncovered topology now
      (if ltb (length best.1) (length covers) then (f, covers) else best) fs

-- What `assignments` says of a forwarder.
abbrev pub assigned : OutboundFanout → ℕ → List ℕ
assigned plan forwarder = value_or (λ xs. xs) [] (lookup forwarder plan.assignments)

abbrev pub assign : OutboundFanout → ℕ → ℕ → OutboundFanout
assign plan forwarder listener = record plan {
  assignments = insert forwarder (assigned plan forwarder ++ (listener ∷ [])) plan.assignments;
}

-- The loop over the coverage: on the uncovered peers, and on the plan.
unfoldable pub uncover : List ℕ → List ℕ → List ℕ
uncover uncovered [] = uncovered
uncover uncovered (x ∷ xs) = uncover (keep (λ y. y =/= x) uncovered) xs

unfoldable pub assign_all : OutboundFanout → ℕ → List ℕ → OutboundFanout
assign_all plan selected [] = plan
assign_all plan selected (x ∷ xs) =
    assign_all (if x =/= selected then assign plan selected x else plan) selected xs

-- The rest of a round, once a forwarder has been selected.
unfoldable pub deploy : OutboundFanout → ℕ → List ℕ → OutboundFanout
unfolding assign_all
deploy plan selected coverage =
    let plan' =
      assign_all (record plan { destinations = plan.destinations ++ (selected ∷ []) }) selected
        coverage in
    elim (lookup selected plan'.assignments) [
      | some _ ↦ plan'
      | none ↦ record plan' { assignments = insert selected [] plan'.assignments }
    ]

-- The loop, with `rounds` left; it also gives who is still uncovered.
unfoldable pub build_rounds :
    ℕ → List ℕ → Map TopologyPeer → ℕ → List ℕ → OutboundFanout → OutboundFanout × List ℕ
unfolding select deploy uncover
build_rounds zero direct topology now uncovered plan = (plan, uncovered)
build_rounds (suc rounds) direct topology now uncovered plan =
    let (selected, coverage) = select uncovered topology now (0, []) (sort_ids direct) in
    let rest =
      build_rounds rounds direct topology now (uncover uncovered coverage)
        (deploy plan selected coverage) in
    if length uncovered == 0 || (selected == 0 || length coverage == 0)
    then (plan, uncovered)
    else rest

-- Each round covers a listener, so as many rounds as listeners are enough.
unfoldable pub build_fanout_plan : List ℕ → List ℕ → Map TopologyPeer → ℕ → OutboundFanout
unfolding build_rounds as_set
build_fanout_plan listeners direct topology now =
    let uncovered = as_set (sort_ids listeners) in
    (build_rounds (length uncovered) direct topology now uncovered no_fanout).0
