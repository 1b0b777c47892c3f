-- ===== src/Fanout/Tests.antt =====
-- The theorems on fanout at one topology.
use bork.Base.{ℕ, ◌≡◌, ◌↔◌, ◌=/=◌, ◌&&◌, refl, inl, inr, [], ◌∷◌, All, ok, arith}
use bork.Base.Bytes.{Bytes, IsByte}
use bork.Base.Map.{Map, lookup}
use bork.Fanout.{has}
use bork.Fanout.Assignment.{marshal_assignment, parse_assignment, parse_assignment_iff}
use bork.Fanout.Inbound.{inbound_listeners, Once, inbound_listeners_lem}
use bork.Fanout.Plan.{TopologyPeer, build_fanout_plan}
use bork.Fanout.Justified.{Reached, IsJustified}
use bork.Fanout.Covers.{build_fanout_plan-Reached}

abbrev assignment_bytes : Bytes
assignment_bytes =
    0 ∷ 0 ∷ 0 ∷ 1 ∷ 0 ∷ 0 ∷ 0 ∷ 0 ∷ 0 ∷ 0 ∷ 0 ∷ 0 ∷ 0 ∷ 0 ∷ 0 ∷ 0 ∷ 0 ∷ 0 ∷ 1 ∷ 4 ∷ []

assignment_bytes-IsByte : All IsByte assignment_bytes
assignment_bytes-IsByte = ground arith

parse_assignment_iff_example :
    (parse_assignment assignment_bytes ≡ ok (260 ∷ []))
    ↔ (marshal_assignment (260 ∷ []) ≡ ok assignment_bytes)
parse_assignment_iff_example =
    parse_assignment_iff assignment_bytes (260 ∷ []) assignment_bytes-IsByte
      ((omega arith, tt), omega arith)

-- Peer 3 is direct, and says until 50 that it sees peer 9.
abbrev claims : Map TopologyPeer
claims = (3, record { last_seen = 10; neighbors = (9, 50) ∷ [] }) ∷ []

build_fanout_plan-Reached_example :
    Reached (3 ∷ []) claims 20 (build_fanout_plan (9 ∷ 3 ∷ []) (3 ∷ []) claims 20) 9
    × IsJustified
        (9 ∷ 3 ∷ [])
        (3 ∷ [])
        claims
        20
        (build_fanout_plan (9 ∷ 3 ∷ []) (3 ∷ []) claims 20)
unfolding has lookup
build_fanout_plan-Reached_example =
    build_fanout_plan-Reached (9 ∷ 3 ∷ []) (3 ∷ []) claims 20 3 9 refl refl refl
      (inr (inl (refl, omega arith)))

inbound_listeners_lem_example :
    ((x : ℕ)
      → has x (inbound_listeners 3 [] (9 ∷ 3 ∷ 9 ∷ [])) ≡ (has x (9 ∷ 3 ∷ 9 ∷ []) && x =/= 3))
    × Once (inbound_listeners 3 [] (9 ∷ 3 ∷ 9 ∷ []))
inbound_listeners_lem_example = inbound_listeners_lem 3 (9 ∷ 3 ∷ 9 ∷ [])
